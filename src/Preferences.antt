-- ===== src/Preferences.antt =====
-- i18n/locale.ts, theme/appearance.ts and voice/config.ts: what the app makes of the owner's choices.
pub mod Supported
use herdr_connect.Common.{
  ℕ, leb, ◌+◌, ◌==◌, Text, text, ◌is◌, is_empty, Bool, true, false, not, ◌&&◌, ◌||◌, Option, none,
  some, List, [], ◌∷◌, any, first, if◌then◌else◌, Assoc, lookup,
}
use herdr_connect.Discovery.{split_on, head?}

pub data AppLanguage : Type 0 where
  system zh_hans en : AppLanguage

pub data ResolvedLocale : Type 0 where
  simplified english : ResolvedLocale

-- A stored value that is no language is the system's.
unfoldable pub parse_stored_language : Option Text → AppLanguage
parse_stored_language none = system
parse_stored_language (some s) =
    if s is text "system"
    then system
    else if s is text "zh-Hans"
    then zh_hans
    else if s is text "en"
    then en
    else system

abbrev pub has : List Text → Text → Bool
has parts s = any (λ p. p is s) parts

abbrev pub head_is : List Text → Text → Bool
head_is [] s = false
head_is (p ∷ parts) s = p is s

-- The tag, as `toLowerCase` gives it. Whether it starts with "en" does not matter.
abbrev pub locale_of_tag : Text → ResolvedLocale
unfolding split_on
locale_of_tag tag =
    let parts = split_on b'-' tag in
    if head_is parts (text "zh")
      && (has parts (text "hans")
          || has parts (text "cn")
          || has parts (text "sg")
          || has parts (text "my"))
    then simplified
    else english

unfoldable pub resolve_system_locale : (Text → Text) → Option Text → ResolvedLocale
unfolding split_on
resolve_system_locale to_lower none = english
resolve_system_locale to_lower (some []) = english
resolve_system_locale to_lower (some (c ∷ tag)) = locale_of_tag (to_lower (c ∷ tag))

unfoldable pub resolve_locale : (Text → Text) → AppLanguage → Option Text → ResolvedLocale
unfolding resolve_system_locale
resolve_locale to_lower zh_hans tag = simplified
resolve_locale to_lower en tag = english
resolve_locale to_lower system tag = resolve_system_locale to_lower tag

unfoldable pub locale_for_time : ResolvedLocale → Text
locale_for_time simplified = text "zh-CN"
locale_for_time english = text "en-US"

pub data AppearanceChoice : Type 0 where
  system light dark : AppearanceChoice

pub data ResolvedTheme : Type 0 where
  light_theme dark_theme : ResolvedTheme

unfoldable pub parse_stored_appearance : Option Text → AppearanceChoice
parse_stored_appearance none = AppearanceChoice.system
parse_stored_appearance (some s) =
    if s is text "light" then light else if s is text "dark" then dark else AppearanceChoice.system

abbrev pub theme_of_scheme : Option Text → ResolvedTheme
theme_of_scheme none = light_theme
theme_of_scheme (some s) = if s is text "dark" then dark_theme else light_theme

unfoldable pub resolve_theme : AppearanceChoice → Option Text → ResolvedTheme
resolve_theme light scheme = light_theme
resolve_theme dark scheme = dark_theme
resolve_theme AppearanceChoice.system scheme = theme_of_scheme scheme

-- voice/config.ts.
abbrev pub script_to_region : Assoc Text
script_to_region =
    (text "zh-Hans", text "zh-CN")
    ∷ (text "zh-Hant", text "zh-TW")
    ∷ (text "zh-Hans-CN", text "zh-CN")
    ∷ (text "zh-Hant-TW", text "zh-TW")
    ∷ (text "zh-Hans-HK", text "zh-HK")
    ∷ (text "zh-Hant-HK", text "zh-HK")
    ∷ (text "zh", text "zh-CN")
    ∷ (text "en", text "en-US")
    ∷ []

abbrev pub or_text : Option Text → Text → Text
or_text none s = s
or_text (some t) s = t

-- A tag is no name of a property that every object has.
unfoldable pub map_script_to_region : Text → Text
unfolding lookup
map_script_to_region lang = or_text (lookup lang script_to_region) lang

-- The choice, unless it is the system's language, which `system_locale` is.
abbrev pub chosen_or_system : Text → Option Text → Text
chosen_or_system system_locale none = system_locale
chosen_or_system system_locale (some choice) =
    if choice is text "system" || is_empty choice then system_locale else choice

-- The part before the first hyphen.
abbrev pub prefix_of : Text → Option Text
unfolding split_on
prefix_of tag = head? (split_on b'-' tag)

abbrev pub same_prefix : Text → Text → Bool
same_prefix a b = or_text (prefix_of a) [] is or_text (prefix_of b) []

-- The first locale of the same language that is not empty, or else American English or any.
abbrev pub by_language : Option Text → List Text → Text
by_language (some (c ∷ s)) supported = c ∷ s
by_language _ supported =
    if has supported (text "en-US") then text "en-US" else or_text (head? supported) (text "en-US")

unfoldable pub resolve_voice_lang : Text → Option Text → List Text → Text
unfolding map_script_to_region
resolve_voice_lang system_locale choice [] =
    map_script_to_region (chosen_or_system system_locale choice)
resolve_voice_lang system_locale choice (s ∷ supported) =
    let raw = chosen_or_system system_locale choice in
    let mapped = map_script_to_region raw in
    if has (s ∷ supported) mapped
    then mapped
    else if has (s ∷ supported) raw
    then raw
    else by_language (first (λ locale. same_prefix locale mapped) (s ∷ supported)) (s ∷ supported)
