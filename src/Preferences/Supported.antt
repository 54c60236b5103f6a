-- ===== src/Preferences/Supported.antt =====
-- voice/config.ts, `resolveVoiceLang`: the recognition language and the list of the supported ones.
use herdr_connect.Common.{
  ◌≡◌, refl, arith, In, Bool, true, false, Text, text, Option, none, some, List, [], ◌∷◌, first,
  if◌then◌else◌,
}
use herdr_connect.Preferences.{
  has, same_prefix, by_language, chosen_or_system, map_script_to_region, resolve_voice_lang,
}

has-In : (ss : List Text) (s : Text) → has ss s ≡ true → In s ss
has-In [] s e = ground arith
has-In (x ∷ ss) s e = ground (arith, has-In ss s)

first-In : (p : Text → Bool) (ss : List Text) (s : Text) → first p ss ≡ some s → In s ss
first-In p [] s e = ground arith
first-In p (x ∷ ss) s e = ground (arith, first-In p ss s)

by_language-In :
    (o : Option Text) (x : Text) (ss : List Text)
    → ((s : Text) → o ≡ some s → In s (x ∷ ss))
    → In (by_language o (x ∷ ss)) (x ∷ ss)
by_language-In (some (c ∷ s)) x ss h = h (c ∷ s) refl
by_language-In (some []) x ss h = ground (arith, has-In (x ∷ ss) (text "en-US"))
by_language-In none x ss h = ground (arith, has-In (x ∷ ss) (text "en-US"))

choice-In :
    (b c : Bool) (m r l : Text) (ss : List Text)
    → (b ≡ true → In m ss)
    → (c ≡ true → In r ss)
    → In l ss
    → In (if b then m else if c then r else l) ss
choice-In true c m r l ss hm hr hl = hm refl
choice-In false true m r l ss hm hr hl = hr refl
choice-In false false m r l ss hm hr hl = hl

-- Where the device says which languages it recognizes, and there is one, the language that is asked
-- for is among them, whatever is chosen_or_system or stored and whatever the system's language is.
pub resolve_voice_lang-In :
    (system_locale : Text) (choice : Option Text) (x : Text) (supported : List Text)
    → In (resolve_voice_lang system_locale choice (x ∷ supported)) (x ∷ supported)
unfolding resolve_voice_lang
resolve_voice_lang-In system_locale choice x supported =
    choice-In (has (x ∷ supported) mapped) (has (x ∷ supported) raw) mapped raw
      (by_language found (x ∷ supported)) (x ∷ supported) (has-In (x ∷ supported) mapped)
      (has-In (x ∷ supported) raw)
      (by_language-In found x supported
        (first-In (λ locale. same_prefix locale mapped) (x ∷ supported)))
  where
    raw : Text
    raw = chosen_or_system system_locale choice

    mapped : Text
    mapped = map_script_to_region raw

    found : Option Text
    found = first (λ locale. same_prefix locale mapped) (x ∷ supported)
