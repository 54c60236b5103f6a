-- ===== src/Alias.antt =====
-- instance-alias.ts: the names that the user sees for the paired installations.
pub mod Named
use herdr_connect.Common.{
  ℕ, zero, suc, ◌-◌, ◌+◌, leb, ltb, ◌==◌, Text, text, ◌is◌, is_empty, Bool, true, false, not, ◌&&◌,
  ◌||◌, Option, none, some, List, [], ◌∷◌, ◌++◌, first, length, if◌then◌else◌,
}

-- White space and line terminators.
abbrev pub is_space : ℕ → Bool
is_space c =
    (leb 9 c && leb c 13)
    || c == 32
    || c == 160
    || c == 5_760
    || (leb 8_192 c && leb c 8_202)
    || c == 8_232
    || c == 8_233
    || c == 8_239
    || c == 8_287
    || c == 12_288
    || c == 65_279

abbrev pub trim_start : Text → Text
trim_start [] = []
trim_start (c ∷ s) = if is_space c then trim_start s else c ∷ s

-- A code unit before what is left of the rest, which is dropped if nothing but space follows.
abbrev pub keep_before : ℕ → Text → Text
keep_before c [] = if is_space c then [] else c ∷ []
keep_before c (d ∷ s) = c ∷ d ∷ s

abbrev pub trim_end : Text → Text
trim_end [] = []
trim_end (c ∷ s) = keep_before c (trim_end s)

unfoldable pub trim : Text → Text
trim s = trim_end (trim_start s)

abbrev pub lower : ℕ → ℕ
lower c = if leb 65 c && leb c 90 then c + 32 else c

abbrev pub lower_case : Text → Text
lower_case [] = []
lower_case (c ∷ s) = lower c ∷ lower_case s

-- `replace(/\.local\.?$/i, "")`
unfoldable pub without_local : Text → Text
without_local [] = []
without_local (c ∷ s) =
    let rest = without_local s in
    if lower_case (c ∷ s) is text ".local" || lower_case (c ∷ s) is text ".local."
    then []
    else c ∷ rest

abbrev pub or_when_empty : Text → Text → Text
or_when_empty [] otherwise = otherwise
or_when_empty (c ∷ s) otherwise = c ∷ s

unfoldable pub strip_local_suffix : Text → Text
unfolding trim without_local
strip_local_suffix host_name = or_when_empty (without_local (trim host_name)) (trim host_name)

-- `slice(0, n)`
abbrev pub slice_start : ℕ → Text → Text
slice_start zero s = []
slice_start (suc n) [] = []
slice_start (suc n) (c ∷ s) = c ∷ slice_start n s

abbrev pub drop : ℕ → Text → Text
drop zero s = s
drop (suc n) [] = []
drop (suc n) (c ∷ s) = drop n s

-- `slice(-n)`
abbrev pub slice_end : ℕ → Text → Text
slice_end n s = drop (length s - n) s

abbrev pub or_blank : Option Text → Text
or_blank none = []
or_blank (some s) = s

-- A missing name and `null` are the same here.
unfoldable pub normalize_instance_alias : Option Text → Option Text
unfolding trim
normalize_instance_alias raw =
    if is_empty (trim (or_blank raw)) then none else some (slice_start 64 (trim (or_blank raw)))

unfoldable pub fallback_instance_label : Text → Text
fallback_instance_label fingerprint = 8_230 ∷ slice_end 8 fingerprint

unfoldable pub display_instance_label : Option Text → Text → Text
unfolding fallback_instance_label
display_instance_label none fingerprint = fallback_instance_label fingerprint
display_instance_label (some alias) fingerprint = alias

pub record DefaultAliasHints : Type 0 where
  pub service_name : Option Text
  pub host_name : Option Text
  pub qr_hosts : Option (List Text)
  pub fingerprint : Text

abbrev pub or_no_hosts : Option (List Text) → List Text
or_no_hosts none = []
or_no_hosts (some hosts) = hosts

-- The host of the QR code, or what is left of the fingerprint.
abbrev pub host_or_fallback : Option Text → Text → Text
host_or_fallback none fingerprint = fallback_instance_label fingerprint
host_or_fallback (some host) fingerprint = trim host

abbrev pub is_named : Text → Bool
is_named host = not (is_empty (trim host))

abbrev pub name_from_host : Option Text → Option (List Text) → Text → Text
name_from_host (some host) qr_hosts fingerprint = strip_local_suffix host
name_from_host none qr_hosts fingerprint =
    host_or_fallback (first is_named (or_no_hosts qr_hosts)) fingerprint

abbrev pub name_from_service : Option Text → DefaultAliasHints → Text
name_from_service (some name) h = name
name_from_service none h =
    name_from_host (normalize_instance_alias h.host_name) h.qr_hosts h.fingerprint

unfoldable pub default_instance_alias : DefaultAliasHints → Text
unfolding normalize_instance_alias strip_local_suffix trim fallback_instance_label
default_instance_alias h = name_from_service (normalize_instance_alias h.service_name) h
