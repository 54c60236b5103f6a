-- ===== src/Alias/Named.antt =====
-- instance-alias.ts: the default name of an installation.
use herdr_connect.Common.{
  ℕ, suc, ◌≡◌, refl, sym, ap, subst, ◌⊎◌, inl, inr, arith, Text, is_empty, Bool, true, false,
  Option, none, some, List, [], ◌∷◌, first, if◌then◌else◌,
}
use herdr_connect.Alias.{
  is_space, trim_start, keep_before, trim_end, trim, without_local, or_when_empty,
  strip_local_suffix, slice_start, or_blank, normalize_instance_alias, fallback_instance_label,
  DefaultAliasHints, or_no_hosts, host_or_fallback, is_named, name_from_host, name_from_service,
  default_instance_alias,
}

-- A text that starts with something to see.
abbrev IsSeen : Text → Type 0
IsSeen [] = ⊥
IsSeen (c ∷ s) = is_space c ≡ false

keep_before-IsSeen : (c : ℕ) (s : Text) → is_space c ≡ false → IsSeen (keep_before c s)
keep_before-IsSeen c [] h = rw (h) h
keep_before-IsSeen c (d ∷ s) h = h

trim_end-IsSeen : (s : Text) → IsSeen s → IsSeen (trim_end s)
trim_end-IsSeen [] h = elim h [ ]
trim_end-IsSeen (c ∷ s) h = keep_before-IsSeen c (trim_end s) h

trim_start-same : (s : Text) → IsSeen s → trim_start s ≡ s
trim_start-same [] h = elim h [ ]
trim_start-same (c ∷ s) h = rw (h)

trim_start-cases : (s : Text) → (trim_start s ≡ []) ⊎ IsSeen (trim_start s)
trim_start-cases [] = inl refl
trim_start-cases (c ∷ s) = go (is_space c) refl (trim_start-cases s)
  where
    go :
        (b : Bool)
        → is_space c ≡ b
        → (trim_start s ≡ []) ⊎ IsSeen (trim_start s)
        → ((if b then trim_start s else c ∷ s) ≡ []) ⊎ IsSeen (if b then trim_start s else c ∷ s)
    go true e r = r
    go false e r = inr e

trim-cases : (s : Text) → (trim s ≡ []) ⊎ IsSeen (trim s)
unfolding trim
trim-cases s = elim (trim_start-cases s) [
  | inl e ↦ inl (ap trim_end e)
  | inr h ↦ inr (trim_end-IsSeen (trim_start s) h)
]

trim-IsSeen : (s : Text) → IsSeen s → IsSeen (trim s)
unfolding trim
trim-IsSeen s h = trim_end-IsSeen (trim_start s) (subst IsSeen (sym (trim_start-same s h)) h)

trimmed-IsSeen : (s : Text) → is_empty (trim s) ≡ false → IsSeen (trim s)
trimmed-IsSeen s e = elim (trim-cases s) [ inl q ↦ absurd (blank (ap is_empty q)) | inr h ↦ h ]
  where
    blank : is_empty (trim s) ≡ true → ⊥
    blank q = ground arith

slice_start-IsSeen : (n : ℕ) (s : Text) → IsSeen s → IsSeen (slice_start (suc n) s)
slice_start-IsSeen n [] h = elim h [ ]
slice_start-IsSeen n (c ∷ s) h = h

normalize-IsSeen :
    (raw : Option Text) (name : Text) → normalize_instance_alias raw ≡ some name → IsSeen name
unfolding normalize_instance_alias
normalize-IsSeen raw name e = go (is_empty (trim (or_blank raw))) refl e
  where
    some-eq :
        some (slice_start 64 (trim (or_blank raw))) ≡ some name
        → slice_start 64 (trim (or_blank raw)) ≡ name
    some-eq q = ground arith

    go :
        (b : Bool)
        → is_empty (trim (or_blank raw)) ≡ b
        → (if b then none else some (slice_start 64 (trim (or_blank raw)))) ≡ some name
        → IsSeen name
    go true q e = ground arith
    go false q e =
        subst IsSeen (some-eq e)
          (slice_start-IsSeen 63 (trim (or_blank raw)) (trimmed-IsSeen (or_blank raw) q))

seen_not_empty : (s : Text) → IsSeen s → ¬ (s ≡ [])
seen_not_empty [] h = λ _. h
seen_not_empty (c ∷ s) h = λ e. ground arith

or_when_empty-not_empty : (s t : Text) → IsSeen t → ¬ (or_when_empty s t ≡ [])
or_when_empty-not_empty [] t h = seen_not_empty t h
or_when_empty-not_empty (c ∷ s) t h = λ e. ground arith

strip-not_empty : (s : Text) → IsSeen s → ¬ (strip_local_suffix s ≡ [])
unfolding strip_local_suffix
strip-not_empty s h = or_when_empty-not_empty (without_local (trim s)) (trim s) (trim-IsSeen s h)

first-named :
    (hosts : List Text) (host : Text) → first is_named hosts ≡ some host → is_named host ≡ true
first-named [] host e = ground arith
first-named (x ∷ hosts) host e = ground (arith, first-named hosts host)

host-not_empty :
    (o : Option Text) (fingerprint : Text)
    → ((host : Text) → o ≡ some host → is_named host ≡ true)
    → ¬ (host_or_fallback o fingerprint ≡ [])
unfolding fallback_instance_label
host-not_empty none fingerprint h = λ e. ground arith
host-not_empty (some host) fingerprint h =
    seen_not_empty (trim host) (trimmed-IsSeen host (not_named (h host refl)))
  where
    not_named : is_named host ≡ true → is_empty (trim host) ≡ false
    not_named q = ground arith

from_host-not_empty :
    (o : Option Text) (hosts : Option (List Text)) (fingerprint : Text)
    → ((name : Text) → o ≡ some name → IsSeen name)
    → ¬ (name_from_host o hosts fingerprint ≡ [])
from_host-not_empty (some name) hosts fingerprint h = strip-not_empty name (h name refl)
from_host-not_empty none hosts fingerprint h =
    host-not_empty (first is_named (or_no_hosts hosts)) fingerprint
      (first-named (or_no_hosts hosts))

from_service-not_empty :
    (o : Option Text) (h : DefaultAliasHints)
    → ((name : Text) → o ≡ some name → IsSeen name)
    → ¬ (name_from_service o h ≡ [])
from_service-not_empty (some name) h k = seen_not_empty name (k name refl)
from_service-not_empty none h k =
    from_host-not_empty (normalize_instance_alias h.host_name) h.qr_hosts h.fingerprint
      (normalize-IsSeen h.host_name)

-- The default name is never empty, whatever is known of the installation, an empty fingerprint and
-- names of white space or of the suffix alone included.
pub default_instance_alias-not_empty : (h : DefaultAliasHints) → ¬ (default_instance_alias h ≡ [])
unfolding default_instance_alias
default_instance_alias-not_empty h =
    from_service-not_empty (normalize_instance_alias h.service_name) h
      (normalize-IsSeen h.service_name)
