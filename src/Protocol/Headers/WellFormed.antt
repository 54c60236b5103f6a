-- ===== src/Protocol/Headers/WellFormed.antt =====
-- packages/protocol/src/index.ts, `validateHeader`: a description of the headers that pass it. The
-- sender's public signing key is not among what it looks at: `seal` writes it and `open` checks it.
use herdr_connect.Common.{
  ℕ, ◌*◌, sym, subst, ◌+◌, ◌≤◌, ◌<◌, ◌≡◌, refl, ap, ◌∙◌, ◌↔◌, arith, Text, ◌is◌, Text-discrete,
  ℕ_discrete, is_iff, true, ltb, leb, ◌-◌, Option, some, pos,
}
use herdr_connect.Json.{Number, integer}
use herdr_connect.Protocol.{
  Header, Outcome, ok, require, or_fail, ◌>>=◌, ◌>>◌, invalid_header, ttl_exceeded,
  unsupported_version, unsupported_suite, unsupported_message_type, cipher_suite, MessageType,
}
use herdr_connect.Protocol.Headers.{
  message_type_of, max_ttl, Specifics, check_specifics, specifics_of, check_lifetime,
  validate_header, safe_integer, is_version,
}
use herdr_connect.Protocol.Steps.{bind-ok, require-ok}
use herdr_connect.Protocol.Headers.Fields.{
  name_of, seconds_of, max_ttl-seconds_of, IsNatural, Fits, Reads, safe_integer-some,
  IsNatural-safe_integer, message_type_of-name, message_type_of-some, check_specifics-Fits,
  Fits-check_specifics, specifics_of-Reads, Reads-specifics_of,
}

-- Two times that a message of a type may be alive between.
pub record Lives (x y : Number) (ttl : ℕ) : Type 0 where
  pub created : ℕ
  pub expires : ℕ
  pub created_at : IsNatural x created
  pub expires_at : IsNatural y expires
  pub positive : created < expires
  pub short : expires ≤ created + ttl

lifetime-chain :
    (x y : Number) (a b : Option ℕ) (ttl : ℕ)
    → (safe_integer x ≡ a)
    → (safe_integer y ≡ b)
    → (or_fail invalid_header a >>= λ c. or_fail invalid_header b >>= λ e.
        require (ltb c e) invalid_header >> require (leb (e - c) ttl) ttl_exceeded)
      ≡ ok tt
    → Lives x y ttl
lifetime-chain x y (some c) (some e) ttl hx hy h = record {
  created = c;
  expires = e;
  created_at = safe_integer-some x c hx;
  expires_at = safe_integer-some y e hy;
  positive = ground arith;
  short = ground arith;
}
lifetime-chain x y _ _ ttl hx hy h = ground arith

check_lifetime-Lives : (x y : Number) (ttl : ℕ) → check_lifetime x y ttl ≡ ok tt → Lives x y ttl
unfolding check_lifetime
check_lifetime-Lives x y ttl h =
    lifetime-chain x y (safe_integer x) (safe_integer y) ttl refl refl h

Lives-check_lifetime : (x y : Number) (ttl : ℕ) → Lives x y ttl → check_lifetime x y ttl ≡ ok tt
unfolding check_lifetime
Lives-check_lifetime x y ttl l =
    rw
      (
        IsNatural-safe_integer x l.created l.created_at,
        IsNatural-safe_integer y l.expires l.expires_at,
      )
      ground (arith, l.positive, l.short)

-- Version 1, the cipher suite, a type by its name, and for that type the fields and the lifetime.
-- Nothing is said of the sender's public signing key.
pub record WellFormed (h : Header) : Type 0 where
  pub type : MessageType
  pub specifics : Specifics
  pub version : h.version ≡ some (integer (pos 1))
  pub suite : h.suite ≡ some cipher_suite
  pub message_type : h.message_type ≡ name_of type
  pub reads : Reads h specifics
  pub fits : Fits type specifics
  pub lives : Lives h.created_at h.expires_at (1_000 * seconds_of type)

is_version-eq : (x : Number) → is_version x ≡ true → x ≡ integer (pos 1)
is_version-eq x e = ground arith

header-chain :
    (h : Header) (v : Option Number) (u : Option Text) (m : Option MessageType)
    (r : Outcome Specifics)
    → h.version ≡ v
    → h.suite ≡ u
    → message_type_of h.message_type ≡ m
    → specifics_of h ≡ r
    → (or_fail invalid_header v >>= λ version. or_fail invalid_header u >>= λ suite.
        require (is_version version) unsupported_version
        >> (require (suite is cipher_suite) unsupported_suite
            >> (or_fail unsupported_message_type m >>= λ type. r >>= λ specifics.
                check_specifics type specifics
                >> check_lifetime h.created_at h.expires_at (max_ttl type))))
      ≡ ok tt
    → WellFormed h
header-chain h (some v) (some u) (some t) (ok s) ev eu et es e =
    let (e₁, e₂) =
      require-ok (is_version v) unsupported_version
        (require (u is cipher_suite) unsupported_suite
          >> (check_specifics t s >> check_lifetime h.created_at h.expires_at (max_ttl t)))
        tt e in
    let (e₃, e₄) =
      require-ok (u is cipher_suite) unsupported_suite
        (check_specifics t s >> check_lifetime h.created_at h.expires_at (max_ttl t)) tt e₂ in
    let (_, e₅, e₆) =
      bind-ok (check_specifics t s) (λ _. check_lifetime h.created_at h.expires_at (max_ttl t)) tt
        e₄ in
    record {
      type = t;
      specifics = s;
      version = ev ∙ ap some (is_version-eq v e₁);
      suite = eu ∙ ap some ((is_iff u cipher_suite).0 e₃);
      message_type = message_type_of-some h.message_type t et;
      reads = specifics_of-Reads h s es;
      fits = check_specifics-Fits t s e₅;
      lives =
          subst (Lives h.created_at h.expires_at) (max_ttl-seconds_of t)
            (check_lifetime-Lives h.created_at h.expires_at (max_ttl t) e₆);
    }
header-chain h _ _ _ _ ev eu et es e = ground arith

-- A header passes the check exactly if it is well formed: version 1 and the cipher suite, a known
-- type, six identifiers of 1 to 128 allowed characters, safe integers, of the event, command,
-- request and acknowledgement fields those of its type and no other, and a lifetime that is positive
-- and at most 30 seconds, 5 minutes or a day by the type. The sender's public signing key may be any.
pub validate_header-WellFormed : (h : Header) → (validate_header h ≡ ok tt) ↔ WellFormed h
unfolding validate_header Text-discrete ℕ_discrete
validate_header-WellFormed h = (
  header-chain h h.version h.suite (message_type_of h.message_type) (specifics_of h) refl refl refl
      refl,
  λ w.
      rw
        (
          w.version,
          w.suite,
          w.message_type,
          message_type_of-name w.type,
          Reads-specifics_of h w.type w.specifics w.fits w.reads,
          Fits-check_specifics w.type w.specifics w.fits,
        )
        (Lives-check_lifetime h.created_at h.expires_at (max_ttl w.type)
          (subst (Lives h.created_at h.expires_at) (sym (max_ttl-seconds_of w.type)) w.lives)),
)
