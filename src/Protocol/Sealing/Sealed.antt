-- ===== src/Protocol/Sealing/Sealed.antt =====
-- packages/protocol/src/index.ts, `seal`: its steps, and the header on the wire.
use herdr_connect.Common.{
  leb_iff, ==_iff, ℕ, ◌≤◌, leb, ◌==◌, ◌≡◌, refl, sym, ap, subst, ◌∙◌, arith, Text, Text-discrete,
  ℕ_discrete, Bool, true, false, Option, some, [], ◌∷◌, length, if◌then◌else◌, pos,
}
use herdr_connect.Json.{num, Number, integer, obj, get}
use herdr_connect.Protocol.{
  Bytes, Header, Envelope, SenderContext, Outside, ok, ◌>>◌, require, max_plaintext_size,
  max_protected_header_size, message_too_large, invalid_key, invalid_header,
}
use herdr_connect.Protocol.Headers.{validate_header}
use herdr_connect.Protocol.Headers.Fields.{IsNatural, IsNatural-safe_integer}
use herdr_connect.Protocol.Headers.WellFormed.{WellFormed}
use herdr_connect.Protocol.Steps.{bind-ok, or_foreign-ok, require-ok, ok-eq}
use herdr_connect.Protocol.Wire.{
  ProtectedHeader, or_else, header_to_protected, protected_fields, parse_protected_header,
  protected_to_header, new_date, as_safe_integer,
}
use herdr_connect.Protocol.Sealing.{
  SealRequest, hpke_info, with_defaults, is_pairing_request, with_signing_key,
  ephemeral_key_material, stringify_header, envelope_of, seal,
}

-- The numbers of a protected header are safe integers.
pub record AreSafe (p : ProtectedHeader) : Type 0 where
  pub v : as_safe_integer (some (num p.v)) ≡ some p.v
  pub event_seq : as_safe_integer (some (num p.event_seq)) ≡ some p.event_seq
  pub through_event_seq :
      as_safe_integer (some (num p.through_event_seq)) ≡ some p.through_event_seq
  pub ack_seq : as_safe_integer (some (num p.ack_seq)) ≡ some p.ack_seq
  pub created_at_ms : as_safe_integer (some (num p.created_at_ms)) ≡ some p.created_at_ms
  pub expires_at_ms : as_safe_integer (some (num p.expires_at_ms)) ≡ some p.expires_at_ms

pub parse_protected_header-fields :
    (p : ProtectedHeader) → AreSafe p → parse_protected_header (obj (protected_fields p)) ≡ some p
unfolding parse_protected_header get Text-discrete ℕ_discrete
parse_protected_header-fields p s =
    rw (s.v, s.event_seq, s.through_event_seq, s.ack_seq, s.created_at_ms, s.expires_at_ms)

-- The header that goes onto the wire: with the defaults, and the signing key for a pairing request.
pub record Addressed (outside : Outside) (seed : Bytes) (from h : Header) : Type 0 where
  -- All fields but the signing key.
  pub unchanged : record h { sender_signing_public_key = from.sender_signing_public_key } ≡ from
  pub same_check : validate_header h ≡ validate_header from
  pub version : h.version ≡ from.version
  pub suite : h.suite ≡ from.suite
  pub message_type : h.message_type ≡ from.message_type
  pub installation_id : h.installation_id ≡ from.installation_id
  pub sender_id : h.sender_id ≡ from.sender_id
  pub recipient_id : h.recipient_id ≡ from.recipient_id
  pub message_id : h.message_id ≡ from.message_id
  pub created_at : h.created_at ≡ from.created_at
  pub expires_at : h.expires_at ≡ from.expires_at
  pub embedded :
      is_pairing_request h ≡ true
      → h.sender_signing_public_key ≡ some (outside.signing_public_key seed)
  pub bare : is_pairing_request h ≡ false → or_else h.sender_signing_public_key [] ≡ []

length-zero : (s : Bytes) → (length s == 0) ≡ true → s ≡ []
length-zero [] e = refl
length-zero (x ∷ s) e = ground arith

with_signing_key-Addressed :
    (outside : Outside) (seed : Bytes) (from h : Header)
    → with_signing_key outside seed from ≡ ok h
    → Addressed outside seed from h
unfolding with_signing_key validate_header
with_signing_key-Addressed outside seed from h e = go (is_pairing_request from) refl e
  where
    go :
        (b : Bool)
        → is_pairing_request from ≡ b
        → (if b
            then ok
                (record from { sender_signing_public_key = some (outside.signing_public_key seed) })
            else require (length (or_else from.sender_signing_public_key []) == 0) invalid_header
              >> ok from)
          ≡ ok h
        → Addressed outside seed from h
    go true q e = subst (Addressed outside seed from) (ok-eq _ h e) (record {
      unchanged = refl;
      same_check = refl;
      version = refl;
      suite = refl;
      message_type = refl;
      installation_id = refl;
      sender_id = refl;
      recipient_id = refl;
      message_id = refl;
      created_at = refl;
      expires_at = refl;
      embedded = λ _. refl;
      bare = λ n. ground arith;
    })
    go false q e =
        let (none_there, e₁) =
          require-ok (length (or_else from.sender_signing_public_key []) == 0) invalid_header _ h
            e in
        subst (Addressed outside seed from) (ok-eq _ h e₁) (record {
          unchanged = refl;
          same_check = refl;
          version = refl;
          suite = refl;
          message_type = refl;
          installation_id = refl;
          sender_id = refl;
          recipient_id = refl;
          message_id = refl;
          created_at = refl;
          expires_at = refl;
          embedded = λ n. ground arith;
          bare = λ _. length-zero (or_else from.sender_signing_public_key []) none_there;
        })

-- What `seal` has made an envelope of.
pub record Sealed (outside : Outside) (s : SealRequest) (env : Envelope) : Type 0 where
  pub header : Header
  pub ekm : Option Bytes
  pub sender : SenderContext
  pub ciphertext : Bytes
  pub valid : validate_header (with_defaults s.header) ≡ ok tt
  pub plaintext_small : length s.plaintext ≤ max_plaintext_size
  pub seed_length : length s.sender_signing_private_key ≡ 32
  pub addressed : Addressed outside s.sender_signing_private_key (with_defaults s.header) header
  pub created : outside.create_sender s.recipient_encryption_public_key hpke_info ekm ≡ some sender
  pub header_small :
      length (outside.encode_text (stringify_header outside header sender.enc))
      ≤ max_protected_header_size
  pub encrypted :
      sender.encrypt s.plaintext (outside.encode_text (stringify_header outside header sender.enc))
      ≡ some ciphertext
  pub made :
      envelope_of outside s.sender_signing_private_key
        (outside.encode_text (stringify_header outside header sender.enc))
        ciphertext
      ≡ env

pub seal-Sealed :
    (outside : Outside) (s : SealRequest) (env : Envelope)
    → seal outside s ≡ ok env
    → Sealed outside s env
unfolding seal
seal-Sealed outside s env e =
    let (_, ev, e₁) = bind-ok (validate_header (with_defaults s.header)) _ env e in
    let (small, e₂) =
      require-ok (leb (length s.plaintext) max_plaintext_size) message_too_large _ env e₁ in
    let (len, e₃) = require-ok (length s.sender_signing_private_key == 32) invalid_key _ env e₂ in
    let (h, eh, e₄) =
      bind-ok (with_signing_key outside s.sender_signing_private_key (with_defaults s.header)) _ env
        e₃ in
    let (_, e₅) =
      require-ok (outside.accepts_public_key s.recipient_encryption_public_key) invalid_key _ env
        e₄ in
    let (ekm, ek, e₆) = bind-ok (ephemeral_key_material outside s.random_source) _ env e₅ in
    let (sender, es, e₇) =
      or_foreign-ok (outside.create_sender s.recipient_encryption_public_key hpke_info ekm) _ env
        e₆ in
    let (short, e₈) =
      require-ok
        (leb (length (outside.encode_text (stringify_header outside h sender.enc)))
          max_protected_header_size)
        message_too_large _ env e₇ in
    let (c, ec, e₉) =
      or_foreign-ok
        (sender.encrypt s.plaintext (outside.encode_text (stringify_header outside h sender.enc))) _
        env e₈ in
    record {
      header = h;
      ekm = ekm;
      sender = sender;
      ciphertext = c;
      valid = ev;
      plaintext_small = (leb_iff _ _).0 small;
      seed_length = (==_iff _ 32).0 len;
      addressed =
          with_signing_key-Addressed outside s.sender_signing_private_key (with_defaults s.header) h
            eh;
      created = es;
      header_small = (leb_iff _ _).0 short;
      encrypted = ec;
      made = ok-eq _ env e₉;
    }

-- The header that a receiver decodes: the key is there, and is empty for all but pairing requests.
abbrev pub delivered : Header → Header
delivered h = record h { sender_signing_public_key = some (or_else h.sender_signing_public_key []) }

-- A time that a date can have.
abbrev pub IsDate : Number → Type 0
IsDate t = new_date t ≡ t

IsNatural-as_safe_integer :
    (x : Number) (n : ℕ) → IsNatural x n → as_safe_integer (some (num x)) ≡ some x
IsNatural-as_safe_integer x n i = rw (IsNatural-safe_integer x n i)

module _ (outside : Outside) (h : Header) (enc : Text) where
  pub AreSafe-header_to_protected : WellFormed h → AreSafe (header_to_protected outside h enc)
  unfolding header_to_protected
  AreSafe-header_to_protected w = record {
    v =
        ap (λ o. as_safe_integer (some (num (or_else o (integer (pos 1)))))) w.version
        ∙ ap (λ o. some (or_else o (integer (pos 1)))) (sym w.version);
    event_seq = IsNatural-as_safe_integer h.event_seq w.specifics.event_seq w.reads.event_seq;
    through_event_seq =
        IsNatural-as_safe_integer h.through_event_seq w.specifics.through_event_seq
          w.reads.through_event_seq;
    ack_seq = IsNatural-as_safe_integer h.ack_seq w.specifics.ack_seq w.reads.ack_seq;
    created_at_ms = IsNatural-as_safe_integer h.created_at w.lives.created w.lives.created_at;
    expires_at_ms = IsNatural-as_safe_integer h.expires_at w.lives.expires w.lives.expires_at;
  }

  pub protected_to_header-header_to_protected :
      WellFormed h
      → ((b : Bytes) → outside.decode_base64 (outside.encode_base64 b) ≡ some b)
      → IsDate h.created_at
      → IsDate h.expires_at
      → protected_to_header outside (header_to_protected outside h enc) ≡ ok (delivered h)
  unfolding protected_to_header header_to_protected
  protected_to_header-header_to_protected w base64 c e =
      rw (base64 (or_else h.sender_signing_public_key []), c, e, w.version, w.suite)
