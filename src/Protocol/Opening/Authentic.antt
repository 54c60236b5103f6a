-- ===== src/Protocol/Opening/Authentic.antt =====
-- packages/protocol/src/index.ts, `open`: the checks before the guards.
use herdr_connect.Common.{
  ◌+◌, ◌≤◌, leb, ◌≡◌, refl, subst, arith, Text, ◌is◌, is_iff, true, false, not, Option, some,
  length,
}
use herdr_connect.Json.{Number, Json}
use herdr_connect.Protocol.{
  Bytes, Header, Outside, Outcome, ok, ◌>>=◌, ◌>>◌, require, or_fail, max_plaintext_size,
  max_protected_header_size, invalid_envelope, invalid_key, created_in_future, message_too_large,
  authentication_failed, wrong_route,
}
use herdr_connect.Protocol.Bytes.{signature_input}
use herdr_connect.Protocol.Headers.{validate_header}
use herdr_connect.Protocol.Headers.WellFormed.{WellFormed, validate_header-WellFormed}
use herdr_connect.Protocol.Steps.{ok-eq, bind-ok, or_fail-ok, require-ok}
use herdr_connect.Protocol.Wire.{protected_to_header, parse_protected_header}
use herdr_connect.Protocol.Sealing.{hpke_info, is_pairing_request}
use herdr_connect.Protocol.Opening.{
  OpenRequest, Received, receive, signing_key, is_signed, is_too_early, is_past, is_on_route,
  authenticate, check_time, decrypt, decipher,
}

-- A key that a message may be verified with: the one embedded in a pairing request, which must be the
-- caller's if the caller gives one, and else the caller's.
pub record IsKeyOf (given : Option Bytes) (h : Header) (key : Bytes) : Type 0 where
  pub requested : is_pairing_request h ≡ true → h.sender_signing_public_key ≡ some key
  pub own : is_pairing_request h ≡ false → given ≡ some key

-- A ciphertext that is signed together with the header.
pub record Signed {G : Type 0} (outside : Outside) (r : OpenRequest G) (received : Received)
    (ciphertext : Bytes) : Type 0 where
  pub key : Bytes
  pub signature : Bytes
  pub sent : outside.decode_base64 r.envelope.ciphertext ≡ some ciphertext
  pub small : length ciphertext ≤ max_plaintext_size + 16
  pub signature_sent : outside.decode_base64 r.envelope.signature ≡ some signature
  pub key_of : IsKeyOf r.sender_signing_public_key received.header key
  pub key_length : length key ≡ 32
  pub signature_length : length signature ≡ 64
  pub verified :
      outside.verify signature (signature_input received.bytes ciphertext) key ≡ some true

signing_key-IsKeyOf :
    (given : Option Bytes) (h : Header) (key : Bytes)
    → signing_key given h ≡ ok (some key)
    → IsKeyOf given h key
unfolding signing_key
signing_key-IsKeyOf given h key e = record {
  requested = λ p. ground arith;
  own = λ p. ground arith;
}

verified-true :
    (outside : Outside) (key signature message : Bytes)
    → is_signed outside (some key) signature message ≡ true
    → (length key ≡ 32)
      × (length signature ≡ 64)
      × (outside.verify signature message key ≡ some true)
verified-true outside key signature message e = ground arith

steps-Signed :
    {G : Type 0} (outside : Outside) (r : OpenRequest G) (received : Received) (c : Bytes)
    (co so : Option Bytes) (ko : Outcome (Option Bytes))
    → outside.decode_base64 r.envelope.ciphertext ≡ co
    → outside.decode_base64 r.envelope.signature ≡ so
    → signing_key r.sender_signing_public_key received.header ≡ ko
    → (or_fail invalid_envelope co >>= λ ciphertext.
        require (leb (length ciphertext) (max_plaintext_size + 16)) message_too_large
        >> (or_fail invalid_envelope so >>= λ signature. ko >>= λ key.
            require
              (is_signed outside key signature (signature_input received.bytes ciphertext))
              authentication_failed
            >> ok ciphertext))
      ≡ ok c
    → Signed outside r received c
steps-Signed outside r received c (some x) (some s) (ok (some key)) ec es ek e =
    let (small, e₁) =
      require-ok (leb (length x) (max_plaintext_size + 16)) message_too_large
        (require (is_signed outside (some key) s (signature_input received.bytes x))
            authentication_failed
          >> ok x)
        c e in
    let (v, e₂) =
      require-ok (is_signed outside (some key) s (signature_input received.bytes x))
        authentication_failed (ok x) c e₁ in
    let (k, l, t) = verified-true outside key s (signature_input received.bytes x) v in
    subst (Signed outside r received) (ok-eq x c e₂) (record {
      key = key;
      signature = s;
      sent = ec;
      small = ground arith;
      signature_sent = es;
      key_of = signing_key-IsKeyOf r.sender_signing_public_key received.header key ek;
      key_length = k;
      signature_length = l;
      verified = t;
    })
steps-Signed outside r received c _ _ _ ec es ek e = ground arith

authenticate-Signed :
    {G : Type 0} (outside : Outside) (r : OpenRequest G) (received : Received) (c : Bytes)
    → authenticate outside r received ≡ ok c
    → Signed outside r received c
unfolding authenticate
authenticate-Signed outside r received c e =
    steps-Signed outside r received c (outside.decode_base64 r.envelope.ciphertext)
      (outside.decode_base64 r.envelope.signature)
      (signing_key r.sender_signing_public_key received.header) refl refl refl e

-- The bytes of a header that is canonical JSON.
pub record Decoded (outside : Outside) (encoded : Text) (x : Received) : Type 0 where
  pub spelling : Text
  pub value : Json
  pub sent : outside.decode_base64 encoded ≡ some x.bytes
  pub small : length x.bytes ≤ max_protected_header_size
  pub text_of : outside.decode_text x.bytes ≡ some spelling
  pub parsed : outside.json.parse spelling ≡ some value
  pub canonical : outside.json.stringify value ≡ spelling
  pub protected : parse_protected_header value ≡ some x.protected
  pub header : protected_to_header outside x.protected ≡ ok x.header

receive-Decoded :
    (outside : Outside) (encoded : Text) (x : Received)
    → receive outside encoded ≡ ok x
    → Decoded outside encoded x
unfolding receive
receive-Decoded outside encoded x e =
    let (bytes, ebytes, e₁) = or_fail-ok invalid_envelope (outside.decode_base64 encoded) _ x e in
    let (small, e₂) =
      require-ok (leb (length bytes) max_protected_header_size) message_too_large _ x e₁ in
    let (s, es, e₃) = or_fail-ok invalid_envelope (outside.decode_text bytes) _ x e₂ in
    let (value, ev, e₄) = or_fail-ok invalid_envelope (outside.json.parse s) _ x e₃ in
    let (p, ep, e₅) = or_fail-ok invalid_envelope (parse_protected_header value) _ x e₄ in
    let (same, e₆) = require-ok (outside.json.stringify value is s) invalid_envelope _ x e₅ in
    let (h, eh, e₇) = bind-ok (protected_to_header outside p) _ x e₆ in
    subst (Decoded outside encoded)
      (ok-eq (record { bytes = bytes; protected = p; header = h }) x e₇)
      (record {
        spelling = s;
        value = value;
        sent = ebytes;
        small = ground arith;
        text_of = es;
        parsed = ev;
        canonical = (is_iff (outside.json.stringify value) s).0 same;
        protected = ep;
        header = eh;
      })

-- What holds of a header and a plaintext that were read from an envelope.
pub record Authentic {G : Type 0} (outside : Outside) (r : OpenRequest G) (h : Header)
    (plaintext : Bytes) : Type 0 where
  pub received : Received
  pub ciphertext : Bytes
  pub enc : Bytes
  pub header : received.header ≡ h
  pub decoded : Decoded outside r.envelope.protected received
  pub well_formed : WellFormed received.header
  pub installation : received.header.installation_id ≡ r.expected_installation_id
  pub sender : received.header.sender_id ≡ r.expected_sender_id
  pub recipient : received.header.recipient_id ≡ r.expected_recipient_id
  pub signed : Signed outside r received ciphertext
  pub begun : is_too_early r.now received.header.created_at ≡ false
  pub alive : is_past r.now received.header.expires_at ≡ false
  pub encapsulated : outside.decode_base64 received.protected.enc ≡ some enc
  pub decrypted :
      outside.open_sealed r.recipient_encryption_private_key enc hpke_info ciphertext received.bytes
      ≡ some plaintext

decrypt-some :
    (outside : Outside) (private_key : Bytes) (received : Received) (c plaintext : Bytes)
    → decrypt outside private_key received c ≡ ok plaintext
    → (enc : Bytes) × (outside.decode_base64 received.protected.enc ≡ some enc)
      × (outside.open_sealed private_key enc hpke_info c received.bytes ≡ some plaintext)
unfolding decrypt
decrypt-some outside private_key received c plaintext e =
    let (_, e₁) = require-ok (outside.accepts_private_key private_key) invalid_key _ plaintext e in
    let (enc, ee, e₂) =
      or_fail-ok authentication_failed (outside.decode_base64 received.protected.enc) _ plaintext
        e₁ in
    (enc, ee, ground arith)

check_time-within :
    (now : Number) (h : Header)
    → check_time now h ≡ ok tt
    → (is_too_early now h.created_at ≡ false) × (is_past now h.expires_at ≡ false)
unfolding check_time
check_time-within now h e =
    let (early, e₁) = require-ok (not (is_too_early now h.created_at)) created_in_future _ tt e in
    (ground arith, ground arith)

on_route :
    {G : Type 0} (r : OpenRequest G) (h : Header)
    → is_on_route r h ≡ true
    → (h.installation_id ≡ r.expected_installation_id)
      × (h.sender_id ≡ r.expected_sender_id)
      × (h.recipient_id ≡ r.expected_recipient_id)
on_route r h e = ground arith

pub decipher-Authentic :
    {G : Type 0} (outside : Outside) (r : OpenRequest G) (h : Header) (plaintext : Bytes)
    → decipher outside r ≡ ok (h, plaintext)
    → Authentic outside r h plaintext
unfolding decipher
decipher-Authentic outside r h plaintext e =
    let (x, ex, e₁) = bind-ok (receive outside r.envelope.protected) _ (h, plaintext) e in
    let (_, ew, e₂) = bind-ok (validate_header x.header) _ (h, plaintext) e₁ in
    let (on, e₃) = require-ok (is_on_route r x.header) wrong_route _ (h, plaintext) e₂ in
    let (c, ec, e₄) = bind-ok (authenticate outside r x) _ (h, plaintext) e₃ in
    let (_, et, e₅) = bind-ok (check_time r.now x.header) _ (h, plaintext) e₄ in
    let (p, ep, e₆) =
      bind-ok (decrypt outside r.recipient_encryption_private_key x c) _ (h, plaintext) e₅ in
    let both = ok-eq (x.header, p) (h, plaintext) e₆ in
    let (i, s, d) = on_route r x.header on in
    let (begun, alive) = check_time-within r.now x.header et in
    let (enc, ee, eo) = decrypt-some outside r.recipient_encryption_private_key x c p ep in
    subst (λ q. Authentic outside r q.0 q.1) both
      (record {
        received = x;
        ciphertext = c;
        enc = enc;
        header = refl;
        decoded = receive-Decoded outside r.envelope.protected x ex;
        well_formed = (validate_header-WellFormed x.header).0 ew;
        installation = i;
        sender = s;
        recipient = d;
        signed = authenticate-Signed outside r x c ec;
        begun = begun;
        alive = alive;
        encapsulated = ee;
        decrypted = eo;
      })
