-- ===== src/Protocol/Opening/RoundTrip.antt =====
-- packages/protocol/src/index.ts: `open` on what `seal` has made.
use herdr_connect.Common.{
  ◌+◌, ◌≤◌, leb_iff, ==_iff, ◌≡◌, refl, sym, ap, subst, ◌∙◌, arith, Text, text, ◌is◌, is_iff, true,
  false, Bool-cases, inl, inr, Option, none, some, length,
}
use herdr_connect.Json.{Number, Json, RoundTrips, obj}
use herdr_connect.Protocol.{
  Bytes, Header, Envelope, SenderContext, Outside, ok, max_plaintext_size,
  max_protected_header_size,
}
use herdr_connect.Protocol.Bytes.{signature_input, equal_bytes}
use herdr_connect.Protocol.Bytes.Equality.{constant_time_equal-eq, equal_bytes-constant_time_equal}
use herdr_connect.Protocol.Headers.{validate_header}
use herdr_connect.Protocol.Headers.WellFormed.{WellFormed, validate_header-WellFormed}
use herdr_connect.Protocol.Wire.{ProtectedHeader, header_to_protected, protected_fields}
use herdr_connect.Protocol.Pairing.Transcripts.{Signs}
use herdr_connect.Protocol.Sealing.{
  SealRequest, hpke_info, with_defaults, is_pairing_request, stringify_header, envelope_of, seal,
}
use herdr_connect.Protocol.Sealing.Sealed.{
  AreSafe, Addressed, Sealed, seal-Sealed, delivered, IsDate, AreSafe-header_to_protected,
  protected_to_header-header_to_protected, parse_protected_header-fields,
}
use herdr_connect.Protocol.Opening.{
  OpenRequest, Received, receive, signing_key, is_signed, is_too_early, is_past, is_on_route,
  authenticate, check_time, decrypt, decipher, Mark, answered, admit, admit_deciphered, settled,
  open_message,
}

-- What is relied on for the encodings: each is read back.
pub record Decodes (outside : Outside) : Type 0 where
  pub base64 : (b : Bytes) → outside.decode_base64 (outside.encode_base64 b) ≡ some b
  pub stringified :
      (j : Json)
      → outside.decode_text (outside.encode_text (outside.json.stringify j))
        ≡ some (outside.json.stringify j)
  pub headers :
      (p : ProtectedHeader) → AreSafe p → RoundTrips outside.json (obj (protected_fields p))

-- What is relied on for HPKE: what is sealed for a public key is opened with its private key, and the
-- ciphertext is 16 bytes longer.
pub record IsKeyPair (outside : Outside) (public_key private_key : Bytes) : Type 0 where
  pub accepted : outside.accepts_private_key private_key ≡ true
  pub opens :
      (ekm : Option Bytes) (sender : SenderContext) (plaintext aad c : Bytes)
      → outside.create_sender public_key hpke_info ekm ≡ some sender
      → sender.encrypt plaintext aad ≡ some c
      → outside.open_sealed private_key sender.enc hpke_info c aad ≡ some plaintext
  pub longer :
      (ekm : Option Bytes) (sender : SenderContext) (plaintext aad c : Bytes)
      → outside.create_sender public_key hpke_info ekm ≡ some sender
      → sender.encrypt plaintext aad ≡ some c
      → length c ≡ length plaintext + 16

-- A request to open an envelope that was sealed: the recipient's key, the sender's key, the route and
-- a time at which the message is alive.
pub record IsFor {G : Type 0} (outside : Outside) (s : SealRequest) (env : Envelope)
    (r : OpenRequest G) : Type 0 where
  pub envelope : r.envelope ≡ env
  pub keys : IsKeyPair outside s.recipient_encryption_public_key r.recipient_encryption_private_key
  pub signer :
      r.sender_signing_public_key ≡ some (outside.signing_public_key s.sender_signing_private_key)
  pub signs : (m : Bytes) → Signs outside s.sender_signing_private_key m
  pub installation : r.expected_installation_id ≡ s.header.installation_id
  pub sender : r.expected_sender_id ≡ s.header.sender_id
  pub recipient : r.expected_recipient_id ≡ s.header.recipient_id
  pub created : IsDate s.header.created_at
  pub expires : IsDate s.header.expires_at
  pub begun : is_too_early r.now s.header.created_at ≡ false
  pub alive : is_past r.now s.header.expires_at ≡ false

is-same : (s t : Text) → s ≡ t → (s is t) ≡ true
is-same s t e = (is_iff s t).1 e

equal_bytes-same : (b : Bytes) → equal_bytes b b ≡ true
equal_bytes-same b = equal_bytes-constant_time_equal b b ∙ (constant_time_equal-eq b b).1 refl

module _ (outside : Outside) (decodes : Decodes outside) (h : Header) (enc : Bytes) where
  abbrev sealed_bytes : Bytes
  sealed_bytes = outside.encode_text (stringify_header outside h enc)

  abbrev sealed_fields : ProtectedHeader
  sealed_fields = header_to_protected outside h (outside.encode_base64 enc)

  receive-sealed :
      WellFormed h
      → IsDate h.created_at
      → IsDate h.expires_at
      → length sealed_bytes ≤ max_protected_header_size
      → receive outside (outside.encode_base64 sealed_bytes)
        ≡ ok (record { bytes = sealed_bytes; protected = sealed_fields; header = delivered h })
  unfolding receive
  receive-sealed w c e small = rw (
    decodes.base64 sealed_bytes,
    (leb_iff (length sealed_bytes) max_protected_header_size).1 small,
    decodes.stringified (obj (protected_fields sealed_fields)),
    decodes.headers sealed_fields
        (AreSafe-header_to_protected outside h (outside.encode_base64 enc) w),
    parse_protected_header-fields sealed_fields
        (AreSafe-header_to_protected outside h (outside.encode_base64 enc) w),
    is-same _ (outside.json.stringify (obj (protected_fields sealed_fields))) refl,
    protected_to_header-header_to_protected outside h (outside.encode_base64 enc) w decodes.base64 c
        e,
  )

-- The key that a sealed message is verified with is the sender's.
signing_key-delivered :
    (outside : Outside) (seed : Bytes) (from h : Header)
    → Addressed outside seed from h
    → length (outside.signing_public_key seed) ≡ 32
    → signing_key (some (outside.signing_public_key seed)) (delivered h)
      ≡ ok (some (outside.signing_public_key seed))
unfolding signing_key
signing_key-delivered outside seed from h a len = elim (Bool-cases (is_pairing_request h)) [
  | inl q ↦
      rw (q, a.embedded q, (==_iff _ 32).1 len, equal_bytes-same (outside.signing_public_key seed))
  | inr q ↦ rw (q, a.bare q)
]

is_signed-sign :
    (outside : Outside) (seed message : Bytes)
    → Signs outside seed message
    → is_signed outside (some (outside.signing_public_key seed)) (outside.sign message seed) message
      ≡ true
is_signed-sign outside seed message s = ground (arith, s.key_length, s.signature_length, s.verified)

module _ {G : Type 0} (outside : Outside) (decodes : Decodes outside) (s : SealRequest)
    (env : Envelope) (r : OpenRequest G) (for : IsFor outside s env r)
    (z : Sealed outside s env) where
  abbrev seed : Bytes
  seed = s.sender_signing_private_key

  abbrev bytes : Bytes
  bytes = outside.encode_text (stringify_header outside z.header z.sender.enc)

  abbrev received : Received
  received = record {
    bytes = bytes;
    protected = header_to_protected outside z.header (outside.encode_base64 z.sender.enc);
    header = delivered z.header;
  }

  envelope-made : r.envelope ≡ envelope_of outside seed bytes z.ciphertext
  envelope-made = for.envelope ∙ sym z.made

  ciphertext-small : length z.ciphertext ≤ max_plaintext_size + 16
  ciphertext-small = omega (
    arith,
    z.plaintext_small,
    for.keys.longer z.ekm z.sender s.plaintext bytes z.ciphertext z.created z.encrypted,
  )

  authenticate-sealed : authenticate outside r received ≡ ok z.ciphertext
  unfolding authenticate
  authenticate-sealed = rw (
    envelope-made,
    decodes.base64 z.ciphertext,
    (leb_iff (length z.ciphertext) (max_plaintext_size + 16)).1 ciphertext-small,
    decodes.base64 (outside.sign (signature_input bytes z.ciphertext) seed),
    for.signer,
    signing_key-delivered outside seed (with_defaults s.header) z.header z.addressed
        ((for.signs bytes).key_length),
    is_signed-sign outside seed (signature_input bytes z.ciphertext)
        (for.signs (signature_input bytes z.ciphertext)),
  )

  on_route-sealed : is_on_route r (delivered z.header) ≡ true
  on_route-sealed = rw (
    is-same z.header.installation_id r.expected_installation_id
        (z.addressed.installation_id ∙ sym for.installation),
    is-same z.header.sender_id r.expected_sender_id (z.addressed.sender_id ∙ sym for.sender),
    is-same z.header.recipient_id r.expected_recipient_id
        (z.addressed.recipient_id ∙ sym for.recipient),
  )

  check_time-sealed : check_time r.now (delivered z.header) ≡ ok tt
  unfolding check_time
  check_time-sealed = rw (z.addressed.created_at, for.begun, z.addressed.expires_at, for.alive)

  decrypt-sealed :
      decrypt outside r.recipient_encryption_private_key received z.ciphertext ≡ ok s.plaintext
  unfolding decrypt header_to_protected
  decrypt-sealed = rw (
    for.keys.accepted,
    decodes.base64 z.sender.enc,
    for.keys.opens z.ekm z.sender s.plaintext bytes z.ciphertext z.created z.encrypted,
  )

  header-WellFormed : WellFormed z.header
  header-WellFormed = (validate_header-WellFormed z.header).0 (z.addressed.same_check ∙ z.valid)

  validate_header-delivered : validate_header (delivered z.header) ≡ ok tt
  unfolding validate_header
  validate_header-delivered = z.addressed.same_check ∙ z.valid

  receive-made : receive outside r.envelope.protected ≡ ok received
  receive-made =
      ap (λ e. receive outside e.protected) envelope-made
      ∙ receive-sealed outside decodes z.header z.sender.enc header-WellFormed
          (subst IsDate (sym z.addressed.created_at) for.created)
          (subst IsDate (sym z.addressed.expires_at) for.expires) z.header_small

  decipher-sealed : decipher outside r ≡ ok (delivered z.header, s.plaintext)
  unfolding decipher
  decipher-sealed = rw (
    receive-made, validate_header-delivered, on_route-sealed, authenticate-sealed,
    check_time-sealed, decrypt-sealed,
  )

-- What was sealed is opened by a request that is for it, whichever store the guards have: the guards
-- are given the very plaintext and the header that was sealed, with its defaults, every field but the
-- signing key being as it was given, which is the sender's for a pairing request and empty else.
pub open_message-seal :
    {G : Type 0} (outside : Outside) (s : SealRequest) (env : Envelope) (r : OpenRequest G)
    → Decodes outside
    → seal outside s ≡ ok env
    → IsFor outside s env r
    → (h : Header) × Addressed outside s.sender_signing_private_key (with_defaults s.header) h
      × ((g : G) → open_message outside r g ≡ admit outside r (delivered h) s.plaintext g)
unfolding open_message
open_message-seal outside s env r decodes e for =
    let z = seal-Sealed outside s env e in
    (
      z.header,
      z.addressed,
      λ g. ap (λ d. admit_deciphered outside r d g) (decipher-sealed outside decodes s env r for z),
    )

admit-new :
    {G : Type 0} (outside : Outside) (r : OpenRequest G) (f : Text → Number → G → Mark × G)
    (h : Header) (p : Bytes) (g g' : G)
    → is_pairing_request h ≡ false
    → r.replay_guard ≡ some f
    → f h.message_id h.expires_at g ≡ (answered true, g')
    → admit outside r h p g
      ≡ (ok (record { header = h; plaintext = p; pairing_candidate = none }), g')
unfolding admit
admit-new outside r f h p g g' q guarded e = rw (q, guarded) (ap (settled _) e)

-- A message that is no pairing request is returned to a recipient whose guard has not seen it, with
-- the sender's identities, type and times.
pub open_message-seal_new :
    {G : Type 0} (outside : Outside) (s : SealRequest) (env : Envelope) (r : OpenRequest G)
    (f : Text → Number → G → Mark × G) (g g' : G)
    → Decodes outside
    → seal outside s ≡ ok env
    → IsFor outside s env r
    → is_pairing_request s.header ≡ false
    → r.replay_guard ≡ some f
    → f s.header.message_id s.header.expires_at g ≡ (answered true, g')
    → (h : Header) × Addressed outside s.sender_signing_private_key (with_defaults s.header) h
      × (open_message outside r g ≡ (
        ok (record { header = delivered h; plaintext = s.plaintext; pairing_candidate = none }),
        g',
      ))
open_message-seal_new outside s env r f g g' decodes e for q guarded new =
    let (h, a, opened) = open_message-seal outside s env r decodes e for in
    (
      h,
      a,
      opened g
          ∙ admit-new outside r f (delivered h) s.plaintext g g'
              (ap (λ t. t is text "pairing_request") a.message_type ∙ q) guarded
              (ap (λ i. f i h.expires_at g) a.message_id
                ∙ ap (λ t. f s.header.message_id t g) a.expires_at
                ∙ new),
    )
