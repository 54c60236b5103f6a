-- ===== src/Protocol/Pairing/Transcripts.antt =====
-- packages/protocol/src/index.ts: the transcript and the signature of the pairing challenge.
use herdr_connect.Common.{
  ◌^◌, ◌<◌, ◌≡◌, refl, sym, ap, ◌∙◌, subst, arith, All, All-append, all, List, [], ◌∷◌, length,
  true, some, ◌==◌, Text,
}
use herdr_connect.Protocol.{Bytes, Outside, Outcome, ◌>>=◌, ok, fail}
use herdr_connect.Protocol.Bytes.{concatenate}
use herdr_connect.Protocol.Bytes.Framing.{append-eq, uint32-append-eq}
use herdr_connect.Protocol.Pairing.{
  PairingChallengeBinding, key_material, framed, challenge_domain, challenge_fields,
  pairing_challenge_transcript, is_verified, sign_pairing_challenge, verify_pairing_challenge,
}

abbrev IsShort : Bytes → Type 0
IsShort part = length part < 2 ^ 32

framed-eq :
    (xs ys : List Bytes)
    → length xs ≡ length ys
    → All IsShort xs
    → All IsShort ys
    → concatenate (framed xs) ≡ concatenate (framed ys)
    → xs ≡ ys
unfolding concatenate
framed-eq [] [] n _ _ e = refl
framed-eq [] (y ∷ ys) n _ _ e = absurd (omega (arith, n))
framed-eq (x ∷ xs) [] n _ _ e = absurd (omega (arith, n))
framed-eq (x ∷ xs) (y ∷ ys) n (l, ls) (k, ks) e =
    let (parts, rests) =
      uint32-append-eq x y (concatenate (framed xs)) (concatenate (framed ys)) l k e in
    ground (arith, framed-eq xs ys)

-- The checks that a transcript passes.
transcript-checks :
    (outside : Outside) (b : PairingChallengeBinding) (t : Bytes)
    → pairing_challenge_transcript outside b ≡ ok t
    → (all (λ field. length field == 32) (key_material b) ≡ true)
      × (concatenate (challenge_domain ∷ framed (challenge_fields outside b)) ≡ t)
unfolding pairing_challenge_transcript
transcript-checks outside b t e = ground arith

-- What is relied on for a text in a transcript: it is read back, and it is shorter than 2 ^ 32 bytes.
pub record IsEncoded (outside : Outside) (s : Text) : Type 0 where
  pub back : outside.decode_text (outside.encode_text s) ≡ some s
  pub short : IsShort (outside.encode_text s)

encode_text-eq :
    (outside : Outside) (s t : Text)
    → IsEncoded outside s
    → IsEncoded outside t
    → outside.encode_text s ≡ outside.encode_text t
    → s ≡ t
encode_text-eq outside s t v w e = some-eq (sym v.back ∙ ap outside.decode_text e ∙ w.back)
  where
    some-eq : some s ≡ some t → s ≡ t
    some-eq p = ground arith

IsShort-key_material :
    (parts : List Bytes) → all (λ field. length field == 32) parts ≡ true → All IsShort parts
IsShort-key_material [] h = tt
IsShort-key_material (x ∷ parts) h = (ground arith, IsShort-key_material parts (ground arith))

IsShort-fields :
    (outside : Outside) (b : PairingChallengeBinding)
    → IsEncoded outside b.pairing_id
    → IsEncoded outside b.decision
    → all (λ field. length field == 32) (key_material b) ≡ true
    → All IsShort (challenge_fields outside b)
IsShort-fields outside b v w h = (
  v.short,
  All-append IsShort (key_material b) (outside.encode_text b.decision ∷ [])
      (IsShort-key_material (key_material b) h) (w.short, tt),
)

fields-binding :
    (outside : Outside) (a b : PairingChallengeBinding)
    → IsEncoded outside a.pairing_id
    → IsEncoded outside b.pairing_id
    → IsEncoded outside a.decision
    → IsEncoded outside b.decision
    → challenge_fields outside a ≡ challenge_fields outside b
    → a ≡ b
fields-binding outside a b v w u x e = ground (
  arith,
  encode_text-eq outside a.pairing_id b.pairing_id v w,
  encode_text-eq outside a.decision b.decision u x,
)

-- Two bindings have the same transcript only if they are the same in every field. Their texts are
-- read back from UTF-8 and shorter than 2 ^ 32 bytes.
pub pairing_challenge_transcript-eq :
    (outside : Outside) (a b : PairingChallengeBinding) (t : Bytes)
    → IsEncoded outside a.pairing_id
    → IsEncoded outside b.pairing_id
    → IsEncoded outside a.decision
    → IsEncoded outside b.decision
    → pairing_challenge_transcript outside a ≡ ok t
    → pairing_challenge_transcript outside b ≡ ok t
    → a ≡ b
unfolding concatenate
pairing_challenge_transcript-eq outside a b t v w u x h k =
    let (ha, ea) = transcript-checks outside a t h in
    let (hb, eb) = transcript-checks outside b t k in
    let (_, framed) =
      append-eq challenge_domain challenge_domain
        (concatenate (framed (challenge_fields outside a)))
        (concatenate (framed (challenge_fields outside b))) refl (ea ∙ sym eb) in
    fields-binding outside a b v w u x (
      framed-eq (challenge_fields outside a) (challenge_fields outside b) refl
        (IsShort-fields outside a v u ha) (IsShort-fields outside b w x hb) framed)

-- What is relied on for Ed25519: a signature made with a seed is 64 bytes, and is verified with the
-- public key of the seed, which is 32 bytes.
pub record Signs (outside : Outside) (seed : Bytes) (message : Bytes) : Type 0 where
  pub key_length : length (outside.signing_public_key seed) ≡ 32
  pub signature_length : length (outside.sign message seed) ≡ 64
  pub verified :
      outside.verify (outside.sign message seed) message (outside.signing_public_key seed)
      ≡ some true

-- The one below for whatever the transcript comes to.
verified-signed :
    (outside : Outside) (o : Outcome Bytes) (seed s : Bytes)
    → ((message : Bytes) → Signs outside seed message)
    → (o >>= λ m. ok (outside.sign m seed)) ≡ ok s
    → (length (outside.signing_public_key seed) ≡ 32)
      × (length s ≡ 64)
      × (is_verified outside (outside.signing_public_key seed) s o ≡ true)
verified-signed outside (fail f) seed s signs e = cc
verified-signed outside (ok m) seed s signs e =
    subst
      (λ x.
        (length (outside.signing_public_key seed) ≡ 32)
        × (length x ≡ 64)
        × (is_verified outside (outside.signing_public_key seed) x (ok m) ≡ true))
      (ok-eq e)
      ((signs m).key_length, (signs m).signature_length, ground (arith, (signs m).verified))
  where
    ok-eq : ok (outside.sign m seed) ≡ ok s → outside.sign m seed ≡ s
    ok-eq p = ground arith

-- If Ed25519 signs and verifies as documented, a challenge for which a signature was made with a seed
-- is accepted with that signature and the public key of the seed.
pub verify-sign_pairing_challenge :
    (outside : Outside) (b : PairingChallengeBinding) (seed s : Bytes)
    → ((message : Bytes) → Signs outside seed message)
    → sign_pairing_challenge outside b seed ≡ ok s
    → verify_pairing_challenge outside b (outside.signing_public_key seed) s ≡ ok tt
unfolding sign_pairing_challenge verify_pairing_challenge
verify-sign_pairing_challenge outside b seed s signs e =
    let (k, l, v) =
      verified-signed outside (pairing_challenge_transcript outside b) seed s signs
        (ground arith) in
    rw (k, l, v)
