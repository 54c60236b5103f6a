-- ===== src/Protocol/Opening/Safety.antt =====
-- packages/protocol/src/index.ts, `open`: its checks and its guards together.
use herdr_connect.Common.{
  ◌≡◌, refl, sym, subst, ◌∙◌, ◌⊎◌, inl, inr, arith, Text, Bool, true, false, Option, none, some, [],
  if◌then◌else◌,
}
use herdr_connect.Json.{Number}
use herdr_connect.Protocol.{
  Bytes, Header, Outside, OpenedMessage, PairingCandidate, Outcome, ok, fail,
}
use herdr_connect.Protocol.Wire.{or_else}
use herdr_connect.Protocol.Pairing.{validate_pairing_candidate}
use herdr_connect.Protocol.Sealing.{is_pairing_request}
use herdr_connect.Protocol.Opening.{
  OpenRequest, Mark, answered, rejected, settled, mark_message, accept_candidate, accept_pairing,
  admit, admit_deciphered, open_message, decipher,
}
use herdr_connect.Protocol.Opening.Authentic.{Authentic, decipher-Authentic}

-- The answer of the guard that a message is for, which is what a message is accepted by. A pairing
-- request is validated before its guard is asked.
pub record Accepted {G : Type 0} (outside : Outside) (r : OpenRequest G) (m : OpenedMessage)
    (g g' : G) : Type 0 where
  pub marked :
      is_pairing_request m.header ≡ false
      → (f : Text → Number → G → Mark × G) × (r.replay_guard ≡ some f)
        × (f m.header.message_id m.header.expires_at g ≡ (answered true, g'))
        × (m.pairing_candidate ≡ none)
  pub paired :
      is_pairing_request m.header ≡ true
      → (f : Text → Number → PairingCandidate → G → Mark × G) × (c : PairingCandidate)
        × (r.pairing_guard ≡ some f)
        × (validate_pairing_candidate outside m.plaintext
              (or_else m.header.sender_signing_public_key [])
              (or_else r.expected_pairing_id [])
              (or_else r.expected_pairing_secret [])
            ≡ ok c)
        × (f m.header.message_id m.header.expires_at c g ≡ (answered true, g'))
        × (m.pairing_candidate ≡ some c)

module _ {G : Type 0} where
  settled-ok :
      (n m : OpenedMessage) (p : Mark × G) (g' : G)
      → settled n p ≡ (ok m, g')
      → (p ≡ (answered true, g')) × (n ≡ m)
  settled-ok n m (answered true, g) g' e = ground arith
  settled-ok n m (answered false, g) g' e = ground arith
  settled-ok n m (rejected f, g) g' e = ground arith

  mark_message-ok :
      (o : Option (Text → Number → G → Mark × G)) (h : Header) (p : Bytes) (g g' : G)
      (m : OpenedMessage)
      → mark_message o h p g ≡ (ok m, g')
      → (f : Text → Number → G → Mark × G) × (o ≡ some f)
        × (f h.message_id h.expires_at g ≡ (answered true, g'))
        × (record { header = h; plaintext = p; pairing_candidate = none } ≡ m)
  mark_message-ok none h p g g' m e = ground arith
  mark_message-ok (some f) h p g g' m e =
      let (a, b) =
        settled-ok (record { header = h; plaintext = p; pairing_candidate = none }) m
          (f h.message_id h.expires_at g) g' e in
      (f, refl, a, b)

  accept_candidate-ok :
      (o : Option (Text → Number → PairingCandidate → G → Mark × G)) (h : Header) (p : Bytes)
      (d : Outcome PairingCandidate) (g g' : G) (m : OpenedMessage)
      → accept_candidate o h p d g ≡ (ok m, g')
      → (f : Text → Number → PairingCandidate → G → Mark × G) × (c : PairingCandidate) × (o
          ≡ some f)
        × (d ≡ ok c)
        × (f h.message_id h.expires_at c g ≡ (answered true, g'))
        × (record { header = h; plaintext = p; pairing_candidate = some c } ≡ m)
  accept_candidate-ok none h p d g g' m q = ground arith
  accept_candidate-ok (some f) h p (fail e) g g' m q = ground arith
  accept_candidate-ok (some f) h p (ok c) g g' m q =
      let (a, b) =
        settled-ok (record { header = h; plaintext = p; pairing_candidate = some c }) m
          (f h.message_id h.expires_at c g) g' q in
      (f, c, refl, refl, a, b)

module _ {G : Type 0} (outside : Outside) (r : OpenRequest G) (h : Header) (p : Bytes)
    (g g' : G) where
  abbrev IsAdmitted : OpenedMessage → Type 0
  IsAdmitted m = (m.header ≡ h) × (m.plaintext ≡ p) × Accepted outside r m g g'

  accept_pairing-ok :
      (m : OpenedMessage)
      → is_pairing_request h ≡ true
      → accept_pairing outside r h p g ≡ (ok m, g')
      → IsAdmitted m
  unfolding accept_pairing
  accept_pairing-ok m q e =
      let (f, c, eo, ec, ef, em) = accept_candidate-ok r.pairing_guard h p _ g g' m e in
      subst IsAdmitted em
        (refl, refl, record { marked = λ n. ground arith; paired = λ _. (f, c, eo, ec, ef, refl) })

  mark-ok :
      (m : OpenedMessage)
      → is_pairing_request h ≡ false
      → mark_message r.replay_guard h p g ≡ (ok m, g')
      → IsAdmitted m
  mark-ok m q e =
      let (f, ef, eg, em) = mark_message-ok r.replay_guard h p g g' m e in
      subst IsAdmitted em
        (refl, refl, record { marked = λ _. (f, ef, eg, refl); paired = λ n. ground arith })

  branches-IsAdmitted :
      (m : OpenedMessage) (b : Bool)
      → is_pairing_request h ≡ b
      → (if b then accept_pairing outside r h p g else mark_message r.replay_guard h p g)
        ≡ (ok m, g')
      → IsAdmitted m
  branches-IsAdmitted m true q e = accept_pairing-ok m q e
  branches-IsAdmitted m false q e = mark-ok m q e

  admit-IsAdmitted : (m : OpenedMessage) → admit outside r h p g ≡ (ok m, g') → IsAdmitted m
  unfolding admit
  admit-IsAdmitted m e = branches-IsAdmitted m (is_pairing_request h) refl e

-- A message that is opened is authentic, and its guard answered that it is new: the store is then the
-- one that the guard left.
pub open_message-Accepted :
    {G : Type 0} (outside : Outside) (r : OpenRequest G) (m : OpenedMessage) (g g' : G)
    → open_message outside r g ≡ (ok m, g')
    → Authentic outside r m.header m.plaintext × Accepted outside r m g g'
unfolding open_message
open_message-Accepted outside r m g g' e = go (decipher outside r) refl e
  where
    go :
        (o : Outcome (Header × Bytes))
        → decipher outside r ≡ o
        → admit_deciphered outside r o g ≡ (ok m, g')
        → Authentic outside r m.header m.plaintext × Accepted outside r m g g'
    go (fail f) eo e = ground arith
    go (ok (h, p)) eo e =
        let (eh, ep, a) = admit-IsAdmitted outside r h p g g' m e in
        (decipher-Authentic outside r m.header m.plaintext (eo ∙ λ i. ok (sym eh i, sym ep i)), a)

-- Whatever the result, the guards' store is as it was unless an authentic message was read: no
-- envelope that fails a check before the guards leaves a trace.
pub open_message-untouched :
    {G : Type 0} (outside : Outside) (r : OpenRequest G) (o : Outcome OpenedMessage) (g g' : G)
    → open_message outside r g ≡ (o, g')
    → (g' ≡ g) ⊎ ((h : Header) × (p : Bytes) × Authentic outside r h p)
unfolding open_message
open_message-untouched outside r o g g' e = go (decipher outside r) refl e
  where
    go :
        (d : Outcome (Header × Bytes))
        → decipher outside r ≡ d
        → admit_deciphered outside r d g ≡ (o, g')
        → (g' ≡ g) ⊎ ((h : Header) × (p : Bytes) × Authentic outside r h p)
    go (fail f) ed e = inl (ground arith)
    go (ok (h, p)) ed e = inr (h, p, decipher-Authentic outside r h p ed)
