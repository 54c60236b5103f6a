-- ===== src/Protocol/Opening/Replays.antt =====
-- packages/protocol/src/index.ts, `open`: sequences of requests over one store of the guards.
use herdr_connect.Common.{
  if◌then◌else◌, ◌≡◌, refl, sym, subst, inl, inr, Bool-cases, Text, true, false, Option, none, some,
  List, [], ◌∷◌, In, Distinct, All,
}
use herdr_connect.Json.{Number}
use herdr_connect.Protocol.{
  Bytes, Header, Outside, OpenedMessage, PairingCandidate, Outcome, ok, fail,
}
use herdr_connect.Protocol.Sealing.{is_pairing_request}
use herdr_connect.Protocol.Opening.{
  OpenRequest, Mark, answered, mark_message, accept_candidate, accept_pairing, admit,
  admit_deciphered, open_message, decipher,
}
use herdr_connect.Protocol.Opening.Safety.{Accepted, open_message-Accepted}

-- What is relied on for a guard over a store that has seen some message ids: it answers true for an
-- id that is new only, it has seen the id then, and it forgets none.
pub record Remembers {G : Type 0} (Seen : Text → G → Type 0) (f : Text → Number → G → Mark × G)
    : Type 0 where
  pub fresh : (id : Text) (e : Number) (g g' : G) → f id e g ≡ (answered true, g') → ¬ Seen id g
  pub noted : (id : Text) (e : Number) (g g' : G) → f id e g ≡ (answered true, g') → Seen id g'
  pub kept : (i id : Text) (e : Number) (g : G) → Seen i g → Seen i ((f id e g).1)

pub record IsGuarded {G : Type 0} (Seen : Text → G → Type 0) (r : OpenRequest G) : Type 0 where
  pub marking : (f : Text → Number → G → Mark × G) → r.replay_guard ≡ some f → Remembers Seen f
  pub pairing :
      (f : Text → Number → PairingCandidate → G → Mark × G)
      → r.pairing_guard ≡ some f
      → (c : PairingCandidate) → Remembers Seen (λ id e. f id e c)

-- The envelopes of a sequence of requests, opened one after another.
abbrev pub open_all :
    {G : Type 0} → Outside → List (OpenRequest G) → G → List (Outcome OpenedMessage)
open_all outside [] g = []
open_all outside (r ∷ rs) g =
    (open_message outside r g).0 ∷ open_all outside rs ((open_message outside r g).1)

-- The ids of the messages that were opened.
abbrev pub opened_ids : List (Outcome OpenedMessage) → List Text
opened_ids [] = []
opened_ids (ok m ∷ os) = m.header.message_id ∷ opened_ids os
opened_ids (fail e ∷ os) = opened_ids os

module _ {G : Type 0} (Seen : Text → G → Type 0) (outside : Outside) where
  mark_message-kept :
      (o : Option (Text → Number → G → Mark × G)) (h : Header) (p : Bytes) (g : G) (i : Text)
      → ((f : Text → Number → G → Mark × G) → o ≡ some f → Remembers Seen f)
      → Seen i g
      → Seen i ((mark_message o h p g).1)
  mark_message-kept none h p g i m s = s
  mark_message-kept (some f) h p g i m s = (m f refl).kept i h.message_id h.expires_at g s

  accept_candidate-kept :
      (o : Option (Text → Number → PairingCandidate → G → Mark × G)) (h : Header) (p : Bytes)
      (d : Outcome PairingCandidate) (g : G) (i : Text)
      → ((f : Text → Number → PairingCandidate → G → Mark × G)
          → o ≡ some f
          → (c : PairingCandidate) → Remembers Seen (λ id e. f id e c))
      → Seen i g
      → Seen i ((accept_candidate o h p d g).1)
  accept_candidate-kept none h p d g i m s = s
  accept_candidate-kept (some f) h p (fail e) g i m s = s
  accept_candidate-kept (some f) h p (ok c) g i m s =
      (m f refl c).kept i h.message_id h.expires_at g s

  admitted-kept :
      (r : OpenRequest G) (d : Outcome (Header × Bytes)) (g : G) (i : Text)
      → IsGuarded Seen r
      → Seen i g
      → Seen i ((admit_deciphered outside r d g).1)
  unfolding admit accept_pairing
  admitted-kept r (fail e) g i v s = s
  admitted-kept r (ok (h, p)) g i v s =
      elim (is_pairing_request h)
        as (λ b.
          Seen i
            ((if b then accept_pairing outside r h p g else mark_message r.replay_guard h p g).1)) [
              | true ↦ accept_candidate-kept r.pairing_guard h p _ g i v.pairing s
              | false ↦ mark_message-kept r.replay_guard h p g i v.marking s
            ]

  Accepted-fresh :
      (r : OpenRequest G) (m : OpenedMessage) (g g' : G)
      → IsGuarded Seen r
      → Accepted outside r m g g'
      → (¬ Seen m.header.message_id g) × Seen m.header.message_id g'
  Accepted-fresh r m g g' v a = elim (Bool-cases (is_pairing_request m.header)) [
    | inl q ↦
        let (f, c, ef, _, eg, _) = a.paired q in
        (
          (v.pairing f ef c).fresh m.header.message_id m.header.expires_at g g' eg,
          (v.pairing f ef c).noted m.header.message_id m.header.expires_at g g' eg,
        )
    | inr q ↦
        let (f, ef, eg, _) = a.marked q in
        (
          (v.marking f ef).fresh m.header.message_id m.header.expires_at g g' eg,
          (v.marking f ef).noted m.header.message_id m.header.expires_at g g' eg,
        )
  ]

  open_message-kept :
      (r : OpenRequest G) (g : G) (i : Text)
      → IsGuarded Seen r
      → Seen i g
      → Seen i ((open_message outside r g).1)
  unfolding open_message
  open_message-kept r g i v s = admitted-kept r (decipher outside r) g i v s

  -- The ids that are opened from one request on, given those of the requests after it.
  opened-new :
      (r : OpenRequest G) (g : G) (o : Outcome OpenedMessage) (g' : G)
      (ids : List (Outcome OpenedMessage)) (i : Text)
      → IsGuarded Seen r
      → open_message outside r g ≡ (o, g')
      → (In i (opened_ids ids) → ¬ Seen i g')
      → In i (opened_ids (o ∷ ids))
      → ¬ Seen i g
  opened-new r g (ok m) g' ids i v e rest (inl same) =
      subst (λ x. ¬ Seen x g) (sym same)
        (Accepted-fresh r m g g' v (open_message-Accepted outside r m g g' e).1).0
  opened-new r g (ok m) g' ids i v e rest (inr later) =
      λ s. rest later (subst (λ x. Seen i x.1) e (open_message-kept r g i v s))
  opened-new r g (fail f) g' ids i v e rest later =
      λ s. rest later (subst (λ x. Seen i x.1) e (open_message-kept r g i v s))

  open_all-new :
      (rs : List (OpenRequest G)) (g : G) (i : Text)
      → All (IsGuarded Seen) rs
      → In i (opened_ids (open_all outside rs g))
      → ¬ Seen i g
  open_all-new [] g i _ m = absurd m
  open_all-new (r ∷ rs) g i (v, vs) m =
      opened-new r g ((open_message outside r g).0) ((open_message outside r g).1)
        (open_all outside rs ((open_message outside r g).1)) i v refl
        (open_all-new rs ((open_message outside r g).1) i vs) m

  opened-Distinct :
      (r : OpenRequest G) (g : G) (o : Outcome OpenedMessage) (g' : G)
      (ids : List (Outcome OpenedMessage))
      → IsGuarded Seen r
      → open_message outside r g ≡ (o, g')
      → ((i : Text) → In i (opened_ids ids) → ¬ Seen i g')
      → Distinct (opened_ids ids)
      → Distinct (opened_ids (o ∷ ids))
  opened-Distinct r g (ok m) g' ids v e new d = (
    λ again.
        new m.header.message_id again
          (Accepted-fresh r m g g' v (open_message-Accepted outside r m g g' e).1).1,
    d,
  )
  opened-Distinct r g (fail f) g' ids v e new d = d

  -- In any sequence of envelopes that are opened over one store, with guards that remember what they
  -- were asked, no two messages that are opened have the same id.
  pub open_all-Distinct :
      (rs : List (OpenRequest G)) (g : G)
      → All (IsGuarded Seen) rs
      → Distinct (opened_ids (open_all outside rs g))
  open_all-Distinct [] g _ = tt
  open_all-Distinct (r ∷ rs) g (v, vs) =
      opened-Distinct r g ((open_message outside r g).0) ((open_message outside r g).1)
        (open_all outside rs ((open_message outside r g).1)) v refl
        (λ i. open_all-new rs ((open_message outside r g).1) i vs)
        (open_all-Distinct rs ((open_message outside r g).1) vs)
