-- ===== src/Protocol/Headers/Fields.antt =====
-- The tables of docs/protocol/v1.md for the fields of a header: the names of the message types, the
-- fields that each type has, the spelling of identifiers, and the lifetimes.
use herdr_connect.Common.{
  ℕ, ◌*◌, ◌⊎◌, ◌↔◌, length, ◌≤◌, ◌<◌, ◌≡◌, refl, ap, subst, ◌∙◌, all, List, arith, Text, text,
  Text-discrete, ℕ_discrete, Bool, true, false, is_empty, not, ◌∷◌, Option, some, [], All, pos,
}
use herdr_connect.Json.{Number, integer}
use herdr_connect.Protocol.{
  Header, ok, require, or_fail, ◌>>=◌, ◌>>◌, invalid_header, MessageType, session_hello,
  pairing_request, pairing_decision, lifecycle_event, state_snapshot, output_request,
  output_snapshot, remote_command, command_result, ack, error,
}
use herdr_connect.Protocol.Headers.{
  is_identifier, is_identifier_part, max_ttl, is_empty_or_identifier, message_type_of, Specifics,
  check_specifics, required_identities, specifics_of, safe_integer,
}

-- The wire name of a message type.
abbrev pub name_of : MessageType → Text
name_of session_hello = text "session_hello"
name_of pairing_request = text "pairing_request"
name_of pairing_decision = text "pairing_decision"
name_of lifecycle_event = text "lifecycle_event"
name_of state_snapshot = text "state_snapshot"
name_of output_request = text "output_request"
name_of output_snapshot = text "output_snapshot"
name_of remote_command = text "remote_command"
name_of command_result = text "command_result"
name_of ack = text "ack"
name_of error = text "error"

abbrev pub IsBetween : ℕ → ℕ → ℕ → Type 0
IsBetween a b c = (a ≤ c) × (c ≤ b)

-- A digit, a capital or a small letter.
abbrev pub IsAlphanumeric : ℕ → Type 0
IsAlphanumeric c = IsBetween 48 57 c ⊎ (IsBetween 65 90 c ⊎ IsBetween 97 122 c)

-- Or one of `.`, `_`, `:` and `-`.
abbrev pub IsPart : ℕ → Type 0
IsPart c = IsAlphanumeric c ⊎ ((c ≡ 46) ⊎ ((c ≡ 95) ⊎ ((c ≡ 58) ⊎ (c ≡ 45))))

abbrev pub AreParts : Text → Type 0
AreParts [] = Unit {0}
AreParts (c ∷ s) = IsPart c × AreParts s

abbrev pub IsSpelled : Text → Type 0
IsSpelled [] = ⊥
IsSpelled (c ∷ s) = IsAlphanumeric c × (length s ≤ 127) × AreParts s

-- An identifier of the protocol: 1 to 128 of these characters, the first a digit or a letter.
pub record IsIdentifier (s : Text) : Type 0 where
  pub spelled : IsSpelled s

all-AreParts : (s : Text) → (all is_identifier_part s ≡ true) ↔ AreParts s
all-AreParts [] = ((λ _. tt), (λ _. refl))
all-AreParts (c ∷ s) = ground (arith, all-AreParts s)

is_identifier-IsSpelled : (s : Text) → (is_identifier s ≡ true) ↔ IsSpelled s
unfolding is_identifier
is_identifier-IsSpelled [] = ground arith
is_identifier-IsSpelled (c ∷ s) = ground (arith, all-AreParts s)

pub is_identifier_iff : (s : Text) → (is_identifier s ≡ true) ↔ IsIdentifier s
is_identifier_iff s = (
  (λ e. record { spelled = (is_identifier-IsSpelled s).0 e }),
  (λ i. (is_identifier-IsSpelled s).1 i.spelled),
)

-- How long a message of a type may live, in seconds.
abbrev pub seconds_of : MessageType → ℕ
seconds_of lifecycle_event = 86_400
seconds_of pairing_request = 300
seconds_of pairing_decision = 300
seconds_of state_snapshot = 300
seconds_of command_result = 300
seconds_of ack = 300
seconds_of error = 300
seconds_of _ = 30

pub max_ttl-seconds_of : (t : MessageType) → max_ttl t ≡ 1_000 * seconds_of t
max_ttl-seconds_of session_hello = refl
max_ttl-seconds_of pairing_request = refl
max_ttl-seconds_of pairing_decision = refl
max_ttl-seconds_of lifecycle_event = refl
max_ttl-seconds_of state_snapshot = refl
max_ttl-seconds_of output_request = refl
max_ttl-seconds_of output_snapshot = refl
max_ttl-seconds_of remote_command = refl
max_ttl-seconds_of command_result = refl
max_ttl-seconds_of ack = refl
max_ttl-seconds_of error = refl

-- Which message types have which of the fields.
abbrev pub has_event : MessageType → Bool
has_event lifecycle_event = true
has_event _ = false

abbrev pub has_through_event : MessageType → Bool
has_through_event state_snapshot = true
has_through_event _ = false

abbrev pub has_command : MessageType → Bool
has_command remote_command = true
has_command command_result = true
has_command _ = false

abbrev pub has_request : MessageType → Bool
has_request output_request = true
has_request output_snapshot = true
has_request _ = false

abbrev pub has_ack : MessageType → Bool
has_ack ack = true
has_ack _ = false

-- An identifier that is there exactly if the message type has it.
abbrev pub IdentifierIf : Bool → Text → Type 0
IdentifierIf true s = IsIdentifier s
IdentifierIf false s = s ≡ []

abbrev pub PositiveIf : Bool → ℕ → Type 0
PositiveIf true n = 0 < n
PositiveIf false n = n ≡ 0

abbrev pub AnyIf : Bool → ℕ → Type 0
AnyIf true n = Unit {0}
AnyIf false n = n ≡ 0

-- Each field is used by the message types that have it only.
pub record Fits (t : MessageType) (s : Specifics) : Type 0 where
  pub event_id : IdentifierIf (has_event t) s.event_id
  pub event_seq : PositiveIf (has_event t) s.event_seq
  pub through_event_seq : AnyIf (has_through_event t) s.through_event_seq
  pub command_id : IdentifierIf (has_command t) s.command_id
  pub request_id : IdentifierIf (has_request t) s.request_id
  pub ack_seq : PositiveIf (has_ack t) s.ack_seq

is_empty-eq : (s : Text) → is_empty s ≡ true → s ≡ []
is_empty-eq [] e = refl
is_empty-eq (c ∷ s) e = cc

pub check_specifics-Fits :
    (t : MessageType) (s : Specifics) → check_specifics t s ≡ ok tt → Fits t s
unfolding check_specifics
check_specifics-Fits t s e = ground (
  arith,
  is_empty-eq s.event_id,
  is_empty-eq s.command_id,
  is_empty-eq s.request_id,
  is_identifier_iff s.event_id,
  is_identifier_iff s.command_id,
  is_identifier_iff s.request_id,
)

pub Fits-check_specifics :
    (t : MessageType) (s : Specifics) → Fits t s → check_specifics t s ≡ ok tt
unfolding check_specifics
Fits-check_specifics t s f = ground (
  arith,
  f.event_id,
  f.event_seq,
  f.through_event_seq,
  f.command_id,
  f.request_id,
  f.ack_seq,
  is_identifier_iff s.event_id,
  is_identifier_iff s.command_id,
  is_identifier_iff s.request_id,
)

pub message_type_of-name : (t : MessageType) → message_type_of (name_of t) ≡ some t
unfolding message_type_of Text-discrete ℕ_discrete
message_type_of-name session_hello = refl
message_type_of-name pairing_request = refl
message_type_of-name pairing_decision = refl
message_type_of-name lifecycle_event = refl
message_type_of-name state_snapshot = refl
message_type_of-name output_request = refl
message_type_of-name output_snapshot = refl
message_type_of-name remote_command = refl
message_type_of-name command_result = refl
message_type_of-name ack = refl
message_type_of-name error = refl

pub message_type_of-some : (s : Text) (t : MessageType) → message_type_of s ≡ some t → s ≡ name_of t
unfolding message_type_of
message_type_of-some s t e = ground arith

-- A number that is a safe integer, not negative.
abbrev pub IsNatural : Number → ℕ → Type 0
IsNatural x n = (x ≡ integer (pos n)) × (n ≤ 9_007_199_254_740_991)

pub safe_integer-some : (x : Number) (n : ℕ) → safe_integer x ≡ some n → IsNatural x n
safe_integer-some x n e = ground arith

pub IsNatural-safe_integer : (x : Number) (n : ℕ) → IsNatural x n → safe_integer x ≡ some n
IsNatural-safe_integer x n (e, l) = ap safe_integer e ∙ ground arith

identities-All : (ss : List Text) → all is_identifier ss ≡ true → All IsIdentifier ss
identities-All [] e = tt
identities-All (s ∷ ss) e =
    ((is_identifier_iff s).0 (ground arith), identities-All ss (ground arith))

All-identities : (ss : List Text) → All IsIdentifier ss → all is_identifier ss ≡ true
All-identities [] a = refl
All-identities (s ∷ ss) (i, a) = rw ((is_identifier_iff s).1 i) (All-identities ss a)

-- What `specifics_of` reads.
pub record Reads (h : Header) (s : Specifics) : Type 0 where
  pub identities : All IsIdentifier (required_identities h)
  pub event_id : h.event_id ≡ s.event_id
  pub event_seq : IsNatural h.event_seq s.event_seq
  pub through_event_seq : IsNatural h.through_event_seq s.through_event_seq
  pub command_id : h.command_id ≡ s.command_id
  pub request_id : h.request_id ≡ s.request_id
  pub ack_seq : IsNatural h.ack_seq s.ack_seq

-- The chain of `specifics_of`, for any tests and numbers.
specifics-chain :
    (p q r : Bool) (a b c : Option ℕ) (make : ℕ → ℕ → ℕ → Specifics) (s : Specifics)
    → (require p invalid_header
        >> (require q invalid_header
            >> (or_fail invalid_header a >>= λ x. or_fail invalid_header b >>= λ y.
                or_fail invalid_header c >>= λ z. require r invalid_header >> ok (make x y z))))
      ≡ ok s
    → (q ≡ true)
      × (x : ℕ) × (y : ℕ) × (z : ℕ) × (a ≡ some x)
      × (b ≡ some y)
      × (c ≡ some z)
      × (make x y z ≡ s)
specifics-chain true true true (some x) (some y) (some z) make s e =
    (refl, x, y, z, refl, refl, refl, ground arith)
specifics-chain _ _ _ _ _ _ make s e = ground arith

pub specifics_of-Reads : (h : Header) (s : Specifics) → specifics_of h ≡ ok s → Reads h s
unfolding specifics_of
specifics_of-Reads h s e =
    let (i, x, y, z, ex, ey, ez, er) =
      specifics-chain (all (λ s. not (is_empty s)) (required_identities h))
        (all is_identifier (required_identities h))
        (all is_empty_or_identifier (h.event_id ∷ h.command_id ∷ h.request_id ∷ []))
        (safe_integer h.event_seq) (safe_integer h.through_event_seq) (safe_integer h.ack_seq)
        (λ x y z. record {
          event_id = h.event_id;
          event_seq = x;
          through_event_seq = y;
          command_id = h.command_id;
          request_id = h.request_id;
          ack_seq = z;
        })
        s e in
    subst (Reads h) er (record {
      identities = identities-All (required_identities h) i;
      event_id = refl;
      event_seq = safe_integer-some h.event_seq x ex;
      through_event_seq = safe_integer-some h.through_event_seq y ey;
      command_id = refl;
      request_id = refl;
      ack_seq = safe_integer-some h.ack_seq z ez;
    })

not_empty : (ss : List Text) → All IsIdentifier ss → all (λ s. not (is_empty s)) ss ≡ true
unfolding is_identifier
not_empty [] a = refl
not_empty ([] ∷ ss) (i, a) = absurd i.spelled
not_empty ((c ∷ s) ∷ ss) (i, a) = not_empty ss a

IdentifierIf-checked : (b : Bool) (s : Text) → IdentifierIf b s → is_empty_or_identifier s ≡ true
IdentifierIf-checked true s i = ground (arith, (is_identifier_iff s).1 i)
IdentifierIf-checked false [] i = refl
IdentifierIf-checked false (c ∷ s) i = cc

pub Reads-specifics_of :
    (h : Header) (t : MessageType) (s : Specifics) → Fits t s → Reads h s → specifics_of h ≡ ok s
unfolding specifics_of
Reads-specifics_of h t s f r = rw (
  not_empty (required_identities h) r.identities,
  All-identities (required_identities h) r.identities,
  IsNatural-safe_integer h.event_seq s.event_seq r.event_seq,
  IsNatural-safe_integer h.through_event_seq s.through_event_seq r.through_event_seq,
  IsNatural-safe_integer h.ack_seq s.ack_seq r.ack_seq,
  r.event_id,
  r.command_id,
  r.request_id,
  IdentifierIf-checked (has_event t) s.event_id f.event_id,
  IdentifierIf-checked (has_command t) s.command_id f.command_id,
  IdentifierIf-checked (has_request t) s.request_id f.request_id,
)
