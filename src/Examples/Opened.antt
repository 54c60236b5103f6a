-- ===== src/Examples/Opened.antt =====
-- Examples on the messages that are sealed and opened, with the toy cryptography.
use herdr_connect.Common.{
  ◌≡◌, refl, sym, ap, subst, ◌∙◌, arith, ◌⊎◌, ◌↔◌, In, Distinct, any, Text, text, ◌is◌,
  Text-discrete, ℕ_discrete, Bool, true, false, none, some, List, [], ◌∷◌, length, pos,
  if◌then◌else◌,
}
use herdr_connect.Json.{Number, integer}
use herdr_connect.Protocol.{
  Bytes, Header, OpenedMessage, ok, fail, protocol, ProtocolErrorCode, expired, error_code_of,
}
use herdr_connect.Protocol.Bytes.Framing.{signature_input-eq}
use herdr_connect.Protocol.Headers.{validate_header}
use herdr_connect.Protocol.Headers.WellFormed.{WellFormed, validate_header-WellFormed}
use herdr_connect.Protocol.Wire.{new_date}
use herdr_connect.Protocol.Sealing.{seal, with_defaults, is_pairing_request}
use herdr_connect.Protocol.Sealing.Sealed.{Addressed, delivered}
use herdr_connect.Protocol.Opening.{OpenRequest, Mark, answered, admit, open_message}
use herdr_connect.Protocol.Opening.Authentic.{Authentic}
use herdr_connect.Protocol.Opening.Failures.{open_message-error_code_of}
use herdr_connect.Protocol.Opening.Safety.{Accepted, open_message-Accepted, open_message-untouched}
use herdr_connect.Protocol.Opening.Replays.{
  Remembers, IsGuarded, open_all, opened_ids, open_all-Distinct,
}
use herdr_connect.Protocol.Opening.RoundTrip.{IsFor, open_message-seal, open_message-seal_new}
use herdr_connect.Examples.Messages.{
  toy, toy-Decodes, hello, sealing, sealed, seal_made, toy-sealed, zeros, dropped,
}

-- A guard over the ids that it has seen.
abbrev has_seen : Text → List Text → Bool
has_seen id g = any (λ s. id is s) g

abbrev remember_id : Text → Number → List Text → Mark × List Text
remember_id id e g = if has_seen id g then (answered false, g) else (answered true, id ∷ g)

In-has_seen : (id : Text) (g : List Text) → In id g → has_seen id g ≡ true
In-has_seen id [] m = absurd m
In-has_seen id (s ∷ g) m = ground (arith, In-has_seen id g)

remember_id-Remembers : Remembers In remember_id
remember_id-Remembers = record {
  fresh = λ id e g g' q m. ground (arith, In-has_seen id g m);
  noted = λ id e g g' q. ground arith;
  kept = λ i id e g m. ground arith;
}

abbrev opening : OpenRequest (List Text)
opening = record {
  envelope = sealed;
  recipient_encryption_private_key = zeros 32;
  sender_signing_public_key = some (zeros 32);
  expected_installation_id = text "ins_1";
  expected_sender_id = text "device_1";
  expected_recipient_id = text "desk";
  now = integer (pos 2_000);
  replay_guard = some remember_id;
  expected_pairing_id = none;
  expected_pairing_secret = none;
  pairing_guard = none;
}

opening-IsGuarded : IsGuarded In opening
opening-IsGuarded = record {
  marking = λ f e. subst (Remembers In) (some-eq remember_id f e) remember_id-Remembers;
  pairing = λ f e. ground arith;
}
  where
    some-eq : (a b : Text → Number → List Text → Mark × List Text) → some a ≡ some b → a ≡ b
    some-eq a b e = ground arith

opening-IsFor : IsFor toy sealing sealed opening
unfolding new_date
opening-IsFor = record {
  envelope = refl;
  keys = record {
    accepted = refl;
    opens = λ ekm sender p aad c e q.
        ap (λ b. some (dropped 16 b)) (sym (toy-sealed sender p aad c e q));
    longer =
        λ ekm sender p aad c e q. ap length (sym (toy-sealed sender p aad c e q)) ∙ omega arith;
  };
  signer = refl;
  signs = λ m. record { key_length = refl; signature_length = refl; verified = refl };
  installation = refl;
  sender = refl;
  recipient = refl;
  created = refl;
  expires = refl;
  begun = refl;
  alive = refl;
}

open_message-seal_example :
    (h : Header) × Addressed toy (zeros 32) (with_defaults hello) h
    × ((g : List Text) → open_message toy opening g ≡ admit toy opening (delivered h) (text "hi") g)
open_message-seal_example =
    open_message-seal toy sealing sealed opening toy-Decodes seal_made opening-IsFor

is_hello : is_pairing_request hello ≡ false
unfolding Text-discrete ℕ_discrete
is_hello = refl

open_message-seal_new_example :
    (h : Header) × Addressed toy (zeros 32) (with_defaults hello) h
    × (open_message toy opening [] ≡ (
      ok (record { header = delivered h; plaintext = text "hi"; pairing_candidate = none }),
      text "m1" ∷ [],
    ))
open_message-seal_new_example =
    open_message-seal_new toy sealing sealed opening remember_id [] (text "m1" ∷ []) toy-Decodes
      seal_made opening-IsFor is_hello refl refl

abbrev opened : OpenedMessage
opened = record {
  header = delivered (with_defaults hello);
  plaintext = text "hi";
  pairing_candidate = none;
}

opened_hello : open_message toy opening [] ≡ (ok opened, text "m1" ∷ [])
unfolding open_message seal Text-discrete ℕ_discrete new_date
opened_hello = refl

open_message-Accepted_example :
    Authentic toy opening opened.header opened.plaintext
    × Accepted toy opening opened [] (text "m1" ∷ [])
open_message-Accepted_example =
    open_message-Accepted toy opening opened [] (text "m1" ∷ []) opened_hello

open_message-untouched_example :
    ((text "m1" ∷ []) ≡ []) ⊎ ((h : Header) × (p : Bytes) × Authentic toy opening h p)
open_message-untouched_example =
    open_message-untouched toy opening (ok opened) [] (text "m1" ∷ []) opened_hello

-- The same request, when the message has expired.
abbrev late : OpenRequest (List Text)
late = record opening { now = integer (pos 31_000) }

late_hello : open_message toy late [] ≡ (fail (protocol expired), [])
unfolding open_message seal Text-discrete ℕ_discrete new_date
late_hello = refl

open_message-error_code_of_example :
    (code : ProtocolErrorCode) × (error_code_of (protocol expired) ≡ some code)
open_message-error_code_of_example =
    open_message-error_code_of toy late [] [] (protocol expired) late_hello

open_all-Distinct_example : Distinct (opened_ids (open_all toy (opening ∷ opening ∷ []) []))
open_all-Distinct_example =
    open_all-Distinct In toy (opening ∷ opening ∷ []) []
      (opening-IsGuarded, (opening-IsGuarded, tt))

validate_header-WellFormed_example :
    (validate_header (with_defaults hello) ≡ ok tt) ↔ WellFormed (with_defaults hello)
validate_header-WellFormed_example = validate_header-WellFormed (with_defaults hello)

abbrev some_bytes : Bytes
some_bytes = 1 ∷ 2 ∷ []

abbrev other_bytes : Bytes
other_bytes = 1 ∷ 3 ∷ []

signature_input-eq_example : (some_bytes ≡ some_bytes) × (other_bytes ≡ other_bytes)
signature_input-eq_example =
    signature_input-eq some_bytes some_bytes other_bytes other_bytes (omega arith) (omega arith)
      refl
