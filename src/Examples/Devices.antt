-- ===== src/Examples/Devices.antt =====
-- Examples on pairing requests and challenges, with the toy cryptography.
use herdr_connect.Common.{◌<◌, ◌≡◌, refl, arith, Text, text, Text-discrete, ℕ_discrete, [], length}
use herdr_connect.Json.{str, Fields, end, field}
use herdr_connect.Protocol.{Bytes, Outcome, ok, fail, PairingCandidate}
use herdr_connect.Protocol.Pairing.{
  PairingChallengeBinding, validate_pairing_candidate, pairing_challenge_transcript,
  sign_pairing_challenge, verify_pairing_challenge,
}
use herdr_connect.Protocol.Pairing.Candidates.{Matches, validate_pairing_candidate-Matches}
use herdr_connect.Protocol.Pairing.Transcripts.{
  Signs, IsEncoded, pairing_challenge_transcript-eq, verify-sign_pairing_challenge,
}
use herdr_connect.Examples.Messages.{toy, zeros, spell}

abbrev phone : PairingCandidate
phone = record {
  pairing_id = text "p1";
  device_name = text "Phone";
  device_signing_public_key = zeros 32;
  device_encryption_public_key = zeros 32;
  challenge = zeros 32;
}

abbrev request : Fields
request = field (text "pairing_id") (str (text "p1")) (
    field (text "pairing_secret") (str (zeros 32)) (
      field (text "device_name") (str (text "Phone")) (
        field (text "device_signing_public_key") (str (zeros 32)) (
          field (text "device_encryption_public_key") (str (zeros 32))
            (field (text "challenge") (str (zeros 32)) end)))))

phone_requests :
    validate_pairing_candidate toy (spell request) (zeros 32) (text "p1") (zeros 32) ≡ ok phone
unfolding validate_pairing_candidate Text-discrete ℕ_discrete
phone_requests = refl

validate_pairing_candidate-Matches_example :
    Matches toy (spell request) (zeros 32) (text "p1") (zeros 32) phone
validate_pairing_candidate-Matches_example =
    validate_pairing_candidate-Matches toy (spell request) (zeros 32) (text "p1") (zeros 32) phone
      phone_requests

abbrev binding : PairingChallengeBinding
binding = record {
  pairing_id = text "p1";
  pairing_secret = zeros 32;
  challenge = zeros 32;
  device_signing_public_key = zeros 32;
  device_encryption_public_key = zeros 32;
  installation_signing_public_key = zeros 32;
  installation_encryption_public_key = zeros 32;
  decision = text "accepted";
}

abbrev as_bytes : Outcome Bytes → Bytes
as_bytes (ok b) = b
as_bytes (fail e) = []

abbrev transcript : Bytes
transcript = as_bytes (pairing_challenge_transcript toy binding)

transcript_made : pairing_challenge_transcript toy binding ≡ ok transcript
unfolding pairing_challenge_transcript Text-discrete ℕ_discrete
transcript_made = refl

toy-IsEncoded : (s : Text) → length s < 4_294_967_296 → IsEncoded toy s
toy-IsEncoded s l = record { back = refl; short = l }

pairing_challenge_transcript-eq_example : binding ≡ binding
pairing_challenge_transcript-eq_example =
    pairing_challenge_transcript-eq toy binding binding transcript
      (toy-IsEncoded (text "p1") (omega arith)) (toy-IsEncoded (text "p1") (omega arith))
      (toy-IsEncoded (text "accepted") (omega arith))
      (toy-IsEncoded (text "accepted") (omega arith)) transcript_made transcript_made

toy-Signs : (m : Bytes) → Signs toy (zeros 32) m
toy-Signs m = record { key_length = refl; signature_length = refl; verified = refl }

challenge_signed : sign_pairing_challenge toy binding (zeros 32) ≡ ok (zeros 64)
unfolding sign_pairing_challenge Text-discrete ℕ_discrete
challenge_signed = refl

verify-sign_pairing_challenge_example :
    verify_pairing_challenge toy binding (zeros 32) (zeros 64) ≡ ok tt
verify-sign_pairing_challenge_example =
    verify-sign_pairing_challenge toy binding (zeros 32) (zeros 64) toy-Signs challenge_signed
