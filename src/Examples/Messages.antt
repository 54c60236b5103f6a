-- ===== src/Examples/Messages.antt =====
-- Runs of the protocol with toy encodings and toy cryptography: bytes are their own base64 and their
-- own text, a ciphertext is the plaintext after 16 zeros, and a signature is 64 zeros.
use herdr_connect.Common.{
  ℕ, zero, suc, ◌≤◌, ◌≡◌, refl, ap, ◌∙◌, arith, Text, text, Text-discrete, ℕ_discrete, true, Option,
  none, some, [], ◌∷◌, ◌++◌, length, pos, negsuc,
}
use herdr_connect.Json.{
  Number, integer, dyadic, infinite, nan, Json, null, bool, arr, num, str, obj, Fields, end, field,
}
use herdr_connect.Protocol.{Bytes, Header, Envelope, Outside, SenderContext, Outcome, ok, fail}
use herdr_connect.Protocol.Wire.{ProtectedHeader, protected_fields, as_safe_integer}
use herdr_connect.Protocol.Sealing.{SealRequest, seal}
use herdr_connect.Protocol.Sealing.Sealed.{AreSafe}
use herdr_connect.Protocol.Opening.RoundTrip.{Decodes}

-- A text of an object whose values are strings and natural numbers.
abbrev pub spell : Fields → Text
spell end = 0 ∷ []
spell (field k (str s) fs) = 1 ∷ length k ∷ (k ++ (length s ∷ (s ++ spell fs)))
spell (field k (num (integer (pos n))) fs) = 2 ∷ length k ∷ (k ++ (n ∷ spell fs))
spell (field k _ fs) = 0 ∷ []

abbrev pub taken : ℕ → Text → Text
taken zero s = []
taken (suc n) [] = []
taken (suc n) (c ∷ s) = c ∷ taken n s

abbrev pub dropped : ℕ → Text → Text
dropped zero s = s
dropped (suc n) [] = []
dropped (suc n) (c ∷ s) = dropped n s

abbrev pub with_field : Text → Json → Option Fields → Option Fields
with_field k v none = none
with_field k v (some fs) = some (field k v fs)

-- A value after its key, and the fields after it.
abbrev pub read_string : Text → Text → (Text → Option Fields) → Option Fields
read_string k [] rest = none
read_string k (m ∷ t) rest = with_field k (str (taken m t)) (rest (dropped m t))

abbrev pub read_number : Text → Text → (Text → Option Fields) → Option Fields
read_number k [] rest = none
read_number k (m ∷ t) rest = with_field k (num (integer (pos m))) (rest t)

-- At most as many fields are read as the first argument says.
abbrev pub read : ℕ → Text → Option Fields
read zero s = none
read (suc n) (suc zero ∷ l ∷ s) = read_string (taken l s) (dropped l s) (read n)
read (suc n) (suc (suc zero) ∷ l ∷ s) = read_number (taken l s) (dropped l s) (read n)
read (suc n) _ = some end

abbrev IsPlainValue : Json → Type 0
IsPlainValue (str s) = Unit {0}
IsPlainValue (num x) = (n : ℕ) × (x ≡ integer (pos n))
IsPlainValue _ = ⊥

abbrev IsPlain : Fields → Type 0
IsPlain end = Unit {0}
IsPlain (field k v fs) = IsPlainValue v × IsPlain fs

taken-append : (k s : Text) → taken (length k) (k ++ s) ≡ k
taken-append [] s = refl
taken-append (c ∷ k) s = ap (λ t. c ∷ t) (taken-append k s)

dropped-append : (k s : Text) → dropped (length k) (k ++ s) ≡ s
dropped-append [] s = refl
dropped-append (c ∷ k) s = dropped-append k s

abbrev size : Fields → ℕ
size end = 1
size (field k v fs) = suc (size fs)

read-spell : (n : ℕ) (fs : Fields) → IsPlain fs → size fs ≤ n → read n (spell fs) ≡ some fs
read-spell (suc n) end p l = refl
read-spell (suc n) (field k (str s) fs) (_, p) l = rw (
  dropped-append k (length s ∷ (s ++ spell fs)),
  taken-append k (length s ∷ (s ++ spell fs)),
  taken-append s (spell fs),
  dropped-append s (spell fs),
  read-spell n fs p (omega arith),
)
read-spell (suc n) (field k (num x) fs) ((m, e), p) l = rw (
  e,
  dropped-append k (m ∷ spell fs),
  taken-append k (m ∷ spell fs),
  read-spell n fs p (omega arith),
)
read-spell (suc n) (field k null fs) (p, _) l = absurd p
read-spell (suc n) (field k (bool b) fs) (p, _) l = absurd p
read-spell (suc n) (field k (arr b) fs) (p, _) l = absurd p
read-spell (suc n) (field k (obj b) fs) (p, _) l = absurd p
read-spell zero end p l = absurd (omega arith)
read-spell zero (field k v fs) p l = absurd (omega arith)

is_natural :
    (x : Number) → as_safe_integer (some (num x)) ≡ some x → (n : ℕ) × (x ≡ integer (pos n))
is_natural (integer (pos n)) e = (n, refl)
is_natural (integer (negsuc n)) e = ground arith
is_natural (dyadic z k) e = ground arith
is_natural (infinite b) e = ground arith
is_natural nan e = ground arith

protected_fields-IsPlain : (p : ProtectedHeader) → AreSafe p → IsPlain (protected_fields p)
protected_fields-IsPlain p s = (
  is_natural p.v s.v,
  (
    tt,
    (
      tt,
      (
        tt,
        (
          tt,
          (
            tt,
            (
              tt,
              (
                tt,
                (
                  tt,
                  (
                    tt,
                    (
                      tt,
                      (
                        is_natural p.event_seq s.event_seq,
                        (
                          is_natural p.through_event_seq s.through_event_seq,
                          (
                            tt,
                            (
                              tt,
                              (
                                is_natural p.ack_seq s.ack_seq,
                                (
                                  is_natural p.created_at_ms s.created_at_ms,
                                  (is_natural p.expires_at_ms s.expires_at_ms, (tt, tt)),
                                ),
                              ),
                            ),
                          ),
                        ),
                      ),
                    ),
                  ),
                ),
              ),
            ),
          ),
        ),
      ),
    ),
  ),
)

abbrev pub as_object : Option Fields → Option Json
as_object none = none
as_object (some fs) = some (obj fs)

abbrev pub stringify : Json → Text
stringify (obj fs) = spell fs
stringify _ = []

abbrev pub zeros : ℕ → Bytes
zeros zero = []
zeros (suc n) = 0 ∷ zeros n

abbrev pub toy_sender : SenderContext
toy_sender = record { enc = 7 ∷ []; encrypt = λ plaintext aad. some (zeros 16 ++ plaintext) }

some-eq {ℓ} : {A : Type ℓ} (a b : A) → some a ≡ some b → a ≡ b
some-eq a b e = ground arith

-- All that the toy seals is the plaintext after 16 zeros.
pub toy-sealed :
    (sender : SenderContext) (p aad c : Bytes)
    → some toy_sender ≡ some sender
    → sender.encrypt p aad ≡ some c
    → (zeros 16 ++ p) ≡ c
toy-sealed sender p aad c e q =
    some-eq (zeros 16 ++ p) c (ap (λ t. t.encrypt p aad) (some-eq toy_sender sender e) ∙ q)

abbrev pub toy : Outside
toy = record {
  json = record { parse = λ s. as_object (read 30 s); stringify = stringify };
  encode_text = λ s. s;
  decode_text = λ b. some b;
  encode_base64 = λ b. b;
  decode_base64 = λ s. some s;
  sign = λ m seed. zeros 64;
  verify = λ s m key. some true;
  signing_public_key = λ seed. seed;
  private_key_size = 32;
  accepts_public_key = λ key. true;
  accepts_private_key = λ key. true;
  create_sender = λ key info ekm. some toy_sender;
  open_sealed = λ key enc info c aad. some (dropped 16 c);
}

pub toy-Decodes : Decodes toy
toy-Decodes = record {
  base64 = λ b. refl;
  stringified = λ j. refl;
  headers = λ p s.
      ap as_object
        (read-spell 30 (protected_fields p) (protected_fields-IsPlain p s) (omega arith));
}

abbrev pub hello : Header
hello = record {
  version = none;
  suite = none;
  message_type = text "session_hello";
  installation_id = text "ins_1";
  sender_id = text "device_1";
  sender_signing_key_id = text "k1";
  sender_signing_public_key = none;
  recipient_id = text "desk";
  recipient_encryption_key_id = text "k2";
  message_id = text "m1";
  event_id = [];
  event_seq = integer (pos 0);
  through_event_seq = integer (pos 0);
  command_id = [];
  request_id = [];
  ack_seq = integer (pos 0);
  created_at = integer (pos 1_000);
  expires_at = integer (pos 31_000);
}

abbrev pub sealing : SealRequest
sealing = record {
  header = hello;
  plaintext = text "hi";
  recipient_encryption_public_key = zeros 32;
  sender_signing_private_key = zeros 32;
  random_source = none;
}

-- What `seal` gives, or nothing.
abbrev pub made : Outcome Envelope → Envelope
made (ok env) = env
made (fail e) = record { protected = []; ciphertext = []; signature = [] }

abbrev pub sealed : Envelope
sealed = made (seal toy sealing)

pub seal_made : seal toy sealing ≡ ok sealed
unfolding seal Text-discrete ℕ_discrete
seal_made = refl
