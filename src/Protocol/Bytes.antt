-- ===== src/Protocol/Bytes.antt =====
-- packages/protocol/src/index.ts: comparing and joining byte strings.
pub mod Equality
pub mod Framing
use Prim.Native.Nat.{bit_or, bit_xor}
use herdr_connect.Common.{
  ℕ, ◌^◌, ◌/◌, ◌%◌, ◌==◌, text, Bool, true, false, ◌&&◌, List, [], ◌∷◌, ◌++◌, length, if◌then◌else◌,
}
use herdr_connect.Protocol.{Bytes}

-- `left.every((byte, index) => byte === right[index])`; past the end of `right` there is no byte.
abbrev pub every_equal : Bytes → Bytes → Bool
every_equal [] right = true
every_equal (x ∷ left) [] = false
every_equal (x ∷ left) (y ∷ right) = (x == y) && every_equal left right

unfoldable pub equal_bytes : Bytes → Bytes → Bool
equal_bytes left right = (length left == length right) && every_equal left right

-- The loop of `constantTimeEqual`, over byte strings of one length.
unfoldable pub difference_of : ℕ → Bytes → Bytes → ℕ
difference_of difference [] right = difference
difference_of difference (x ∷ left) [] = difference
difference_of difference (x ∷ left) (y ∷ right) =
    difference_of (bit_or difference (bit_xor x y)) left right

unfoldable pub constant_time_equal : Bytes → Bytes → Bool
unfolding difference_of
constant_time_equal left right =
    if length left == length right then difference_of 0 left right == 0 else false

unfoldable pub concatenate : List Bytes → Bytes
concatenate [] = []
concatenate (part ∷ parts) = part ++ concatenate parts

-- `setUint32(0, n, false)`
abbrev pub uint32 : ℕ → Bytes
uint32 n = (n / 2 ^ 24 % 256) ∷ (n / 2 ^ 16 % 256) ∷ (n / 2 ^ 8 % 256) ∷ (n % 256) ∷ []

abbrev pub signature_domain : Bytes
signature_domain = text "Herdr Connect Protocol v1 signature" ++ (0 ∷ [])

unfoldable pub signature_input : Bytes → Bytes → Bytes
unfolding concatenate
signature_input protected_bytes ciphertext =
    concatenate
      (signature_domain ∷ uint32 (length protected_bytes) ∷ protected_bytes ∷ ciphertext ∷ [])
