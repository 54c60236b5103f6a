-- ===== src/Protocol/Bytes/Framing.antt =====
-- packages/protocol/src/index.ts: the framing of what is signed, parts marked off by their lengths.
use mathlib.Core.List.{append-nil}
use herdr_connect.Common.{ℕ, ◌/◌, ◌%◌, ◌^◌, ◌<◌, ◌≡◌, refl, sym, ◌∙◌, arith, [], ◌∷◌, ◌++◌, length}
use herdr_connect.Protocol.{Bytes}
use herdr_connect.Protocol.Bytes.{concatenate, uint32, signature_domain, signature_input}

∷-eq : (x y : ℕ) (a b : Bytes) → (x ∷ a) ≡ (y ∷ b) → (x ≡ y) × (a ≡ b)
∷-eq x y a b e = ground arith

pub append-eq : (x y a b : Bytes) → length x ≡ length y → (x ++ a) ≡ (y ++ b) → (x ≡ y) × (a ≡ b)
append-eq [] [] a b l e = (refl, e)
append-eq [] (z ∷ y) a b l e = absurd (omega (arith, l))
append-eq (w ∷ x) [] a b l e = absurd (omega (arith, l))
append-eq (w ∷ x) (z ∷ y) a b l e = ground (arith, append-eq x y a b)

-- The four bytes of a length below 2 ^ 32 are its digits to the base 256.
digits-eq :
    (n m : ℕ)
    → n < 2 ^ 32
    → m < 2 ^ 32
    → n / 2 ^ 24 % 256 ≡ m / 2 ^ 24 % 256
    → n / 2 ^ 16 % 256 ≡ m / 2 ^ 16 % 256
    → n / 2 ^ 8 % 256 ≡ m / 2 ^ 8 % 256
    → n % 256 ≡ m % 256
    → n ≡ m
digits-eq n m l k e₁ e₂ e₃ e₄ = omega arith

uint32-eq : (n m : ℕ) → n < 2 ^ 32 → m < 2 ^ 32 → uint32 n ≡ uint32 m → n ≡ m
uint32-eq n m l k e = ground (arith, digits-eq n m)

-- One part with its length before it.
pub uint32-append-eq :
    (x y a b : Bytes)
    → length x < 2 ^ 32
    → length y < 2 ^ 32
    → (uint32 (length x) ++ (x ++ a)) ≡ (uint32 (length y) ++ (y ++ b))
    → (x ≡ y) × (a ≡ b)
uint32-append-eq x y a b l k e =
    let (lengths, rests) =
      append-eq (uint32 (length x)) (uint32 (length y)) (x ++ a) (y ++ b) refl e in
    append-eq x y a b (uint32-eq (length x) (length y) l k lengths) rests

-- What is signed tells the header from the ciphertext: two signature inputs are the same only if the
-- headers (shorter than 2 ^ 32 bytes) and the ciphertexts are.
pub signature_input-eq :
    (p q c d : Bytes)
    → length p < 2 ^ 32
    → length q < 2 ^ 32
    → signature_input p c ≡ signature_input q d
    → (p ≡ q) × (c ≡ d)
unfolding signature_input concatenate
signature_input-eq p q c d l k e =
    let (_, framed) =
      append-eq signature_domain signature_domain (uint32 (length p) ++ (p ++ (c ++ [])))
        (uint32 (length q) ++ (q ++ (d ++ []))) refl e in
    let (headers, texts) = uint32-append-eq p q (c ++ []) (d ++ []) l k framed in
    (headers, sym (append-nil c) ∙ texts ∙ append-nil d)
