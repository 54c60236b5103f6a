-- ===== src/Protocol/Bytes/Equality.antt =====
-- packages/protocol/src/index.ts: `constantTimeEqual`, which collects the differences of all places,
-- and `equalBytes`, which stops at the first one.
use Prim.Native.Nat.{bit_or, bit_xor, bit_or-bitwise, bit_xor-bitwise, digits, differ, max}
use herdr_connect.Common.{
  ℕ, zero, suc, ◌/◌, ◌%◌, ◌≤◌, ◌≡◌, refl, sym, ◌∙◌, subst, ◌↔◌, arith, true, [], ◌∷◌, length,
}
use herdr_connect.Protocol.{Bytes}
use herdr_connect.Protocol.Bytes.{every_equal, equal_bytes, difference_of, constant_time_equal}

digits-differ-zero : (n a b : ℕ) → a ≤ n → digits (λ b. b) differ n a b ≡ 0 → a ≡ b
digits-differ-zero zero zero b h e = omega (arith, e)
digits-differ-zero zero (suc a) b h e = absurd (omega arith)
digits-differ-zero (suc n) zero b h e = omega (arith, e)
digits-differ-zero (suc n) (suc a) b h e = ground (arith, digits-differ-zero n (suc a / 2) (b / 2))

differ_self : (x : ℕ) → differ x x ≡ 0
differ_self zero = refl
differ_self (suc x) = differ_self x

digits-differ_self : (n a : ℕ) → a ≤ n → digits (λ b. b) differ n a a ≡ 0
digits-differ_self zero zero h = refl
digits-differ_self zero (suc a) h = absurd (omega arith)
digits-differ_self (suc n) zero h = refl
digits-differ_self (suc n) (suc a) h =
    ground (arith, digits-differ_self n (suc a / 2), differ_self (suc a % 2))

digits-max-zero : (n a b : ℕ) → a ≤ n → digits (λ b. b) max n a b ≡ 0 → (a ≡ 0) × (b ≡ 0)
digits-max-zero zero zero b h e = (refl, e)
digits-max-zero zero (suc a) b h e = absurd (omega arith)
digits-max-zero (suc n) zero b h e = (refl, e)
digits-max-zero (suc n) (suc a) b h e = ground (arith, digits-max-zero n (suc a / 2) (b / 2))

bit_xor-zero : (x y : ℕ) → bit_xor x y ≡ 0 → x ≡ y
bit_xor-zero x y e = digits-differ-zero x x y (omega arith) (sym (bit_xor-bitwise x y) ∙ e)

bit_xor_self : (x : ℕ) → bit_xor x x ≡ 0
bit_xor_self x = bit_xor-bitwise x x ∙ digits-differ_self x x (omega arith)

bit_or-zero : (x y : ℕ) → bit_or x y ≡ 0 → (x ≡ 0) × (y ≡ 0)
bit_or-zero x y e = digits-max-zero x x y (omega arith) (sym (bit_or-bitwise x y) ∙ e)

bit_or-zeros : bit_or 0 0 ≡ 0
bit_or-zeros = bit_or-bitwise 0 0

-- The collected difference of byte strings of one length is 0 where it was 0 and they are the same.
difference_of-zero :
    (d : ℕ) (a b : Bytes) → length a ≡ length b → difference_of d a b ≡ 0 → (d ≡ 0) × (a ≡ b)
unfolding difference_of
difference_of-zero d [] [] l e = (e, refl)
difference_of-zero d [] (y ∷ b) l e = absurd (omega (arith, l))
difference_of-zero d (x ∷ a) [] l e = absurd (omega (arith, l))
difference_of-zero d (x ∷ a) (y ∷ b) l e = ground (
  arith,
  difference_of-zero (bit_or d (bit_xor x y)) a b,
  bit_or-zero d (bit_xor x y),
  bit_xor-zero x y,
)

difference_of_self : (a : Bytes) → difference_of 0 a a ≡ 0
unfolding difference_of
difference_of_self [] = refl
difference_of_self (x ∷ a) = rw (bit_xor_self x, bit_or-zeros, difference_of_self a)

every_equal_refl : (a : Bytes) → every_equal a a ≡ true
every_equal_refl [] = refl
every_equal_refl (x ∷ a) = ground (arith, every_equal_refl a)

every_equal-eq : (a b : Bytes) → length a ≡ length b → every_equal a b ≡ true → a ≡ b
every_equal-eq [] [] l e = refl
every_equal-eq [] (y ∷ b) l e = absurd (omega (arith, l))
every_equal-eq (x ∷ a) [] l e = absurd (omega (arith, l))
every_equal-eq (x ∷ a) (y ∷ b) l e = ground (arith, every_equal-eq a b)

-- The comparison without an early exit answers true exactly where the two byte strings are the same.
pub constant_time_equal-eq : (a b : Bytes) → (constant_time_equal a b ≡ true) ↔ (a ≡ b)
unfolding constant_time_equal
constant_time_equal-eq a b = (
  λ e. ground (arith, difference_of-zero 0 a b),
  λ e. subst (λ c. constant_time_equal a c ≡ true) e (ground (arith, difference_of_self a)),
)

-- The comparison that stops at the first difference agrees with the one that does not.
pub equal_bytes-constant_time_equal : (a b : Bytes) → equal_bytes a b ≡ constant_time_equal a b
unfolding equal_bytes constant_time_equal
equal_bytes-constant_time_equal a b =
    ground (
      arith,
      every_equal-eq a b,
      every_equal_refl a,
      difference_of-zero 0 a b,
      difference_of_self a,
    )
