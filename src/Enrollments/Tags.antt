-- ===== src/Enrollments/Tags.antt =====
-- src/broker/BrokerEnrollmentStore.cpp: ConstantTimeEqual.
use launch_as.Base.{
  ℕ, zero, suc, ◌/◌, ◌%◌, ◌≤◌, bit_or, ◌≡◌, refl, sym, ap, ◌∙◌, subst, ◌↔◌, true, [], ◌∷◌, arith,
  Bytes, length,
}
use Prim.Native.Nat.{bit_xor, differ, max, digits, bit_or-bitwise, bit_xor-bitwise}
use launch_as.Enrollments.{difference_of, constant_time_equal}

differ-0 : (a b : ℕ) → differ a b ≡ 0 → a ≡ b
differ-0 zero b h = sym h
differ-0 (suc a) zero h = ground arith
differ-0 (suc a) (suc b) h = ap suc (differ-0 a b h)

abbrev xor_digits : ℕ → ℕ → ℕ → ℕ
xor_digits n a b = digits (λ b. b) differ n a b

abbrev or_digits : ℕ → ℕ → ℕ → ℕ
or_digits n a b = digits (λ b. b) max n a b

xor_digits-0 : (n a b : ℕ) → a ≤ n → xor_digits n a b ≡ 0 → a ≡ b
xor_digits-0 zero zero b le h = sym h
xor_digits-0 zero (suc a) b le h = absurd (omega arith)
xor_digits-0 (suc n) zero b le h = sym h
xor_digits-0 (suc n) (suc a) b le h =
    let high = xor_digits-0 n (suc a / 2) (b / 2) (omega arith) (omega arith) in
    let low = differ-0 (suc a % 2) (b % 2) (omega arith) in omega (arith, high, low)

or_digits-0 : (n a b : ℕ) → a ≤ n → or_digits n a b ≡ 0 → (a ≡ 0) × (b ≡ 0)
or_digits-0 zero zero b le h = (refl, h)
or_digits-0 zero (suc a) b le h = absurd (omega arith)
or_digits-0 (suc n) zero b le h = (refl, h)
or_digits-0 (suc n) (suc a) b le h =
    let high = or_digits-0 n (suc a / 2) (b / 2) (omega arith) (omega arith) in
    (omega (arith, high.0), omega (arith, high.1))

bit_xor-0 : (a b : ℕ) → bit_xor a b ≡ 0 → a ≡ b
bit_xor-0 a b h = xor_digits-0 a a b (omega arith) (omega (arith, bit_xor-bitwise a b))

bit_or-0 : (a b : ℕ) → bit_or a b ≡ 0 → (a ≡ 0) × (b ≡ 0)
bit_or-0 a b h = or_digits-0 a a b (omega arith) (omega (arith, bit_or-bitwise a b))

differ-same : (a : ℕ) → differ a a ≡ 0
differ-same zero = refl
differ-same (suc a) = differ-same a

xor_digits-same : (n a : ℕ) → a ≤ n → xor_digits n a a ≡ 0
xor_digits-same zero zero le = refl
xor_digits-same zero (suc a) le = absurd (omega arith)
xor_digits-same (suc n) zero le = refl
xor_digits-same (suc n) (suc a) le =
    omega (arith, xor_digits-same n (suc a / 2) (omega arith), differ-same (suc a % 2))

bit_or-same : (d : ℕ) → d ≡ 0 → bit_or d 0 ≡ 0
bit_or-same d h = subst (λ d. bit_or d 0 ≡ 0) (sym h) refl

bit_xor-same : (a : ℕ) → bit_xor a a ≡ 0
bit_xor-same a = omega (arith, bit_xor-bitwise a a, xor_digits-same a a (omega arith))

difference_of-0 :
    (difference : ℕ) (a b : Bytes)
    → length a ≡ length b
    → difference_of difference a b ≡ 0
    → (difference ≡ 0) × (a ≡ b)
unfolding difference_of
difference_of-0 difference [] [] e h = (h, refl)
difference_of-0 difference [] (y ∷ b) e h = ground arith
difference_of-0 difference (x ∷ a) [] e h = ground arith
difference_of-0 difference (x ∷ a) (y ∷ b) e h =
    let rest = difference_of-0 (bit_or difference (bit_xor x y)) a b (omega (arith, e)) h in
    let both = bit_or-0 difference (bit_xor x y) rest.0 in
    let first = bit_xor-0 x y both.1 in let same = rest.1 in (both.0, cc)

difference_of-same :
    (difference : ℕ) (a : Bytes) → difference ≡ 0 → difference_of difference a a ≡ 0
unfolding difference_of
difference_of-same difference [] h = h
difference_of-same difference (x ∷ a) h =
    difference_of-same (bit_or difference (bit_xor x x)) a
      (ap (bit_or difference) (bit_xor-same x) ∙ bit_or-same difference h)

-- Two tags of one length are found equal exactly if they are.
pub constant_time_equal_iff :
    (a b : Bytes) → length a ≡ length b → (constant_time_equal a b ≡ true) ↔ (a ≡ b)
unfolding constant_time_equal
constant_time_equal_iff a b e = (
  λ h. (difference_of-0 0 a b e (ground arith)).1,
  λ same.
      let zero' : difference_of 0 a b ≡ 0 =
        subst (λ t. difference_of 0 a t ≡ 0) same (difference_of-same 0 a refl) in
      ground arith,
)
