-- ===== src/Passwords/Swaps.antt =====
-- src/broker/BrokerPassword.cpp: what the swaps of the characters keep.
use launch_as.Base.{
  Ensures, holds, no_value, no_end, Ensures-if, Ensures-bind, ℕ, zero, suc, ◌+◌, ◌-◌, ◌%◌, ◌^◌, ◌<◌,
  ◌≡◌, refl, ap, ◌∙◌, Bool, none, some, [], ◌∷◌, arith, ltb, if◌then◌else◌, Wide, length, Outcome,
}
use native.Mathlib.Nat.{mod-lt}
use launch_as.Passwords.{Reports, random_index, get, set, swap, shuffle}

abbrev pub one_of : Bool → ℕ
one_of b = if b then 1 else 0

-- How many characters satisfy `p`.
abbrev pub count : (ℕ → Bool) → Wide → ℕ
count p [] = 0
count p (c ∷ cs) = one_of (p c) + count p cs

count-set :
    (p : ℕ → Bool) (index value : ℕ) (cs : Wide)
    → index < length cs
    → count p (set index value cs) + one_of (p (get index cs)) ≡ count p cs + one_of (p value)
count-set p index value [] h = absurd (omega arith)
count-set p zero value (c ∷ cs) h = omega arith
count-set p (suc index) value (c ∷ cs) h = omega (arith, count-set p index value cs (omega arith))

length-set : (index value : ℕ) (cs : Wide) → length (set index value cs) ≡ length cs
length-set index value [] = refl
length-set zero value (c ∷ cs) = refl
length-set (suc index) value (c ∷ cs) = ap suc (length-set index value cs)

-- A character that is written elsewhere, or over itself, is still there.
get-set : (i j : ℕ) (cs : Wide) → get i (set j (get i cs) cs) ≡ get i cs
get-set i j [] = refl
get-set zero zero (c ∷ cs) = refl
get-set zero (suc j) (c ∷ cs) = refl
get-set (suc i) zero (c ∷ cs) = refl
get-set (suc i) (suc j) (c ∷ cs) = get-set i j cs

count-swap :
    (p : ℕ → Bool) (i j : ℕ) (cs : Wide)
    → i < length cs
    → j < length cs
    → count p (swap i j cs) ≡ count p cs
unfolding swap
count-swap p i j cs hi hj =
    let inner = count-set p j (get i cs) cs hj in
    let longer : i < length (set j (get i cs) cs) = omega (arith, length-set j (get i cs) cs) in
    let outer = count-set p i (get j cs) (set j (get i cs) cs) longer in
    let kept : one_of (p (get i (set j (get i cs) cs))) ≡ one_of (p (get i cs)) =
      ap (λ c. one_of (p c)) (get-set i j cs) in
    omega (arith, inner, outer, kept)

length-swap : (i j : ℕ) (cs : Wide) → length (swap i j cs) ≡ length cs
unfolding swap
length-swap i j cs = length-set i (get j cs) (set j (get i cs) cs) ∙ length-set j (get i cs) cs

-- An index is below its bound.
pub random_index-bounded :
    (upper_bound : ℕ) (reports : Reports)
    → 0 < upper_bound
    → Ensures (λ (index, rest). index < upper_bound) (random_index upper_bound reports)
unfolding random_index
random_index-bounded upper_bound [] h = no_end
random_index-bounded upper_bound (none ∷ reports) h = no_value
random_index-bounded upper_bound (some random ∷ reports) h =
    Ensures-if (ltb random (2 ^ 32 - 2 ^ 32 % upper_bound)) (λ e. holds (mod-lt random h))
      (λ e. random_index-bounded upper_bound reports h)

pub Ensures-implies :
    {A : Type 0} {P Q : A → Type 0} (r : Outcome A)
    → ((a : A) → P a → Q a)
    → Ensures P r
    → Ensures Q r
Ensures-implies r f (holds h) = holds (f _ h)
Ensures-implies r f no_value = no_value
Ensures-implies r f no_end = no_end

-- The characters are those of before, in another order.
pub record IsShuffled (before after : Wide) : Type 0 where
  pub same_length : length after ≡ length before
  pub same_count : (p : ℕ → Bool) → count p after ≡ count p before

IsShuffled-swap :
    (i j : ℕ) (cs after : Wide)
    → i < length cs
    → j < length cs
    → IsShuffled (swap i j cs) after
    → IsShuffled cs after
IsShuffled-swap i j cs after hi hj h = record {
  same_length = h.same_length ∙ length-swap i j cs;
  same_count = λ p. h.same_count p ∙ count-swap p i j cs hi hj;
}

pub shuffle-IsShuffled :
    (index : ℕ) (cs : Wide) (reports : Reports)
    → index < length cs
    → Ensures (λ (after, rest). IsShuffled cs after) (shuffle index cs reports)
unfolding shuffle
shuffle-IsShuffled zero cs reports h = holds (record { same_length = refl; same_count = λ p. refl })
shuffle-IsShuffled (suc index) cs reports h =
    Ensures-bind (λ (j, rest). j < suc (suc index)) (random_index (suc (suc index)) reports) _
      (random_index-bounded (suc (suc index)) reports (omega arith))
      (λ (j, rest) e bound.
        Ensures-implies _
          (λ (after, rest'). IsShuffled-swap (suc index) j cs after h (omega (arith, bound, h)))
          (shuffle-IsShuffled index (swap (suc index) j cs) rest
            (omega (arith, h, length-swap (suc index) j cs))))
