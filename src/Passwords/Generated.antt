-- ===== src/Passwords/Generated.antt =====
-- src/broker/BrokerPassword.cpp: the characters of a generated password.
use launch_as.Base.{
  ℕ, zero, suc, ◌<◌, ◌≡◌, refl, sym, ap, ◌∙◌, subst, inl, inr, true, List, [], ◌∷◌, ◌++◌, arith,
  ltb, ◌==◌, ==_iff, Bool-cases, Wide, length, all_of, mem,
}
use launch_as.Base.{Ensures, holds, Ensures-bind}
use launch_as.Passwords.{
  Reports, uppercase, lowercase, digits, symbols, allowed_characters, password_length, copies,
  alphabets_of_password, get, random_index, select_character, select_characters,
  generate_broker_password,
}
use launch_as.Passwords.Swaps.{
  count, random_index-bounded, Ensures-implies, IsShuffled, shuffle-IsShuffled,
}

-- A character of each alphabet, in their order.
abbrev IsChosen : List Wide → Wide → Type 0
IsChosen [] [] = Unit
IsChosen [] (c ∷ cs) = ⊥
IsChosen (alphabet ∷ alphabets) [] = ⊥
IsChosen (alphabet ∷ alphabets) (c ∷ cs) = (mem c alphabet ≡ true) × IsChosen alphabets cs

get-mem :
    (index : ℕ) (alphabet : Wide)
    → index < length alphabet
    → mem (get index alphabet) alphabet ≡ true
get-mem index [] h = absurd (omega arith)
get-mem zero (c ∷ alphabet) h = ground arith
get-mem (suc index) (c ∷ alphabet) h = ground (arith, get-mem index alphabet (omega arith))

select_character-mem :
    (alphabet : Wide) (reports : Reports)
    → 0 < length alphabet
    → Ensures (λ (c, rest). mem c alphabet ≡ true) (select_character alphabet reports)
unfolding select_character
select_character-mem alphabet reports h =
    Ensures-bind (λ (index, rest). index < length alphabet) (random_index (length alphabet) reports)
      _ (random_index-bounded (length alphabet) reports h)
      (λ (index, rest) e bound. holds (get-mem index alphabet bound))

select_characters-IsChosen :
    (alphabets : List Wide) (reports : Reports)
    → all_of (λ alphabet. ltb 0 (length alphabet)) alphabets ≡ true
    → Ensures (λ (cs, rest). IsChosen alphabets cs) (select_characters alphabets reports)
unfolding select_characters
select_characters-IsChosen [] reports h = holds tt
select_characters-IsChosen (alphabet ∷ alphabets) reports h =
    Ensures-bind (λ (c, rest). mem c alphabet ≡ true) (select_character alphabet reports) _
      (select_character-mem alphabet reports (ground arith))
      (λ (c, behind) e chosen.
        Ensures-bind (λ (cs, rest). IsChosen alphabets cs) (select_characters alphabets behind) _
          (select_characters-IsChosen alphabets behind (ground arith))
          (λ (cs, rest) e others. holds (chosen, others)))

mem-subset :
    (c : ℕ) (alphabet more : Wide)
    → all_of (λ c. mem c more) alphabet ≡ true
    → mem c alphabet ≡ true
    → mem c more ≡ true
mem-subset c [] more h k = cc
mem-subset c (d ∷ alphabet) more h k = elim (Bool-cases (c == d)) [
  | inl e ↦
      let same : d ≡ c = omega (arith, (==_iff c d).0 e) in
      subst (λ x. mem x more ≡ true) same (ground arith)
  | inr e ↦ ground (arith, mem-subset c alphabet more)
]

IsChosen-count :
    (alphabets : List Wide) (cs more : Wide)
    → all_of (λ alphabet. all_of (λ c. mem c more) alphabet) alphabets ≡ true
    → IsChosen alphabets cs
    → count (λ c. mem c more) cs ≡ length alphabets
IsChosen-count [] [] more h chosen = refl
IsChosen-count [] (c ∷ cs) more h chosen = absurd chosen
IsChosen-count (alphabet ∷ alphabets) [] more h chosen = absurd chosen
IsChosen-count (alphabet ∷ alphabets) (c ∷ cs) more h (chosen, others) =
    let here = mem-subset c alphabet more (ground arith) chosen in
    rw here (omega (arith, IsChosen-count alphabets cs more (ground arith) others))

IsChosen-length :
    (alphabets : List Wide) (cs : Wide) → IsChosen alphabets cs → length cs ≡ length alphabets
IsChosen-length [] [] chosen = refl
IsChosen-length [] (c ∷ cs) chosen = absurd chosen
IsChosen-length (alphabet ∷ alphabets) [] chosen = absurd chosen
IsChosen-length (alphabet ∷ alphabets) (c ∷ cs) (chosen, others) =
    ap suc (IsChosen-length alphabets cs others)

-- A password has 32 allowed characters and one of each class.
pub record IsPassword (password : Wide) : Type 0 where
  pub whole : length password ≡ password_length
  pub allowed : count (λ c. mem c allowed_characters) password ≡ password_length
  pub has_uppercase : 0 < count (λ c. mem c uppercase) password
  pub has_lowercase : 0 < count (λ c. mem c lowercase) password
  pub has_digit : 0 < count (λ c. mem c digits) password
  pub has_symbol : 0 < count (λ c. mem c symbols) password

-- The alphabet behind the ones in front has its character.
IsChosen-has :
    (front back : List Wide) (alphabet cs : Wide)
    → IsChosen (front ++ alphabet ∷ back) cs
    → 0 < count (λ c. mem c alphabet) cs
IsChosen-has [] back alphabet [] chosen = absurd chosen
IsChosen-has [] back alphabet (c ∷ cs) (chosen, others) = rw chosen (omega arith)
IsChosen-has (first ∷ front) back alphabet [] chosen = absurd chosen
IsChosen-has (first ∷ front) back alphabet (c ∷ cs) (chosen, others) =
    omega (arith, IsChosen-has front back alphabet cs others)

chosen-IsPassword :
    (cs after : Wide) → IsChosen alphabets_of_password cs → IsShuffled cs after → IsPassword after
chosen-IsPassword cs after chosen shuffled =
    let counted = shuffled.same_count in
    let free = copies 28 allowed_characters in
    record {
      whole = shuffled.same_length ∙ IsChosen-length alphabets_of_password cs chosen;
      allowed =
          counted (λ c. mem c allowed_characters)
          ∙ IsChosen-count alphabets_of_password cs allowed_characters refl chosen;
      has_uppercase =
          subst (λ n. 0 < n) (sym (counted (λ c. mem c uppercase)))
            (IsChosen-has [] (lowercase ∷ digits ∷ symbols ∷ free) uppercase cs chosen);
      has_lowercase =
          subst (λ n. 0 < n) (sym (counted (λ c. mem c lowercase)))
            (IsChosen-has (uppercase ∷ []) (digits ∷ symbols ∷ free) lowercase cs chosen);
      has_digit =
          subst (λ n. 0 < n) (sym (counted (λ c. mem c digits)))
            (IsChosen-has (uppercase ∷ lowercase ∷ []) (symbols ∷ free) digits cs chosen);
      has_symbol =
          subst (λ n. 0 < n) (sym (counted (λ c. mem c symbols)))
            (IsChosen-has (uppercase ∷ lowercase ∷ digits ∷ []) free symbols cs chosen);
    }

pub generate-IsPassword :
    (reports : Reports)
    → Ensures (λ (password, rest). IsPassword password) (generate_broker_password reports)
unfolding generate_broker_password
generate-IsPassword reports =
    Ensures-bind (λ (cs, rest). IsChosen alphabets_of_password cs)
      (select_characters alphabets_of_password reports) _
      (select_characters-IsChosen alphabets_of_password reports refl)
      (λ (cs, behind) e chosen.
        Ensures-implies _ (λ (after, rest). chosen-IsPassword cs after chosen)
          (shuffle-IsShuffled 31 cs behind
            (omega (arith, IsChosen-length alphabets_of_password cs chosen))))
