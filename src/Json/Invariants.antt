-- ===== src/Json/Invariants.antt =====
-- What ReadObject keeps, if every member keeps it, and what ReadStringArray returns.
use launch_as.Base.{
  ℕ, zero, suc, ◌≤◌, ◌≡◌, refl, Bool, true, not, ◌&&◌, Option, none, some, List, [], ◌∷◌, ◌++◌,
  arith, ◌==◌, Bytes, Wide, length, all_of, length-append, Outcome, ok,
}
use launch_as.Utf8.{Win32Text}
use launch_as.Json.{string, consume}
use launch_as.Json.Objects.{members, read_object, elements, read_string_array, maximum_arguments}
use launch_as.Base.{
  Ensures, holds, no_end, Ensures-guard, Ensures-any, Ensures-or_reject, Ensures-bind,
}

-- The value that a reader returned, without the rest.
abbrev pub Value {ℓ κ} : {A : Type ℓ} → (A → Type κ) → A × Bytes → Type κ
Value P p = P p.0

closes {ℓ κ} :
    {A : Type ℓ} {P : A × Bytes → Type κ} (o : Option Bytes) (a : A) (more : Outcome (A × Bytes))
    → ((rest : Bytes) → P (a, rest))
    → Ensures P more
    → Ensures P (elim o [ some rest ↦ ok (a, rest) | none ↦ more ])
closes none a more h k = k
closes (some rest) a more h k = holds (h rest)

module _ (win32 : Win32Text) where
  module _ {ℓ κ} {S : Type ℓ} (I : S → Type κ) (read_field : S → Wide → Bytes → Outcome (S × Bytes))
      (keeps : (state : S) (name : Wide) (s : Bytes)
        → I state
        → Ensures (Value I) (read_field state name s)) where
    members-keeps :
        (fuel : ℕ) (state : S) (s : Bytes)
        → I state
        → Ensures (Value I) (members win32 read_field fuel state s)
    unfolding members
    members-keeps zero state s h = no_end
    members-keeps (suc fuel) state s h = Ensures-any (string win32 s) _ λ (name, s₁) _.
        Ensures-or_reject (consume b':' s₁) _ λ s₂ _.
          Ensures-bind (Value I) (read_field state name s₂) _ (keeps state name s₂ h)
            λ (state', s₃) _ h'.
              closes (consume b'}' s₃) state' _ (λ _. h')
                (Ensures-or_reject (consume b',' s₃) _ λ s₄ _. members-keeps fuel state' s₄ h')

    pub read_object-keeps :
        (state : S) (s : Bytes) → I state → Ensures (Value I) (read_object win32 read_field state s)
    unfolding read_object
    read_object-keeps state s h =
        Ensures-or_reject (consume b'{' s) _ λ s' _. members-keeps (length s) state s' h

  module _ (is_valid : Wide → Bool) where
    -- Every string passed the test, and there are at most 64 of them.
    abbrev pub ValidArray : List Wide → Type 0
    ValidArray values = (all_of is_valid values ≡ true) × (length values ≤ maximum_arguments)

    all_of-concat :
        (values : List Wide) (v : Wide)
        → all_of is_valid values ≡ true
        → is_valid v ≡ true
        → all_of is_valid (values ++ v ∷ []) ≡ true
    all_of-concat [] v h k = ground arith
    all_of-concat (x ∷ values) v h k = ground (arith, all_of-concat values v)

    elements-ValidArray :
        (fuel : ℕ) (values : List Wide) (s : Bytes)
        → ValidArray values
        → Ensures (Value ValidArray) (elements win32 is_valid fuel values s)
    unfolding elements
    elements-ValidArray zero values s h = no_end
    elements-ValidArray (suc fuel) values s h = Ensures-any (string win32 s) _ λ (value, s₁) _.
        Ensures-guard (is_valid value && not (length values == maximum_arguments)) _ λ e.
          let h' : ValidArray (values ++ value ∷ []) = (
            all_of-concat values value h.0 (ground arith),
            ground (arith, length-append values (value ∷ [])),
          ) in
          closes (consume b']' s₁) (values ++ value ∷ []) _ (λ _. h')
            (Ensures-or_reject (consume b',' s₁) _ λ s₂ _. elements-ValidArray fuel _ s₂ h')

    pub read_string_array-ValidArray :
        (s : Bytes) → Ensures (Value ValidArray) (read_string_array win32 is_valid s)
    unfolding read_string_array
    read_string_array-ValidArray s = Ensures-or_reject (consume b'[' s) _ λ s' _.
        closes (consume b']' s') [] _ (λ _. (refl, omega arith))
          (elements-ValidArray (length s) [] s' (refl, omega arith))
