-- ===== src/Json/Termination.antt =====
-- src/protocol/BrokerProtocol.cpp: the fuel of ReadObject and ReadStringArray.
use launch_as.Base.{
  ℕ, zero, suc, ◌<◌, inl, inr, Bool, not, ◌&&◌, none, some, List, [], ◌∷◌, ◌++◌, arith, ◌==◌,
  Option-cases, Bytes, Wide, length, Outcome, ok,
}
use launch_as.Utf8.{Win32Text}
use launch_as.Json.{consume}
use launch_as.Json.Objects.{members, read_object, elements, read_string_array, maximum_arguments}
use launch_as.Json.Progress.{
  Ends, took, Ends-mono, Ends-or_reject, Ends-guard, Ends-bind, consume-lt, string-Ends,
}

-- Behind an element: the closing bracket, or what a comma leads to.
closes {ℓ} :
    {A : Type ℓ} (c : ℕ) (a : A) (s : Bytes) {n : ℕ} (more : Outcome (A × Bytes))
    → length s < n
    → Ends n more
    → Ends n (elim (consume c s) [ some rest ↦ ok (a, rest) | none ↦ more ])
closes c a s more h k = elim (Option-cases (consume c s)) [
  | inl e ↦ rw e k
  | inr (rest, e) ↦ rw e (took {rest = rest} (omega (arith, consume-lt c s rest e)))
]

module _ (win32 : Win32Text) where
  module _ {ℓ} {S : Type ℓ} (read_field : S → Wide → Bytes → Outcome (S × Bytes))
      (field_ends : (state : S) (name : Wide) (s : Bytes)
        → Ends (length s) (read_field state name s)) where
    members-Ends :
        (fuel : ℕ) (state : S) (s : Bytes)
        → length s < fuel
        → Ends (length s) (members win32 read_field fuel state s)
    unfolding members
    members-Ends zero state s h = absurd (omega arith)
    members-Ends (suc fuel) state s h = Ends-bind _ (string-Ends win32 s) λ name s₁ h₁.
        Ends-or_reject (consume b':' s₁) _ λ s₂ e₂.
          Ends-bind _ (field_ends state name s₂) λ state' s₃ h₃.
            let l = consume-lt b':' s₁ s₂ e₂ in
            closes b'}' state' s₃ _ (omega arith) (
              Ends-or_reject (consume b',' s₃) _ λ s₄ e₄.
                let k = consume-lt b',' s₃ s₄ e₄ in
                Ends-mono (omega arith) (members-Ends fuel state' s₄ (omega arith)))

    pub read_object-Ends :
        (state : S) (s : Bytes) → Ends (length s) (read_object win32 read_field state s)
    unfolding read_object
    read_object-Ends state s = Ends-or_reject (consume b'{' s) _ λ s' e.
        let l = consume-lt b'{' s s' e in
        Ends-mono (omega arith) (members-Ends (length s) state s' (omega arith))

  module _ (is_valid : Wide → Bool) where
    elements-Ends :
        (fuel : ℕ) (values : List Wide) (s : Bytes)
        → length s < fuel
        → Ends (length s) (elements win32 is_valid fuel values s)
    unfolding elements
    elements-Ends zero values s h = absurd (omega arith)
    elements-Ends (suc fuel) values s h = Ends-bind _ (string-Ends win32 s) λ value s₁ h₁.
        Ends-guard (is_valid value && not (length values == maximum_arguments)) _ λ _.
          closes b']' (values ++ value ∷ []) s₁ _ (omega arith) (
            Ends-or_reject (consume b',' s₁) _ λ s₂ e₂.
              let k = consume-lt b',' s₁ s₂ e₂ in
              Ends-mono (omega arith) (elements-Ends fuel (values ++ value ∷ []) s₂ (omega arith)))

    pub read_string_array-Ends : (s : Bytes) → Ends (length s) (read_string_array win32 is_valid s)
    unfolding read_string_array
    read_string_array-Ends s = Ends-or_reject (consume b'[' s) _ λ s' e.
        let l = consume-lt b'[' s s' e in
        closes b']' [] s' _ l (Ends-mono (omega arith) (elements-Ends (length s) [] s' l))
