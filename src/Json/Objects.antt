-- ===== src/Json/Objects.antt =====
-- src/protocol/BrokerProtocol.cpp: ReadObject, FirstSeen and ReadStringArray.
use launch_as.Base.{
  ℕ, zero, suc, Bool, not, ◌&&◌, none, some, List, [], ◌∷◌, ◌++◌, Bytes, Wide, length, ◌==◌,
  Outcome, ok, stuck, ◌>>=◌, ◌>>◌, guard, or_reject,
}
use launch_as.Utf8.{Win32Text}
use launch_as.Json.{string, consume}

-- inline constexpr std::size_t MaximumArguments = 64;
abbrev pub maximum_arguments : ℕ
maximum_arguments = 64

-- `FirstSeen(seen)`: fails if the flag is set. The caller's new state has the flag set.
abbrev pub first_seen : Bool → Outcome (Unit {0})
first_seen seen = guard (not seen)

module _ (win32 : Win32Text) where
  module _ {ℓ} {S : Type ℓ} (read_field : S → Wide → Bytes → Outcome (S × Bytes)) where
    -- The loop over the members; `S` is what the caller's lambda captures by reference.
    unfoldable pub members : ℕ → S → Bytes → Outcome (S × Bytes)
    members zero state s = stuck
    members (suc fuel) state s = do
      (name, s₁) ← string win32 s
      s₂ ← or_reject (consume b':' s₁)
      (state', s₃) ← read_field state name s₂
      let more : Outcome (S × Bytes) = do s₄ ← or_reject (consume b',' s₃); members fuel state' s₄
      elim (consume b'}' s₃) [ some rest ↦ ok (state', rest) | none ↦ more ]

    unfoldable pub read_object : S → Bytes → Outcome (S × Bytes)
    read_object state s = do s' ← or_reject (consume b'{' s); members (length s) state s'

  module _ (is_valid : Wide → Bool) where
    unfoldable pub elements : ℕ → List Wide → Bytes → Outcome (List Wide × Bytes)
    elements zero values s = stuck
    elements (suc fuel) values s = do
      (value, s₁) ← string win32 s
      guard (is_valid value && not (length values == maximum_arguments))
      let values' = values ++ value ∷ []
      let more : Outcome (List Wide × Bytes) = do
        s₂ ← or_reject (consume b',' s₁)
        elements fuel values' s₂
      elim (consume b']' s₁) [ some rest ↦ ok (values', rest) | none ↦ more ]

    -- The caller's array is empty: `FirstSeen` has been asked.
    unfoldable pub read_string_array : Bytes → Outcome (List Wide × Bytes)
    read_string_array s = do
      s' ← or_reject (consume b'[' s)
      elim (consume b']' s') [ some rest ↦ ok ([], rest) | none ↦ elements (length s) [] s' ]
