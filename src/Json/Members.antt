-- ===== src/Json/Members.antt =====
-- How ReadObject walks an object that was written member by member.
use launch_as.Base.{
  ℕ, zero, suc, ◌≤◌, ◌<◌, ◌≡◌, refl, ◌∙◌, true, none, some, [], ◌∷◌, ◌++◌, arith, Bytes, Wide,
  length, length-append, Outcome, ok, rejected, ◌>>=◌, or_reject,
}
use launch_as.Utf8.{Win32Text}
use launch_as.Json.{end, consume, expect, skip_whitespace}
use launch_as.Json.Writer.{json_string}
use launch_as.Json.Objects.{members, read_object}
use launch_as.Json.Progress.{Ends}
use launch_as.Utf8.Encoding.{IsStrict}
use launch_as.Json.Texts.{string-written, literal-IsText, is_literal}

pub Ends-ok {ℓ} :
    {A : Type ℓ} {n : ℕ} {r : Outcome (A × Bytes)} {a : A} {rest : Bytes}
    → Ends n r
    → r ≡ ok (a, rest)
    → length rest < n
Ends-ok {rest = rest} (Ends.took {rest = rest'} h) e = let same : rest' ≡ rest = cc in rw (← same) h
Ends-ok Ends.refused e = cc

pub end-nil : end [] ≡ true
unfolding end skip_whitespace
end-nil = refl

-- A member as it is written: the name, a colon and what begins with the value.
abbrev pub member : Wide → Bytes → Bytes
member key value = json_string key ++ b':' ∷ value

module _ {ℓ} (win32 : Win32Text) (strict : IsStrict win32) {S : Type ℓ}
    (read_field : S → Wide → Bytes → Outcome (S × Bytes))
    (field_ends : (state : S) (name : Wide) (s : Bytes)
      → Ends (length s) (read_field state name s)) where
  -- The loop of ReadObject behind the value of a member.
  pub after_value : ℕ → S → Bytes → Outcome (S × Bytes)
  after_value fuel state s = elim (consume b'}' s) [
    | some rest ↦ ok (state, rest)
    | none ↦ or_reject (consume b',' s) >>= members win32 read_field fuel state
  ]

  -- Behind a value, with `s` left to read, the loop returns `result`, on any fuel that suffices.
  pub record Continues (state : S) (s : Bytes) (result : Outcome (S × Bytes)) : Type ℓ where
    pub runs : (fuel : ℕ) → length s ≤ fuel → after_value fuel state s ≡ result

  pub Continues-end : (state : S) (rest : Bytes) → Continues state (b'}' ∷ rest) (ok (state, rest))
  unfolding after_value consume expect skip_whitespace
  Continues-end state rest = record { runs = λ fuel h. refl }

  members-member :
      (fuel : ℕ) (state : S) (key : Wide) (value : Bytes) {state' : S} {rest : Bytes}
      → is_literal key ≡ true
      → read_field state key value ≡ ok (state', rest)
      → members win32 read_field (suc fuel) state (member key value) ≡ after_value fuel state' rest
  unfolding members after_value
  members-member fuel state key value lit e =
      rw (string-written win32 strict key (b':' ∷ value) (literal-IsText key lit))
        (unfold consume expect skip_whitespace in rw e)

  comma_then :
      (fuel : ℕ) (state : S) (s : Bytes)
      → after_value fuel state (b',' ∷ s) ≡ members win32 read_field fuel state s
  unfolding after_value consume expect skip_whitespace
  comma_then fuel state s = refl

  pub Continues-member :
      (key : Wide) (state : S) (value : Bytes) {state' : S} {rest : Bytes}
      {result : Outcome (S × Bytes)}
      → is_literal key ≡ true
      → read_field state key value ≡ ok (state', rest)
      → Continues state' rest result
      → Continues state (b',' ∷ member key value) result
  Continues-member key state value {rest = rest} {result = result} lit e next = record {
    runs = run;
  }
    where
      shorter : length rest < length (member key value)
      shorter = omega (
        arith,
        Ends-ok (field_ends state key value) e,
        length-append (json_string key) (b':' ∷ value),
      )

      run :
          (fuel : ℕ)
          → length (b',' ∷ member key value) ≤ fuel
          → after_value fuel state (b',' ∷ member key value) ≡ result
      run zero h = absurd (omega arith)
      run (suc fuel) h =
          comma_then (suc fuel) state (member key value)
          ∙ members-member fuel state key value lit e
          ∙ next.runs fuel (omega (arith, shorter))

  members_refused :
      (fuel : ℕ) (state : S) (key : Wide) (value : Bytes)
      → is_literal key ≡ true
      → read_field state key value ≡ rejected
      → members win32 read_field (suc fuel) state (member key value) ≡ rejected
  unfolding members
  members_refused fuel state key value lit e =
      rw (string-written win32 strict key (b':' ∷ value) (literal-IsText key lit))
        (unfold consume expect skip_whitespace in rw e)

  -- A member that is refused ends the walk.
  pub Continues-refused :
      (key : Wide) (state : S) (value : Bytes)
      → is_literal key ≡ true
      → read_field state key value ≡ rejected
      → Continues state (b',' ∷ member key value) rejected
  Continues-refused key state value lit e = record { runs = run }
    where
      run :
          (fuel : ℕ)
          → length (b',' ∷ member key value) ≤ fuel
          → after_value fuel state (b',' ∷ member key value) ≡ rejected
      run zero h = absurd (omega arith)
      run (suc fuel) h =
          comma_then (suc fuel) state (member key value)
          ∙ members_refused fuel state key value lit e

  -- An object that begins with a member.
  pub read_object-member :
      (key : Wide) (state : S) (value : Bytes) {state' : S} {rest : Bytes}
      {result : Outcome (S × Bytes)}
      → is_literal key ≡ true
      → read_field state key value ≡ ok (state', rest)
      → Continues state' rest result
      → read_object win32 read_field state (b'{' ∷ member key value) ≡ result
  unfolding read_object consume expect skip_whitespace
  read_object-member key state value {rest = rest} lit e next =
      members-member (length (member key value)) state key value lit e
      ∙ next.runs _ (
          omega (
            arith,
            Ends-ok (field_ends state key value) e,
            length-append (json_string key) (b':' ∷ value),
          ))
