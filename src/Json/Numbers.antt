-- ===== src/Json/Numbers.antt =====
-- src/protocol/BrokerProtocol.cpp: JsonReader::Unsigned and JsonReader::Boolean on what the
-- builders write.
use launch_as.Base.{
  ℕ, zero, suc, ◌+◌, ◌*◌, ◌/◌, ◌%◌, ◌^◌, ◌<◌, ◌≡◌, refl, ◌∙◌, inl, inr, Bool, true, false, [], ◌∷◌,
  ◌++◌, append_assoc, arith, ltb, within, Bool-cases, Bytes, ok,
}
use launch_as.Json.{digits_loop, unsigned_digits, unsigned, skip_whitespace, boolean, boolean_word}
use launch_as.Json.Writer.{decimal, to_string, boolean_text}

digits_loop_step :
    (value d : ℕ) (s : Bytes)
    → d < 10
    → digits_loop value ((b'0' + d) ∷ s) ≡ digits_loop (value * 10 + d) s
unfolding digits_loop
digits_loop_step value d s h = ground arith

digits_loop-decimal :
    (fuel n : ℕ) (rest : Bytes)
    → n < 10 ^ suc fuel
    → digits_loop 0 (decimal fuel n ++ rest) ≡ digits_loop n rest
unfolding decimal
digits_loop-decimal zero n rest h = ground (arith, digits_loop_step 0 (n % 10) rest)
digits_loop-decimal (suc fuel) n rest h = ground (
  arith,
  digits_loop_step 0 n rest,
  append_assoc (decimal fuel (n / 10)) ((b'0' + n % 10) ∷ []) rest,
  digits_loop-decimal fuel (n / 10) ((b'0' + n % 10) ∷ rest) (omega arith),
  digits_loop_step (n / 10) (n % 10) rest,
)

decimal_head : (fuel n : ℕ) → (d : ℕ) × (s : Bytes) × (decimal fuel n ≡ (b'0' + d) ∷ s) × (d < 10)
unfolding decimal
decimal_head zero n = (n % 10, [], refl, omega arith)
decimal_head (suc fuel) n = elim (Bool-cases (ltb n 10)) [
  | inl small ↦ (n, [], rw small, ground arith)
  | inr large ↦
      (let (d, s, e, h) = decimal_head fuel (n / 10) in
        (d, s ++ (b'0' + n % 10) ∷ [], rw (large, e), h))
]

unsigned_digit :
    (d : ℕ) (s rest : Bytes) {n : ℕ}
    → d < 10
    → n < 2 ^ 32
    → digits_loop 0 ((b'0' + d) ∷ s) ≡ (n, rest)
    → unsigned ((b'0' + d) ∷ s) ≡ ok (n, rest)
unfolding unsigned unsigned_digits skip_whitespace
unsigned_digit d s rest h k e = ground arith

digits_loop_stops :
    (n c : ℕ) (rest : Bytes) → within b'0' b'9' c ≡ false → digits_loop n (c ∷ rest) ≡ (n, c ∷ rest)
unfolding digits_loop
digits_loop_stops n c rest h = ground arith

-- The decimal digits of a DWORD, in front of a byte that is no digit, are read back by Unsigned,
-- which leaves that byte.
pub unsigned-to_string :
    (n c : ℕ) (rest : Bytes)
    → n < 2 ^ 32
    → within b'0' b'9' c ≡ false
    → unsigned (to_string n ++ c ∷ rest) ≡ ok (n, c ∷ rest)
unfolding to_string
unsigned-to_string n c rest h stop =
    let (d, s, e, small) = decimal_head 9 n in
    let read : digits_loop 0 (decimal 9 n ++ c ∷ rest) ≡ (n, c ∷ rest) =
      digits_loop-decimal 9 n (c ∷ rest) (omega arith) ∙ digits_loop_stops n c rest stop in
    rw e (unsigned_digit d (s ++ c ∷ rest) (c ∷ rest) small h (rw e at read))

-- The only version of the protocol.
pub unsigned_one :
    (c : ℕ) (rest : Bytes)
    → within b'0' b'9' c ≡ false
    → unsigned (b'1' ∷ c ∷ rest) ≡ ok (1, c ∷ rest)
unfolding unsigned unsigned_digits skip_whitespace digits_loop
unsigned_one c rest stop = rw stop

pub boolean-boolean_text :
    (b : Bool) (rest : Bytes) → boolean (boolean_text b ++ rest) ≡ ok (b, rest)
unfolding boolean boolean_word skip_whitespace
boolean-boolean_text true rest = refl
boolean-boolean_text false rest = refl
