-- ===== src/Json/Progress.antt =====
-- src/protocol/BrokerProtocol.cpp: what the readers of JsonReader consume, and their fuel.
use launch_as.Base.{
  ℕ, zero, suc, ◌+◌, ◌-◌, ◌≤◌, ◌<◌, ◌≡◌, refl, ◌≢◌, Bool, true, false, not, ◌&&◌, ◌||◌, ◌*◌, ◌^◌,
  within, starts_with, codes, ◌>>◌, ◌⊎◌, inl, inr, Option, none, some, [], ◌∷◌, ◌++◌, Bytes, length,
  drop, arith, ltb, ◌==◌, if◌then◌else◌, Bool-cases, Outcome, ok, rejected, stuck, ◌>>=◌, or_reject,
  guard,
}
use launch_as.Utf8.{Win32Text, utf8_to_wide}
use launch_as.Json.{
  skip_whitespace, consume, expect, hex_digits, read_unicode_escape, unicode_escape, code_point,
  escaped, escape, low_escape, hex_value, add_digit, pair_value, string_loop, string, digits_loop,
  unsigned_digits, unsigned, boolean_word, boolean,
}

-- The reader ends, and what it leaves is shorter than `bound`.
pub data Ends {ℓ} {A : Type ℓ} (bound : ℕ) : Outcome (A × Bytes) → Type ℓ where
  took : {a : A} {rest : Bytes} → length rest < bound → Ends bound (ok (a, rest))
  refused : Ends bound rejected

module _ {ℓ} {A : Type ℓ} where
  pub Ends-ne-stuck : {n : ℕ} {r : Outcome (A × Bytes)} → Ends n r → r ≢ stuck
  Ends-ne-stuck (took h) e = cc
  Ends-ne-stuck refused e = cc

  pub Ends-mono : {m n : ℕ} {r : Outcome (A × Bytes)} → m ≤ n → Ends m r → Ends n r
  Ends-mono h (took k) = took (omega arith)
  Ends-mono h refused = refused

  pub Ends-if :
      (b : Bool) {n : ℕ} {x y : Outcome (A × Bytes)}
      → Ends n x
      → Ends n y
      → Ends n (if b then x else y)
  Ends-if true hx hy = hx
  Ends-if false hx hy = hy

  pub Ends-or_reject {κ} :
      {B : Type κ} (o : Option B) {n : ℕ} (f : B → Outcome (A × Bytes))
      → ((b : B) → o ≡ some b → Ends n (f b))
      → Ends n (or_reject o >>= f)
  Ends-or_reject none f k = refused
  Ends-or_reject (some b) f k = k b refl

  pub Ends-guard :
      (b : Bool) {n : ℕ} (f : Unit {0} → Outcome (A × Bytes))
      → (b ≡ true → Ends n (f tt))
      → Ends n (guard b >>= f)
  Ends-guard true f k = k refl
  Ends-guard false f k = refused

  pub Ends-bind {κ} :
      {B : Type κ} {m n : ℕ} {r : Outcome (B × Bytes)} (f : B × Bytes → Outcome (A × Bytes))
      → Ends m r
      → ((b : B) (rest : Bytes) → length rest < m → Ends n (f (b, rest)))
      → Ends n (r >>= f)
  Ends-bind f (took {a = b} {rest = rest} h) k = k b rest h
  Ends-bind f refused k = refused

skip_whitespace-le : (s : Bytes) → length (skip_whitespace s) ≤ length s
unfolding skip_whitespace
skip_whitespace-le [] = omega arith
skip_whitespace-le (c ∷ s) = ground (arith, skip_whitespace-le s)

expect-lt : (c : ℕ) (s rest : Bytes) → expect c s ≡ some rest → length rest < length s
unfolding expect
expect-lt c [] rest h = cc
expect-lt c (d ∷ s) rest h = ground arith

pub consume-lt : (c : ℕ) (s rest : Bytes) → consume c s ≡ some rest → length rest < length s
unfolding consume
consume-lt c s rest h = omega (arith, expect-lt c (skip_whitespace s) rest h, skip_whitespace-le s)

hex_digits-Ends : (n v : ℕ) (s : Bytes) → Ends (suc (length s)) (hex_digits n v s)
unfolding hex_digits
hex_digits-Ends zero v s = took (omega arith)
hex_digits-Ends (suc n) v [] = refused
hex_digits-Ends (suc n) v (c ∷ s) =
    Ends-or_reject (hex_value c) _
      (λ d _. Ends-mono (omega arith) (hex_digits-Ends n (add_digit v d) s))

read_unicode_escape-Ends : (s : Bytes) → Ends (suc (length s)) (read_unicode_escape s)
unfolding read_unicode_escape
read_unicode_escape-Ends s = Ends-if (ltb (length s) 4) refused (hex_digits-Ends 4 0 s)

low_escape-cases :
    (s : Bytes)
    → (low_escape s ≡ rejected) ⊎ ((s' : Bytes) × (low_escape s ≡ ok s') × (length s' < length s))
unfolding low_escape
low_escape-cases [] = inl refl
low_escape-cases (a ∷ []) = inl refl
low_escape-cases (a ∷ b ∷ s) = elim (Bool-cases (a == b'\\' && b == b'u')) [
  | inl e ↦ inr (s, rw e, omega arith)
  | inr e ↦ inl (rw e)
]

pair_Ends :
    (v : ℕ) (s : Bytes)
    → Ends (suc (length s)) (do
      s' ← low_escape s
      (low, rest) ← read_unicode_escape s'
      guard (within 0xDC00 0xDFFF low)
      ok (pair_value v low, rest))
pair_Ends v s = elim (low_escape-cases s) [
  | inl e ↦ rw e refused
  | inr (s', e, h) ↦ rw e (
      Ends-bind _ (read_unicode_escape-Ends s')
        λ low rest k. Ends-guard (within 0xDC00 0xDFFF low) _ λ _. took {rest = rest} (omega arith))
]

code_point-Ends : (v : ℕ) (s : Bytes) → Ends (suc (length s)) (code_point v s)
unfolding code_point
code_point-Ends v s =
    Ends-if (within 0xD800 0xDBFF v) (pair_Ends v s)
      (Ends-if (within 0xDC00 0xDFFF v) refused (took {rest = s} (omega arith)))

unicode_escape-Ends : (s output : Bytes) → Ends (suc (length s)) (unicode_escape s output)
unfolding unicode_escape
unicode_escape-Ends s output =
    Ends-bind _ (read_unicode_escape-Ends s)
      λ v s' h. Ends-bind _ (code_point-Ends v s') λ c rest k. took {rest = rest} (omega arith)

escape-Ends : (c : ℕ) (s utf8 : Bytes) → Ends (suc (length s)) (escape c s utf8)
unfolding escape
escape-Ends c s utf8 = Ends-if (c == b'"' || c == b'\\' || c == b'/') (kept (utf8 ++ c ∷ [])) (
    Ends-if (c == b'b') (kept (utf8 ++ 8 ∷ [])) (
      Ends-if (c == b'f') (kept (utf8 ++ 12 ∷ [])) (
        Ends-if (c == b'n') (kept (utf8 ++ b'\n' ∷ [])) (
          Ends-if (c == b'r') (kept (utf8 ++ b'\r' ∷ [])) (
            Ends-if (c == b't') (kept (utf8 ++ b'\t' ∷ []))
              (Ends-if (c == b'u') (unicode_escape-Ends s utf8) refused))))))
  where
    kept : (x : Bytes) → Ends (suc (length s)) (ok (x, s))
    kept x = took {rest = s} (omega arith)

escaped-Ends : (s utf8 : Bytes) → Ends (suc (length s)) (escaped s utf8)
unfolding escaped
escaped-Ends [] utf8 = refused
escaped-Ends (c ∷ s) utf8 = Ends-mono (omega arith) (escape-Ends c s utf8)

string_loop-Ends :
    (fuel : ℕ) (s utf8 : Bytes) → length s ≤ fuel → Ends (suc (length s)) (string_loop fuel s utf8)
unfolding string_loop
string_loop-Ends fuel [] utf8 h = refused
string_loop-Ends zero (c ∷ s) utf8 h = absurd (omega arith)
string_loop-Ends (suc fuel) (c ∷ s) utf8 h = Ends-if (c == b'"') (took {rest = s} (omega arith)) (
    Ends-if (ltb c 0x20) refused (
      Ends-if (not (c == b'\\'))
        (Ends-mono (omega arith) (string_loop-Ends fuel s (utf8 ++ c ∷ []) (omega arith)))
        (Ends-bind _ (escaped-Ends s utf8) λ utf8' rest k.
          Ends-mono (omega arith) (string_loop-Ends fuel rest utf8' (omega arith)))))

module _ (win32 : Win32Text) where
  pub string-Ends : (s : Bytes) → Ends (length s) (string win32 s)
  unfolding string
  string-Ends s = Ends-or_reject (expect b'"' (skip_whitespace s)) _ λ s' e.
      Ends-bind _ (string_loop-Ends (length s') s' [] (omega arith)) λ utf8 rest k.
        Ends-or_reject (utf8_to_wide win32 utf8) _ λ text _.
          took {rest = rest}
            (omega (arith, expect-lt b'"' (skip_whitespace s) s' e, skip_whitespace-le s))

digits_loop-le : (v : ℕ) (s : Bytes) → length (digits_loop v s).1 ≤ length s
unfolding digits_loop
digits_loop-le v [] = omega arith
digits_loop-le v (c ∷ s) = ground (arith, digits_loop-le (v * 10 + (c - b'0')) s)

digits_loop-lt :
    (v c : ℕ) (s : Bytes)
    → within b'0' b'9' c ≡ true
    → length (digits_loop v (c ∷ s)).1 < length (c ∷ s)
unfolding digits_loop
digits_loop-lt v c s h = ground (arith, digits_loop-le (v * 10 + (c - b'0')) s)

unsigned_digits-Ends : (s : Bytes) → Ends (length s) (unsigned_digits s)
unfolding unsigned_digits
unsigned_digits-Ends [] = refused
unsigned_digits-Ends (c ∷ s) = Ends-guard (within b'0' b'9' c) _ λ h.
    Ends-guard (ltb (digits_loop 0 (c ∷ s)).0 (2 ^ 32)) _
      λ _. took {rest = (digits_loop 0 (c ∷ s)).1} (digits_loop-lt 0 c s h)

pub unsigned-Ends : (s : Bytes) → Ends (length s) (unsigned s)
unfolding unsigned
unsigned-Ends s = Ends-mono (skip_whitespace-le s) (unsigned_digits-Ends (skip_whitespace s))

length-drop-le : (n : ℕ) (s : Bytes) → length (drop n s) ≤ length s
length-drop-le zero s = omega arith
length-drop-le (suc n) [] = omega arith
length-drop-le (suc n) (c ∷ s) = omega (arith, length-drop-le n s)

boolean_word-Ends : (s : Bytes) → Ends (length s) (boolean_word s)
unfolding boolean_word
boolean_word-Ends [] = refused
boolean_word-Ends (c ∷ s) =
    Ends-if (starts_with (codes "true") (c ∷ s))
      (took {rest = drop 3 s} (omega (arith, length-drop-le 3 s)))
      (Ends-if (starts_with (codes "false") (c ∷ s))
        (took {rest = drop 4 s} (omega (arith, length-drop-le 4 s))) refused)

pub boolean-Ends : (s : Bytes) → Ends (length s) (boolean s)
unfolding boolean
boolean-Ends s = Ends-mono (skip_whitespace-le s) (boolean_word-Ends (skip_whitespace s))
