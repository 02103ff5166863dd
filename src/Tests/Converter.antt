-- ===== src/Tests/Converter.antt =====
-- A converter between UTF-8 and UTF-16 that meets the conditions on the Win32 functions.
use launch_as.Base.{
  ℕ, zero, suc, ◌+◌, ◌-◌, ◌*◌, ◌≤◌, ◌≡◌, refl, sym, ap, ◌∙◌, subst, Bool, true, false, ◌&&◌, ◌||◌,
  Option, none, some, List, [], ◌∷◌, ◌++◌, arith, ltb, leb, if◌then◌else◌, Bytes, Wide, length, All,
  length-append,
}
use launch_as.Utf8.{Win32Text}
use launch_as.Utf8.Encoding.{IsScalar, IsUtf16, IsStrict, utf8_char, utf16_char, utf8, utf16}

cons : ℕ → Option (List ℕ) → Option (List ℕ)
cons c none = none
cons c (some cs) = some (c ∷ cs)

two : ℕ → Bytes → Option (ℕ × Bytes)
two a (b ∷ s) = some ((a - 0xC0) * 64 + (b - 0x80), s)
two a _ = none

three : ℕ → Bytes → Option (ℕ × Bytes)
three a (b ∷ c ∷ s) = some ((a - 0xE0) * 4096 + (b - 0x80) * 64 + (c - 0x80), s)
three a _ = none

four : ℕ → Bytes → Option (ℕ × Bytes)
four a (b ∷ c ∷ d ∷ s) =
    some ((a - 0xF0) * 0x40000 + (b - 0x80) * 4096 + (c - 0x80) * 64 + (d - 0x80), s)
four a _ = none

take_char : Bytes → Option (ℕ × Bytes)
take_char [] = none
take_char (a ∷ s) =
    if ltb a 0x80
    then some (a, s)
    else if ltb a 0xE0
    then two a s
    else if ltb a 0xF0
    then three a s
    else four a s

take_char-utf8 : (c : ℕ) (s : Bytes) → IsScalar c → take_char (utf8_char c ++ s) ≡ some (c, s)
unfolding take_char two three four
take_char-utf8 c s h = ground arith

decode : ℕ → Bytes → Option (List ℕ)
decode fuel [] = some []
decode zero (b ∷ s) = none
decode (suc fuel) (b ∷ s) = elim (take_char (b ∷ s)) [
  | some (c, rest) ↦ cons c (decode fuel rest)
  | none ↦ none
]

decode_step :
    (fuel c : ℕ) (s t : Bytes)
    → take_char t ≡ some (c, s)
    → decode (suc fuel) t ≡ cons c (decode fuel s)
unfolding decode take_char
decode_step fuel c s [] e = ground arith
decode_step fuel c s (b ∷ t) e =
    ap (λ o. elim o [ some (k, rest) ↦ cons k (decode fuel rest) | none ↦ none ]) e

decode-utf8 :
    (fuel : ℕ) (cs : List ℕ) → All IsScalar cs → length cs ≤ fuel → decode fuel (utf8 cs) ≡ some cs
unfolding decode cons
decode-utf8 fuel [] h l = refl
decode-utf8 zero (c ∷ cs) h l = ground arith
decode-utf8 (suc fuel) (c ∷ cs) (h, hs) l =
    decode_step fuel c (utf8 cs) (utf8_char c ++ utf8 cs) (take_char-utf8 c (utf8 cs) h)
    ∙ ap (cons c) (decode-utf8 fuel cs hs (omega arith))

-- Surrogates.
is_high : ℕ → Bool
is_high c = leb 0xD800 c && ltb c 0xDC00

is_low : ℕ → Bool
is_low c = leb 0xDC00 c && ltb c 0xE000

joined : ℕ → ℕ → ℕ
joined c d = 0x10000 + (c - 0xD800) * 1024 + (d - 0xDC00)

-- The code points of a UTF-16 text, and `none` where a surrogate stands alone.
wide_scalars : Wide → Option (List ℕ)
wide_scalars [] = some []
wide_scalars (c ∷ []) =
    if ltb c 0xD800 || (leb 0xE000 c && ltb c 0x10000) then some (c ∷ []) else none
wide_scalars (c ∷ d ∷ w) =
    let rest = wide_scalars w in
    let next = wide_scalars (d ∷ w) in
    if is_high c && is_low d
    then cons (joined c d) rest
    else if ltb c 0xD800 || (leb 0xE000 c && ltb c 0x10000)
    then cons c next
    else none

Spells : Wide → Option (List ℕ) → Type 0
Spells w none = Unit
Spells w (some cs) = All IsScalar cs × (w ≡ utf16 cs)

Spells-cons :
    (c : ℕ) (w : Wide) (r : Option (List ℕ))
    → IsScalar c
    → Spells w r
    → Spells (utf16_char c ++ w) (cons c r)
unfolding Spells cons
Spells-cons c w none h s = tt
Spells-cons c w (some cs) h (hs, e) = ((h, hs), ap (λ v. utf16_char c ++ v) e)

utf16_char-joined :
    (c d : ℕ)
    → (is_high c && is_low d) ≡ true
    → IsScalar (joined c d) × (c ∷ d ∷ [] ≡ utf16_char (joined c d))
unfolding is_high is_low joined
utf16_char-joined c d h = (ground arith, ground arith)

utf16_char-single :
    (c : ℕ)
    → (ltb c 0xD800 || (leb 0xE000 c && ltb c 0x10000)) ≡ true
    → IsScalar c × (c ∷ [] ≡ utf16_char c)
utf16_char-single c h = (ground arith, ground arith)

Spells-pair :
    (c d : ℕ) (w : Wide) (r : Option (List ℕ))
    → (is_high c && is_low d) ≡ true
    → Spells w r
    → Spells (c ∷ d ∷ w) (cons (joined c d) r)
Spells-pair c d w r h s =
    let (scalar, e) = utf16_char-joined c d h in
    subst (λ v. Spells (v ++ w) (cons (joined c d) r)) (sym e)
      (Spells-cons (joined c d) w r scalar s)

Spells-single :
    (c : ℕ) (w : Wide) (r : Option (List ℕ))
    → (ltb c 0xD800 || (leb 0xE000 c && ltb c 0x10000)) ≡ true
    → Spells w r
    → Spells (c ∷ w) (cons c r)
Spells-single c w r h s =
    let (scalar, e) = utf16_char-single c h in
    subst (λ v. Spells (v ++ w) (cons c r)) (sym e) (Spells-cons c w r scalar s)

Spells-if :
    (w : Wide) (b : Bool) (p q : Option (List ℕ))
    → (b ≡ true → Spells w p)
    → Spells w q
    → Spells w (if b then p else q)
Spells-if w true p q h k = h refl
Spells-if w false p q h k = k

Spells-wide_scalars : (w : Wide) → Spells w (wide_scalars w)
unfolding wide_scalars Spells cons
Spells-wide_scalars [] = (tt, refl)
Spells-wide_scalars (c ∷ []) =
    Spells-if (c ∷ []) (ltb c 0xD800 || (leb 0xE000 c && ltb c 0x10000)) (some (c ∷ [])) none
      (λ h. Spells-single c [] (some []) h (tt, refl)) tt
Spells-wide_scalars (c ∷ d ∷ w) =
    Spells-if (c ∷ d ∷ w) (is_high c && is_low d) (cons (joined c d) (wide_scalars w))
      (if ltb c 0xD800 || (leb 0xE000 c && ltb c 0x10000)
        then cons c (wide_scalars (d ∷ w))
        else none)
      (λ h. Spells-pair c d w (wide_scalars w) h (Spells-wide_scalars w))
      (Spells-if (c ∷ d ∷ w) (ltb c 0xD800 || (leb 0xE000 c && ltb c 0x10000))
        (cons c (wide_scalars (d ∷ w))) none
        (λ h. Spells-single c (d ∷ w) (wide_scalars (d ∷ w)) h (Spells-wide_scalars (d ∷ w))) tt)

encoded : Option (List ℕ) → Option Bytes
encoded none = none
encoded (some cs) = some (utf8 cs)

widened : Option (List ℕ) → Option Wide
widened none = none
widened (some cs) = some (utf16 cs)

unfoldable pub converter : Win32Text
unfolding encoded wide_scalars widened decode is_high is_low cons joined take_char two three four
converter = record {
  wide_char_to_multi_byte = λ w. encoded (wide_scalars w);
  multi_byte_to_wide_char = λ bytes. widened (decode (length bytes) bytes);
}

IsUtf16-encoded :
    (w : Wide) (bytes : Bytes) (r : Option (List ℕ))
    → Spells w r
    → encoded r ≡ some bytes
    → IsUtf16 w
unfolding encoded Spells
IsUtf16-encoded w bytes none s e = ground arith
IsUtf16-encoded w bytes (some cs) (h, p) e = record { scalars = cs; are_scalars = h; spells = p }

length-utf8_char : (c : ℕ) → 1 ≤ length (utf8_char c)
length-utf8_char c = ground arith

length-utf8 : (cs : List ℕ) → length cs ≤ length (utf8 cs)
length-utf8 [] = omega arith
length-utf8 (c ∷ cs) =
    let one = length-utf8_char c in
    let more = length-utf8 cs in let sum = length-append (utf8_char c) (utf8 cs) in ground arith

pub converter-IsStrict : IsStrict converter
unfolding converter widened encoded
converter-IsStrict = record {
  decodes = λ c cs h l.
      ap widened (decode-utf8 (length (utf8 (c ∷ cs))) (c ∷ cs) h (length-utf8 (c ∷ cs)));
  refuses_lone = λ w bytes e. IsUtf16-encoded w bytes (wide_scalars w) (Spells-wide_scalars w) e;
}
