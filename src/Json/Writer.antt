-- ===== src/Json/Writer.antt =====
-- src/protocol/BrokerProtocol.cpp: AppendJsonString, and `std::to_string` of a DWORD.
use launch_as.Base.{
  Bool, true, false, codes, ℕ, zero, suc, ◌+◌, ◌/◌, ◌-◌, ◌%◌, ◌^◌, ◌||◌, List, [], ◌∷◌, ◌++◌, Bytes,
  Wide, ltb, ◌==◌, within, if◌then◌else◌,
}

-- "0123456789ABCDEF"[d]
unfoldable pub hex_digit : ℕ → ℕ
hex_digit d = if ltb d 10 then b'0' + d else b'A' + (d - 10)

-- One turn of the loop. x >> n is x / 2 ^ n, and x & 0xF is x % 16.
unfoldable pub json_char : ℕ → Bytes
json_char c =
    if c == b'"' || c == b'\\'
    then b'\\' ∷ c ∷ []
    else if within 0x20 0x7E c
    then c ∷ []
    else b'\\'
      ∷ b'u'
      ∷ hex_digit (c / 2 ^ 12 % 16)
      ∷ hex_digit (c / 2 ^ 8 % 16)
      ∷ hex_digit (c / 2 ^ 4 % 16)
      ∷ hex_digit (c % 16)
      ∷ []

unfoldable pub json_chars : Wide → Bytes
json_chars [] = []
json_chars (c ∷ value) = json_char c ++ json_chars value

-- What AppendJsonString appends.
unfoldable pub json_string : Wide → Bytes
json_string value = b'"' ∷ (json_chars value ++ b'"' ∷ [])

-- A number of at most `suc fuel` decimal digits.
unfoldable pub decimal : ℕ → ℕ → Bytes
decimal zero n = (b'0' + n % 10) ∷ []
decimal (suc fuel) n =
    let front = decimal fuel (n / 10) in
    if ltb n 10 then (b'0' + n) ∷ [] else front ++ (b'0' + n % 10) ∷ []

-- A DWORD has at most ten digits.
unfoldable pub to_string : ℕ → Bytes
to_string n = decimal 9 n

-- The loops that write a JSON array of strings, without the brackets.
unfoldable pub json_strings : List Wide → Bytes
json_strings [] = []
json_strings (v ∷ []) = json_string v
json_strings (v ∷ w ∷ vs) = json_string v ++ b',' ∷ json_strings (w ∷ vs)

-- value ? "true" : "false"
abbrev pub boolean_text : Bool → Bytes
boolean_text true = codes "true"
boolean_text false = codes "false"
