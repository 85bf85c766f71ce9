-- ===== src/Text/Format.antt =====
-- Numbers and quoted texts in messages: fmt's %d and %q, and strconv.Atoi.
use Prim.Native.Char.{code}
use Prim.Native.String.{String, [], ◌∷◌}
use mathlib.Core.List.{◌∷◌ as ◌∷ᴸ◌}
use mathlib.Core.Option
use ai_k8s.Prelude.{
  ℕ, zero, suc, ◌-◌, ◌+◌, ◌*◌, ◌/◌, ◌%◌, ◌<>◌, ◌&&◌, ◌||◌, Option, none, some, List, if◌then◌else◌,
  ltb, leb, ◌==◌, Eq-nat, ℤ, pos, negsuc,
}

unfoldable pub pick : List String → ℕ → String
pick List.[] n = []
pick (List.◌∷◌ s rest) zero = s
pick (List.◌∷◌ s rest) (suc n) = pick rest n

abbrev pub digits : List String
digits =
    "0" ∷ᴸ "1" ∷ᴸ "2" ∷ᴸ "3" ∷ᴸ "4" ∷ᴸ "5" ∷ᴸ "6" ∷ᴸ "7" ∷ᴸ "8" ∷ᴸ "9" ∷ᴸ "a" ∷ᴸ "b" ∷ᴸ "c" ∷ᴸ "d"
    ∷ᴸ "e" ∷ᴸ "f" ∷ᴸ List.[]

-- One digit below 16, in hexadecimal.
unfoldable pub digit : ℕ → String
unfolding pick
digit = pick digits

-- The digits of a number below `10 ^ fuel`, the most significant first.
unfoldable pub digits_from : ℕ → ℕ → String
digits_from zero n = []
digits_from (suc fuel) n =
    let more = digits_from fuel (n / 10) <> digit (n % 10) in if ltb n 10 then digit n else more

-- %d.
unfoldable pub decimal : ℕ → String
unfolding digits_from digit
decimal n = digits_from (suc n) n

unfoldable pub hex2 : ℕ → String
unfolding digit
hex2 n = digit (n / 16) <> digit (n % 16)

-- hex.EncodeToString, of bytes.
unfoldable pub hex : List ℕ → String
unfolding hex2
hex List.[] = []
hex (List.◌∷◌ b bytes) = hex2 b <> hex bytes

-- One character of %q. Above ASCII, the code points from U+00A1 on are taken to be printable.
unfoldable pub quoted : ℕ → String → String
unfolding hex2
quoted c s =
    if c == b'"'
    then "\\\""
    else if c == b'\\'
    then "\\\\"
    else if c == 7
    then "\\a"
    else if c == 8
    then "\\b"
    else if c == 12
    then "\\f"
    else if c == 10
    then "\\n"
    else if c == 13
    then "\\r"
    else if c == 9
    then "\\t"
    else if c == 11
    then "\\v"
    else if ltb c 32 || c == 127
    then "\\x" <> hex2 c
    else if leb 128 c && leb c 0xa0
    then "\\u00" <> hex2 c
    else s

unfoldable pub quote_from : String → String
unfolding quoted
quote_from [] = []
quote_from (c ∷ s) = quoted (code c) (c ∷ []) <> quote_from s

-- %q.
unfoldable pub quote : String → String
unfolding quote_from
quote s = "\"" <> (quote_from s <> "\"")

-- The digits of strconv.Atoi behind its sign.
unfoldable pub digits_value : ℕ → String → Option ℕ
digits_value n [] = some n
digits_value n (c ∷ s) =
    if leb b'0' (code c) && leb (code c) b'9'
    then digits_value (n * 10 + (code c - b'0')) s
    else none

abbrev pub non_empty_digits : String → Option ℕ
unfolding digits_value
non_empty_digits [] = none
non_empty_digits (c ∷ s) = digits_value 0 (c ∷ s)

abbrev pub negate : ℕ → ℤ
negate zero = pos 0
negate (suc n) = negsuc n

-- strconv.Atoi on a 64-bit int; `none` is an error, a value out of range among them.
unfoldable pub atoi : String → Option ℤ
unfolding digits_value
atoi [] = none
atoi (c ∷ s) =
    if code c == b'-'
    then Option.bind (non_empty_digits s)
        (λ n. if leb n 9223372036854775808 then some (negate n) else none)
    else Option.bind (if code c == b'+' then non_empty_digits s else non_empty_digits (c ∷ s))
        (λ n. if ltb n 9223372036854775808 then some (pos n) else none)
