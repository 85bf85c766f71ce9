-- ===== src/Text.antt =====
-- What the program uses of the packages strings, strconv and fmt. A Go string that came out of
-- JSON is valid UTF-8, and is modelled as the sequence of its code points.
pub mod Order
pub mod Format
pub mod Trim
pub mod Chars
pub mod Doubles
use Prim.Native.Char.{code}
use Prim.Native.String.{String, [], ◌∷◌}
use mathlib.Core.List
use mathlib.Core.Option
use ai_k8s.Prelude.{
  ℕ, zero, suc, ◌-◌, ◌/◌, ◌%◌, ◌+◌, ◌*◌, ◌<>◌, Bool, true, false, ◌&&◌, ◌||◌, not, Option, none,
  some, List, if◌then◌else◌, ltb, leb, ◌==◌, Eq-nat, Eq-string, ℤ, pos, negsuc,
}

-- unicode.IsSpace, on a code point.
unfoldable pub is_space : ℕ → Bool
is_space c =
    (leb 9 c && leb c 13)
    || c == 32
    || c == 0x85
    || c == 0xa0
    || c == 0x1680
    || (leb 0x2000 c && leb c 0x200a)
    || c == 0x2028
    || c == 0x2029
    || c == 0x202f
    || c == 0x205f
    || c == 0x3000

abbrev pub is_nil : String → Bool
is_nil [] = true
is_nil (c ∷ s) = false

unfoldable pub trim_left : (ℕ → Bool) → String → String
trim_left p [] = []
trim_left p (c ∷ s) = let rest = trim_left p s in if p (code c) then rest else c ∷ s

unfoldable pub trim_right : (ℕ → Bool) → String → String
trim_right p [] = []
trim_right p (c ∷ s) =
    let rest = trim_right p s in if is_nil rest && p (code c) then [] else c ∷ rest

-- strings.TrimFunc, and strings.TrimSpace.
unfoldable pub trim : (ℕ → Bool) → String → String
unfolding trim_left trim_right
trim p s = trim_right p (trim_left p s)

unfoldable pub trim_space : String → String
unfolding trim is_space
trim_space s = trim is_space s

-- The rest of a text behind a prefix.
unfoldable pub strip_prefix : String → String → Option String
strip_prefix s [] = some s
strip_prefix [] (c ∷ p) = none
strip_prefix (d ∷ s) (c ∷ p) = if code d == code c then strip_prefix s p else none

abbrev pub is_some {ℓ} : {A : Type ℓ} → Option A → Bool
is_some none = false
is_some (some a) = true

-- strings.HasPrefix and strings.TrimPrefix.
unfoldable pub has_prefix : String → String → Bool
unfolding strip_prefix
has_prefix s p = is_some (strip_prefix s p)

unfoldable pub trim_prefix : String → String → String
unfolding strip_prefix
trim_prefix s p = Option.get_or (strip_prefix s p) s

unfoldable pub strip_suffix : String → String → Option String
strip_suffix [] p = if is_nil p then some [] else none
strip_suffix (c ∷ s) p =
    let rest = Option.map (λ t. c ∷ t) (strip_suffix s p) in if (c ∷ s) == p then some [] else rest

-- strings.TrimSuffix.
unfoldable pub trim_suffix : String → String → String
unfolding strip_suffix
trim_suffix s p = Option.get_or (strip_suffix s p) s

-- strings.Contains with a text of one character.
unfoldable pub has_char : ℕ → String → Bool
has_char k [] = false
has_char k (c ∷ s) = code c == k || has_char k s

-- strings.Contains.
unfoldable pub contains : String → String → Bool
unfolding has_prefix
contains [] t = is_nil t
contains (c ∷ s) t = has_prefix (c ∷ s) t || contains s t

-- The number of code points.
unfoldable pub size : String → ℕ
size [] = 0
size (c ∷ s) = suc (size s)

-- The loop of strings.ReplaceAll: how many characters of the last match are still to skip.
unfoldable pub replace_from : ℕ → String → String → String → String
replace_from k old new [] = []
replace_from (suc k) old new (c ∷ s) = replace_from k old new s
replace_from zero old new (c ∷ s) =
    let matched = new <> replace_from (size old - 1) old new s in
    let kept = c ∷ replace_from zero old new s in if has_prefix (c ∷ s) old then matched else kept

-- strings.ReplaceAll, for an old text that is not empty.
unfoldable pub replace_all : String → String → String → String
unfolding replace_from has_prefix size
replace_all s old new = replace_from zero old new s

-- strings.Split at a separator of one character; never empty.
unfoldable pub split_from : ℕ → String → String → List String
split_from k cur [] = List.◌∷◌ cur List.[]
split_from k cur (c ∷ s) =
    let next = List.◌∷◌ cur (split_from k [] s) in
    let more = split_from k (cur <> (c ∷ [])) s in if code c == k then next else more

unfoldable pub split : String → ℕ → List String
unfolding split_from
split s k = split_from k [] s

-- strings.Join.
unfoldable pub join : List String → String → String
join List.[] sep = []
join (List.◌∷◌ x List.[]) sep = x
join (List.◌∷◌ x (List.◌∷◌ y xs)) sep = x <> (sep <> join (List.◌∷◌ y xs) sep)

-- Simple folding towards the ASCII letters: what strings.EqualFold compares, against an ASCII text.
unfoldable pub fold : ℕ → ℕ
fold c =
    if leb b'A' c && leb c b'Z'
    then c + 32
    else if c == 0x17f
    then b's'
    else if c == 0x212a
    then b'k'
    else c

-- strings.EqualFold, where one text is ASCII.
unfoldable pub equal_fold : String → String → Bool
unfolding fold
equal_fold [] [] = true
equal_fold (c ∷ s) (d ∷ t) = fold (code c) == fold (code d) && equal_fold s t
equal_fold [] (d ∷ t) = false
equal_fold (c ∷ s) [] = false
