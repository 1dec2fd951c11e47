-- ===== src/Base/Parse.antt =====
-- Texts as lists of code points, the way JavaScript splits them and reads whole numbers from them.
use evergent.Base.Tests.{ltb, leb, if◌then◌else◌, ◌==◌}
use Prim.Native.Nat.{ℕ, zero, suc, ◌+◌, ◌-◌, ◌*◌}
use mathlib.Core.Bool.{Bool, true, false, ◌&&◌, ◌||◌}
use mathlib.Core.Option.{Option, none, some}
use mathlib.Core.List.{List, [], ◌∷◌, reverse}

abbrev pub Codes : Type 0
Codes = List ℕ

-- The characters of `\s`, which are also those that `trim` removes.
unfoldable pub is_space : ℕ → Bool
is_space c =
    (leb 9 c && leb c 13)
    || (c == 32)
    || (c == 0xa0)
    || (c == 0x1680)
    || (leb 0x2000 c && leb c 0x200a)
    || (c == 0x2028)
    || (c == 0x2029)
    || (c == 0x202f)
    || (c == 0x205f)
    || (c == 0x3000)
    || (c == 0xfeff)

-- `s.trimStart()`
unfoldable pub trim_start : Codes → Codes
unfolding is_space
trim_start [] = []
trim_start (c ∷ s) = if is_space c then trim_start s else c ∷ s

-- `s.trim()`
unfoldable pub trim : Codes → Codes
unfolding trim_start
trim s = reverse (trim_start (reverse (trim_start s)))

-- A code point before the first of the parts.
abbrev pub before_first : ℕ → List Codes → List Codes
before_first c [] = (c ∷ []) ∷ []
before_first c (part ∷ parts) = (c ∷ part) ∷ parts

-- `s.split(d)` of a separator of one character
unfoldable pub split : ℕ → Codes → List Codes
split d [] = [] ∷ []
split d (c ∷ s) = if c == d then [] ∷ split d s else before_first c (split d s)

-- `s.split(/\s+/)`: `inside` says whether the last character was a space.
unfoldable pub split_spaces : Bool → Codes → List Codes
unfolding is_space
split_spaces inside [] = [] ∷ []
split_spaces inside (c ∷ s) =
    let after = split_spaces true s in
    let within = split_spaces false s in
    if is_space c then if inside then after else [] ∷ after else before_first c within

-- `s.includes(d)` of one character
abbrev pub has_code : ℕ → Codes → Bool
has_code d [] = false
has_code d (c ∷ s) = (c == d) || has_code d s

abbrev pub same_codes : Codes → Codes → Bool
same_codes [] [] = true
same_codes [] (d ∷ t) = false
same_codes (c ∷ s) [] = false
same_codes (c ∷ s) (d ∷ t) = (c == d) && same_codes s t

-- `xs[n] ?? d`
abbrev pub part_or : Codes → ℕ → List Codes → Codes
part_or d n [] = d
part_or d zero (x ∷ xs) = x
part_or d (suc n) (x ∷ xs) = part_or d n xs

-- What `parseInt` returns: NaN, a number that is not negative, or the negative of one.
pub data Whole : Type 0 where
  nan : Whole
  plus minus : ℕ → Whole

abbrev pub digit_of : ℕ → ℕ
digit_of c =
    if leb b'0' c && leb c b'9'
    then c - b'0'
    else if leb b'a' c && leb c b'z'
    then (c - b'a') + 10
    else if leb b'A' c && leb c b'Z'
    then (c - b'A') + 10
    else 36

-- The digits that a text begins with, after a value that is already read.
unfoldable pub digits_from : ℕ → ℕ → Codes → ℕ
digits_from radix value [] = value
digits_from radix value (c ∷ s) =
    let rest = digits_from radix (value * radix + digit_of c) s in
    if ltb (digit_of c) radix then rest else value

abbrev pub read_digits : ℕ → Codes → Option ℕ
read_digits radix [] = none
read_digits radix (c ∷ s) =
    if ltb (digit_of c) radix then some (digits_from radix (digit_of c) s) else none

-- Digits to the base of ten, or of sixteen after `0x`.
abbrev pub read_number : Codes → Option ℕ
read_number (z ∷ x ∷ s) =
    if (z == b'0') && ((x == b'x') || (x == b'X'))
    then read_digits 16 s
    else read_digits 10 (z ∷ x ∷ s)
read_number s = read_digits 10 s

abbrev pub signed : (ℕ → Whole) → Option ℕ → Whole
signed sign none = nan
signed sign (some n) = sign n

abbrev pub read_signed : Codes → Whole
read_signed [] = nan
read_signed (c ∷ s) =
    if c == b'-'
    then signed minus (read_number s)
    else if c == b'+'
    then signed plus (read_number s)
    else signed plus (read_number (c ∷ s))

-- `parseInt(s)`
unfoldable pub parse_int : Codes → Whole
unfolding trim_start digits_from
parse_int s = read_signed (trim_start s)
