-- ===== src/Base/Text.antt =====
-- Strings as JavaScript has them: length in UTF-16 units, prefixes, substrings, lower case.
use Prim.Native.Char.{code}
use Prim.Native.Nat.{ℕ, ◌+◌}
use Prim.Native.String
use Prim.Native.String.{String}
use mathlib.Core.Bool.{Bool, true, false, not, ◌&&◌, ◌||◌}
use mathlib.Core.Option.{Option, none, some}
use mathlib.Core.List.{List, [], ◌∷◌}
use text.Mathlib.Text.{◌==◌ as str_eq}
use evergent.Base.Tests.{leb, ltb, if◌then◌else◌, ◌==◌}
use evergent.Base.Lists.{any}

infixr 66 ◌<>◌
-- `s + t`, and the parts of a template literal
abbrev pub ◌<>◌ : String → String → String
s <> t = String.◌++◌ s t

abbrev pub codes : String → List ℕ
codes String.[] = []
codes (String.◌∷◌ c s) = code c ∷ codes s

-- UTF-16 units of one code point
abbrev pub units : ℕ → ℕ
units c = if ltb c 65536 then 1 else 2

-- `s.length`
unfoldable pub js_length : String → ℕ
js_length String.[] = 0
js_length (String.◌∷◌ c s) = units (code c) + js_length s

-- Whether a string is truthy.
abbrev pub is_truthy : String → Bool
is_truthy s = not (str_eq s "")

-- The same of `string | null | undefined`.
abbrev pub is_given : Option String → Bool
is_given none = false
is_given (some s) = not (str_eq s "")

-- `s.startsWith(p)`, over code points
unfoldable pub has_prefix : List ℕ → List ℕ → Bool
has_prefix [] s = true
has_prefix (c ∷ p) [] = false
has_prefix (c ∷ p) (d ∷ s) = (c == d) && has_prefix p s

unfoldable pub starts_with : String → String → Bool
unfolding has_prefix
starts_with s p = has_prefix (codes p) (codes s)

-- `s.includes(p)`, over code points
unfoldable pub contains : List ℕ → List ℕ → Bool
unfolding has_prefix
contains p [] = has_prefix p []
contains p (d ∷ s) = has_prefix p (d ∷ s) || contains p s

-- `s.toLowerCase()` as far as it can yield an ASCII letter: the letters A to Z, the Kelvin sign,
-- and the dotted I, which becomes `i` and a combining dot.
abbrev lower_code : ℕ → List ℕ → List ℕ
lower_code c rest =
    if leb b'A' c && leb c b'Z'
    then (c + 32) ∷ rest
    else if c == 0x212a
    then b'k' ∷ rest
    else if c == 0x130
    then b'i' ∷ 0x307 ∷ rest
    else c ∷ rest

unfoldable pub to_lower : List ℕ → List ℕ
to_lower [] = []
to_lower (c ∷ s) = lower_code c (to_lower s)

-- `s.replace(/\/+$/, "")`
unfoldable pub strip_slashes : String → String
strip_slashes String.[] = ""
strip_slashes (String.◌∷◌ c s) =
    let rest = strip_slashes s in
    if (code c == b'/') && str_eq rest "" then "" else String.◌∷◌ c rest

abbrev space_codes : List ℕ
space_codes =
    9 ∷ 10 ∷ 11 ∷ 12 ∷ 13 ∷ 32 ∷ 0xa0 ∷ 0x1680 ∷ 0x2000 ∷ 0x2001 ∷ 0x2002 ∷ 0x2003 ∷ 0x2004 ∷ 0x2005
    ∷ 0x2006 ∷ 0x2007 ∷ 0x2008 ∷ 0x2009 ∷ 0x200a ∷ 0x2028 ∷ 0x2029 ∷ 0x202f ∷ 0x205f ∷ 0x3000
    ∷ 0xfeff ∷ []

abbrev is_blank : ℕ → Bool
is_blank c = any (λ d. d == c) space_codes

abbrev trim_front : String → String
trim_front String.[] = ""
trim_front (String.◌∷◌ c s) = if is_blank (code c) then trim_front s else String.◌∷◌ c s

abbrev trim_back : String → String
trim_back String.[] = ""
trim_back (String.◌∷◌ c s) =
    let rest = trim_back s in if is_blank (code c) && str_eq rest "" then "" else String.◌∷◌ c rest

-- `s.trim()`
unfoldable pub trim_text : String → String
trim_text s = trim_back (trim_front s)
