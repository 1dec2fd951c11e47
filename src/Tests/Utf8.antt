-- ===== src/Tests/Utf8.antt =====
-- A decoder of UTF-8, which stands for `TextDecoder` in the runs of `truncateToMemo`.
use evergent.Base.{
  false, leb, ◌&&◌, ◌==◌, ℕ, zero, suc, true, false, List, [], ◌∷◌, ◌++◌, if◌then◌else◌, ltb, ◌+◌,
  ◌-◌, ◌*◌, ◌/◌, ◌%◌, ◌≡◌, refl, ◌∙◌, ap, arith, Bool-cases, inl, inr, All, ◌<◌,
}
use evergent.Base.Parse.{Codes}
use evergent.Stellar.Memo.{utf8, scalar, encode}
use evergent.Stellar.Memo.Cut.{IsScalar, IsUnmarked}

-- The code points of bytes, where n more bytes belong to a character whose bits so far are v.
abbrev pub from_bytes : ℕ → ℕ → List ℕ → Codes
from_bytes n v [] = []
from_bytes zero v (b ∷ bytes) =
    let single = from_bytes 0 0 bytes in
    let double = from_bytes 1 (b - 192) bytes in
    let triple = from_bytes 2 (b - 224) bytes in
    let quadruple = from_bytes 3 (b - 240) bytes in
    if ltb b 128
    then b ∷ single
    else if ltb b 224
    then double
    else if ltb b 240
    then triple
    else quadruple
from_bytes (suc zero) v (b ∷ bytes) = (v * 64 + (b - 128)) ∷ from_bytes 0 0 bytes
from_bytes (suc (suc n)) v (b ∷ bytes) = from_bytes (suc n) (v * 64 + (b - 128)) bytes

-- A byte order mark at the start is left out.
abbrev strip_mark : Codes → Codes
strip_mark [] = []
strip_mark (c ∷ s) = if c == 0xfeff then s else c ∷ s

abbrev pub decode : List ℕ → Codes
decode bytes = strip_mark (from_bytes 0 0 bytes)

-- The first byte of a character says how many follow.
double-from_bytes :
    (b : ℕ) (rest : List ℕ)
    → ltb b 128 ≡ false
    → ltb b 224 ≡ true
    → from_bytes 0 0 (b ∷ rest) ≡ from_bytes 1 (b - 192) rest
double-from_bytes b rest h k = rw h (rw k refl)

triple-from_bytes :
    (b : ℕ) (rest : List ℕ)
    → ltb b 224 ≡ false
    → ltb b 240 ≡ true
    → from_bytes 0 0 (b ∷ rest) ≡ from_bytes 2 (b - 224) rest
triple-from_bytes b rest h k =
    let more : ltb b 128 ≡ false = ground arith in rw more (rw h (rw k refl))

quadruple-from_bytes :
    (b : ℕ) (rest : List ℕ)
    → ltb b 240 ≡ false
    → from_bytes 0 0 (b ∷ rest) ≡ from_bytes 3 (b - 240) rest
quadruple-from_bytes b rest h =
    let more : ltb b 128 ≡ false = ground arith in
    let longer : ltb b 224 ≡ false = ground arith in rw more (rw longer (rw h refl))

utf8_two :
    (c : ℕ) → ltb c 128 ≡ false → ltb c 2048 ≡ true → utf8 c ≡ (192 + c / 64) ∷ (128 + c % 64) ∷ []
utf8_two c h k = rw h (rw k refl)

utf8_three :
    (c : ℕ)
    → ltb c 2048 ≡ false
    → ltb c 65536 ≡ true
    → utf8 c ≡ (224 + c / 4096) ∷ (128 + (c / 64) % 64) ∷ (128 + c % 64) ∷ []
utf8_three c h k = let more : ltb c 128 ≡ false = ground arith in rw more (rw h (rw k refl))

utf8_four :
    (c : ℕ)
    → ltb c 65536 ≡ false
    → utf8 c
      ≡ (240 + c / 262144) ∷ (128 + (c / 4096) % 64) ∷ (128 + (c / 64) % 64) ∷ (128 + c % 64) ∷ []
utf8_four c h =
    let more : ltb c 128 ≡ false = ground arith in
    let longer : ltb c 2048 ≡ false = ground arith in rw more (rw longer (rw h refl))

from_bytes-utf8 :
    (c : ℕ) (rest : List ℕ)
    → c < 1114112
    → from_bytes 0 0 (utf8 c ++ rest) ≡ c ∷ from_bytes 0 0 rest
from_bytes-utf8 c rest valid = elim (Bool-cases (ltb c 128)) [
  | inl one ↦ rw one (rw one refl)
  | inr more ↦ elim (Bool-cases (ltb c 2048)) [
    | inl two ↦
        ap (λ bytes. from_bytes 0 0 (bytes ++ rest)) (utf8_two c more two)
        ∙ double-from_bytes (192 + c / 64) ((128 + c % 64) ∷ rest) (ground arith) (ground arith)
        ∙ ap (λ x. x ∷ from_bytes 0 0 rest) (omega arith)
    | inr longer ↦ elim (Bool-cases (ltb c 65536)) [
      | inl three ↦
          ap (λ bytes. from_bytes 0 0 (bytes ++ rest)) (utf8_three c longer three)
          ∙ triple-from_bytes (224 + c / 4096) ((128 + (c / 64) % 64) ∷ (128 + c % 64) ∷ rest)
              (ground arith) (ground arith)
          ∙ ap (λ x. x ∷ from_bytes 0 0 rest) (omega arith)
      | inr four ↦
          ap (λ bytes. from_bytes 0 0 (bytes ++ rest)) (utf8_four c four)
          ∙ quadruple-from_bytes (240 + c / 262144)
              ((128 + (c / 4096) % 64) ∷ (128 + (c / 64) % 64) ∷ (128 + c % 64) ∷ rest)
              (ground arith)
          ∙ ap (λ x. x ∷ from_bytes 0 0 rest) (omega arith)
    ]
  ]
]

scalar_same : (c : ℕ) → IsScalar c → scalar c ≡ c
scalar_same c (inl low) =
    let not_surrogate : (leb 0xd800 c && leb c 0xdfff) ≡ false = ground arith in
    rw not_surrogate refl
scalar_same c (inr (high, below)) =
    let not_surrogate : (leb 0xd800 c && leb c 0xdfff) ≡ false = ground arith in
    rw not_surrogate refl

bound : (c : ℕ) → IsScalar c → c < 1114112
bound c (inl low) = omega arith
bound c (inr (high, below)) = below

from_bytes-encode : (s : Codes) → All IsScalar s → from_bytes 0 0 (encode s) ≡ s
unfolding encode
from_bytes-encode [] valid = refl
from_bytes-encode (c ∷ s) (here, valid) =
    ap (λ x. from_bytes 0 0 (utf8 x ++ encode s)) (scalar_same c here)
    ∙ from_bytes-utf8 c (encode s) (bound c here)
    ∙ ap (λ x. c ∷ x) (from_bytes-encode s valid)

strip_mark_unmarked : (s : Codes) → IsUnmarked s → strip_mark s ≡ s
strip_mark_unmarked [] h = refl
strip_mark_unmarked (c ∷ s) h = let other : (c == 0xfeff) ≡ false = ground arith in rw other refl

pub decode-encode : (s : Codes) → All IsScalar s → IsUnmarked s → decode (encode s) ≡ s
decode-encode s valid unmarked =
    ap strip_mark (from_bytes-encode s valid) ∙ strip_mark_unmarked s unmarked
