-- ===== src/Stellar/Memo.antt =====
-- `truncateToMemo` of packages/stellar/src/transaction-builder.ts: UTF-8 bytes, cut back to the start of
-- a character. The text is a list of code points, in which a surrogate without its partner stands for
-- itself; what `TextDecoder` makes of bytes is a parameter.
pub mod Cut
use evergent.Base.{
  ℕ, zero, suc, Bool, true, false, ◌&&◌, List, [], ◌∷◌, ◌++◌, if◌then◌else◌, ltb, leb, length, take,
  ◌+◌, ◌/◌, ◌%◌,
}
use evergent.Base.Parse.{Codes}

abbrev Bytes : Type 0
Bytes = List ℕ

-- The bytes of a code point.
abbrev pub utf8 : ℕ → List ℕ
utf8 c =
    if ltb c 128
    then c ∷ []
    else if ltb c 2048
    then (192 + c / 64) ∷ (128 + c % 64) ∷ []
    else if ltb c 65536
    then (224 + c / 4096) ∷ (128 + (c / 64) % 64) ∷ (128 + c % 64) ∷ []
    else (240 + c / 262144) ∷ (128 + (c / 4096) % 64) ∷ (128 + (c / 64) % 64) ∷ (128 + c % 64) ∷ []

-- A text as UTF-8 has it: a surrogate that is not part of a pair becomes U+FFFD.
abbrev pub scalar : ℕ → ℕ
scalar c = if leb 0xd800 c && leb c 0xdfff then 0xfffd else c

-- `new TextEncoder().encode(text)`
unfoldable pub encode : Codes → List ℕ
encode [] = []
encode (c ∷ s) = utf8 (scalar c) ++ encode s

-- `encoded[n]!`, which is read within the bytes only
abbrev pub byte_at : ℕ → List ℕ → ℕ
byte_at n [] = 0
byte_at zero (b ∷ bytes) = b
byte_at (suc n) (b ∷ bytes) = byte_at n bytes

-- `(b & 0xc0) === 0x80` of a byte
abbrev pub is_continuation : ℕ → Bool
is_continuation b = leb 128 b && ltb b 192

-- The loop that goes back to the start of a character.
unfoldable pub cut_back : ℕ → List ℕ → ℕ
cut_back zero bytes = 0
cut_back (suc n) bytes =
    let earlier = cut_back n bytes in
    if is_continuation (byte_at (suc n) bytes) then earlier else suc n

-- `truncateToMemo`
unfoldable pub truncate_to_memo : (List ℕ → Codes) → Codes → Codes
unfolding encode cut_back
truncate_to_memo decode s =
    let bytes = encode s in
    if leb (length bytes) 28 then s else decode (take (cut_back 28 bytes) bytes)
