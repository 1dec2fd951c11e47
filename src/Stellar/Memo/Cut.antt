-- ===== src/Stellar/Memo/Cut.antt =====
-- The memo that packages/stellar/src/transaction-builder.ts cuts off a text.
use evergent.Base.{
  ◌≢◌, All-map, ℕ, zero, suc, true, false, List, [], ◌∷◌, ◌++◌, ltb, leb, length, take, ◌+◌, ◌-◌,
  ◌/◌, ◌%◌, ◌≡◌, refl, sym, ap, ◌∙◌, ◌<◌, ◌≤◌, arith, Bool-cases, inl, inr, All, length-take,
  length-append, All-take, take_all, leb→le, ◌⊎◌,
}
use evergent.Base.Parse.{Codes}
use evergent.Stellar.Memo.{
  utf8, scalar, encode, byte_at, is_continuation, cut_back, truncate_to_memo,
}

-- A code point that is no surrogate.
abbrev pub IsScalar : ℕ → Type 0
IsScalar c = (c < 0xd800) ⊎ ((0xe000 ≤ c) × (c < 1114112))

-- A text that does not begin with a byte order mark, which `TextDecoder` leaves out.
abbrev pub IsUnmarked : Codes → Type 0
IsUnmarked [] = Unit {0}
IsUnmarked (c ∷ s) = c ≢ 0xfeff

IsUnmarked-take : (k : ℕ) (s : Codes) → IsUnmarked s → IsUnmarked (take k s)
IsUnmarked-take zero s h = tt
IsUnmarked-take (suc k) [] h = tt
IsUnmarked-take (suc k) (c ∷ s) h = h

scalar-bound : (c : ℕ) → c < 1114112 → scalar c < 1114112
scalar-bound c h = ground arith

bound_of : (c : ℕ) → IsScalar c → c < 1114112
bound_of c (inl low) = omega arith
bound_of c (inr (high, below)) = below

-- A list of bytes whose first starts a character and whose others do not.
abbrev IsCharacter : List ℕ → Type 0
IsCharacter [] = ⊥
IsCharacter (b ∷ rest) = (is_continuation b ≡ false) × All (λ x. is_continuation x ≡ true) rest

tail_byte : (n : ℕ) → is_continuation (128 + n % 64) ≡ true
tail_byte n = ground arith

utf8-IsCharacter : (c : ℕ) → c < 1114112 → IsCharacter (utf8 c)
utf8-IsCharacter c h = elim (Bool-cases (ltb c 128)) [
  | inl one ↦ rw one (ground arith, tt)
  | inr more ↦ elim (Bool-cases (ltb c 2048)) [
    | inl two ↦ rw (more, two) (ground arith, (tail_byte c, tt))
    | inr more' ↦ elim (Bool-cases (ltb c 65536)) [
      | inl three ↦ rw (more, more', three) (ground arith, (tail_byte (c / 64), (tail_byte c, tt)))
      | inr four ↦
          rw (more, more', four)
            (ground arith, (tail_byte (c / 4096), (tail_byte (c / 64), (tail_byte c, tt))))
    ]
  ]
]

-- A position within a character, after its first byte, is a continuation.
inside :
    (n : ℕ) (b : ℕ) (rest tail : List ℕ)
    → All (λ x. is_continuation x ≡ true) rest
    → n < length rest
    → is_continuation (byte_at (suc n) ((b ∷ rest) ++ tail)) ≡ true
inside n b [] tail h lt = absurd (omega arith)
inside zero b (x ∷ rest) tail h lt = h.0
inside (suc n) b (x ∷ rest) tail h lt = inside n x rest tail h.1 (omega arith)

byte_at-append : (n : ℕ) (xs ys : List ℕ) → byte_at (length xs + n) (xs ++ ys) ≡ byte_at n ys
byte_at-append n [] ys = ap (λ k. byte_at k ys) (omega arith)
byte_at-append n (x ∷ xs) ys =
    let e : length (x ∷ xs) + n ≡ suc (length xs + n) = omega arith in
    ap (λ k. byte_at k (x ∷ (xs ++ ys))) e ∙ byte_at-append n xs ys

take-append : (n : ℕ) (xs ys : List ℕ) → take (length xs + n) (xs ++ ys) ≡ xs ++ take n ys
take-append n [] ys = ap (λ k. take k ys) (omega arith)
take-append n (x ∷ xs) ys =
    let e : length (x ∷ xs) + n ≡ suc (length xs + n) = omega arith in
    ap (λ k. take k (x ∷ (xs ++ ys))) e ∙ ap (λ t. x ∷ t) (take-append n xs ys)

-- The bytes up to the start of a character are those of a number of whole characters.
abbrev IsWhole : Codes → ℕ → Type 0
IsWhole s p = (k : ℕ) × (take p (encode s) ≡ encode (take k s))

after_character :
    (c : ℕ) (s : Codes) (ch : List ℕ) (p q : ℕ)
    → utf8 (scalar c) ≡ ch
    → p ≡ length ch + q
    → IsWhole s q
    → IsWhole (c ∷ s) p
unfolding encode
after_character c s ch p q e at (k, whole) = (
  suc k,
  ap (λ n. take n (utf8 (scalar c) ++ encode s)) at
      ∙ ap (λ xs. take (length ch + q) (xs ++ encode s)) e
      ∙ take-append q ch (encode s)
      ∙ ap (λ ys. ch ++ ys) whole
      ∙ ap (λ xs. xs ++ encode (take k s)) (sym e),
)

-- A start in the bytes of a character and what follows it.
at_start :
    (ch tail : List ℕ) (p : ℕ)
    → IsCharacter ch
    → is_continuation (byte_at p (ch ++ tail)) ≡ false
    → (p ≡ 0) ⊎ ((q : ℕ) × (p ≡ length ch + q))
at_start [] tail p h start = absurd h
at_start (b ∷ rest) tail zero h start = inl refl
at_start (b ∷ rest) tail (suc n) (first, others) start = elim (Bool-cases (ltb n (length rest))) [
  | inl within ↦
      let lt : n < length rest = ground arith in
      let no : true ≡ false = sym (inside n b rest tail others lt) ∙ start in cc
  | inr beyond ↦ let le : length rest ≤ n = ground arith in inr (n - length rest, omega arith)
]

within_tail :
    (ch tail : List ℕ) (p q : ℕ) → p ≡ length ch + q → p < length (ch ++ tail) → q < length tail
within_tail ch tail p q at lt = omega (arith, length-append ch tail)

start-IsWhole :
    (s : Codes) (p : ℕ)
    → All (λ c. c < 1114112) s
    → p < length (encode s)
    → is_continuation (byte_at p (encode s)) ≡ false
    → IsWhole s p
unfolding encode
start-IsWhole [] p h lt start = absurd (omega arith)
start-IsWhole (c ∷ s) p (valid, h) lt start =
    elim (at_start (utf8 (scalar c)) (encode s) p
      (utf8-IsCharacter (scalar c) (scalar-bound c valid)) start) [
        | inl first ↦ (0, ap (λ n. take n (utf8 (scalar c) ++ encode s)) first)
        | inr (q, at) ↦ after_character c s (utf8 (scalar c)) p q refl at (
            start-IsWhole s q h (within_tail (utf8 (scalar c)) (encode s) p q at lt) (
              sym (
                ap is_continuation (
                  ap (λ n. byte_at n (utf8 (scalar c) ++ encode s)) at
                  ∙ byte_at-append q (utf8 (scalar c)) (encode s)))
              ∙ start))
      ]

cut_back-IsWhole :
    (s : Codes) (n : ℕ)
    → All (λ c. c < 1114112) s
    → n < length (encode s)
    → (cut_back n (encode s) ≤ n) × IsWhole s (cut_back n (encode s))
unfolding cut_back encode
cut_back-IsWhole s zero h lt = (omega arith, (0, refl))
cut_back-IsWhole s (suc n) h lt =
    let (le, whole) = cut_back-IsWhole s n h (omega arith) in
    elim (Bool-cases (is_continuation (byte_at (suc n) (encode s)))) [
      | inl middle ↦ rw (middle, cut_back) (omega arith, whole)
      | inr start ↦ rw (start, cut_back) (omega arith, start-IsWhole s (suc n) h lt start)
    ]

module _ (decode : List ℕ → Codes)
    (decode-encode : (s : Codes) → All IsScalar s → IsUnmarked s → decode (encode s) ≡ s) where
  long_memo :
      (s : Codes) (p k : ℕ)
      → All IsScalar s
      → IsUnmarked s
      → p ≤ 28
      → take p (encode s) ≡ encode (take k s)
      → (decode (take p (encode s)) ≡ take k s)
        × (length (encode (decode (take p (encode s)))) ≤ 28)
  long_memo s p k h unmarked le whole =
      let memo : decode (take p (encode s)) ≡ take k s =
        ap decode whole
        ∙ decode-encode (take k s) (All-take _ k s h) (IsUnmarked-take k s unmarked) in
      let bytes : encode (decode (take p (encode s))) ≡ take p (encode s) =
        ap encode memo ∙ sym whole in
      let size = ap length bytes in (memo, omega (arith, length-take p (encode s), size))

  -- The memo is a text of whole characters from the start of the reason, of at most 28 bytes, for
  -- every reason without unpaired surrogates that does not begin with a byte order mark, and for a
  -- decoder that gives every such text back from the bytes of its encoding.
  pub truncate_to_memo_lem :
      (s : Codes)
      → All IsScalar s
      → IsUnmarked s
      → (k : ℕ) × (truncate_to_memo decode s ≡ take k s)
        × (length (encode (truncate_to_memo decode s)) ≤ 28)
  unfolding truncate_to_memo
  truncate_to_memo_lem s h unmarked = elim (Bool-cases (leb (length (encode s)) 28)) [
    | inl short ↦
        rw (short, truncate_to_memo)
          (length s, sym (take_all (length s) s (omega arith)), leb→le (length (encode s)) 28 short)
    | inr long ↦
        let lt : 28 < length (encode s) = ground arith in
        let (le, (k, whole)) = cut_back-IsWhole s 28 (All-map _ _ bound_of s h) lt in
        let (memo, size) = long_memo s (cut_back 28 (encode s)) k h unmarked le whole in
        rw (long, truncate_to_memo) (k, memo, size)
  ]
