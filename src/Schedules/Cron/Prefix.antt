-- ===== src/Schedules/Cron/Prefix.antt =====
-- A number is read up to a dash: what `parseInt` makes of a text that begins with a number and of
-- its part before the first dash.
use evergent.Base.{
  ℕ, Bool, true, false, List, [], ◌∷◌, ltb, ◌==◌, ◌≡◌, refl, sym, ap, ◌∙◌, arith, Bool-cases,
  Option-cases, ◌&&◌, ◌||◌, inl, inr, if◌then◌else◌, none, some, ◌<◌, ◌*◌, ◌+◌, ◌⊎◌,
}
use evergent.Base.Parse.{
  Codes, is_space, trim_start, split, before_first, part_or, Whole, nan, plus, minus, digit_of,
  digits_from, read_digits, read_number, signed, read_signed, parse_int,
}

-- The part before the first dash.
abbrev pub cut : Codes → Codes
cut [] = []
cut (c ∷ s) = if c == b'-' then [] else c ∷ cut s

part_or-before_first :
    (d : Codes) (c : ℕ) (parts : List Codes)
    → part_or d 0 (before_first c parts) ≡ c ∷ part_or [] 0 parts
part_or-before_first d c [] = refl
part_or-before_first d c (part ∷ parts) = refl

dash_or_other :
    (c : ℕ) (s : Codes)
    → (cut (c ∷ s) ≡ [] × (c ≡ b'-')) ⊎ ((cut (c ∷ s) ≡ c ∷ cut s) × ((c == b'-') ≡ false))
dash_or_other c s = elim (Bool-cases (c == b'-')) [
  | inl dash ↦ inl (rw dash refl, ground arith)
  | inr other ↦ inr (rw other refl, other)
]

pub split_lem : (d s : Codes) → part_or d 0 (split b'-' s) ≡ cut s
unfolding split
split_lem d [] = refl
split_lem d (c ∷ s) = elim (Bool-cases (c == b'-')) [
  | inl dash ↦ rw dash refl
  | inr other ↦
      rw other (part_or-before_first d c (split b'-' s) ∙ ap (λ t. c ∷ t) (split_lem [] s))
]

no_digit : (radix c : ℕ) → radix < 37 → c ≡ b'-' → ltb (digit_of c) radix ≡ false
no_digit radix c h e = rw e (ground arith)

digits_from-cut :
    (radix value : ℕ) (s : Codes)
    → radix < 37
    → digits_from radix value (cut s) ≡ digits_from radix value s
unfolding digits_from
digits_from-cut radix value [] h = refl
digits_from-cut radix value (c ∷ s) h = elim (dash_or_other c s) [
  | inl (none_left, dash) ↦ rw (none_left, no_digit radix c h dash) refl
  | inr (left, other) ↦ rw (left, digits_from-cut radix (value * radix + digit_of c) s h) refl
]

read_digits-cut :
    (radix n : ℕ) (s : Codes)
    → radix < 37
    → read_digits radix (cut s) ≡ some n
    → read_digits radix s ≡ some n
read_digits-cut radix n [] h e = e
read_digits-cut radix n (c ∷ s) h e = elim (dash_or_other c s) [
  | inl (none_left, dash) ↦
      let nothing : none ≡ some n = sym (ap (read_digits radix) none_left) ∙ e in cc
  | inr (left, other) ↦
      let same : read_digits radix (c ∷ s) ≡ read_digits radix (c ∷ cut s) =
        rw (digits_from-cut radix (digit_of c) s h) refl in
      same ∙ sym (ap (read_digits radix) left) ∙ e
]

abbrev is_hex : ℕ → ℕ → Bool
is_hex z x = (z == b'0') && ((x == b'x') || (x == b'X'))

read_number_hex :
    (z x : ℕ) (s : Codes) → is_hex z x ≡ true → read_number (z ∷ x ∷ s) ≡ read_digits 16 s
read_number_hex z x s h = rw h refl

read_number_decimal :
    (z x : ℕ) (s : Codes)
    → is_hex z x ≡ false
    → read_number (z ∷ x ∷ s) ≡ read_digits 10 (z ∷ x ∷ s)
read_number_decimal z x s h = rw h refl

dash-is_hex : (z x : ℕ) → x ≡ b'-' → is_hex z x ≡ false
dash-is_hex z x e = rw e (ground arith)

read_number-cut : (n : ℕ) (s : Codes) → read_number (cut s) ≡ some n → read_number s ≡ some n
read_number-cut n [] e = e
read_number-cut n (z ∷ []) e = elim (dash_or_other z []) [
  | inl (none_left, dash) ↦ let nothing : none ≡ some n = sym (ap read_number none_left) ∙ e in cc
  | inr (left, other) ↦ sym (ap read_number left) ∙ e
]
read_number-cut n (z ∷ x ∷ s) e = elim (dash_or_other z (x ∷ s)) [
  | inl (none_left, dash) ↦ let nothing : none ≡ some n = sym (ap read_number none_left) ∙ e in cc
  | inr (left, other) ↦ elim (dash_or_other x s) [
    | inl (empty, dash) ↦
        let one : cut (z ∷ x ∷ s) ≡ z ∷ [] = left ∙ ap (λ t. z ∷ t) empty in
        let e' : read_digits 10 (cut (z ∷ x ∷ s)) ≡ some n =
          ap (read_digits 10) one ∙ sym (ap read_number one) ∙ e in
        read_number_decimal z x s (dash-is_hex z x dash)
        ∙ read_digits-cut 10 n (z ∷ x ∷ s) (omega arith) e'
    | inr (more, unlike) ↦
        let two : cut (z ∷ x ∷ s) ≡ z ∷ x ∷ cut s = left ∙ ap (λ t. z ∷ t) more in
        let e' : read_number (z ∷ x ∷ cut s) ≡ some n = sym (ap read_number two) ∙ e in
        elim (Bool-cases (is_hex z x)) [
          | inl hex ↦
              read_number_hex z x s hex
              ∙ read_digits-cut 16 n s (omega arith) (sym (read_number_hex z x (cut s) hex) ∙ e')
          | inr decimal ↦
              read_number_decimal z x s decimal
              ∙ read_digits-cut 10 n (z ∷ x ∷ s) (omega arith)
                  (ap (read_digits 10) two ∙ sym (read_number_decimal z x (cut s) decimal) ∙ e')
        ]
  ]
]

abbrev pub is_number : Whole → Bool
is_number nan = false
is_number (plus n) = true
is_number (minus n) = true

signed-cut :
    (sign : ℕ → Whole) (s : Codes)
    → is_number (signed sign (read_number (cut s))) ≡ true
    → signed sign (read_number s) ≡ signed sign (read_number (cut s))
signed-cut sign s h = elim (Option-cases (read_number (cut s))) [
  | inl missing ↦
      let no : false ≡ true = sym (ap (λ o. is_number (signed sign o)) missing) ∙ h in cc
  | inr (n, e) ↦ rw (e, read_number-cut n s e) refl
]

read_signed_plus :
    (c : ℕ) (s : Codes)
    → (c == b'-') ≡ false
    → (c == b'+') ≡ true
    → read_signed (c ∷ s) ≡ signed plus (read_number s)
read_signed_plus c s h k = rw (h, k) refl

read_signed_digit :
    (c : ℕ) (s : Codes)
    → (c == b'-') ≡ false
    → (c == b'+') ≡ false
    → read_signed (c ∷ s) ≡ signed plus (read_number (c ∷ s))
read_signed_digit c s h k = rw (h, k) refl

read_signed-cut :
    (s : Codes) → is_number (read_signed (cut s)) ≡ true → read_signed s ≡ read_signed (cut s)
read_signed-cut [] h = refl
read_signed-cut (c ∷ s) h = elim (dash_or_other c s) [
  | inl (none_left, dash) ↦
      let no : false ≡ true = sym (ap (λ t. is_number (read_signed t)) none_left) ∙ h in cc
  | inr (left, other) ↦
      let left' : read_signed (cut (c ∷ s)) ≡ read_signed (c ∷ cut s) = ap read_signed left in
      elim (Bool-cases (c == b'+')) [
        | inl sign ↦
            let there = left' ∙ read_signed_plus c (cut s) other sign in
            read_signed_plus c s other sign
            ∙ signed-cut plus s (sym (ap is_number there) ∙ h)
            ∙ sym there
        | inr digit ↦
            let there = left' ∙ read_signed_digit c (cut s) other digit in
            let there' : read_signed (cut (c ∷ s)) ≡ signed plus (read_number (cut (c ∷ s))) =
              there ∙ ap (λ t. signed plus (read_number t)) (sym left) in
            read_signed_digit c s other digit
            ∙ signed-cut plus (c ∷ s) (sym (ap is_number there') ∙ h)
            ∙ sym there'
      ]
]

trim_space : (c : ℕ) (s : Codes) → is_space c ≡ true → trim_start (c ∷ s) ≡ trim_start s
unfolding trim_start
trim_space c s h = rw h refl

trim_plain : (c : ℕ) (s : Codes) → is_space c ≡ false → trim_start (c ∷ s) ≡ c ∷ s
unfolding trim_start
trim_plain c s h = rw h refl

trim_start-cut : (s : Codes) → trim_start (cut s) ≡ cut (trim_start s)
unfolding trim_start is_space
trim_start-cut [] = refl
trim_start-cut (c ∷ s) = elim (dash_or_other c s) [
  | inl (none_left, dash) ↦
      let plain : is_space c ≡ false = rw dash refl in rw (none_left, plain, none_left) refl
  | inr (left, other) ↦ elim (Bool-cases (is_space c)) [
    | inl space ↦
        ap trim_start left
        ∙ trim_space c (cut s) space
        ∙ trim_start-cut s
        ∙ ap cut (sym (trim_space c s space))
    | inr plain ↦
        ap trim_start left
        ∙ trim_plain c (cut s) plain
        ∙ sym left
        ∙ ap cut (sym (trim_plain c s plain))
  ]
]

-- A number before the first dash is the number that is read from the whole text.
pub parse_int-cut :
    (s : Codes) → is_number (parse_int (cut s)) ≡ true → parse_int s ≡ parse_int (cut s)
unfolding parse_int
parse_int-cut s h =
    let inside = ap read_signed (trim_start-cut s) in
    read_signed-cut (trim_start s) (sym (ap is_number inside) ∙ h) ∙ sym inside
