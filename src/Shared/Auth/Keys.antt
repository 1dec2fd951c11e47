-- ===== src/Shared/Auth/Keys.antt =====
-- Which requests the two providers accept.
use Prim.Native.Char.{Char}
use Prim.Native.String.append
use evergent.Base.{
  ℕ, zero, suc, List, [], ◌∷◌, ◌++◌, length, ◌==◌, ◌&&◌, Option, none, sym, and-eq-true, true, some,
  String, ◌≡◌, ◌≢◌, refl, ap, ◌∙◌, ◌⊎◌, inl, inr, Option-cases, Bool-cases, eq_iff, arith,
}
use evergent.Base.Text.{◌<>◌, is_truthy, starts_with, has_prefix, codes}
use evergent.Base.StringMap.{StringMap, get}
use evergent.Shared.Auth.{
  AuthenticatedPrincipal, Header, undefined, one, many, slice_from, header_value, bearer,
  authenticate, DevAuthConfig, dev_authenticate,
}

-- A list without its first elements
abbrev skip : ℕ → List ℕ → List ℕ
skip zero s = s
skip (suc n) [] = []
skip (suc n) (c ∷ s) = skip n s

lead : (c : Char) (s t u : String) → s <> t ≡ u → String.◌∷◌ c s <> t ≡ String.◌∷◌ c u
lead c s t u e = (λ i. append.cons c s t i) ∙ ap (String.◌∷◌ c) e

cons_truthy : (c : Char) (s : String) → is_truthy (String.◌∷◌ c s) ≡ true
cons_truthy c s =
    let differs : String.◌∷◌ c s ≢ "" = λ e. let codes_too = ap codes e in cc in
    ground (arith, eq_iff (String.◌∷◌ c s) "", differs)

abbrev with_scheme : String → String
with_scheme key = String.◌∷◌ "B" (
    String.◌∷◌ "e"
      (String.◌∷◌ "a" (String.◌∷◌ "r" (String.◌∷◌ "e" (String.◌∷◌ "r" (String.◌∷◌ " " key))))))

scheme : (key : String) → "Bearer " <> key ≡ with_scheme key
scheme key = lead "B" "earer " key _ (
    lead "e" "arer " key _ (
      lead "a" "rer " key _ (
        lead "r" "er " key _
          (lead "e" "r " key _ (lead "r" " " key _ (lead " " "" key _ (λ i. append.nil key i)))))))

bearer-with_scheme : (key : String) → bearer (some (with_scheme key)) ≡ some key
unfolding bearer starts_with has_prefix
bearer-with_scheme key = rw (cons_truthy "B" _) refl

bearer-of_key : (key : String) → bearer (some ("Bearer " <> key)) ≡ some key
bearer-of_key key = ap (λ t. bearer (some t)) (scheme key) ∙ bearer-with_scheme key

-- The text that a header carries: its value, or the first of several.
abbrev pub Carries : Header → String → Type 0
Carries header v = (header ≡ one v) ⊎ ((vs : List String) × (header ≡ many (v ∷ vs)))

header_value-Carries :
    (header : Header) (v : String) → header_value header ≡ some v → Carries header v
unfolding header_value
header_value-Carries undefined v h = cc
header_value-Carries (one w) v h = let same : w ≡ v = cc in inl (ap one same)
header_value-Carries (many []) v h = cc
header_value-Carries (many (w ∷ vs)) v h =
    let same : w ≡ v = cc in inr (vs, ap (λ x. many (x ∷ vs)) same)

has_prefix-split : (p s : List ℕ) → has_prefix p s ≡ true → s ≡ p ++ skip (length p) s
unfolding has_prefix
has_prefix-split [] s h = refl
has_prefix-split (c ∷ p) [] h = cc
has_prefix-split (c ∷ p) (d ∷ s) h =
    let (first, rest) = and-eq-true (c == d) (has_prefix p s) h in
    let same : d ≡ c = ground arith in
    ap (λ x. x ∷ s) same ∙ ap (λ t. c ∷ t) (has_prefix-split p s rest)

codes-slice_from : (n : ℕ) (s : String) → codes (slice_from n s) ≡ skip n (codes s)
codes-slice_from zero s = refl
codes-slice_from (suc n) String.[] = refl
codes-slice_from (suc n) (String.◌∷◌ c s) = codes-slice_from n s

-- A text with a key is `Bearer ` and the key.
bearer-split :
    (o : Option String) (k : String)
    → bearer o ≡ some k
    → (v : String) × (o ≡ some v) × (codes v ≡ codes "Bearer " ++ codes k)
unfolding bearer starts_with
bearer-split none k h = cc
bearer-split (some v) k h = elim (Bool-cases (is_truthy v && starts_with v "Bearer ")) [
  | inr other ↦ let no = (rw (other, bearer) at h) in cc
  | inl scheme_first ↦
      let (truthy, prefix) = and-eq-true (is_truthy v) (starts_with v "Bearer ") scheme_first in
      let cut = (rw (scheme_first, bearer) at h) in
      let key : slice_from 7 v ≡ k = cc in
      (
        v,
        refl,
        has_prefix-split (codes "Bearer ") (codes v) prefix
            ∙ ap (λ t. codes "Bearer " ++ t) (sym (codes-slice_from 7 v) ∙ ap codes key),
      )
]

-- In production a request has an identity only if its header, or the first of several, is `Bearer ` and
-- a configured key, and the identity is the one configured for it; and a header that is `Bearer ` and
-- a text has exactly the identity that the configuration gives that text, or none: there is no default.
pub authenticate_lem :
    (api_keys : StringMap AuthenticatedPrincipal) (header : Header) (key : String)
    → ((p : AuthenticatedPrincipal)
        → authenticate api_keys header ≡ some p
        → (v : String) × Carries header v
          × ((k : String) × (codes v ≡ codes "Bearer " ++ codes k) × (get k api_keys ≡ some p)))
      × (authenticate api_keys (one ("Bearer " <> key)) ≡ get key api_keys)
unfolding authenticate header_value
authenticate_lem api_keys header key = (
  (λ p h. elim (Option-cases (bearer (header_value header))) [
    | inl e ↦ let no_way = (rw (e, authenticate) at h) in cc
    | inr (k, e) ↦
        let (v, value, text) = bearer-split (header_value header) k e in
        (v, header_value-Carries header v value, (k, text, (rw (e, authenticate) at h)))
  ]),
  rw (bearer-of_key key, authenticate) refl,
)

-- In development every request has an identity: that of the key in its header, where the key is
-- configured with an owner that is not empty, and the default owner otherwise.
pub dev_authenticate_lem :
    (config : DevAuthConfig) (header : Header)
    → ((dev_authenticate config header).owner_id ≡ config.default_owner_id)
      ⊎ ((k : String) × (owner : String) × (bearer (header_value header) ≡ some k)
          × (get k config.api_keys ≡ some owner)
          × (is_truthy owner ≡ true)
          × ((dev_authenticate config header).owner_id ≡ owner))
unfolding dev_authenticate
dev_authenticate_lem config header = elim (Option-cases (bearer (header_value header))) [
  | inl e ↦ inl (rw (e, dev_authenticate) refl)
  | inr (k, e) ↦ elim (Option-cases (get k config.api_keys)) [
    | inl f ↦ inl (rw (e, dev_authenticate, f) refl)
    | inr (owner, f) ↦ elim (Bool-cases (is_truthy owner)) [
      | inl named ↦ inr (k, owner, e, f, named, rw (e, dev_authenticate, f, named) refl)
      | inr empty ↦ inl (rw (e, dev_authenticate, f, empty) refl)
    ]
  ]
]
