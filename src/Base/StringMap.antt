-- ===== src/Base/StringMap.antt =====
-- `Map<string, V>`: an association list in insertion order. Setting a key that is there keeps its
-- place.
use mathlib.Core.Path.{◌≡◌, refl, sym, ap, ◌∙◌}
use mathlib.Core.Logic.{◌≢◌, inl, inr}
use mathlib.Core.Option.{Option, none, some}
use mathlib.Core.List.{List, [], ◌∷◌}
use Prim.Native.String.{String}
use native.Mathlib.Omega.{arith}
use text.Mathlib.Text.{◌==◌ as str_eq}
use text.Mathlib.TextEquality.{eq_iff}
use text.Mathlib.TextPositions.{eq_refl}
use evergent.Base.Tests.{if◌then◌else◌, Bool-cases}
use mathlib.Core.Bool.{Bool, true}
use evergent.Base.Lists.{All, All-map, any, filterb}

abbrev pub StringMap {ℓ} : Type ℓ → Type ℓ
StringMap V = List (String × V)

module _ {ℓ} {V : Type ℓ} where
  unfoldable pub get : String → StringMap V → Option V
  get k [] = none
  get k ((j, v) ∷ m) = if str_eq j k then some v else get k m

  unfoldable pub set : String → V → StringMap V → StringMap V
  set k v [] = (k, v) ∷ []
  set k v ((j, w) ∷ m) = if str_eq j k then (j, v) ∷ m else (j, w) ∷ set k v m

  unfoldable pub delete : String → StringMap V → StringMap V
  delete k [] = []
  delete k ((j, w) ∷ m) = if str_eq j k then m else (j, w) ∷ delete k m

  abbrev pub values : StringMap V → List V
  values [] = []
  values ((j, v) ∷ m) = v ∷ values m

  pub get-set :
      (j k : String) (v : V) (m : StringMap V)
      → get j (set k v m) ≡ (if str_eq k j then some v else get j m)
  unfolding get set
  get-set j k v [] = refl
  get-set j k v ((i, w) ∷ m) = ground (arith, eq_iff k j, eq_iff i k, eq_iff i j, get-set j k v m)

  pub get-set_self : (k : String) (v : V) (m : StringMap V) → get k (set k v m) ≡ some v
  get-set_self k v m = simp (get-set, eq_refl)

  pub get-set_ne : (j k : String) (v : V) (m : StringMap V) → k ≢ j → get j (set k v m) ≡ get j m
  get-set_ne j k v m h = ground (arith, get-set j k v m, eq_iff k j)

  pub get-delete_ne : (j k : String) (m : StringMap V) → k ≢ j → get j (delete k m) ≡ get j m
  unfolding get delete
  get-delete_ne j k [] h = refl
  get-delete_ne j k ((i, w) ∷ m) h = ground (arith, get-delete_ne j k m h, eq_iff i k, eq_iff i j)

  -- A stored value that a filter lets through is in the filtered list.
  pub any-filterb :
      (p q : V → Bool) (k : String) (v : V) (m : StringMap V)
      → get k m ≡ some v
      → q v ≡ true
      → p v ≡ true
      → any p (filterb q (values m)) ≡ true
  unfolding get
  any-filterb p q k v [] at h e = cc
  any-filterb p q k v ((j, w) ∷ m) at h e = ground (arith, any-filterb p q k v m)

  -- No entry is under the key.
  abbrev pub IsAbsent : String → StringMap V → Type 0
  IsAbsent k [] = Unit
  IsAbsent k ((j, w) ∷ m) = (j ≢ k) × IsAbsent k m

  IsAbsent-set :
      (j k : String) (v : V) (m : StringMap V) → k ≢ j → IsAbsent j m → IsAbsent j (set k v m)
  unfolding set
  IsAbsent-set j k v [] h a = (h, tt)
  IsAbsent-set j k v ((i, w) ∷ m) h a = ground (arith, IsAbsent-set j k v m h a.1)

  IsAbsent-delete : (j k : String) (m : StringMap V) → IsAbsent j m → IsAbsent j (delete k m)
  unfolding delete
  IsAbsent-delete j k [] a = tt
  IsAbsent-delete j k ((i, w) ∷ m) a = ground (arith, IsAbsent-delete j k m a.1)

  get_absent : (k : String) (m : StringMap V) → IsAbsent k m → get k m ≡ none
  unfolding get
  get_absent k [] a = refl
  get_absent k ((i, w) ∷ m) a = ground (arith, eq_iff i k, get_absent k m a.1)

-- Every value is under its own id, and no id is there twice.
module _ {ℓ} {V : Type ℓ} (id : V → String) where
  abbrev pub IsKeyed : StringMap V → Type ℓ
  IsKeyed [] = Unit
  IsKeyed ((k, v) ∷ m) = (k ≡ id v) × IsAbsent k m × IsKeyed m

  pub IsKeyed-set :
      (k : String) (v : V) (m : StringMap V) → k ≡ id v → IsKeyed m → IsKeyed (set k v m)
  unfolding set
  IsKeyed-set k v [] e h = (e, tt, tt)
  IsKeyed-set k v ((i, w) ∷ m) e h = elim (Bool-cases (str_eq i k)) [
    | inl same ↦ rw (same, set) ((eq_iff i k).0 same ∙ e, h.1, h.2)
    | inr other ↦
        rw (other, set)
          (h.0, IsAbsent-set i k v m (ground (arith, eq_iff i k)) h.1, IsKeyed-set k v m e h.2)
  ]

  pub IsKeyed-delete : (k : String) (m : StringMap V) → IsKeyed m → IsKeyed (delete k m)
  unfolding delete
  IsKeyed-delete k [] h = tt
  IsKeyed-delete k ((i, w) ∷ m) h =
      ground (arith, IsAbsent-delete i k m h.1, IsKeyed-delete k m h.2)

  pub get-delete :
      (j k : String) (m : StringMap V)
      → IsKeyed m
      → get j (delete k m) ≡ (if str_eq k j then none else get j m)
  unfolding get delete
  get-delete j k [] h = ground arith
  get-delete j k ((i, w) ∷ m) h =
      ground (arith, get-delete j k m h.2, eq_iff i k, eq_iff i j, eq_iff k j, get_absent i m h.1)

  -- A value that is found has the key for its id.
  pub get-IsKeyed : (k : String) (v : V) (m : StringMap V) → IsKeyed m → get k m ≡ some v → k ≡ id v
  unfolding get
  get-IsKeyed k v [] h e = cc
  get-IsKeyed k v ((i, w) ∷ m) h e = elim (Bool-cases (str_eq i k)) [
    | inl same ↦ let here : w ≡ v = ground arith in sym ((eq_iff i k).0 same) ∙ h.0 ∙ ap id here
    | inr other ↦ get-IsKeyed k v m h.2 (ground arith)
  ]

  abbrev IsStored : StringMap V → V → Type ℓ
  IsStored m v = get (id v) m ≡ some v

  IsStored-cons :
      (k : String) (w v : V) (m : StringMap V)
      → IsAbsent k m
      → IsStored m v
      → IsStored ((k, w) ∷ m) v
  unfolding get
  IsStored-cons k w v m a h = ground (arith, eq_iff k (id v), get_absent k m a)

  -- Every listed value is the one that is found under its id.
  pub values-IsStored : (m : StringMap V) → IsKeyed m → All (λ v. get (id v) m ≡ some v) (values m)
  unfolding get
  values-IsStored [] h = tt
  values-IsStored ((k, w) ∷ m) h = (
    ground (arith, eq_iff k (id w)),
    All-map _ _ (λ v s. IsStored-cons k w v m h.1 s) (values m) (values-IsStored m h.2),
  )
