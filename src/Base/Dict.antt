-- ===== src/Base/Dict.antt =====
-- `HashMap` of the Rust standard library, as a list of entries. The order of the entries stands for
-- the unspecified order of iteration; `insert` replaces the value of a key that is there.
use mathlib.Core.Path.{◌≡◌, refl}
use mathlib.Core.Logic.{ite}
use mathlib.Core.List.{List, [], ◌∷◌, map}
use mathlib.Core.Bool.{Bool, false}
use mathlib.Core.Option.{Option, none, some}
use native.Mathlib.Omega.{arith}
use gwyh.Base.Tests.{is_some}

abbrev pub Dict {ℓ κ} : Type ℓ → Type κ → Type (ℓ ⊔ κ)
Dict K V = List (K × V)

module _ {ℓ κ} {K : Type ℓ} {V : Type κ} where
  abbrev pub values : Dict K V → List V
  values = map (λ e. e.1)

  abbrev pub keys : Dict K V → List K
  keys = map (λ e. e.0)

module _ {ℓ κ} {K : Type ℓ} {V : Type κ} (dec : Discrete K) where
  unfoldable pub lookup : K → Dict K V → Option V
  lookup k [] = none
  lookup k ((j, v) ∷ m) = elim (dec j k) [ yes _ ↦ some v | no _ ↦ lookup k m ]

  unfoldable pub insert : K → V → Dict K V → Dict K V
  insert k v [] = (k, v) ∷ []
  insert k v ((j, w) ∷ m) = elim (dec j k) [ yes _ ↦ (k, v) ∷ m | no _ ↦ (j, w) ∷ insert k v m ]

  unfoldable pub remove : K → Dict K V → Dict K V
  remove k [] = []
  remove k ((j, w) ∷ m) = elim (dec j k) [ yes _ ↦ remove k m | no _ ↦ (j, w) ∷ remove k m ]

  -- `entry(k).and_modify(f).or_insert(v)`.
  unfoldable pub upsert : K → (V → V) → V → Dict K V → Dict K V
  upsert k f v [] = (k, v) ∷ []
  upsert k f v ((j, w) ∷ m) = elim (dec j k) [
    | yes _ ↦ (k, f w) ∷ m
    | no _ ↦ (j, w) ∷ upsert k f v m
  ]

  abbrev pub contains_key : K → Dict K V → Bool
  contains_key k m = is_some (lookup k m)

  pub lookup-insert :
      (k j : K) (v : V) (m : Dict K V)
      → lookup j (insert k v m) ≡ ite (dec k j) (some v) (lookup j m)
  unfolding lookup insert
  lookup-insert k j v [] = ground arith
  lookup-insert k j v ((i, w) ∷ m) = ground (arith, lookup-insert k j v m)

  pub lookup-remove :
      (k j : K) (m : Dict K V) → lookup j (remove k m) ≡ ite (dec k j) none (lookup j m)
  unfolding lookup remove
  lookup-remove k j [] = ground arith
  lookup-remove k j ((i, w) ∷ m) = ground (arith, lookup-remove k j m)

  pub lookup-upsert :
      (k j : K) (f : V → V) (v : V) (m : Dict K V)
      → lookup j (upsert k f v m)
        ≡ ite (dec k j) (elim (lookup k m) [ none ↦ some v | some w ↦ some (f w) ]) (lookup j m)
  unfolding lookup upsert
  lookup-upsert k j f v [] = ground arith
  lookup-upsert k j f v ((i, w) ∷ m) = ground (arith, lookup-upsert k j f v m)

  -- Every key stands once.
  abbrev pub Distinct : Dict K V → Type 0
  Distinct [] = Unit
  Distinct ((k, _) ∷ m) = (contains_key k m ≡ false) × Distinct m

  pub insert-Distinct : (k : K) (v : V) (m : Dict K V) → Distinct m → Distinct (insert k v m)
  unfolding insert lookup
  insert-Distinct k v [] h = (refl, tt)
  insert-Distinct k v ((j, w) ∷ m) h =
      ground (arith, insert-Distinct k v m h.1, lookup-insert k j v m)

  pub remove-Distinct : (k : K) (m : Dict K V) → Distinct m → Distinct (remove k m)
  unfolding remove
  remove-Distinct k [] h = tt
  remove-Distinct k ((j, w) ∷ m) h = ground (arith, remove-Distinct k m h.1, lookup-remove k j m)
