-- ===== src/Base/Set.antt =====
-- `HashSet` of the Rust standard library, as a list of its elements.
use mathlib.Core.Path.{◌≡◌, refl}
use mathlib.Core.Logic.{ite}
use mathlib.Core.List.{List, [], ◌∷◌, ◌++◌}
use mathlib.Core.Bool.{Bool, true, false, not, ◌&&◌, ◌||◌}
use native.Mathlib.Omega.{arith}
use gwyh.Base.Tests.{if◌then◌else◌}
use gwyh.Base.Lists.{filter, length}
use Prim.Native.Nat.{◌≤◌}

module _ {ℓ} {K : Type ℓ} (dec : Discrete K) where
  unfoldable pub contains : K → List K → Bool
  contains k [] = false
  contains k (j ∷ s) = ite (dec j k) true (contains k s)

  unfoldable pub insert : K → List K → List K
  insert k s = if contains k s then s else k ∷ s

  unfoldable pub remove : K → List K → List K
  remove k [] = []
  remove k (j ∷ s) = elim (dec j k) [ yes _ ↦ remove k s | no _ ↦ j ∷ remove k s ]

  -- `HashSet::from_iter`.
  unfoldable pub from_iter : List K → List K
  from_iter [] = []
  from_iter (k ∷ l) = insert k (from_iter l)

  -- `&s - &t`.
  unfoldable pub difference : List K → List K → List K
  difference s t = filter (λ k. not (contains k t)) s

  -- `s.intersection(&t)`.
  unfoldable pub intersection : List K → List K → List K
  intersection s t = filter (λ k. contains k t) s

  pub contains-insert :
      (k j : K) (s : List K) → contains j (insert k s) ≡ ite (dec k j) true (contains j s)
  unfolding contains insert
  contains-insert k j s = ground arith

  pub contains-remove :
      (k j : K) (s : List K) → contains j (remove k s) ≡ ite (dec k j) false (contains j s)
  unfolding contains remove
  contains-remove k j [] = ground arith
  contains-remove k j (i ∷ s) = ground (arith, contains-remove k j s)

  pub contains-filter :
      (p : K → Bool) (j : K) (s : List K) → contains j (filter p s) ≡ contains j s && p j
  unfolding contains filter
  contains-filter p j [] = refl
  contains-filter p j (i ∷ s) = ground (arith, contains-filter p j s)

  pub contains-from_iter : (j : K) (l : List K) → contains j (from_iter l) ≡ contains j l
  unfolding contains from_iter
  contains-from_iter j [] = refl
  contains-from_iter j (k ∷ l) =
      ground (arith, contains-insert k j (from_iter l), contains-from_iter j l)

  pub contains-difference :
      (j : K) (s t : List K) → contains j (difference s t) ≡ contains j s && not (contains j t)
  unfolding difference
  contains-difference j s t = contains-filter (λ k. not (contains k t)) j s

  pub contains-append : (j : K) (s t : List K) → contains j (s ++ t) ≡ contains j s || contains j t
  unfolding contains
  contains-append j [] t = refl
  contains-append j (i ∷ s) t = ground (arith, contains-append j s t)

  pub length-from_iter-le : (l : List K) → length (from_iter l) ≤ length l
  unfolding from_iter insert
  length-from_iter-le [] = omega arith
  length-from_iter-le (k ∷ l) = ground (arith, length-from_iter-le l)
