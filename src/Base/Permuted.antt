-- ===== src/Base/Permuted.antt =====
-- What sorting does not change: which keys the elements have, and that they are distinct.
use mathlib.Core.Path.{◌≡◌, refl}
use mathlib.Core.Bool.{Bool, true, false, ◌||◌}
use mathlib.Core.List.{List, [], ◌∷◌, map}
use native.Mathlib.Omega.{arith}
use silo_plugin_dispatcharr.Base.Keys.{Eq, ◌==◌, beq_refl, beq_sym}
use silo_plugin_dispatcharr.Base.Members.{contains, IsDistinct}
unfoldable use silo_plugin_dispatcharr.Base.Sort.{insert_by, sort_onto, sort_by}

module _ {A B : Type 0} ⦃e : Eq B⦄ (before : A → A → Bool) (f : A → B) where
  contains-map-insert_by :
      (x : A) (xs : List A) (k : B)
      → contains (map f (insert_by before x xs)) k ≡ (f x == k || contains (map f xs) k)
  unfolding insert_by
  contains-map-insert_by x [] k = refl
  contains-map-insert_by x (y ∷ ys) k = ground (arith, contains-map-insert_by x ys k)

  contains-map-sort_onto :
      (sorted xs : List A) (k : B)
      → contains (map f (sort_onto before sorted xs)) k
        ≡ (contains (map f sorted) k || contains (map f xs) k)
  unfolding sort_onto
  contains-map-sort_onto sorted [] k = ground arith
  contains-map-sort_onto sorted (x ∷ xs) k = ground (
    arith,
    contains-map-sort_onto (insert_by before x sorted) xs k,
    contains-map-insert_by x sorted k,
  )

  pub contains-map-sort_by :
      (xs : List A) (k : B) → contains (map f (sort_by before xs)) k ≡ contains (map f xs) k
  unfolding sort_by
  contains-map-sort_by xs k = contains-map-sort_onto [] xs k

  insert_by-IsDistinct :
      (x : A) (xs : List A)
      → contains (map f xs) (f x) ≡ false
      → IsDistinct (map f xs)
      → IsDistinct (map f (insert_by before x xs))
  unfolding insert_by
  insert_by-IsDistinct x [] c d = (refl, tt)
  insert_by-IsDistinct x (y ∷ ys) c d =
      ground
        (arith, insert_by-IsDistinct x ys, contains-map-insert_by x ys (f y), beq_sym (f x) (f y))

  sort_onto-IsDistinct :
      (sorted xs : List A)
      → IsDistinct (map f sorted)
      → IsDistinct (map f xs)
      → ((k : B) → contains (map f xs) k ≡ true → contains (map f sorted) k ≡ false)
      → IsDistinct (map f (sort_onto before sorted xs))
  unfolding sort_onto
  sort_onto-IsDistinct sorted [] ds d h = ds
  sort_onto-IsDistinct sorted (x ∷ xs) ds d h =
      let fresh : contains (map f sorted) (f x) ≡ false = ground (arith, h (f x), beq_refl (f x)) in
      sort_onto-IsDistinct (insert_by before x sorted) xs (insert_by-IsDistinct x sorted fresh ds)
        d.1 (λ k m. ground (arith, h k, d.0, contains-map-insert_by x sorted k, e.beq_iff (f x) k))

  pub sort_by-IsDistinct :
      (xs : List A) → IsDistinct (map f xs) → IsDistinct (map f (sort_by before xs))
  unfolding sort_by
  sort_by-IsDistinct xs d = sort_onto-IsDistinct [] xs tt d (λ k m. refl)
