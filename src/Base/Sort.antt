-- ===== src/Base/Sort.antt =====
-- `Array.prototype.sort` with a comparator: a stable sort. `before a b` says that the comparator
-- is negative on `a` and `b`.
use Prim.Native.Nat.{ℕ, zero, suc}
use mathlib.Core.Path.{◌≡◌, refl, ap, ◌∙◌}
use mathlib.Core.Bool.{Bool, true, false}
use mathlib.Core.List.{List, [], ◌∷◌, ◌++◌, append_assoc, append-nil}
use mathlib.Core.Logic.{inl, inr}
use native.Mathlib.Omega.{arith}
use silo_plugin_dispatcharr.Base.Tests.{if◌then◌else◌, Bool-cases}
use silo_plugin_dispatcharr.Base.Lists.{take, All, All-append, All-take}

module _ {ℓ} {A : Type ℓ} (before : A → A → Bool) where
  -- Behind the elements that it ties with.
  unfoldable pub insert_by : A → List A → List A
  insert_by x [] = x ∷ []
  insert_by x (y ∷ ys) = if before x y then x ∷ (y ∷ ys) else y ∷ insert_by x ys

  unfoldable pub sort_onto : List A → List A → List A
  unfolding insert_by
  sort_onto sorted [] = sorted
  sort_onto sorted (x ∷ xs) = sort_onto (insert_by x sorted) xs

  unfoldable pub sort_by : List A → List A
  unfolding sort_onto
  sort_by xs = sort_onto [] xs

  -- No element comes before an earlier one.
  abbrev pub IsSorted : List A → Type ℓ
  IsSorted [] = Unit
  IsSorted (x ∷ xs) = All (λ y. before y x ≡ false) xs × IsSorted xs

  pub sort_onto-append :
      (sorted xs : List A) (x : A)
      → sort_onto sorted (xs ++ x ∷ []) ≡ insert_by x (sort_onto sorted xs)
  unfolding sort_onto
  sort_onto-append sorted [] x = refl
  sort_onto-append sorted (y ∷ ys) x = sort_onto-append (insert_by y sorted) ys x

  -- To sort with one more element behind is to insert it.
  pub sort_by-append : (xs : List A) (x : A) → sort_by (xs ++ x ∷ []) ≡ insert_by x (sort_by xs)
  unfolding sort_by
  sort_by-append xs x = sort_onto-append [] xs x

  take-take-suc : (n : ℕ) (ys : List A) → take n (take (suc n) ys) ≡ take n ys
  take-take-suc zero ys = refl
  take-take-suc (suc n) [] = refl
  take-take-suc (suc n) (y ∷ ys) = ap (◌∷◌ y) (take-take-suc n ys)

  -- What was cut off does not matter to the first elements.
  pub take-insert_by-take :
      (n : ℕ) (x : A) (ys : List A) → take n (insert_by x (take n ys)) ≡ take n (insert_by x ys)
  unfolding insert_by
  take-insert_by-take zero x ys = refl
  take-insert_by-take (suc n) x [] = refl
  take-insert_by-take (suc n) x (y ∷ ys) = elim (Bool-cases (before x y)) [
    | inl e ↦ rw e (ap (◌∷◌ x) (take-take-suc n (y ∷ ys)))
    | inr e ↦ rw e (ap (◌∷◌ y) (take-insert_by-take n x ys))
  ]

  insert_by-All {κ} :
      (P : A → Type κ) (x : A) (ys : List A) → P x → All P ys → All P (insert_by x ys)
  unfolding insert_by
  insert_by-All P x [] h a = (h, tt)
  insert_by-All P x (y ∷ ys) h a = ground (arith, insert_by-All P x ys h a.1)

  sort_onto-All {κ} :
      (P : A → Type κ) (sorted xs : List A) → All P sorted → All P xs → All P (sort_onto sorted xs)
  unfolding sort_onto
  sort_onto-All P sorted [] s h = s
  sort_onto-All P sorted (x ∷ xs) s h =
      sort_onto-All P (insert_by x sorted) xs (insert_by-All P x sorted h.0 s) h.1

  pub sort_by-All {κ} : (P : A → Type κ) (xs : List A) → All P xs → All P (sort_by xs)
  unfolding sort_by
  sort_by-All P xs h = sort_onto-All P [] xs tt h

-- A comparator that is a weak order.
pub record IsWeakOrder {ℓ} {A : Type ℓ} (before : A → A → Bool) : Type ℓ where
  pub asym : (x y : A) → before x y ≡ true → before y x ≡ false
  pub chain : (x y z : A) → before x y ≡ true → before z y ≡ false → before z x ≡ false

module _ {ℓ} {A : Type ℓ} (before : A → A → Bool) (o : IsWeakOrder before) where
  All-chain :
      (x y : A) (zs : List A)
      → before x y ≡ true
      → All (λ z. before z y ≡ false) zs
      → All (λ z. before z x ≡ false) zs
  All-chain x y [] h a = tt
  All-chain x y (z ∷ zs) h a = (o.chain x y z h a.0, All-chain x y zs h a.1)

  pub insert_by-IsSorted :
      (x : A) (ys : List A) → IsSorted before ys → IsSorted before (insert_by before x ys)
  unfolding insert_by
  insert_by-IsSorted x [] s = (tt, tt)
  insert_by-IsSorted x (y ∷ ys) s = elim (Bool-cases (before x y)) [
    | inl e ↦ rw e ((o.asym x y e, All-chain x y ys e s.0), s)
    | inr e ↦
        rw e
          (insert_by-All before (λ z. before z y ≡ false) x ys e s.0, insert_by-IsSorted x ys s.1)
  ]

  sort_onto-IsSorted :
      (sorted xs : List A) → IsSorted before sorted → IsSorted before (sort_onto before sorted xs)
  unfolding sort_onto
  sort_onto-IsSorted sorted [] s = s
  sort_onto-IsSorted sorted (x ∷ xs) s =
      sort_onto-IsSorted (insert_by before x sorted) xs (insert_by-IsSorted x sorted s)

  pub sort_by-IsSorted : (xs : List A) → IsSorted before (sort_by before xs)
  unfolding sort_by
  sort_by-IsSorted xs = sort_onto-IsSorted [] xs tt

  insert_by_last :
      (x : A) (ys : List A)
      → All (λ y. before x y ≡ false) ys
      → insert_by before x ys ≡ ys ++ x ∷ []
  unfolding insert_by
  insert_by_last x [] a = refl
  insert_by_last x (y ∷ ys) a = rw a.0 (ap (◌∷◌ y) (insert_by_last x ys a.1))

  pub take-IsSorted : (n : ℕ) (xs : List A) → IsSorted before xs → IsSorted before (take n xs)
  take-IsSorted zero xs s = tt
  take-IsSorted (suc n) [] s = tt
  take-IsSorted (suc n) (x ∷ xs) s =
      (All-take (λ y. before y x ≡ false) n xs s.0, take-IsSorted n xs s.1)

  -- `x` does not come before any element of `acc`, for all `x` of `xs`.
  abbrev Behind : List A → List A → Type ℓ
  Behind acc [] = Unit
  Behind acc (x ∷ xs) = All (λ y. before x y ≡ false) acc × Behind acc xs

  Behind-snoc :
      (acc xs : List A) (x : A)
      → Behind acc xs
      → All (λ y. before y x ≡ false) xs
      → Behind (acc ++ x ∷ []) xs
  Behind-snoc acc [] x b a = tt
  Behind-snoc acc (z ∷ zs) x b a = (
    All-append (λ y. before z y ≡ false) acc (x ∷ []) b.0 (a.0, tt),
    Behind-snoc acc zs x b.1 a.1,
  )

  Behind-nil : (xs : List A) → Behind [] xs
  Behind-nil [] = tt
  Behind-nil (x ∷ xs) = (tt, Behind-nil xs)

  sort_onto_sorted :
      (acc xs : List A) → Behind acc xs → IsSorted before xs → sort_onto before acc xs ≡ acc ++ xs
  unfolding sort_onto
  sort_onto_sorted acc [] b s = rw append-nil refl
  sort_onto_sorted acc (x ∷ xs) b s = rw (insert_by_last x acc b.0) (
      sort_onto_sorted (acc ++ x ∷ []) xs (Behind-snoc acc xs x b.1 s.0) s.1
      ∙ append_assoc acc (x ∷ []) xs)

  -- A sorted list stays as it is.
  pub sort_by_sorted : (xs : List A) → IsSorted before xs → sort_by before xs ≡ xs
  unfolding sort_by
  sort_by_sorted xs s = sort_onto_sorted [] xs (Behind-nil xs) s
