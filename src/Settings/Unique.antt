-- ===== src/Settings/Unique.antt =====
-- The loop that prefs.js writes with an object `seen`: an element stays when it passes a test and
-- its key was not seen before.
use silo_plugin_dispatcharr.Base.{
  String, ◌≡◌, refl, Bool, true, false, ◌&&◌, ◌||◌, not, List, [], ◌∷◌, map, arith, if◌then◌else◌,
  filter, All, string_eq, nat_eq, beq_refl, contains, IsDistinct,
}

module _ {A : Type 0} (is_valid : A → Bool) (key_of : A → String) where
  unfoldable pub keep_unseen : List String → List A → List A
  keep_unseen seen [] = []
  keep_unseen seen (x ∷ xs) =
      let skip = not (is_valid x) || contains seen (key_of x) in
      let rest = keep_unseen (if skip then seen else key_of x ∷ seen) xs in
      if skip then rest else x ∷ rest

  -- Which keys are kept: those of a valid element.
  pub contains-keep_unseen :
      (seen : List String) (xs : List A) (k : String)
      → contains (map key_of (keep_unseen seen xs)) k
        ≡ (not (contains seen k) && contains (map key_of (filter is_valid xs)) k)
  unfolding keep_unseen
  contains-keep_unseen seen [] k = ground arith
  contains-keep_unseen seen (x ∷ xs) k = ground (
    arith,
    contains-keep_unseen seen xs k,
    contains-keep_unseen (key_of x ∷ seen) xs k,
    string_eq.beq_iff (key_of x) k,
  )

  pub keep_unseen-IsDistinct :
      (seen : List String) (xs : List A) → IsDistinct (map key_of (keep_unseen seen xs))
  unfolding keep_unseen
  keep_unseen-IsDistinct seen [] = tt
  keep_unseen-IsDistinct seen (x ∷ xs) = ground (
    arith,
    keep_unseen-IsDistinct seen xs,
    keep_unseen-IsDistinct (key_of x ∷ seen) xs,
    contains-keep_unseen (key_of x ∷ seen) xs (key_of x),
    string_eq.beq_iff (key_of x) (key_of x),
  )

  pub keep_unseen-All :
      (seen : List String) (xs : List A) → All (λ x. is_valid x ≡ true) (keep_unseen seen xs)
  unfolding keep_unseen
  keep_unseen-All seen [] = tt
  keep_unseen-All seen (x ∷ xs) =
      ground (arith, keep_unseen-All seen xs, keep_unseen-All (key_of x ∷ seen) xs)

  -- A list whose elements are valid, with distinct keys, stays as it is.
  pub keep_unseen_kept :
      (seen : List String) (xs : List A)
      → All (λ x. is_valid x ≡ true) xs
      → IsDistinct (map key_of xs)
      → ((k : String) → contains seen k ≡ true → contains (map key_of xs) k ≡ false)
      → keep_unseen seen xs ≡ xs
  unfolding keep_unseen
  keep_unseen_kept seen [] v d f = refl
  keep_unseen_kept seen (x ∷ xs) v d f =
      let fresh : (k : String)
          → contains (key_of x ∷ seen) k ≡ true
          → contains (map key_of xs) k ≡ false =
        λ k h. ground (arith, f k, d.0, string_eq.beq_iff (key_of x) k) in
      let rest : keep_unseen (key_of x ∷ seen) xs ≡ xs =
        keep_unseen_kept (key_of x ∷ seen) xs v.1 d.1 fresh in
      ground (arith, rest, v.0, f (key_of x), beq_refl (key_of x))

  -- What holds of all elements holds of the kept ones.
  pub All-keep_unseen {κ} :
      (P : A → Type κ) (seen : List String) (xs : List A) → All P xs → All P (keep_unseen seen xs)
  unfolding keep_unseen
  All-keep_unseen P seen [] h = tt
  All-keep_unseen P seen (x ∷ xs) h =
      ground (arith, h.0, All-keep_unseen P seen xs h.1, All-keep_unseen P (key_of x ∷ seen) xs h.1)
