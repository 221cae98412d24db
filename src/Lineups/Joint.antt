-- ===== src/Lineups/Joint.antt =====
-- What is appended to a path.
use silo_plugin_dispatcharr.Base.{
  ℕ, zero, suc, String, ◌≡◌, refl, sym, inl, inr, false, Option, none, some, List, [], ◌∷◌,
  Bool-cases, Option-cases, drop, string_eq, nat_eq,
}
use mathlib.Core.Path.{subst}
use silo_plugin_dispatcharr.Lineups.Paths.{
  PathTexts, clean, same_part, drop_shared, drop_repeated, last_of, new_parts, joined_behind,
  append_unduplicated_path_parts,
}

module _ (t : PathTexts) where
  -- Parts that do not repeat the one before them, but for case.
  abbrev pub IsFresh : Option String → List String → Type 0
  IsFresh last [] = Unit
  IsFresh none (a ∷ more) = Unit
  IsFresh (some last) (a ∷ more) = same_part t last a ≡ false

  drop_repeated-IsFresh :
      (last : String) (more : List String) → IsFresh (some last) (drop_repeated t last more)
  unfolding drop_repeated
  drop_repeated-IsFresh last [] = tt
  drop_repeated-IsFresh last (a ∷ more) = elim (Bool-cases (same_part t last a)) [
    | inl e ↦ rw e (drop_repeated-IsFresh last more)
    | inr e ↦ rw e e
  ]

  -- A list that ends in another.
  abbrev pub EndsIn : List String → List String → Type 0
  EndsIn xs ys = (k : ℕ) × (drop k xs ≡ ys)

  EndsIn-cons : (x : String) (xs ys : List String) → EndsIn xs ys → EndsIn (x ∷ xs) ys
  EndsIn-cons x xs ys h = (suc h.0, h.1)

  drop_repeated-EndsIn :
      (last : String) (more : List String) → EndsIn more (drop_repeated t last more)
  unfolding drop_repeated
  drop_repeated-EndsIn last [] = (0, refl)
  drop_repeated-EndsIn last (a ∷ more) = elim (Bool-cases (same_part t last a)) [
    | inl e ↦ rw e (EndsIn-cons a more (drop_repeated t last more) (drop_repeated-EndsIn last more))
    | inr e ↦ rw e (0, refl)
  ]

  drop_shared-EndsIn : (bs more : List String) → EndsIn more (drop_shared t bs more)
  unfolding drop_shared
  drop_shared-EndsIn [] more = (0, refl)
  drop_shared-EndsIn (b ∷ bs) [] = (0, refl)
  drop_shared-EndsIn (b ∷ bs) (a ∷ more) = elim (Bool-cases (same_part t b a)) [
    | inl e ↦ rw e (EndsIn-cons a more (drop_shared t bs more) (drop_shared-EndsIn bs more))
    | inr e ↦ rw e (0, refl)
  ]

  EndsIn-trans : (xs ys zs : List String) → EndsIn xs ys → EndsIn ys zs → EndsIn xs zs
  EndsIn-trans xs ys zs (zero, e) h = rw e h
  EndsIn-trans [] ys zs (suc k, e) h = subst (λ v. EndsIn v zs) (sym e) h
  EndsIn-trans (x ∷ xs) ys zs (suc k, e) h = EndsIn-cons x xs zs (EndsIn-trans xs ys zs (k, e) h)

  new_parts-EndsIn : (base more : List String) → EndsIn more (new_parts t base more)
  unfolding new_parts
  new_parts-EndsIn base more = elim (Option-cases (last_of t base)) [
    | inl e ↦ rw e (drop_shared-EndsIn base more)
    | inr e ↦ rw e.1 (
        EndsIn-trans more (drop_shared t base more) (drop_repeated t e.0 (drop_shared t base more))
          (drop_shared-EndsIn base more) (drop_repeated-EndsIn e.0 (drop_shared t base more)))
  ]

  anything : (more : List String) → IsFresh none more
  anything [] = tt
  anything (a ∷ more) = tt

  new_parts-IsFresh : (base more : List String) → IsFresh (last_of t base) (new_parts t base more)
  unfolding new_parts
  new_parts-IsFresh base more = elim (Option-cases (last_of t base)) [
    | inl e ↦ rw e (anything (drop_shared t base more))
    | inr e ↦ rw e.1 (drop_repeated-IsFresh e.0 (drop_shared t base more))
  ]

  -- What is appended to a path is an end of the cleaned parts, and it does not start with the last
  -- part of the path, but for case; where nothing is left, the result is empty.
  pub append_unduplicated_path_parts_lem :
      (base_path : String) (extra_parts : List String)
      → (rest : List String) × (append_unduplicated_path_parts t base_path extra_parts
          ≡ joined_behind t (clean t (t.split_path base_path)) rest)
        × IsFresh (last_of t (clean t (t.split_path base_path))) rest
        × EndsIn (clean t extra_parts) rest
  unfolding append_unduplicated_path_parts
  append_unduplicated_path_parts_lem base_path extra_parts =
      let base = clean t (t.split_path base_path) in
      let more = clean t extra_parts in
      (new_parts t base more, refl, new_parts-IsFresh base more, new_parts-EndsIn base more)
