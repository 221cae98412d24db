-- ===== src/Ids/Before.antt =====
-- Which of two identifiers stands first in a list, and what `uniqueIDs` leaves of that.
use silo_plugin_dispatcharr.Base.{
  String, ◌≡◌, refl, ◌≢◌, Bool, true, false, ◌||◌, List, [], ◌∷◌, ◌++◌, arith, if◌then◌else◌,
  filter, string_eq, nat_eq, ◌==◌, contains, contains-append, contains-filter,
}
use silo_plugin_dispatcharr.Ids.{unique_from, unique_ids, contains-unique_from}

-- The first `u` of a list stands before its first `v`, and both are in the list.
abbrev pub is_before : String → String → List String → Bool
is_before u v [] = false
is_before u v (x ∷ xs) =
    if x == u then contains xs v else if x == v then false else is_before u v xs

module _ (u v : String) (ne : u ≢ v) where
  pub is_before-filter :
      (p : String → Bool) (xs : List String)
      → p u ≡ true
      → p v ≡ true
      → is_before u v (filter p xs) ≡ is_before u v xs
  is_before-filter p [] hu hv = refl
  is_before-filter p (x ∷ xs) hu hv = ground (
    arith,
    is_before-filter p xs hu hv,
    contains-filter p xs v,
    string_eq.beq_iff x u,
    string_eq.beq_iff x v,
  )

  pub is_before-append :
      (xs ys : List String)
      → is_before u v (xs ++ ys) ≡ (
          if contains xs u
          then if contains xs v then is_before u v xs else contains ys v
          else if contains xs v
          then false
          else is_before u v ys)
  is_before-append [] ys = refl
  is_before-append (x ∷ xs) ys = ground (
    arith,
    is_before-append xs ys,
    contains-append xs ys v,
    string_eq.beq_iff x u,
    string_eq.beq_iff x v,
  )

  is_before-unique_from :
      (seen xs : List String)
      → u ≢ ""
      → v ≢ ""
      → contains seen u ≡ false
      → contains seen v ≡ false
      → is_before u v (unique_from seen xs) ≡ is_before u v xs
  unfolding unique_from
  is_before-unique_from seen [] u_ne v_ne hu hv = refl
  is_before-unique_from seen (x ∷ xs) u_ne v_ne hu hv =
      let skip = x == "" || contains seen x in
      let seen' = if skip then seen else x ∷ seen in
      ground (
        arith,
        is_before-unique_from seen' xs u_ne v_ne,
        contains-unique_from seen' xs v,
        string_eq.beq_iff x u,
        string_eq.beq_iff x v,
        string_eq.beq_iff x "",
        string_eq.beq_iff v "",
      )

  -- `uniqueIDs` keeps the order of the first occurrences.
  pub is_before-unique_ids :
      (xs : List String) → u ≢ "" → v ≢ "" → is_before u v (unique_ids xs) ≡ is_before u v xs
  unfolding unique_ids
  is_before-unique_ids xs u_ne v_ne = is_before-unique_from [] xs u_ne v_ne refl refl
