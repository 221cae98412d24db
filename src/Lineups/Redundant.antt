-- ===== src/Lineups/Redundant.antt =====
-- Which wrappers are redundant.
use silo_plugin_dispatcharr.Base.{
  String, ◌≡◌, refl, sym, ap, ◌∙◌, inl, inr, Bool, true, false, ◌||◌, Option, none, some, List, [],
  ◌∷◌, map, arith, if◌then◌else◌, Bool-cases, filter, string_eq, nat_eq, ◌==◌, beq_sym, contains,
  IsDistinct,
}
use silo_plugin_dispatcharr.Lineups.Wrappers.{
  all_sightings, ProfileChannel, wrapper_of, add_candidates, redundant_profile_group_wrappers,
  Sighting, Candidate, first_candidate, add_candidate, is_redundant,
}
use silo_plugin_dispatcharr.Lineups.Paths.{PathTexts}
use silo_plugin_dispatcharr.Lineups.Candidates.{
  redundant_wrapper, found, resumed, of_key, merge_candidate-key, found-add_candidate, resumed-nil,
  run-wrapper, run_lost, run_kept,
}

resumed-append :
    (o : Option Candidate) (s : Sighting) (b : Bool) (ss : List Sighting)
    → resumed (resumed o (if b then s ∷ [] else [])) ss ≡ resumed o (if b then s ∷ ss else ss)
resumed-append none s true ss = refl
resumed-append none s false ss = refl
resumed-append (some c) s true ss = refl
resumed-append (some c) s false ss = refl

found-add_candidates :
    (key : String) (ss : List Sighting) (cs : List Candidate)
    → found key (add_candidates cs ss) ≡ resumed (found key cs) (of_key key ss)
unfolding add_candidates
found-add_candidates key [] cs = sym (resumed-nil (found key cs))
found-add_candidates key (s ∷ ss) cs =
    found-add_candidates key ss (add_candidate s cs)
    ∙ ap (λ o. resumed o (of_key key ss)) (found-add_candidate key s cs)
    ∙ resumed-append (found key cs) s (s.key == key) (of_key key ss)

abbrev keys_of : List Candidate → List String
keys_of cs = map (λ c. c.key) cs

contains-add_candidate :
    (s : Sighting) (cs : List Candidate) (k : String)
    → contains (keys_of (add_candidate s cs)) k ≡ (contains (keys_of cs) k || s.key == k)
unfolding add_candidate
contains-add_candidate s [] k = ground arith
contains-add_candidate s (c ∷ cs) k = elim (Bool-cases (c.key == s.key)) [
  | inl e ↦
      rw (e, merge_candidate-key c s)
        (ground (
          arith,
          string_eq.beq_iff c.key s.key,
          string_eq.beq_iff c.key k,
          string_eq.beq_iff s.key k,
        ))
  | inr e ↦ rw e (ground (arith, contains-add_candidate s cs k))
]

add_candidate-IsDistinct :
    (s : Sighting) (cs : List Candidate)
    → IsDistinct (keys_of cs)
    → IsDistinct (keys_of (add_candidate s cs))
unfolding add_candidate
add_candidate-IsDistinct s [] d = (refl, tt)
add_candidate-IsDistinct s (c ∷ cs) d = elim (Bool-cases (c.key == s.key)) [
  | inl e ↦ rw (e, merge_candidate-key c s) d
  | inr e ↦
      let fresh : contains (keys_of (add_candidate s cs)) c.key ≡ false =
        ground (arith, contains-add_candidate s cs c.key, d.0, beq_sym c.key s.key) in
      rw e (fresh, add_candidate-IsDistinct s cs d.1)
]

add_candidates-IsDistinct :
    (cs : List Candidate) (ss : List Sighting)
    → IsDistinct (keys_of cs)
    → IsDistinct (keys_of (add_candidates cs ss))
unfolding add_candidates
add_candidates-IsDistinct cs [] d = d
add_candidates-IsDistinct cs (s ∷ ss) d =
    add_candidates-IsDistinct (add_candidate s cs) ss (add_candidate-IsDistinct s cs d)

abbrev verdict : Option Candidate → Option String
verdict none = none
verdict (some c) = if is_redundant c then some c.wrapper else none

abbrev pairs : List Candidate → List (String × String)
pairs cs = map (λ c. (c.key, c.wrapper)) (filter is_redundant cs)

wrapper_of-absent :
    (key : String) (cs : List Candidate)
    → contains (keys_of cs) key ≡ false
    → wrapper_of key (pairs cs) ≡ none
wrapper_of-absent key [] h = refl
wrapper_of-absent key (c ∷ cs) h = elim (Bool-cases (is_redundant c)) [
  | inl e ↦ rw e (ground (arith, wrapper_of-absent key cs))
  | inr e ↦ rw e (wrapper_of-absent key cs (ground arith))
]

wrapper_of-pairs :
    (key : String) (cs : List Candidate)
    → IsDistinct (keys_of cs)
    → wrapper_of key (pairs cs) ≡ verdict (found key cs)
wrapper_of-pairs key [] d = refl
wrapper_of-pairs key (c ∷ cs) d = elim (Bool-cases (c.key == key)) [
  | inl e ↦
      let absent : contains (keys_of cs) key ≡ false =
        ap (contains (keys_of cs)) (sym ((string_eq.beq_iff c.key key).0 e)) ∙ d.0 in
      elim (Bool-cases (is_redundant c)) [
        | inl f ↦ rw f (rw e (rw f refl))
        | inr f ↦ rw f (rw e (rw f (wrapper_of-absent key cs absent)))
      ]
  | inr e ↦ elim (Bool-cases (is_redundant c)) [
    | inl f ↦ rw (f, e) (wrapper_of-pairs key cs d.1)
    | inr f ↦ rw (f, e) (wrapper_of-pairs key cs d.1)
  ]
]

verdict-resumed : (ss : List Sighting) → verdict (resumed none ss) ≡ redundant_wrapper ss
verdict-resumed [] = refl
verdict-resumed (s ∷ ss) = elim (Bool-cases s.is_long) [
  | inl e ↦
      let c : Candidate = first_candidate s in
      let tails : c.tails ≡ s.tail ∷ [] = rw e refl in
      rw (run_kept c s.tail [] ss e tails, run-wrapper c ss) (rw e refl)
  | inr e ↦ rw (run_lost (first_candidate s) ss e) (rw e refl)
]

-- Where the wrappers of groups are flattened, a first part of groups is redundant for a profile
-- exactly when all channels of the profile with a group have it, each with more parts behind it,
-- and these are not the same for all.
pub redundant_profile_group_wrappers_lem :
    (t : PathTexts) (channels : List ProfileChannel) (key : String)
    → wrapper_of key (redundant_profile_group_wrappers t true true channels)
      ≡ redundant_wrapper (of_key key (all_sightings t channels))
unfolding redundant_profile_group_wrappers
redundant_profile_group_wrappers_lem t channels key =
    let ss = all_sightings t channels in
    wrapper_of-pairs key (add_candidates [] ss) (add_candidates-IsDistinct [] ss tt)
    ∙ ap verdict (found-add_candidates key ss [])
    ∙ verdict-resumed (of_key key ss)
