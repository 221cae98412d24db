-- ===== src/Lineups/Candidates.antt =====
-- The candidates of a profile, after all its channels.
use silo_plugin_dispatcharr.Base.{
  String, ◌≡◌, refl, sym, ap, ◌∙◌, inl, inr, Bool, true, false, ◌&&◌, ◌||◌, not, Option, none, some,
  List, [], ◌∷◌, ◌++◌, arith, ltb, if◌then◌else◌, Bool-cases, length, filter, length-append,
  string_eq, nat_eq, ◌==◌, beq_sym, contains,
}
use silo_plugin_dispatcharr.Lineups.Categories.{mark}
use silo_plugin_dispatcharr.Lineups.Wrappers.{
  Sighting, Candidate, first_candidate, merge_candidate, add_candidate, is_redundant,
}

-- The sightings of a profile after the first say the same wrapper and have more parts.
abbrev pub agree : String → List Sighting → Bool
agree wrapper [] = true
agree wrapper (s ∷ ss) = wrapper == s.wrapper && s.is_long && agree wrapper ss

-- One of them has another tail.
abbrev pub differ : String → List Sighting → Bool
differ tail [] = false
differ tail (s ∷ ss) = not (s.tail == tail) || differ tail ss

-- A wrapper is redundant when all channels of the profile have it before more parts, and not all have
-- the same ones.
abbrev pub redundant_wrapper : List Sighting → Option String
redundant_wrapper [] = none
redundant_wrapper (s ∷ ss) =
    if s.is_long && agree s.wrapper ss && differ s.tail ss then some s.wrapper else none

abbrev pub run : Candidate → List Sighting → Candidate
run c [] = c
run c (s ∷ ss) = run (merge_candidate c s) ss

abbrev pub found : String → List Candidate → Option Candidate
found key [] = none
found key (c ∷ cs) = if c.key == key then some c else found key cs

abbrev pub resumed : Option Candidate → List Sighting → Option Candidate
resumed none [] = none
resumed none (s ∷ ss) = some (run (first_candidate s) ss)
resumed (some c) ss = some (run c ss)

abbrev pub of_key : String → List Sighting → List Sighting
of_key key ss = filter (λ s. s.key == key) ss

pub merge_candidate-key : (c : Candidate) (s : Sighting) → (merge_candidate c s).key ≡ c.key
merge_candidate-key c s = ground arith

merge_candidate-wrapper : (c : Candidate) (s : Sighting) → (merge_candidate c s).wrapper ≡ c.wrapper
merge_candidate-wrapper c s = ground arith

pub resumed-nil : (o : Option Candidate) → resumed o [] ≡ o
resumed-nil none = refl
resumed-nil (some c) = refl

pub found-add_candidate :
    (key : String) (s : Sighting) (cs : List Candidate)
    → found key (add_candidate s cs) ≡ resumed (found key cs) (if s.key == key then s ∷ [] else [])
unfolding add_candidate
found-add_candidate key s [] = ground arith
found-add_candidate key s (c ∷ cs) = elim (Bool-cases (c.key == s.key)) [
  | inl e ↦
      let same : (s.key == key) ≡ (c.key == key) =
        ap (λ k. k == key) (sym ((string_eq.beq_iff c.key s.key).0 e)) in
      elim (Bool-cases (c.key == key)) [
        | inl f ↦ rw (e, same, merge_candidate-key c s, f) refl
        | inr f ↦ rw (e, same, merge_candidate-key c s, f) (sym (resumed-nil (found key cs)))
      ]
  | inr e ↦ elim (Bool-cases (c.key == key)) [
    | inl f ↦
        let other : (s.key == key) ≡ false = ground (
          arith,
          string_eq.beq_iff c.key key,
          string_eq.beq_iff s.key key,
          string_eq.beq_iff c.key s.key,
        ) in
        rw (e, f, other) refl
    | inr f ↦ rw (e, f) (found-add_candidate key s cs)
  ]
]

pub run-wrapper : (c : Candidate) (ss : List Sighting) → (run c ss).wrapper ≡ c.wrapper
run-wrapper c [] = refl
run-wrapper c (s ∷ ss) = run-wrapper (merge_candidate c s) ss ∙ merge_candidate-wrapper c s

pub run_lost :
    (c : Candidate) (ss : List Sighting) → c.is_eligible ≡ false → is_redundant (run c ss) ≡ false
run_lost c [] e = rw e refl
run_lost c (s ∷ ss) e = run_lost (merge_candidate c s) ss (ground arith)

merge_candidate_kept :
    (c : Candidate) (s : Sighting)
    → (c.wrapper == s.wrapper && s.is_long) ≡ true
    → merge_candidate c s ≡ record c { tails = mark s.tail c.tails }
merge_candidate_kept c s f =
    let lost : (not (c.wrapper == s.wrapper) || not s.is_long) ≡ false = ground arith in
    rw lost refl

rest_of_tails :
    (tail s : String) (rest : List String)
    → contains (tail ∷ rest) s ≡ true
    → (ltb 1 (length (tail ∷ rest)) || not (s == tail)) ≡ ltb 1 (length (tail ∷ rest))
rest_of_tails tail s [] h = ground (arith, string_eq.beq_iff tail s, string_eq.beq_iff s tail)
rest_of_tails tail s (r ∷ rest) h = ground arith

more_tails :
    (tail s : String) (rest : List String) → ltb 1 (length (tail ∷ (rest ++ s ∷ []))) ≡ true
more_tails tail s rest = ground (arith, length-append rest (s ∷ []))

-- A candidate that is eligible, by the first of its tails.
pub run_kept :
    (c : Candidate) (tail : String) (rest : List String) (ss : List Sighting)
    → c.is_eligible ≡ true
    → c.tails ≡ tail ∷ rest
    → is_redundant (run c ss)
      ≡ (agree c.wrapper ss && (ltb 1 (length (tail ∷ rest)) || differ tail ss))
run_kept c tail rest [] e h = rw (e, h) (ground arith)
run_kept c tail rest (s ∷ ss) e h =
    let more = ltb 1 (length (tail ∷ rest)) in
    let kept = record c { tails = mark s.tail c.tails } in
    elim (Bool-cases (c.wrapper == s.wrapper && s.is_long)) [
      | inl f ↦ elim (Bool-cases (contains (tail ∷ rest) s.tail)) [
        | inl g ↦
            let tails : mark s.tail c.tails ≡ tail ∷ rest = rw h (rw g refl) in
            ap (λ d. is_redundant (run d ss)) (merge_candidate_kept c s f)
            ∙ run_kept kept tail rest ss e tails
            ∙ ap (λ b. agree c.wrapper ss && (b || differ tail ss))
                (sym (rest_of_tails tail s.tail rest g))
            ∙ ground arith
        | inr g ↦
            let tails : mark s.tail c.tails ≡ tail ∷ (rest ++ s.tail ∷ []) = rw h (rw g refl) in
            let other : (s.tail == tail) ≡ false = ground (arith, beq_sym s.tail tail) in
            ap (λ d. is_redundant (run d ss)) (merge_candidate_kept c s f)
            ∙ run_kept kept tail (rest ++ s.tail ∷ []) ss e tails
            ∙ ap (λ b. agree c.wrapper ss && (b || differ tail ss)) (more_tails tail s.tail rest)
            ∙ ground arith
      ]
      | inr f ↦ run_lost (merge_candidate c s) ss (ground arith) ∙ ground arith
    ]
