-- ===== src/Replays/Matched.antt =====
-- When an item matches an event, and what one more match changes.
use silo_plugin_dispatcharr.Base.{
  ℕ, ◌≤◌, String, ◌≡◌, refl, ◌⊎◌, inl, inr, Bool, true, false, ◌&&◌, ◌||◌, not, Option, none, some,
  List, [], ◌∷◌, map, arith, ltb, leb, if◌then◌else◌, Bool-cases, All, string_eq, nat_eq, ◌==◌,
  beq_sym, contains, IsDistinct,
}
use silo_plugin_dispatcharr.Replays.Matching.{
  Facts, MatchOptions, Match, is_pair, is_full, date_score, total_score, score_candidate, put_match,
  put_option,
}

-- Two sides name the same game: by a shared identifier, or by both teams at a near date, with the
-- league or in full, and with a score that reaches the threshold.
abbrev pub IsJustified : ℕ → MatchOptions → Match → Type 0
IsJustified event_unix o m =
    ((m.facts.shares_id ≡ true) × (m.score ≡ 1000))
    ⊎ ((is_pair m.facts.pair ≡ true)
        × ((date_score event_unix m.facts.dates o.max_date_days).is_usable ≡ true)
        × ((m.facts.names_league || is_full m.facts.pair) ≡ true)
        × (m.score ≡ total_score event_unix o m.facts)
        × (o.threshold ≤ m.score))

abbrev pub JustifiedOption : ℕ → MatchOptions → Option Match → Type 0
JustifiedOption event_unix o none = Unit
JustifiedOption event_unix o (some m) = IsJustified event_unix o m

pick :
    (event_unix : ℕ) (o : MatchOptions) (b : Bool) (x y : Option Match)
    → (b ≡ true → JustifiedOption event_unix o x)
    → (b ≡ false → JustifiedOption event_unix o y)
    → JustifiedOption event_unix o (if b then x else y)
pick event_unix o true x y h k = h refl
pick event_unix o false x y h k = k refl

pub score_candidate_justified :
    (event_unix : ℕ) (o : MatchOptions) (key : String) (f : Facts)
    → JustifiedOption event_unix o (score_candidate event_unix o key f)
unfolding score_candidate
score_candidate_justified event_unix o key f =
    let d = date_score event_unix f.dates o.max_date_days in
    pick event_unix o f.shares_id _ _ (λ e. inl (e, refl))
      (λ e.
        pick event_unix o (not (is_pair f.pair) || not d.is_usable) none _ (λ g. tt)
          (λ g.
            pick event_unix o (not f.names_league && not (is_full f.pair)) none _ (λ h. tt)
              (λ h.
                pick event_unix o (ltb (total_score event_unix o f) o.threshold) none _ (λ k. tt)
                  (λ k. inr (ground arith, ground arith, ground arith, refl, ground arith)))))

put_match-All {κ} :
    (P : Match → Type κ) (m : Match) (ms : List Match) → P m → All P ms → All P (put_match m ms)
unfolding put_match
put_match-All P m [] h a = (h, tt)
put_match-All P m (x ∷ xs) h a = ground (arith, h, a.0, put_match-All P m xs h a.1)

pub put_option-IsJustified :
    (event_unix : ℕ) (o : MatchOptions) (m : Option Match) (ms : List Match)
    → JustifiedOption event_unix o m
    → All (IsJustified event_unix o) ms
    → All (IsJustified event_unix o) (put_option m ms)
put_option-IsJustified event_unix o none ms h a = a
put_option-IsJustified event_unix o (some m) ms h a =
    put_match-All (IsJustified event_unix o) m ms h a

abbrev pub keys : List Match → List String
keys ms = map (λ m. m.key) ms

winner-key :
    (x m : Match) → (x.key == m.key) ≡ true → (if ltb x.score m.score then m else x).key ≡ x.key
winner-key x m e = ground (arith, string_eq.beq_iff x.key m.key)

contains-put_match :
    (m : Match) (ms : List Match) (k : String)
    → contains (keys (put_match m ms)) k ≡ (contains (keys ms) k || m.key == k)
unfolding put_match
contains-put_match m [] k = ground arith
contains-put_match m (x ∷ xs) k = elim (Bool-cases (x.key == m.key)) [
  | inl e ↦
      rw (e, winner-key x m e)
        (ground (
          arith,
          string_eq.beq_iff x.key m.key,
          string_eq.beq_iff x.key k,
          string_eq.beq_iff m.key k,
        ))
  | inr e ↦ rw e (ground (arith, contains-put_match m xs k))
]

pub put_match-IsDistinct :
    (m : Match) (ms : List Match) → IsDistinct (keys ms) → IsDistinct (keys (put_match m ms))
unfolding put_match
put_match-IsDistinct m [] d = (refl, tt)
put_match-IsDistinct m (x ∷ xs) d = elim (Bool-cases (x.key == m.key)) [
  | inl e ↦ rw (e, winner-key x m e) d
  | inr e ↦
      let fresh : contains (keys (put_match m xs)) x.key ≡ false =
        ground (arith, contains-put_match m xs x.key, d.0, beq_sym x.key m.key) in
      rw e (fresh, put_match-IsDistinct m xs d.1)
]

-- A match with a key reaches a score.
abbrev pub reaches : String → ℕ → List Match → Bool
reaches key score [] = false
reaches key score (m ∷ ms) = (m.key == key && leb score m.score) || reaches key score ms

or_true : (b : Bool) → (b || true) ≡ true
or_true b = ground arith

-- The better of two matches with one key reaches what either does.
winner-reaches :
    (x m : Match) (key : String) (score : ℕ)
    → (x.key == m.key) ≡ true
    → ((x.key == key && leb score x.score) || (m.key == key && leb score m.score)) ≡ true
    → ((if ltb x.score m.score then m else x).key == key
        && leb score (if ltb x.score m.score then m else x).score)
      ≡ true
winner-reaches x m key score e h = elim (Bool-cases (ltb x.score m.score)) [
  | inl f ↦ rw f (
      ground (
        arith,
        string_eq.beq_iff x.key m.key,
        string_eq.beq_iff x.key key,
        string_eq.beq_iff m.key key,
      ))
  | inr f ↦ rw f (
      ground (
        arith,
        string_eq.beq_iff x.key m.key,
        string_eq.beq_iff x.key key,
        string_eq.beq_iff m.key key,
      ))
]

-- What the matches reach after one is put, they reached before or it does.
pub reaches-put_match :
    (key : String) (score : ℕ) (m : Match) (ms : List Match)
    → (reaches key score ms || (m.key == key && leb score m.score)) ≡ true
    → reaches key score (put_match m ms) ≡ true
unfolding put_match
reaches-put_match key score m [] h = ground arith
reaches-put_match key score m (x ∷ xs) h = elim (Bool-cases (x.key == m.key)) [
  | inl e ↦
      let w = if ltb x.score m.score then m else x in
      elim (Bool-cases
        ((x.key == key && leb score x.score) || (m.key == key && leb score m.score))) [
          | inl f ↦ rw (e, winner-reaches x m key score e f) refl
          | inr f ↦
              let rest : reaches key score xs ≡ true = ground arith in
              rw (e, rest) (or_true (w.key == key && leb score w.score))
        ]
  | inr e ↦ elim (Bool-cases (x.key == key && leb score x.score)) [
    | inl f ↦ rw (e, f) refl
    | inr f ↦ rw (e, f) (reaches-put_match key score m xs (ground arith))
  ]
]
