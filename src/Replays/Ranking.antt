-- ===== src/Replays/Ranking.antt =====
-- The matches of an event, in their order.
use silo_plugin_dispatcharr.Base.{
  ℕ, ◌+◌, max, String, ◌≡◌, refl, ap, ◌∙◌, inl, inr, Bool, true, ◌&&◌, ◌||◌, Option, none, some,
  List, [], ◌∷◌, arith, leb, Bool-cases, take, All, string_eq, nat_eq, ◌==◌, beq_refl, IsDistinct,
  insert_by, sort_onto, sort_by, IsSorted, sort_by-All, IsWeakOrder, sort_by-IsSorted,
  sort_by-IsDistinct,
}
use silo_plugin_dispatcharr.Replays.Matching.{
  content_key, better, collect_matches, event_matches, Facts, MatchOptions, Match, score_candidate,
  put_match, put_option,
}
use silo_plugin_dispatcharr.Replays.Matched.{
  IsJustified, score_candidate_justified, put_option-IsJustified, keys, put_match-IsDistinct,
  reaches, reaches-put_match,
}

swap : (x m r : Bool) → (x || (m || r)) ≡ (m || (x || r))
swap x m r = ground arith

swap_behind : (m s r : Bool) → ((m || s) || r) ≡ (s || (m || r))
swap_behind m s r = ground arith

module _ (before : Match → Match → Bool) where
  reaches-insert_by :
      (key : String) (score : ℕ) (m : Match) (ms : List Match)
      → reaches key score (insert_by before m ms) ≡ reaches key score (m ∷ ms)
  unfolding insert_by
  reaches-insert_by key score m [] = refl
  reaches-insert_by key score m (x ∷ xs) = elim (Bool-cases (before m x)) [
    | inl e ↦ rw e refl
    | inr e ↦
        rw (e, reaches-insert_by key score m xs)
          (swap (x.key == key && leb score x.score) (m.key == key && leb score m.score)
            (reaches key score xs))
  ]

  reaches-sort_onto :
      (key : String) (score : ℕ) (sorted ms : List Match)
      → reaches key score (sort_onto before sorted ms)
        ≡ (reaches key score sorted || reaches key score ms)
  unfolding sort_onto
  reaches-sort_onto key score sorted [] = ground arith
  reaches-sort_onto key score sorted (m ∷ ms) =
      reaches-sort_onto key score (insert_by before m sorted) ms
      ∙ ap (λ b. b || reaches key score ms) (reaches-insert_by key score m sorted)
      ∙ swap_behind (m.key == key && leb score m.score) (reaches key score sorted)
          (reaches key score ms)

module _ (before_title : String → String → Bool) (index_key : ℕ → String) where
  abbrev OptionReaches : Option Match → List Match → Type 0
  OptionReaches none ms = Unit
  OptionReaches (some m) ms = reaches m.key m.score ms ≡ true

  -- Each item that scores has a match under its key that is at least as good.
  abbrev pub Covers : ℕ → MatchOptions → ℕ → List Facts → List Match → Type 0
  Covers event_unix o index [] ms = Unit
  Covers event_unix o index (f ∷ fs) ms =
      OptionReaches (score_candidate event_unix o (content_key before_title index_key index f) f) ms
      × Covers event_unix o (index + 1) fs ms

  put_option-reaches :
      (key : String) (score : ℕ) (m : Option Match) (ms : List Match)
      → reaches key score ms ≡ true
      → reaches key score (put_option m ms) ≡ true
  put_option-reaches key score none ms h = h
  put_option-reaches key score (some m) ms h = reaches-put_match key score m ms (ground arith)

  collect_matches-reaches :
      (event_unix : ℕ) (o : MatchOptions) (key : String) (score index : ℕ) (fs : List Facts)
      (ms : List Match)
      → reaches key score ms ≡ true
      → reaches key score (collect_matches before_title index_key event_unix o index fs ms) ≡ true
  unfolding collect_matches
  collect_matches-reaches event_unix o key score index [] ms h = h
  collect_matches-reaches event_unix o key score index (f ∷ fs) ms h =
      let m = score_candidate event_unix o (content_key before_title index_key index f) f in
      collect_matches-reaches event_unix o key score (index + 1) fs (put_option m ms)
        (put_option-reaches key score m ms h)

  put_option-OptionReaches :
      (event_unix : ℕ) (o : MatchOptions) (index : ℕ) (fs : List Facts) (m : Option Match)
      (ms : List Match)
      → OptionReaches m
          (collect_matches before_title index_key event_unix o index fs (put_option m ms))
  put_option-OptionReaches event_unix o index fs none ms = tt
  put_option-OptionReaches event_unix o index fs (some m) ms =
      collect_matches-reaches event_unix o m.key m.score index fs (put_match m ms)
        (reaches-put_match m.key m.score m ms (ground (arith, beq_refl m.key)))

  collect_matches-Covers :
      (event_unix : ℕ) (o : MatchOptions) (index : ℕ) (fs : List Facts) (ms : List Match)
      → Covers event_unix o index fs
          (collect_matches before_title index_key event_unix o index fs ms)
  unfolding collect_matches
  collect_matches-Covers event_unix o index [] ms = tt
  collect_matches-Covers event_unix o index (f ∷ fs) ms =
      let m = score_candidate event_unix o (content_key before_title index_key index f) f in
      (
        put_option-OptionReaches event_unix o (index + 1) fs m ms,
        collect_matches-Covers event_unix o (index + 1) fs (put_option m ms),
      )

  put_option-IsDistinct :
      (m : Option Match) (ms : List Match)
      → IsDistinct (keys ms)
      → IsDistinct (keys (put_option m ms))
  put_option-IsDistinct none ms d = d
  put_option-IsDistinct (some m) ms d = put_match-IsDistinct m ms d

  collect_matches-IsJustified :
      (event_unix : ℕ) (o : MatchOptions) (index : ℕ) (fs : List Facts) (ms : List Match)
      → All (IsJustified event_unix o) ms
      → IsDistinct (keys ms)
      → All
          (IsJustified event_unix o)
          (collect_matches before_title index_key event_unix o index fs ms)
        × IsDistinct (keys (collect_matches before_title index_key event_unix o index fs ms))
  unfolding collect_matches
  collect_matches-IsJustified event_unix o index [] ms a d = (a, d)
  collect_matches-IsJustified event_unix o index (f ∷ fs) ms a d =
      let key = content_key before_title index_key index f in
      let m = score_candidate event_unix o key f in
      collect_matches-IsJustified event_unix o (index + 1) fs (put_option m ms)
        (put_option-IsJustified event_unix o m ms (score_candidate_justified event_unix o key f) a)
        (put_option-IsDistinct m ms d)

  OptionReaches-sort_by :
      (m : Option Match) (ms : List Match)
      → OptionReaches m ms
      → OptionReaches m (sort_by (better before_title index_key) ms)
  unfolding sort_by
  OptionReaches-sort_by none ms h = tt
  OptionReaches-sort_by (some m) ms h =
      reaches-sort_onto (better before_title index_key) m.key m.score [] ms ∙ h

  Covers-sort_by :
      (event_unix : ℕ) (o : MatchOptions) (index : ℕ) (fs : List Facts) (ms : List Match)
      → Covers event_unix o index fs ms
      → Covers event_unix o index fs (sort_by (better before_title index_key) ms)
  Covers-sort_by event_unix o index [] ms h = tt
  Covers-sort_by event_unix o index (f ∷ fs) ms h =
      let m = score_candidate event_unix o (content_key before_title index_key index f) f in
      (OptionReaches-sort_by m ms h.0, Covers-sort_by event_unix o (index + 1) fs ms h.1)

  better-IsWeakOrder : IsWeakOrder before_title → IsWeakOrder (better before_title index_key)
  better-IsWeakOrder w = record {
    asym = λ x y e. ground (arith, w.asym x.facts.title y.facts.title);
    chain = λ x y z e f. ground (arith, w.chain x.facts.title y.facts.title z.facts.title);
  }

  -- When titles compare as a weak order, the replays of an event are the first, up to the limit,
  -- of a list that is sorted by score and then by title, has each content once, has only items
  -- that share an identifier, or that name both teams, at a date near enough, with the league or
  -- in full, and reach the threshold, and has for each item that scores one of its content that
  -- is at least as good.
  pub event_matches_lem :
      (event_unix : ℕ) (o : MatchOptions) (items : List Facts)
      → IsWeakOrder before_title
      → (ms : List Match) × (event_matches before_title index_key event_unix o items
          ≡ take (max 1 o.max_matches) ms)
        × IsSorted (better before_title index_key) ms
        × IsDistinct (keys ms)
        × All (IsJustified event_unix o) ms
        × Covers event_unix o 0 items ms
  unfolding event_matches
  event_matches_lem event_unix o items w =
      let b = better before_title index_key in
      let found = collect_matches before_title index_key event_unix o 0 items [] in
      let h = collect_matches-IsJustified event_unix o 0 items [] tt tt in
      (
        sort_by b found,
        refl,
        sort_by-IsSorted b (better-IsWeakOrder w) found,
        sort_by-IsDistinct b (λ m. m.key) found h.1,
        sort_by-All b (IsJustified event_unix o) found h.0,
        Covers-sort_by event_unix o 0 items found (collect_matches-Covers event_unix o 0 items []),
      )
