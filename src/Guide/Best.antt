-- ===== src/Guide/Best.antt =====
-- What `guideSearchPrograms` finds: the first of all distinct matches, in their order.
use mathlib.Core.List.{foldl-append, append_assoc, append-nil}
use silo_plugin_dispatcharr.Base.{
  ℕ, zero, suc, ◌+◌, ◌≤◌, String, ◌≡◌, refl, sym, ap, ◌∙◌, inl, inr, Bool, true, false, List, [],
  ◌∷◌, ◌++◌, map, foldl, arith, ltb, if◌then◌else◌, Bool-cases, length, take, filter, length-append,
  length-take, nat_eq, string_eq, contains, insert_by, sort_by, sort_by-append, take-insert_by-take,
  IsWeakOrder, sort_by-IsSorted, take-IsSorted, sort_by_sorted,
}
use silo_plugin_dispatcharr.Guide.Search.{
  SearchProgram, SearchChannel, Match, MatchKey, key_eq, TextOps, Found, Searching, match_key, pop,
  listed_before, add_entry, accept, is_candidate, as_match, search_channel, search_channels,
  nothing_found, search_limit, guide_search_programs,
}

listed_before-IsWeakOrder : (window_start : ℕ) → IsWeakOrder (listed_before window_start)
listed_before-IsWeakOrder w = record {
  asym = λ x y h. ground arith;
  chain = λ x y z h k. ground arith;
}

length-insert_by :
    (before : Match → Match → Bool) (x : Match) (ys : List Match)
    → length (insert_by before x ys) ≡ suc (length ys)
unfolding insert_by
length-insert_by before x [] = refl
length-insert_by before x (y ∷ ys) = ground (arith, length-insert_by before x ys)

take-nil : (n : ℕ) → take {A = Match} n [] ≡ []
take-nil zero = refl
take-nil (suc n) = refl

pop_over :
    (n : ℕ) (xs : List Match)
    → length xs ≤ suc n
    → (if ltb n (length xs) then pop xs else xs) ≡ take n xs
pop_over zero [] h = refl
pop_over zero (x ∷ []) h = refl
pop_over zero (x ∷ (y ∷ ys)) h = ground arith
pop_over (suc n) [] h = ground arith
pop_over (suc n) (x ∷ []) h = ground (arith, take-nil n)
pop_over (suc n) (x ∷ (y ∷ ys)) h = ground (arith, pop_over n (y ∷ ys) (omega arith))

add_entry_lem :
    (w n : ℕ) (found : List Match) (m : Match)
    → add_entry w n (take n (sort_by (listed_before w) found)) m
      ≡ take n (sort_by (listed_before w) (found ++ m ∷ []))
unfolding add_entry
add_entry_lem w n found m =
    let o = listed_before-IsWeakOrder w in
    let sorted = sort_by (listed_before w) found in
    rw (sort_by-append (listed_before w) (take n sorted) m) rw
      (sort_by-append (listed_before w) found m) rw
      (sort_by_sorted (listed_before w) o (take n sorted)
        (take-IsSorted (listed_before w) o n sorted (sort_by-IsSorted (listed_before w) o found)))
      (pop_over n (insert_by (listed_before w) m (take n sorted)) (
          omega (arith, length-insert_by (listed_before w) m (take n sorted), length-take n sorted))
        ∙ take-insert_by-take (listed_before w) n m sorted)

-- The matches that a list of them has new keys with, each key once.
unfoldable pub distinct_from : List MatchKey → List Match → List Match
distinct_from seen [] = []
distinct_from seen (m ∷ ms) =
    let same = distinct_from seen ms in
    let more = distinct_from (match_key m ∷ seen) ms in
    if contains seen (match_key m) then same else m ∷ more

module _ (text : TextOps) (needle : String) (window_start window_end : ℕ) where
  -- The matches of one channel's programs, in their order.
  unfoldable pub channel_matches : SearchChannel → ℕ → List SearchProgram → List Match
  channel_matches channel channel_index programs =
      map (as_match window_start channel channel_index)
        (filter (is_candidate text needle window_start window_end) programs)

  unfoldable pub all_matches : ℕ → List SearchChannel → List Match
  all_matches channel_index [] = []
  all_matches channel_index (channel ∷ rest) =
      channel_matches channel channel_index channel.programs ++ all_matches (suc channel_index) rest

search_channel_lem :
    (text : TextOps) (needle : String) (window_start window_end n : ℕ) (channel : SearchChannel)
    (i : ℕ) (programs : List SearchProgram) (s : Searching)
    → search_channel text needle window_start window_end n channel i programs s
      ≡ foldl
          (accept window_start n)
          s
          (channel_matches text needle window_start window_end channel i programs)
unfolding search_channel channel_matches
search_channel_lem text needle ws we n channel i [] s = refl
search_channel_lem text needle ws we n channel i (p ∷ ps) s =
    elim (Bool-cases (is_candidate text needle ws we p)) [
      | inl e ↦ rw e (
          search_channel_lem text needle ws we n channel i ps
            (accept ws n s (as_match ws channel i p)))
      | inr e ↦ rw e (search_channel_lem text needle ws we n channel i ps s)
    ]

search_channels_lem :
    (text : TextOps) (needle : String) (window_start window_end n i : ℕ)
    (channels : List SearchChannel) (s : Searching)
    → search_channels text needle window_start window_end n i channels s
      ≡ foldl (accept window_start n) s (all_matches text needle window_start window_end i channels)
unfolding search_channels all_matches
search_channels_lem text needle ws we n i [] s = refl
search_channels_lem text needle ws we n i (c ∷ cs) s =
    let first = channel_matches text needle ws we c i c.programs in
    rw (search_channel_lem text needle ws we n c i c.programs s) rw
      (foldl-append (accept ws n) s first (all_matches text needle ws we (suc i) cs))
      (search_channels_lem text needle ws we n (suc i) cs (foldl (accept ws n) s first))

-- What the loop's result is worth when the distinct matches so far are `found`.
abbrev pub IsBest : ℕ → ℕ → List Match → Found → Type 0
IsBest window_start maximum found result =
    (result.entries ≡ take maximum (sort_by (listed_before window_start) found))
    × (result.total ≡ length found)

accept_seen :
    (w n : ℕ) (s : Searching) (m : Match)
    → contains s.seen (match_key m) ≡ true
    → accept w n s m ≡ s
unfolding accept
accept_seen w n s m e = rw e refl

accept_new :
    (w n : ℕ) (s : Searching) (m : Match)
    → contains s.seen (match_key m) ≡ false
    → accept w n s m ≡ record {
      seen = match_key m ∷ s.seen;
      result = record { entries = add_entry w n s.result.entries m; total = s.result.total + 1 };
    }
unfolding accept
accept_new w n s m e = rw e refl

accept_all :
    (w n : ℕ) (found : List Match) (s : Searching) (ms : List Match)
    → IsBest w n found s.result
    → IsBest w n (found ++ distinct_from s.seen ms) (foldl (accept w n) s ms).result
unfolding distinct_from
accept_all w n found s [] h = rw append-nil h
accept_all w n found s (m ∷ ms) h = elim (Bool-cases (contains s.seen (match_key m))) [
  | inl e ↦
      let step : foldl (accept w n) s (m ∷ ms) ≡ foldl (accept w n) s ms =
        ap (λ r. foldl (accept w n) r ms) (accept_seen w n s m e) in
      rw step rw e (accept_all w n found s ms h)
  | inr e ↦
      let next : Searching = record {
        seen = match_key m ∷ s.seen;
        result = record { entries = add_entry w n s.result.entries m; total = s.result.total + 1 };
      } in
      let step : foldl (accept w n) s (m ∷ ms) ≡ foldl (accept w n) next ms =
        ap (λ r. foldl (accept w n) r ms) (accept_new w n s m e) in
      rw step rw e rw (sym (append_assoc found (m ∷ []) (distinct_from (match_key m ∷ s.seen) ms)))
        (accept_all w n (found ++ m ∷ []) next ms (
          ap (λ es. add_entry w n es m) h.0 ∙ add_entry_lem w n found m,
          omega (arith, h.1, length-append found (m ∷ [])),
        ))
]

-- A search for a text of at least two letters gives the first entries, up to the limit of 1 to
-- 20, of all distinct matches of the guide, sorted by start within the window and then by
-- channel, ties in the order of the guide; the total counts all distinct matches.
pub guide_search_programs-IsBest :
    (text : TextOps) (channels : List SearchChannel) (query : String)
    (window_start window_end limit : ℕ)
    → 2 ≤ text.text_length (text.to_lower (text.trim query))
    → IsBest window_start
        (search_limit limit)
        (distinct_from []
          (all_matches text (text.to_lower (text.trim query)) window_start window_end 0 channels))
        (guide_search_programs text channels query window_start window_end limit)
unfolding guide_search_programs sort_by
guide_search_programs-IsBest text channels query ws we limit h =
    let needle = text.to_lower (text.trim query) in
    let s : Searching = record { seen = []; result = nothing_found } in
    let short : ltb (text.text_length needle) 2 ≡ false = ground arith in
    rw short rw (search_channels_lem text needle ws we (search_limit limit) 0 channels s) (
      accept_all ws (search_limit limit) [] s (all_matches text needle ws we 0 channels)
        (sym (take-nil (search_limit limit)), refl))
