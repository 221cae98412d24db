-- ===== src/Settings/Keep.antt =====
-- What the lists of keywords keep, under the law of the pattern that splits a text.
use silo_plugin_dispatcharr.Base.{
  String, ◌≡◌, refl, ap, ◌∙◌, ◌&&◌, not, Option, none, some, List, [], ◌∷◌, ◌++◌, map, arith,
  filter, All, All-append, string_eq, nat_eq, ◌==◌, contains, IsDistinct,
}
use silo_plugin_dispatcharr.Prefs.Json.{Json, null, bool, num, str, arr, obj, to_list}
use silo_plugin_dispatcharr.Settings.State.{text_of}
use silo_plugin_dispatcharr.Settings.Unique.{
  keep_unseen, contains-keep_unseen, keep_unseen-IsDistinct, All-keep_unseen,
}
use silo_plugin_dispatcharr.Settings.Keywords.{
  Texts, flat_map, keyword_rows, unique_keywords, normalize_keyword_list, normalize_keyword_texts,
}

-- A text that stays as it is when it is split and trimmed.
pub record IsPiece (t : Texts) (s : String) : Type 0 where
  pub split_once : t.split s ≡ s ∷ []
  pub trim_same : t.trim s ≡ s

module _ (t : Texts) where
  abbrev pub lowered : List String → List String
  lowered keywords = map t.lower keywords

  -- What a split gives is not split further once it is trimmed.
  abbrev pub IsSplitting : Type 0
  IsSplitting = (s : String) → All (λ p. IsPiece t (t.trim p)) (t.split s)

  All-map :
      (xs : List String) → All (λ p. IsPiece t (t.trim p)) xs → All (IsPiece t) (map t.trim xs)
  All-map [] h = tt
  All-map (x ∷ xs) h = (h.0, All-map xs h.1)

  flat_map-All {ℓ} :
      {A : Type ℓ} (f : A → List String)
      → ((a : A) → All (λ p. IsPiece t (t.trim p)) (f a))
      → (xs : List A) → All (λ p. IsPiece t (t.trim p)) (flat_map f xs)
  flat_map-All f h [] = tt
  flat_map-All f h (x ∷ xs) =
      All-append (λ p. IsPiece t (t.trim p)) (f x) (flat_map f xs) (h x) (flat_map-All f h xs)

  keyword_rows-All :
      IsSplitting → (value : Option Json) → All (λ p. IsPiece t (t.trim p)) (keyword_rows t value)
  keyword_rows-All law none = law ""
  keyword_rows-All law (some null) = law ""
  keyword_rows-All law (some (bool b)) = law (text_of (some (bool b)))
  keyword_rows-All law (some (num s)) = law (text_of (some (num s)))
  keyword_rows-All law (some (str s)) = law s
  keyword_rows-All law (some (arr xs)) =
      flat_map-All (λ item. t.split (text_of (some item))) (λ item. law (text_of (some item)))
        (to_list xs)
  keyword_rows-All law (some (obj f)) = law (text_of (some (obj f)))

  pub normalize_keyword_list-All :
      IsSplitting → (value : Option Json) → All (IsPiece t) (normalize_keyword_list t value)
  unfolding normalize_keyword_list unique_keywords
  normalize_keyword_list-All law value =
      All-keep_unseen (λ k. not (t.lower k == "")) t.lower (IsPiece t) []
        (map t.trim (keyword_rows t value))
        (All-map (keyword_rows t value) (keyword_rows-All law value))

  flat_map-split : (xs : List String) → All (IsPiece t) xs → flat_map t.split xs ≡ xs
  flat_map-split [] h = refl
  flat_map-split (x ∷ xs) h = rw h.0.split_once (ap (◌∷◌ x) (flat_map-split xs h.1))

  map-trim : (xs : List String) → All (IsPiece t) xs → map t.trim xs ≡ xs
  map-trim [] h = refl
  map-trim (x ∷ xs) h = rw h.0.trim_same (ap (◌∷◌ x) (map-trim xs h.1))

  -- On pieces, the list is only thinned out.
  pub normalize_keyword_texts-pieces :
      (xs : List String)
      → All (IsPiece t) xs
      → normalize_keyword_texts t xs ≡ keep_unseen (λ k. not (t.lower k == "")) t.lower [] xs
  unfolding normalize_keyword_texts unique_keywords
  normalize_keyword_texts-pieces xs h = rw (flat_map-split xs h) (rw (map-trim xs h) refl)

  pub normalize_keyword_texts-All :
      (xs : List String) → All (IsPiece t) xs → All (IsPiece t) (normalize_keyword_texts t xs)
  normalize_keyword_texts-All xs h =
      rw (normalize_keyword_texts-pieces xs h)
        (All-keep_unseen (λ k. not (t.lower k == "")) t.lower (IsPiece t) [] xs h)

  contains-lowered-filter :
      (xs : List String) (k : String)
      → contains (lowered (filter (λ s. not (t.lower s == "")) xs)) k
        ≡ (not (k == "") && contains (lowered xs) k)
  contains-lowered-filter [] k = ground arith
  contains-lowered-filter (x ∷ xs) k = ground (
    arith,
    contains-lowered-filter xs k,
    string_eq.beq_iff (t.lower x) "",
    string_eq.beq_iff (t.lower x) k,
    string_eq.beq_iff k "",
  )

  -- Which keywords there are, but for case.
  pub contains-normalize_keyword_texts :
      (xs : List String) (k : String)
      → All (IsPiece t) xs
      → contains (lowered (normalize_keyword_texts t xs)) k
        ≡ (not (k == "") && contains (lowered xs) k)
  contains-normalize_keyword_texts xs k h = rw (normalize_keyword_texts-pieces xs h) (
      contains-keep_unseen (λ k. not (t.lower k == "")) t.lower [] xs k
      ∙ contains-lowered-filter xs k)

  pub lowered-append : (xs ys : List String) → lowered (xs ++ ys) ≡ lowered xs ++ lowered ys
  lowered-append [] ys = refl
  lowered-append (x ∷ xs) ys = ap (◌∷◌ (t.lower x)) (lowered-append xs ys)

  pub normalize_keyword_texts-IsDistinct :
      (xs : List String) → IsDistinct (lowered (normalize_keyword_texts t xs))
  unfolding normalize_keyword_texts unique_keywords
  normalize_keyword_texts-IsDistinct xs =
      keep_unseen-IsDistinct (λ k. not (t.lower k == "")) t.lower []
        (map t.trim (flat_map t.split xs))
