-- ===== src/Selection/Tests.antt =====
-- Concrete selections.
use silo_plugin_dispatcharr.Selection.Passes.{
  Lineup, Pass, keys, categories_of, normalize_keyword_passes, normalize_saved_lineups,
  normalize-IsDistinct,
}
use silo_plugin_dispatcharr.Base.{
  ℕ, ◌≤◌, String, ◌≡◌, refl, inl, true, false, none, [], ◌∷◌, map, nat_beq, if◌then◌else◌, length,
  string_eq, nat_eq, IsDistinct,
}
use silo_plugin_dispatcharr.Selection.State.{Channel, App, channel_matches_profile_selection}
use silo_plugin_dispatcharr.Selection.Cached.{
  IsCached, is_match, channel_matches_profile_selection_lem,
}

abbrev sport : Channel
sport = record { id = "7"; profile_ids = "kids" ∷ "all" ∷ [] }

abbrev app : App
app = record {
  channels = sport ∷ [];
  profiles = "kids" ∷ "news" ∷ [];
  stored = record { is_selected = true; profile_ids = "kids" ∷ "gone" ∷ [] };
  id_map = none;
  filter_map = none;
}

channel_matches_profile_selection_lem_example :
    ((channel_matches_profile_selection (λ s. s) sport app).0 ≡ is_match (λ s. s) app sport)
    × IsCached (λ s. s) (channel_matches_profile_selection (λ s. s) sport app).1
channel_matches_profile_selection_lem_example =
    channel_matches_profile_selection_lem (λ s. s) app sport
      (record { ids = inl refl; channels = inl refl })

abbrev lineup : String → String → Lineup
lineup id category = record {
  id = id;
  name = "n";
  category_id = category;
  hide_final_groups = false;
}

abbrev digit : ℕ → String
digit n = if nat_beq n 3 then "3" else "0"

-- Three lineups of which two get one identifier.
same_ids :
    map
      (λ l. l.id)
      (normalize_saved_lineups
        (λ s. s)
        (λ s. s)
        (λ s. s)
        (λ s. s)
        digit
        (lineup "a-3" "c1" ∷ lineup "a" "c2" ∷ lineup "a" "c3" ∷ []))
    ≡ "a-3" ∷ "a" ∷ "a-3" ∷ []
unfolding normalize_saved_lineups
same_ids = refl

abbrev pass : String → Pass
pass keyword = record { id = ""; name = ""; keyword = keyword; created_at = 0 }

normal_lists_fit :
    let ps =
      normalize_keyword_passes
        (λ s. s)
        (λ s. s)
        (λ s. s)
        (λ s. s)
        digit
        7
        (pass "f1" ∷ pass "f1" ∷ []) in
    let ls =
      normalize_saved_lineups
        (λ s. s)
        (λ s. s)
        (λ s. s)
        (λ s. s)
        digit
        (lineup "a" "c" ∷ lineup "b" "c" ∷ []) in
    IsDistinct (keys (λ s. s) (λ s. s) (λ s. s) (λ s. s) digit ps)
    × (length ps ≤ 24)
    × IsDistinct (categories_of (λ s. s) (λ s. s) (λ s. s) (λ s. s) digit ls)
    × (length ls ≤ 24)
normal_lists_fit =
    normalize-IsDistinct (λ s. s) (λ s. s) (λ s. s) (λ s. s) digit 7 (pass "f1" ∷ pass "f1" ∷ [])
      (lineup "a" "c" ∷ lineup "b" "c" ∷ [])
