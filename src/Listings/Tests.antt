-- ===== src/Listings/Tests.antt =====
-- Concrete guide data.
use silo_plugin_dispatcharr.Base.{
  ℕ, String, ◌≡◌, refl, inl, true, false, some, [], ◌∷◌, ◌++◌, arith, nat_beq, if◌then◌else◌,
  filter, string_eq, nat_eq, IsDistinct, sort_by, IsSorted,
}
use silo_plugin_dispatcharr.Listings.State.{
  Program, starts_before, rebuild_program_index, programs_for, is_kept, is_listed,
}
use silo_plugin_dispatcharr.Listings.Merge.{
  keys, merged, program_with, last_with, merge_guide_window_programs_lem,
}
use silo_plugin_dispatcharr.Listings.Index.{programs_for_lem}
use silo_plugin_dispatcharr.Listings.Coverage.{
  fetch_guide_window, refresh_window, Window, Loading, Steps, ensure_guide_coverage, receive_window,
  ensures, refreshes, replies, here, next,
}
use silo_plugin_dispatcharr.Listings.Loading.{IsLoading, empty_guide, Steps-IsLoading}

abbrev digit : ℕ → String
digit n = if nat_beq n 0 then "0" else if nat_beq n 1 then "1" else "many"

abbrev news : Program
news = record { id = "a"; channel_id = "1"; start_unix = 100000; end_unix = 101800; title = "News" }

abbrev film : Program
film = record { id = ""; channel_id = "2"; start_unix = 90000; end_unix = 0; title = "Film" }

abbrev news_later : Program
news_later = record {
  id = "a";
  channel_id = "1";
  start_unix = 100600;
  end_unix = 102400;
  title = "News";
}

merge_guide_window_programs_lem_example :
    let ps = merged digit 100000 100000 200000 (news ∷ film ∷ []) (news_later ∷ []) in
    IsDistinct (keys digit ps)
    × ((k : String)
        → program_with digit k ps
          ≡ last_with digit k
              (filter (is_kept 100000 100000 200000) (news ∷ film ∷ []) ++ news_later ∷ []))
merge_guide_window_programs_lem_example =
    merge_guide_window_programs_lem digit 100000 100000 200000 (news ∷ film ∷ []) (news_later ∷ [])

programs_for_lem_example :
    let sorted = sort_by starts_before (news ∷ film ∷ []) in
    IsSorted starts_before sorted
    × (programs_for (some ("1" ∷ [])) 100000 (rebuild_program_index (news ∷ film ∷ [])) "1"
        ≡ filter (is_listed (some ("1" ∷ [])) 100000 "1") sorted)
programs_for_lem_example = programs_for_lem (some ("1" ∷ [])) 100000 (news ∷ film ∷ []) "1"

abbrev near : Window
near = record { start = 89200; end = 186400; ensured = false }

abbrev far : Window
far = record { start = 186400; end = 300000; ensured = true }

abbrev l1 : Loading
l1 = record { guide = empty_guide.guide; requests = near ∷ []; answered = [] }

abbrev l2 : Loading
l2 = record {
  guide = receive_window digit 100000 near (news ∷ []) l1.guide;
  requests = [];
  answered = near ∷ [];
}

abbrev l3 : Loading
l3 = record {
  guide = (ensure_guide_coverage 300000 l2.guide).0;
  requests = far ∷ [];
  answered = near ∷ [];
}

abbrev l4 : Loading
l4 = record {
  guide = receive_window digit 100000 far [] l3.guide;
  requests = [];
  answered = far ∷ near ∷ [];
}

-- A refresh, then a view that asks for more.
abbrev loading : Steps digit empty_guide l4
unfolding ensure_guide_coverage receive_window refresh_window fetch_guide_window
loading =
    next
      (next
        (next (next here (refreshes 100000 near (omega arith) refl refl))
          (replies 100000 [] near [] (news ∷ []) refl refl))
        (ensures 300000 refl))
      (replies 100000 [] far [] [] refl refl)

Steps-IsLoading_example : IsLoading l4
unfolding loading
Steps-IsLoading_example =
    Steps-IsLoading digit l4 loading ((tt, λ e. inl refl), λ e. absurd (ground arith))
