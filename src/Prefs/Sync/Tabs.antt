-- ===== src/Prefs/Sync/Tabs.antt =====
-- Two tabs on the same stored preferences. The events of both come in any order; what one of them
-- stores is what the other finds at its next request.
use silo_plugin_dispatcharr.Base.{
  String, ◌≡◌, refl, ap, ◌∙◌, false, Option, some, List, [], ◌∷◌, ◌++◌, arith, string_eq, nat_eq,
}
use silo_plugin_dispatcharr.Prefs.Json.{Json, Fields, get}
use silo_plugin_dispatcharr.Prefs.Diff.{fields_of}
use silo_plugin_dispatcharr.Prefs.Profiles.{profile_view}
use silo_plugin_dispatcharr.Prefs.Sync.{
  merged_view, finish_save, Hooks, Save, Tab, write_save, stored_preferences,
}
use silo_plugin_dispatcharr.Prefs.Sync.System.{
  free, after_put, Flight, writing, System, Event, reading, read_done, put_done, other_tab, step,
  after_read,
}

pub data Turn : Type 0 where
  left right : Event → Turn

abbrev pub turn : Hooks → Turn → System × System → System × System
turn hooks (left e) (a, b) =
    let next = step hooks a e in (next, step hooks b (other_tab next.server))
turn hooks (right e) (a, b) =
    let next = step hooks b e in (step hooks a (other_tab next.server), next)

abbrev pub turns : Hooks → List Turn → System × System → System × System
turns hooks [] s = s
turns hooks (t ∷ ts) s = turns hooks ts (turn hooks t s)

-- One entry of a map, as a profile reads it from the stored preferences.
abbrev pub stored_at : Fields → String → String → String → Option Json
stored_at server p k sub = get sub (fields_of (get k (profile_view server p)))

-- One tab reads and writes, then the other.
abbrev pub left_first : List Turn
left_first = left read_done ∷ left put_done ∷ right read_done ∷ right put_done ∷ []

abbrev pub right_first : List Turn
right_first = right read_done ∷ right put_done ∷ left read_done ∷ left put_done ∷ []

-- Both read before either writes.
abbrev pub both_read : List Turn
both_read = left read_done ∷ right read_done ∷ left put_done ∷ []

-- A tab with nothing more queued, its view of the stored preferences, and the request that runs.
abbrev pub with_flight : Tab → Fields → Flight → System
with_flight t server flight = record {
  tab = t;
  server = server;
  flight = flight;
  queued = 0;
  stale = false;
}

module _ (hooks : Hooks) (t : Tab) (save : Save) (remote : Fields) where
  write_save_here :
      t.active_profile_id ≡ save.for_profile
      → write_save t save remote ≡ some (stored_preferences save remote)
  unfolding write_save
  write_save_here here = ground (arith, string_eq.beq_iff t.active_profile_id save.for_profile)

  step-read :
      t.active_profile_id ≡ save.for_profile
      → step hooks (with_flight t remote (reading save)) read_done
        ≡ with_flight t remote (writing save remote)
  unfolding step after_read
  step-read here = rw (after_read, write_save_here here) refl

  step-put :
      step hooks (with_flight t remote (writing save remote)) put_done
      ≡ with_flight
          (finish_save hooks save (merged_view save remote) t)
          (stored_preferences save remote)
          free
  unfolding step after_put
  step-put = refl

  step-other :
      (server : Fields) (flight : Flight)
      → step hooks (with_flight t remote flight) (other_tab server) ≡ with_flight t server flight
  unfolding step
  step-other server flight = refl

module _ (hooks : Hooks) (a b : Tab) (remote : Fields) (flight : Flight) (save : Save) where
  turn-left_read :
      a.active_profile_id ≡ save.for_profile
      → turn hooks
          (left read_done)
          (with_flight a remote (reading save), with_flight b remote flight)
        ≡ (with_flight a remote (writing save remote), with_flight b remote flight)
  unfolding step
  turn-left_read here =
      ap (λ s. (s, step hooks (with_flight b remote flight) (other_tab s.server)))
        (step-read hooks a save remote here)

  turn-right_read :
      b.active_profile_id ≡ save.for_profile
      → turn hooks
          (right read_done)
          (with_flight a remote flight, with_flight b remote (reading save))
        ≡ (with_flight a remote flight, with_flight b remote (writing save remote))
  unfolding step
  turn-right_read here =
      ap (λ s. (step hooks (with_flight a remote flight) (other_tab s.server), s))
        (step-read hooks b save remote here)

module _ (hooks : Hooks) (a b : Tab) (first second : Save) (remote : Fields) where
  -- What is stored after some turns of two tabs that both began a save.
  abbrev pub stored_after : List Turn → Fields
  stored_after ts =
      (turns hooks ts
        (with_flight a remote (reading first), with_flight b remote (reading second))).0.server

  module _ (here_a : a.active_profile_id ≡ first.for_profile)
      (here_b : b.active_profile_id ≡ second.for_profile) where
    pub stored_after-left_first :
        stored_after left_first ≡ stored_preferences second (stored_preferences first remote)
    unfolding step after_put finish_save
    stored_after-left_first =
        let saved = stored_preferences first remote in
        let a' = finish_save hooks first (merged_view first remote) a in
        ap (λ s. (turns hooks (left put_done ∷ right read_done ∷ right put_done ∷ []) s).0.server)
          (turn-left_read hooks a b remote (reading second) first here_a)
        ∙ ap (λ s. (turns hooks (right put_done ∷ []) s).0.server)
            (turn-right_read hooks a' b saved free second here_b)

    pub stored_after-right_first :
        stored_after right_first ≡ stored_preferences first (stored_preferences second remote)
    unfolding step after_put finish_save
    stored_after-right_first =
        let saved = stored_preferences second remote in
        let b' = finish_save hooks second (merged_view second remote) b in
        ap (λ s. (turns hooks (right put_done ∷ left read_done ∷ left put_done ∷ []) s).0.server)
          (turn-right_read hooks a b remote (reading first) second here_b)
        ∙ ap (λ s. (turns hooks (left put_done ∷ []) s).0.server)
            (turn-left_read hooks a b' saved free first here_a)

    module _ (rest : List Turn) where
      both_reads :
          stored_after (left read_done ∷ right read_done ∷ rest)
          ≡ (turns hooks rest (
            with_flight a remote (writing first remote),
            with_flight b remote (writing second remote),
          )).0.server
      both_reads =
          ap (λ s. (turns hooks (right read_done ∷ rest) s).0.server)
            (turn-left_read hooks a b remote (reading second) first here_a)
          ∙ ap (λ s. (turns hooks rest s).0.server)
              (turn-right_read hooks a b remote (writing first remote) second here_b)

    pub stored_after-both_read :
        (stored_after both_read ≡ stored_preferences first remote)
        × (stored_after (both_read ++ right put_done ∷ []) ≡ stored_preferences second remote)
    unfolding step after_put
    stored_after-both_read =
        (both_reads (left put_done ∷ []), both_reads (left put_done ∷ right put_done ∷ []))
