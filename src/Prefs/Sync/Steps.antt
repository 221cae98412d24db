-- ===== src/Prefs/Sync/Steps.antt =====
-- Every event keeps a tab with nothing to save at its baseline.
use silo_plugin_dispatcharr.Base.{
  ℕ, suc, ◌≡◌, refl, sym, ◌∙◌, inl, inr, true, false, ◌||◌, not, List, [], ◌∷◌, arith, Bool-cases,
  Option-cases, nat_eq, string_eq,
}
use mathlib.Core.Bool.{false≢true}
use silo_plugin_dispatcharr.Prefs.Sync.{
  nothing, reload, read, or_no_fields, write_save, fail_save, merged_view, begin_save,
  discard_pending_prefs_edits, Tab, Hooks, finish_save, prefs_profile_switched,
}
use silo_plugin_dispatcharr.Prefs.Sync.System.{
  Event, edit, flush, start, read_done, request_failed, put_done, reload_done, switch_profile,
  other_tab, step, run, Flight, start_queued, after_read, after_failure, after_put, writing,
  start_save, System, Flight, free, reading, writing,
}
use silo_plugin_dispatcharr.Prefs.Sync.Clean.{
  IsClean, save_prefs-dirty, save_prefs-installed, finish_save-clean, finish_reload-clean,
  finish_reload-installed,
}

-- The three outcomes of `begin_save`.
module _ (t : Tab) where
  begun_nothing : (not t.dirty || not t.loaded) ≡ true → begin_save t ≡ (t, nothing)
  unfolding begin_save
  begun_nothing e = rw e refl

  begun_reload :
      (not t.dirty || not t.loaded) ≡ false
      → prefs_profile_switched t ≡ true
      → begin_save t ≡ (discard_pending_prefs_edits t, reload)
  unfolding begin_save
  begun_reload e w = rw (e, w) refl

  begun_read :
      (not t.dirty || not t.loaded) ≡ false
      → prefs_profile_switched t ≡ false
      → begin_save t ≡ (
        record t { dirty = false; quiet = true },
        read (record {
          local = t.preferences;
          base = or_no_fields t.baseline;
          for_profile = t.profile_id;
        }),
      )
  unfolding begin_save
  begun_read e w = rw (e, w) refl

-- A save starts from what the tab shows; if the viewer has left, a reload is asked for.
start_save-IsClean :
    (s : System) (n : ℕ) → s.flight ≡ free → IsClean s → IsClean (start_save (begin_save s.tab) n s)
unfolding start_save discard_pending_prefs_edits
start_save-IsClean s n f h = elim (Bool-cases (not s.tab.dirty || not s.tab.loaded)) [
  | inl e ↦ rw (begun_nothing s.tab e) (record { installed = h.installed; clean = h.clean })
  | inr e ↦ elim (Bool-cases (prefs_profile_switched s.tab)) [
    | inl w ↦
        rw (begun_reload s.tab e w)
          (record { installed = h.installed; clean = λ st. absurd (ground arith) })
    | inr w ↦
        rw (begun_read s.tab e w) (record { installed = h.installed; clean = λ _ _ _ k _ _. refl })
  ]
]

start_queued-IsClean :
    (n : ℕ) (f : Flight) (s : System) → s.flight ≡ f → IsClean s → IsClean (start_queued n f s)
unfolding start_queued
start_queued-IsClean (suc n) free s e h = start_save-IsClean s n e h
start_queued-IsClean _ _ s e h = h

after_read-IsClean : (f : Flight) (s : System) → s.flight ≡ f → IsClean s → IsClean (after_read f s)
unfolding after_read discard_pending_prefs_edits
after_read-IsClean free s e h = h
after_read-IsClean (reading save) s e h = elim (Option-cases (write_save s.tab save s.server)) [
  | inl none_e ↦
      rw (none_e, after_read)
        (record { installed = h.installed; clean = λ st. absurd (ground arith) })
  | inr (_, some_e) ↦
      rw (some_e, after_read)
        (record { installed = h.installed; clean = λ st. rw e at (h.clean st) })
]
after_read-IsClean (writing save remote) s e h = h

after_failure-IsClean :
    (f : Flight) (s : System) → s.flight ≡ f → IsClean s → IsClean (after_failure f s)
unfolding after_failure fail_save
after_failure-IsClean free s e h = h
after_failure-IsClean _ s e h = record {
  installed = h.installed;
  clean = λ st l d. absurd (ground arith);
}

after_put-IsClean :
    (hooks : Hooks) (f : Flight) (s : System)
    → s.flight ≡ f
    → IsClean s
    → IsClean (after_put hooks f s)
unfolding after_put
after_put-IsClean hooks free s e h = h
after_put-IsClean hooks (reading save) s e h = h
after_put-IsClean hooks (writing save remote) s e h = record {
  installed = unfold finish_save in h.installed;
  clean = λ st. finish_save-clean hooks save (merged_view save remote) s.tab (rw e at (h.clean st));
}

-- No reload comes back while a save runs.
abbrev pub IsCalm : System → Event → Type 0
IsCalm s reload_done = s.flight ≡ free
IsCalm s _ = Unit

pub step-IsClean :
    (hooks : Hooks) (s : System) (ev : Event) → IsCalm s ev → IsClean s → IsClean (step hooks s ev)
unfolding step
step-IsClean hooks s (edit quiet f) calm h = record {
  installed = save_prefs-installed quiet _ ∙ h.installed;
  clean = λ _ _ d. absurd (false≢true (sym d ∙ save_prefs-dirty quiet _ h.installed));
}
step-IsClean hooks s flush calm h = record { installed = h.installed; clean = h.clean }
step-IsClean hooks s start calm h = start_queued-IsClean s.queued s.flight s refl h
step-IsClean hooks s read_done calm h = after_read-IsClean s.flight s refl h
step-IsClean hooks s request_failed calm h = after_failure-IsClean s.flight s refl h
step-IsClean hooks s put_done calm h = after_put-IsClean hooks s.flight s refl h
step-IsClean hooks s reload_done calm h = record {
  installed = finish_reload-installed hooks s.server s.tab ∙ h.installed;
  clean = λ _. rw calm (finish_reload-clean hooks s.server s.tab h.installed);
}
step-IsClean hooks s (switch_profile p) calm h = record { installed = h.installed; clean = h.clean }
step-IsClean hooks s (other_tab f) calm h = record { installed = h.installed; clean = h.clean }

abbrev pub IsCalmRun : Hooks → System → List Event → Type 0
IsCalmRun hooks s [] = Unit
IsCalmRun hooks s (e ∷ es) = IsCalm s e × IsCalmRun hooks (step hooks s e) es

-- From a state in which a loaded tab without pending edits shows what its last save or load gave
-- (all keys but the empty one and the order of favourites), any edits, saves, failures, reloads,
-- profile switches and writes of other tabs lead to such a state, as long as no reload comes back
-- while a save is between its start and its end. While a reload is awaited after a profile switch
-- nothing is claimed of the tab.
pub run-IsClean :
    (hooks : Hooks) (s : System) (es : List Event)
    → IsCalmRun hooks s es
    → IsClean s
    → IsClean (run hooks s es)
unfolding run
run-IsClean hooks s [] calm h = h
run-IsClean hooks s (e ∷ es) calm h =
    run-IsClean hooks (step hooks s e) es calm.1 (step-IsClean hooks s e calm.0 h)
