-- ===== src/Prefs/Sync/System.antt =====
-- One tab, the stored preferences, and the requests between them, as a function on events.
-- `queuePluginSettingsWrite` runs the queued saves one after the other.
use silo_plugin_dispatcharr.Base.{
  ℕ, suc, String, Bool, true, false, none, some, List, [], ◌∷◌, nat_eq, string_eq,
}
use silo_plugin_dispatcharr.Prefs.Json.{Fields}
use silo_plugin_dispatcharr.Prefs.Sync.{
  Tab, Hooks, Save, Begun, nothing, reload, read, save_prefs, begin_save, write_save, fail_save,
  finish_save, finish_reload, discard_pending_prefs_edits, stored_preferences, merged_view,
}

-- The save that runs: it reads the stored preferences, or it writes what it made of them.
pub data Flight : Type 0 where
  free : Flight
  reading : Save → Flight
  writing : Save → Fields → Flight

-- `stale` says that a reload was asked for and has not come back.
pub record System : Type 0 where
  pub tab : Tab
  pub server : Fields
  pub flight : Flight
  pub queued : ℕ
  pub stale : Bool

pub data Event : Type 0 where
  edit : Bool → Fields → Event
  flush start read_done request_failed put_done reload_done : Event
  switch_profile : String → Event
  other_tab : Fields → Event

-- The first queued save starts.
unfoldable pub start_save : Tab × Begun → ℕ → System → System
start_save (t, nothing) n s = record s { tab = t; queued = n }
start_save (t, reload) n s = record s { tab = t; queued = n; stale = true }
start_save (t, read save) n s = record s { tab = t; queued = n; flight = reading save }

unfoldable pub start_queued : ℕ → Flight → System → System
start_queued (suc n) free s = start_save (begin_save s.tab) n s
start_queued _ _ s = s

-- The stored preferences have arrived.
unfoldable pub after_read : Flight → System → System
after_read (reading save) s = elim (write_save s.tab save s.server) [
  | none ↦ record s { tab = discard_pending_prefs_edits s.tab; flight = free; stale = true }
  | some _ ↦ record s { flight = writing save s.server }
]
after_read _ s = s

unfoldable pub after_failure : Flight → System → System
after_failure free s = s
after_failure _ s = record s { tab = fail_save s.tab; flight = free }

unfoldable pub after_put : Hooks → Flight → System → System
after_put hooks (writing save remote) s = record s {
  tab = finish_save hooks save (merged_view save remote) s.tab;
  server = stored_preferences save remote;
  flight = free;
}
after_put hooks _ s = s

unfoldable pub step : Hooks → System → Event → System
step hooks s (edit quiet f) =
    let t = s.tab in record s { tab = save_prefs quiet (record t { preferences = f }) }
step hooks s flush =
    let t = s.tab in record s { tab = record t { timer = false }; queued = suc s.queued }
step hooks s start = start_queued s.queued s.flight s
step hooks s read_done = after_read s.flight s
step hooks s request_failed = after_failure s.flight s
step hooks s put_done = after_put hooks s.flight s
step hooks s reload_done = record s { tab = finish_reload hooks s.server s.tab; stale = false }
step hooks s (switch_profile p) =
    let t = s.tab in record s { tab = record t { active_profile_id = p } }
step hooks s (other_tab f) = record s { server = f }

unfoldable pub run : Hooks → System → List Event → System
run hooks s [] = s
run hooks s (e ∷ es) = run hooks (step hooks s e) es
