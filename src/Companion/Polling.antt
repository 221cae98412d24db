-- ===== src/Companion/Polling.antt =====
-- `startSportsCompanion`, its tick, its requests and `stopSportsCompanion`, without their markup. An
-- abort controller is a number, and a timer the generation that its tick has captured.
use silo_plugin_dispatcharr.Base.{
  ℕ, ◌+◌, String, Bool, true, false, ◌&&◌, ◌||◌, not, Option, none, some, List, [], ◌∷◌, ◌++◌, ltb,
  nat_beq, if◌then◌else◌, filter, string_eq, nat_eq, ◌==◌, contains,
}
use silo_plugin_dispatcharr.Companion.Buffer.{Buffer, new_buffer, push}

module _ (Data : Type 0) where
  pub record Companion : Type 0 where
    pub generation : ℕ
    pub event : String
    pub buffer : Buffer Data
    pub timer : Option ℕ
    pub pending : Bool
    pub stale : Bool
    pub last_fetch : Option ℕ
    pub abort : Option ℕ
    pub aborted : List ℕ
    pub controllers : ℕ

-- A request with what its handlers have captured.
pub record Request : Type 0 where
  pub generation : ℕ
  pub event : String
  pub controller : ℕ

-- What a tick finds: whether the page shows the player with its drawer, whether the page is hidden,
-- and the current game, empty when there is none.
pub record Found : Type 0 where
  pub in_player : Bool
  pub hidden : Bool
  pub event : String

abbrev pub aborted_with : Option ℕ → List ℕ → List ℕ
aborted_with none aborted = aborted
aborted_with (some c) aborted = c ∷ aborted

abbrev pub has_controller : Option ℕ → ℕ → Bool
has_controller none c = false
has_controller (some d) c = nat_beq d c

-- `performance.now() - sportsCompanion.lastFetch < 30000`
abbrev pub is_recent : ℕ → Option ℕ → Bool
is_recent now none = false
is_recent now (some last) = ltb now (last + 30000)

module _ {Data : Type 0} where
  unfoldable pub stop_sports_companion : Companion Data → Companion Data
  stop_sports_companion s = record s {
    generation = s.generation + 1;
    aborted = aborted_with s.abort s.aborted;
    timer = none;
    abort = none;
    pending = false;
    stale = false;
    event = "";
    buffer = new_buffer Data;
  }

  -- The game that a tick finds is another one.
  unfoldable pub change_event : String → Companion Data → Companion Data
  change_event event s = record s {
    aborted = aborted_with s.abort s.aborted;
    event = event;
    buffer = new_buffer Data;
    last_fetch = none;
    pending = false;
    stale = false;
  }

  unfoldable pub begin_request : ℕ → ℕ → String → Companion Data → Companion Data × List Request
  begin_request generation now event s = (
    record s {
      pending = true;
      last_fetch = some now;
      abort = some s.controllers;
      controllers = s.controllers + 1;
    },
    record { generation = generation; event = event; controller = s.controllers } ∷ [],
  )

  unfoldable pub tick : ℕ → ℕ → Found → Companion Data → Companion Data × List Request
  unfolding stop_sports_companion change_event begin_request
  tick generation now found s =
      let current = if found.event == s.event then s else change_event found.event s in
      if not found.in_player
      then (stop_sports_companion s, [])
      else if found.hidden
      then (s, [])
      else if found.event == "" || current.pending || is_recent now current.last_fetch
      then (current, [])
      else begin_request generation now found.event current

  -- `active` says that the sports player is on.
  unfoldable pub start_sports_companion :
      Bool → ℕ → Found → Companion Data → Companion Data × List Request
  unfolding stop_sports_companion tick
  start_sports_companion active now found s =
      let stopped = stop_sports_companion s in
      let ticked = tick stopped.generation now found stopped in
      if not active
      then (stopped, [])
      else (record (ticked.0) { timer = some stopped.generation }, ticked.1)

  -- The `finally` of a request.
  unfoldable pub end_request : Request → Companion Data → Companion Data
  end_request r s =
      if has_controller s.abort r.controller then record s { pending = false; abort = none } else s

  -- A reply; `useful` says that it has statistics or both scores.
  unfoldable pub receive_stats :
      (Data → Bool) → ℕ → Request → Data → Companion Data → Companion Data
  unfolding end_request push
  receive_stats useful now r data_ s =
      let pushed = record s { buffer = push r.event data_ now s.buffer; stale = false } in
      end_request r (
        if not (nat_beq r.generation s.generation)
          || not (r.event == s.event)
          || contains s.aborted r.controller
        then s
        else if useful data_
        then pushed
        else record s { stale = true })

  unfoldable pub fail_stats : Request → Companion Data → Companion Data
  unfolding end_request
  fail_stats r s = end_request r (
      if nat_beq r.generation s.generation
        && has_controller s.abort r.controller
        && r.event == s.event
      then record s { stale = true }
      else s)

-- The companion with its requests under way and the time of the page.
pub record Polling (Data : Type 0) : Type 0 where
  pub companion : Companion Data
  pub requests : List Request
  pub now : ℕ

-- What may happen next; a request may be any, and a tick of any generation. Time does not go back.
pub data Event (Data : Type 0) : Type 0 where
  starts : Bool → Found → Event Data
  stops : Event Data
  ticks : ℕ → Found → Event Data
  waits : ℕ → Event Data
  replies : Request → Data → Event Data
  fails : Request → Event Data

module _ {Data : Type 0} (useful : Data → Bool) where
  abbrev without : Request → List Request → List Request
  without r rs = filter (λ q. not (nat_beq q.controller r.controller)) rs

  unfoldable pub happen : Event Data → Polling Data → Polling Data
  unfolding start_sports_companion stop_sports_companion tick receive_stats fail_stats
  happen (starts active found) s =
      let r = start_sports_companion active s.now found s.companion in
      record s { companion = r.0; requests = r.1 ++ s.requests }
  happen stops s = record s { companion = stop_sports_companion s.companion }
  happen (ticks g found) s =
      let r = tick g s.now found s.companion in
      record s { companion = r.0; requests = r.1 ++ s.requests }
  happen (waits n) s = record s { now = s.now + n }
  happen (replies r data_) s = record s {
    companion = receive_stats useful s.now r data_ s.companion;
    requests = without r s.requests;
  }
  happen (fails r) s = record s {
    companion = fail_stats r s.companion;
    requests = without r s.requests;
  }
