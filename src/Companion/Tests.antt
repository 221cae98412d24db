-- ===== src/Companion/Tests.antt =====
-- Runs of the buffer at small values.
use silo_plugin_dispatcharr.Base.{
  ℕ, String, ◌≡◌, refl, inr, true, false, none, some, List, [], ◌∷◌, arith, string_eq, nat_eq,
}
use silo_plugin_dispatcharr.Companion.Delay.{read-push}
use silo_plugin_dispatcharr.Companion.Polling.{Found, Polling, Event, ticks, waits, replies}
use silo_plugin_dispatcharr.Companion.Replies.{IsPolling, happens, happens-IsPolling}
use silo_plugin_dispatcharr.Companion.Buffer.{Buffer, IsBuffer, IsAnswer, push, read}

-- One snapshot, received after a second.
abbrev one_snapshot : Buffer ℕ
one_snapshot = record { game = "g1"; snapshots = record { data_ = 7; at = 1000 } ∷ [] }

one_snapshot-IsBuffer : IsBuffer 1000 one_snapshot
one_snapshot-IsBuffer = (omega arith, (omega arith, tt), (tt, tt))

-- With a delay of 30 seconds the older of two snapshots is shown.
delayed :
    read "g1" 30 40000 (push "g1" 9 31000 one_snapshot) ≡ some (record { data_ = 7; at = 1000 })
unfolding read push
delayed = refl

pushed_is_read :
    IsAnswer 30 40000
      (push "g1" 9 31000 one_snapshot).snapshots
      (read "g1" 30 40000 (push "g1" 9 31000 one_snapshot))
pushed_is_read =
    read-push "g1" 9 1000 31000 30 40000 one_snapshot (omega arith) one_snapshot-IsBuffer

abbrev quiet : Polling ℕ
quiet = record {
  companion = record {
    generation = 0;
    event = "g1";
    buffer = one_snapshot;
    timer = some 0;
    pending = false;
    stale = false;
    last_fetch = none;
    abort = none;
    aborted = [];
    controllers = 0;
  };
  requests = [];
  now = 1000;
}

abbrev game : String → Found
game id = record { in_player = true; hidden = false; event = id }

-- A request for the first game comes back when another game is on.
abbrev evening : List (Event ℕ)
evening =
    ticks 0 (game "g1")
    ∷ waits 2000
    ∷ ticks 0 (game "g2")
    ∷ replies (record { generation = 0; event = "g1"; controller = 0 }) 5
    ∷ []

happens-IsPolling_example :
    let last = happens (λ d. true) evening quiet in IsPolling last.now last.companion
happens-IsPolling_example =
    happens-IsPolling (λ d. true) evening quiet
      (record {
        buffer = one_snapshot-IsBuffer;
        game = inr refl;
        pending = λ e. absurd (ground arith);
      })
