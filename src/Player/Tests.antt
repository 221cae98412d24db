-- ===== src/Player/Tests.antt =====
-- Concrete runs of the player.
use silo_plugin_dispatcharr.Base.{
  ◌+◌, ◌*◌, ◌≤◌, ◌≡◌, refl, true, false, none, some, [], ◌∷◌, arith, All, string_eq, nat_eq,
}
use silo_plugin_dispatcharr.Player.State.{
  Player, Channel, rewind, watch, timeshift, open_channel, set_view,
}
use silo_plugin_dispatcharr.Player.Tasks.{
  watch_start, play_libraries, shift_start, shift_wait, shift_status, compatible_start, Reply,
  resume, act, granted_by, play_channel, System, Moves, acts, resumes, here, next,
}
use silo_plugin_dispatcharr.Player.Leases.{is_stopped}
use silo_plugin_dispatcharr.Player.Soundness.{IsGranted}
use silo_plugin_dispatcharr.Player.Interleavings.{
  IsStopped, idle, Moves-IsGranted, set_view-IsStopped,
}
use silo_plugin_dispatcharr.Player.Polls.{Moves-resumed, ranks, acted, resumed}
use silo_plugin_dispatcharr.Player.Races.{resume-late, shift_status-late}

abbrev fresh : Player
fresh = record {
  view = "home";
  current_channel = none;
  watch_attempt = 0;
  current_session = none;
  heartbeat = false;
  compatibility_attempt = 0;
  compatibility_tried = false;
  compatibility_session = none;
  compatibility_heartbeat = false;
  time_shift_attempt = 0;
  time_shift_session = none;
  time_shift_heartbeat = false;
  time_shift_timeline = false;
  video_attachment = none;
  waiting = false;
  error_message = "";
  stops = [];
}

abbrev news : Channel
news = record { id = "news"; stream_format = "ts" }

abbrev sport : Channel
sport = record { id = "sport"; stream_format = "ts" }

abbrev loaded : Reply
loaded = record { ok = true; id = ""; message = ""; failed = false; ready = true }

abbrev leased : Reply
leased = record { ok = true; id = "lease"; message = ""; failed = false; ready = false }

abbrev watching : Reply
watching = record { ok = true; id = "watch"; message = ""; failed = false; ready = false }

abbrev s0 : System
s0 = idle fresh

abbrev s1 : System
s1 = record {
  player = (act (play_channel news) s0.player).0;
  tasks = play_libraries 1 news ∷ [];
  granted = [];
}

abbrev s2 : System
s2 = record {
  player = (resume true (play_libraries 1 news) loaded s1.player).0;
  tasks = watch_start 1 ∷ shift_start 1 news ∷ [];
  granted = [];
}

abbrev s3 : System
s3 = record {
  player = (resume true (shift_start 1 news) leased s2.player).0;
  tasks = shift_wait 1 news "lease" 0 ∷ watch_start 1 ∷ [];
  granted = record { kind = timeshift; id = "lease" } ∷ [];
}

abbrev s4 : System
s4 = record {
  player = (resume true (watch_start 1) watching s3.player).0;
  tasks = shift_wait 1 news "lease" 0 ∷ [];
  granted = record { kind = watch; id = "watch" } ∷ record { kind = timeshift; id = "lease" } ∷ [];
}

-- The channel opens, the rewind lease comes before the watch session.
abbrev opening : Moves true s0 s4
unfolding act resume granted_by
opening =
    next
      (next
        (next (next here (acts (play_channel news) refl))
          (resumes [] (play_libraries 1 news) [] loaded refl refl))
        (resumes (watch_start 1 ∷ []) (shift_start 1 news) [] leased refl refl))
      (resumes (shift_wait 1 news "lease" 0 ∷ []) (watch_start 1) [] watching refl refl)

Moves-IsGranted_example : All (IsGranted s4.player) s4.granted
Moves-IsGranted_example = Moves-IsGranted true fresh s4 refl opening

set_view-IsStopped_example : All (IsStopped (set_view "home" s4.player).stops) s4.granted
unfolding act resume
set_view-IsStopped_example = set_view-IsStopped true fresh s4 "home" refl opening refl refl

Moves-resumed_example : resumed opening + ranks s4.tasks ≤ ranks s0.tasks + 73 * acted opening
Moves-resumed_example = Moves-resumed true s0 s4 opening

resume-late_example :
    let q = resume true (compatible_start 0 news) leased s1.player in
    (q.0.video_attachment ≡ s1.player.video_attachment)
    × (q.0.error_message ≡ s1.player.error_message)
    × (q.1 ≡ [])
unfolding act
resume-late_example =
    resume-late true (compatible_start 0 news) leased s1.player (omega arith) refl refl

shift_status-late_example :
    let q = (resume true (shift_status 1 news "lease" 0) loaded (open_channel sport s3.player)).0 in
    (q.current_channel ≡ some sport)
    × (q.video_attachment ≡ some (rewind "lease"))
    × (is_stopped q.stops timeshift "lease" ≡ true)
unfolding act resume
shift_status-late_example =
    shift_status-late true s3.player news sport "lease" 0 loaded refl refl refl refl refl
