-- ===== src/Player/Races.antt =====
-- What a reply does that comes after the viewer has gone to another channel.
use silo_plugin_dispatcharr.Base.{
  ℕ, ◌<◌, String, ◌≡◌, Bool, true, false, some, [], ◌++◌, arith, string_eq, nat_eq, ◌==◌,
}
use silo_plugin_dispatcharr.Player.State.{
  Player, Channel, rewind, transcode, timeshift, stop_of, stop_of_named, open_channel,
  set_video_source, stop_time_shift_session, stop_compatibility_session, fallback_from_time_shift,
  show_player_error, start_watch,
}
use silo_plugin_dispatcharr.Player.Tasks.{
  Task, watch_start, play_libraries, shift_start, shift_wait, shift_status, compatible_start,
  compatible_status, compatible_sleep, compatible_libraries, Reply, resume, fail_compatible,
  fail_time_shift,
}
use silo_plugin_dispatcharr.Player.Resume.{task_kind, task_attempt}
use silo_plugin_dispatcharr.Player.Leases.{
  attempt, is_stopped-append, is_stopped, is_stopped-append,
}

-- The requests that a reply may bring late: all but the last status of the rewind buffer.
abbrev pub is_guarded : Task → Bool
is_guarded (shift_status a c l n) = false
is_guarded _ = true

-- A successful reply to a task of an older generation, other than a status of the rewind buffer,
-- changes neither what plays nor the error that is shown, and no task follows it.
pub resume-late :
    (rewind_on : Bool) (t : Task) (r : Reply) (p : Player)
    → task_attempt t < attempt (task_kind t) p
    → is_guarded t ≡ true
    → r.ok ≡ true
    → ((resume rewind_on t r p).0.video_attachment ≡ p.video_attachment)
      × ((resume rewind_on t r p).0.error_message ≡ p.error_message)
      × ((resume rewind_on t r p).1 ≡ [])
unfolding resume set_video_source start_watch fail_compatible fail_time_shift
    fallback_from_time_shift show_player_error
resume-late rewind_on (watch_start a) r p h g k = ground arith
resume-late rewind_on (play_libraries a c) r p h g k = ground arith
resume-late rewind_on (shift_start a c) r p h g k = ground arith
resume-late rewind_on (shift_wait a c l n) r p h g k = ground arith
resume-late rewind_on (shift_status a c l n) r p h g k = ground arith
resume-late rewind_on (compatible_start a c) r p h g k = ground arith
resume-late rewind_on (compatible_status a c s n) r p h g k = ground arith
resume-late rewind_on (compatible_sleep a c s n) r p h g k = ground arith
resume-late rewind_on (compatible_libraries a c s) r p h g k = ground arith

-- When the viewer opens another channel while a status of the rewind buffer of a held lease with
-- a name is under way, and the reply says that the buffer is ready, then the new channel is the
-- current one, but the source of the player is the lease of the old channel, whose stop has been
-- asked for.
pub shift_status-late :
    (rewind_on : Bool) (p : Player) (old new : Channel) (lease : String) (poll : ℕ) (r : Reply)
    → p.time_shift_session ≡ some lease
    → (lease == "") ≡ false
    → r.ok ≡ true
    → r.failed ≡ false
    → r.ready ≡ true
    → let switched = open_channel new p in
      let q = (resume rewind_on (shift_status p.time_shift_attempt old lease poll) r switched).0 in
      (q.current_channel ≡ some new)
      × (q.video_attachment ≡ some (rewind lease))
      × (is_stopped q.stops timeshift lease ≡ true)
unfolding resume open_channel set_video_source stop_time_shift_session stop_compatibility_session
shift_status-late rewind_on p old new lease poll r e f k l m = ground (
  arith,
  is_stopped-append p.stops (stop_of transcode p.compatibility_session) timeshift lease,
  is_stopped-append (p.stops ++ stop_of transcode p.compatibility_session)
      (stop_of_named timeshift p.time_shift_session) timeshift lease,
  string_eq.beq_iff lease lease,
)
