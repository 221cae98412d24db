-- ===== src/Player/Tasks.antt =====
-- The continuations behind the awaits of player.js, and the player with all of them under way. Any
-- of them may go on next.
use silo_plugin_dispatcharr.Base.{
  ℕ, ◌+◌, String, ◌≡◌, Bool, true, false, ◌&&◌, ◌||◌, not, Option, none, some, List, [], ◌∷◌, ◌++◌,
  ltb, nat_beq, if◌then◌else◌, string_eq, nat_eq, ◌==◌,
}
use silo_plugin_dispatcharr.Player.State.{
  watch, transcode, timeshift, Lease, Channel, direct, rewind, compatible, Player, stop_of,
  stop_of_named, is_current, leave_for_multiview, shared_playback_mode, start_watch,
  set_video_source, set_view, show_player_error, fallback_from_time_shift, open_channel,
  can_try_compatible, begin_compatible, fail_playback,
}

-- Where an async function waits, with the values that it has captured.
pub data Task : Type 0 where
  watch_start : ℕ → Task
  play_libraries shift_start : ℕ → Channel → Task
  shift_wait shift_status : ℕ → Channel → String → ℕ → Task
  compatible_start : ℕ → Channel → Task
  compatible_status compatible_sleep : ℕ → Channel → String → ℕ → Task
  compatible_libraries : ℕ → Channel → String → Task

-- How the wait ends: whether it succeeds, the identifier that a reply brings, and what a status
-- says. The message is that of the failure, or of a status that says so; empty where there is none.
pub record Reply : Type 0 where
  pub ok : Bool
  pub id : String
  pub message : String
  pub failed : Bool
  pub ready : Bool

-- `active()` of `tryCompatiblePlayback`
abbrev pub is_active : ℕ → Channel → Player → Bool
is_active generation channel p =
    nat_beq generation p.compatibility_attempt && p.view == "player" && is_current channel p

-- What the `catch` of `tryCompatiblePlayback` is given.
abbrev pub compatible_failure : Reply → String
compatible_failure r =
    if r.ok && r.message == ""
    then "This channel could not be converted for playback."
    else r.message

-- The `catch` of `tryCompatiblePlayback`.
unfoldable pub fail_compatible : String → ℕ → Channel → Option String → Player → Player
unfolding show_player_error
fail_compatible message generation channel session p =
    let stopped = record p { stops = p.stops ++ stop_of transcode session } in
    if is_active generation channel p
    then show_player_error
        (if message == "" then "Compatible playback is unavailable. Try again later." else message)
        (record stopped { compatibility_session = none })
    else stopped

-- The `catch` of `playChannel`.
unfoldable pub fail_time_shift : ℕ → Channel → Player → Player
unfolding fallback_from_time_shift
fail_time_shift attempt channel p =
    if nat_beq attempt p.time_shift_attempt then fallback_from_time_shift channel p else p

-- `payload && payload.session`
abbrev pub session_of : String → Option String
session_of id = if id == "" then none else some id

-- `startWatch` from the reply on.
abbrev pub watch_started : ℕ → Reply → Player → Player × List Task
watch_started attempt r p =
    if not r.ok
    then (p, [])
    else if not (nat_beq attempt p.watch_attempt)
    then (record p { stops = p.stops ++ stop_of watch (session_of r.id) }, [])
    else (record p { current_session = session_of r.id; heartbeat = true }, [])

-- `playChannel` once the libraries are loaded; `rewind_on` says whether live rewind is enabled.
abbrev pub libraries_loaded : Bool → ℕ → Channel → Reply → Player → Player × List Task
libraries_loaded rewind_on attempt channel r p =
    let watched = start_watch p in
    let begun = watch_start watched.watch_attempt in
    if not r.ok
    then (show_player_error "Playback components could not be loaded." p, [])
    else if not (nat_beq attempt p.time_shift_attempt && is_current channel p)
    then (p, [])
    else if rewind_on && not (channel.stream_format == "hls")
    then (watched, begun ∷ shift_start attempt channel ∷ [])
    else (set_video_source (direct channel) watched, begun ∷ [])

-- `prepareTimeShift` after the request that starts a lease.
abbrev pub shift_started : ℕ → Channel → Reply → Player → Player × List Task
shift_started attempt channel r p =
    if not r.ok
    then (fail_time_shift attempt channel p, [])
    else if not (nat_beq attempt p.time_shift_attempt && p.view == "player" && is_current channel p)
    then (record p { stops = p.stops ++ stop_of timeshift (some r.id) }, [])
    else (
      record p { time_shift_session = some r.id; time_shift_heartbeat = true },
      shift_wait attempt channel r.id 0 ∷ [],
    )

-- `prepareTimeShift` after its timer.
abbrev pub shift_waited : ℕ → Channel → String → ℕ → Player → Player × List Task
shift_waited attempt channel lease poll p =
    if nat_beq attempt p.time_shift_attempt
      && p.view == "player"
      && (elim p.time_shift_session [ none ↦ false | some held ↦ held == lease ])
    then (p, shift_status attempt channel lease poll ∷ [])
    else (p, [])

-- `prepareTimeShift` after a status, and `playChannel` with its result.
abbrev pub shift_checked : ℕ → Channel → String → ℕ → Reply → Player → Player × List Task
shift_checked attempt channel lease poll r p =
    if not r.ok || r.failed
    then (fail_time_shift attempt channel p, [])
    else if r.ready
    then (record (set_video_source (rewind lease) p) { time_shift_timeline = true }, [])
    else if ltb (poll + 1) 30
    then (p, shift_wait attempt channel lease (poll + 1) ∷ [])
    else (fail_time_shift attempt channel p, [])

-- `tryCompatiblePlayback` after each of its awaits.
abbrev pub compatible_started : ℕ → Channel → Reply → Player → Player × List Task
compatible_started generation channel r p =
    if not r.ok
    then (fail_compatible (compatible_failure r) generation channel none p, [])
    else if is_active generation channel p
    then (
      record p { compatibility_session = some r.id },
      compatible_status generation channel r.id 0 ∷ [],
    )
    else (record p { stops = p.stops ++ stop_of transcode (some r.id) }, [])

abbrev pub compatible_checked : ℕ → Channel → String → ℕ → Reply → Player → Player × List Task
compatible_checked generation channel session poll r p =
    if r.ok && not (is_active generation channel p)
    then (p, [])
    else if not r.ok || r.failed
    then (fail_compatible (compatible_failure r) generation channel (some session) p, [])
    else if r.ready
    then (p, compatible_libraries generation channel session ∷ [])
    else (p, compatible_sleep generation channel session poll ∷ [])

abbrev pub compatible_slept : ℕ → Channel → String → ℕ → Player → Player × List Task
compatible_slept generation channel session poll p =
    if not (ltb (poll + 1) 35)
    then (
      fail_compatible "This channel took too long to prepare for playback." generation channel
          (some session) p,
      [],
    )
    else if is_active generation channel p
    then (p, compatible_status generation channel session (poll + 1) ∷ [])
    else (p, [])

abbrev pub compatible_loaded : ℕ → Channel → String → Reply → Player → Player × List Task
compatible_loaded generation channel session r p =
    if not r.ok
    then (fail_compatible (compatible_failure r) generation channel (some session) p, [])
    else if is_active generation channel p
    then (record (set_video_source (compatible session) p) { compatibility_heartbeat = true }, [])
    else (p, [])

unfoldable pub resume : Bool → Task → Reply → Player → Player × List Task
unfolding fail_compatible fail_time_shift start_watch set_video_source show_player_error
resume rewind_on (watch_start attempt) r p = watch_started attempt r p
resume rewind_on (play_libraries attempt channel) r p =
    libraries_loaded rewind_on attempt channel r p
resume rewind_on (shift_start attempt channel) r p = shift_started attempt channel r p
resume rewind_on (shift_wait attempt channel lease poll) r p =
    shift_waited attempt channel lease poll p
resume rewind_on (shift_status attempt channel lease poll) r p =
    shift_checked attempt channel lease poll r p
resume rewind_on (compatible_start generation channel) r p =
    compatible_started generation channel r p
resume rewind_on (compatible_status generation channel session poll) r p =
    compatible_checked generation channel session poll r p
resume rewind_on (compatible_sleep generation channel session poll) r p =
    compatible_slept generation channel session poll p
resume rewind_on (compatible_libraries generation channel session) r p =
    compatible_loaded generation channel session r p

-- What the viewer or the media element does.
pub data Action : Type 0 where
  play_channel : Channel → Action
  set_view_to : String → Action
  playback_error : Bool → ℕ → Action
  shared_mode : Action
  rewind_error : Channel → Action
  open_multiview : Action

-- `tryCompatiblePlayback`, and what is done when it declines.
unfoldable pub try_compatible_playback :
    Bool → Bool → Player → (Player → Player) → Player × List Task
unfolding can_try_compatible begin_compatible
try_compatible_playback codec_failure manual p declined = elim p.current_channel [
  | none ↦ (declined p, [])
  | some channel ↦
      if can_try_compatible codec_failure manual p
      then (begin_compatible p, compatible_start p.compatibility_attempt channel ∷ [])
      else (declined p, [])
]

unfoldable pub act : Action → Player → Player × List Task
unfolding try_compatible_playback open_channel
act (play_channel channel) p =
    let opened = open_channel channel p in
    (opened, play_libraries opened.time_shift_attempt channel ∷ [])
act (set_view_to view) p = (set_view view p, [])
act (playback_error codec_failure status) p =
    try_compatible_playback codec_failure false p (fail_playback status)
act shared_mode p = (shared_playback_mode p, [])
act (rewind_error channel) p = (fallback_from_time_shift channel p, [])
act open_multiview p = (leave_for_multiview p, [])

-- What the service has handed out by a reply.
unfoldable pub granted_by : Task → Reply → List Lease
granted_by (watch_start attempt) r = if r.ok then stop_of_named watch (some r.id) else []
granted_by (shift_start attempt channel) r =
    if r.ok then stop_of_named timeshift (some r.id) else []
granted_by (compatible_start generation channel) r =
    if r.ok then stop_of_named transcode (some r.id) else []
granted_by _ r = []

pub record System : Type 0 where
  pub player : Player
  pub tasks : List Task
  pub granted : List Lease

-- One step: an action, or any task goes on.
pub data Move (rewind_on : Bool) (s u : System) : Type 0 where
  acts :
      (a : Action)
      → u ≡ record {
        player = (act a s.player).0;
        tasks = (act a s.player).1 ++ s.tasks;
        granted = s.granted;
      }
      → Move rewind_on s u
  resumes :
      (before : List Task) (t : Task) (after : List Task) (r : Reply)
      → s.tasks ≡ before ++ t ∷ after
      → u ≡ record {
        player = (resume rewind_on t r s.player).0;
        tasks = (resume rewind_on t r s.player).1 ++ (before ++ after);
        granted = granted_by t r ++ s.granted;
      }
      → Move rewind_on s u

pub data Moves (rewind_on : Bool) (s : System) : System → Type 0 where
  here : Moves rewind_on s s
  next : {t u : System} → Moves rewind_on s t → Move rewind_on t u → Moves rewind_on s u
