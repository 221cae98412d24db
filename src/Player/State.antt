-- ===== src/Player/State.antt =====
-- The state of the player and what its operations do up to their first `await`. A request that asks
-- the service to stop something is an element of `stops`; its reason is left out. A timer is whether
-- it is armed. The page's video element is taken to be there.
use silo_plugin_dispatcharr.Base.{
  ℕ, ◌+◌, String, Bool, true, false, ◌&&◌, ◌||◌, not, Option, none, some, List, [], ◌∷◌, ◌++◌,
  nat_beq, if◌then◌else◌, is_some, string_eq, nat_eq, ◌==◌,
}

-- What the service hands out: the first part of the route that starts and stops it.
pub data Kind : Type 0 where
  watch transcode timeshift : Kind

pub record Lease : Type 0 where
  pub kind : Kind
  pub id : String

pub record Channel : Type 0 where
  pub id : String
  pub stream_format : String

-- What plays: the channel's own stream, its rewind buffer, or the transcoded stream.
pub data Source : Type 0 where
  direct : Channel → Source
  rewind compatible : String → Source

pub record Player : Type 0 where
  pub view : String
  pub current_channel : Option Channel
  pub watch_attempt : ℕ
  pub current_session : Option String
  pub heartbeat : Bool
  pub compatibility_attempt : ℕ
  pub compatibility_tried : Bool
  pub compatibility_session : Option String
  pub compatibility_heartbeat : Bool
  pub time_shift_attempt : ℕ
  pub time_shift_session : Option String
  pub time_shift_heartbeat : Bool
  pub time_shift_timeline : Bool
  pub video_attachment : Option Source
  pub waiting : Bool
  pub error_message : String
  pub stops : List Lease

abbrev pub stop_of : Kind → Option String → List Lease
stop_of kind none = []
stop_of kind (some id) = record { kind = kind; id = id } ∷ []

-- `session && session.leaseId`
abbrev pub stop_of_named : Kind → Option String → List Lease
stop_of_named kind none = []
stop_of_named kind (some id) = if id == "" then [] else stop_of kind (some id)

abbrev pub is_current : Channel → Player → Bool
is_current channel p = elim p.current_channel [ none ↦ false | some c ↦ c.id == channel.id ]

unfoldable pub stop_compatibility_session : Player → Player
stop_compatibility_session p = record p {
  compatibility_attempt = p.compatibility_attempt + 1;
  compatibility_tried = false;
  compatibility_heartbeat = false;
  compatibility_session = none;
  stops = p.stops ++ stop_of transcode p.compatibility_session;
}

unfoldable pub stop_time_shift_session : Player → Player
stop_time_shift_session p = record p {
  time_shift_attempt = p.time_shift_attempt + 1;
  time_shift_session = none;
  time_shift_heartbeat = false;
  time_shift_timeline = false;
  stops = p.stops ++ stop_of_named timeshift p.time_shift_session;
}

unfoldable pub stop_current_watch : Player → Player
stop_current_watch p =
    if is_some p.current_session
    then record p {
      watch_attempt = p.watch_attempt + 1;
      current_session = none;
      heartbeat = false;
      stops = p.stops ++ stop_of watch p.current_session;
    }
    else record p { watch_attempt = p.watch_attempt + 1 }

-- `startWatch(channel)` up to the request.
unfoldable pub start_watch : Player → Player
start_watch p = record p {
  watch_attempt = p.watch_attempt + 1;
  current_session = none;
  stops = p.stops ++ stop_of watch p.current_session;
}

unfoldable pub destroy_attachment : Player → Player
destroy_attachment p = record p { video_attachment = none }

unfoldable pub set_video_source : Source → Player → Player
set_video_source source p = record p { video_attachment = some source }

unfoldable pub stop_playback : Player → Player
unfolding stop_compatibility_session destroy_attachment stop_time_shift_session
stop_playback p = stop_time_shift_session (destroy_attachment (stop_compatibility_session p))

unfoldable pub show_player_error : String → Player → Player
show_player_error message p = record p { error_message = message; waiting = false }

-- What `setView` does to the player, once the view is settled.
unfoldable pub set_view : String → Player → Player
unfolding stop_playback stop_current_watch
set_view view p =
    let left =
      if p.view == "player" then stop_current_watch (stop_playback p) else stop_playback p in
    record (if view == "player" then p else left) { view = view }

-- What `addChannelToMultiview` does to the player.
unfoldable pub leave_for_multiview : Player → Player
unfolding stop_playback stop_current_watch
leave_for_multiview p =
    record (if p.view == "player" then stop_current_watch (stop_playback p) else p) {
      view = "multiview";
    }

unfoldable pub fallback_from_time_shift : Channel → Player → Player
unfolding stop_time_shift_session set_video_source
fallback_from_time_shift channel p =
    if p.view == "player" && is_current channel p
    then set_video_source (direct channel) (stop_time_shift_session p)
    else p

-- `sharedPlaybackMode`, with the mode left out.
unfoldable pub shared_playback_mode : Player → Player
unfolding stop_time_shift_session set_video_source
shared_playback_mode p = elim p.current_channel [
  | none ↦ p
  | some channel ↦ set_video_source (direct channel) (stop_time_shift_session p)
]

-- `playChannel` up to its first `await`.
unfoldable pub open_channel : Channel → Player → Player
unfolding stop_compatibility_session stop_time_shift_session
open_channel channel p =
    let stopped = stop_time_shift_session (stop_compatibility_session p) in
    record stopped { current_channel = some channel; view = "player" }

-- `tryCompatiblePlayback` up to its request, with what it says of the error; `none` when it
-- declines, else the channel.
unfoldable pub can_try_compatible : Bool → Bool → Player → Bool
can_try_compatible codec_failure manual p =
    (manual || codec_failure) && not p.compatibility_tried && p.view == "player"

unfoldable pub begin_compatible : Player → Player
unfolding stop_time_shift_session destroy_attachment
begin_compatible p =
    let tried = record p { compatibility_tried = true } in
    record (destroy_attachment (stop_time_shift_session tried)) {
      error_message = "";
      waiting = true;
    }

abbrev pub fatal_message : ℕ → String
fatal_message status =
    if nat_beq status 401 || nat_beq status 403
    then "Playback authorization expired. Try again to reopen the channel."
    else if nat_beq status 503
    then "This channel is temporarily unavailable."
    else "The stream could not be loaded. The channel may be offline or out of connections."

-- `handlePlaybackFatalError` when `tryCompatiblePlayback` has declined.
unfoldable pub fail_playback : ℕ → Player → Player
unfolding stop_compatibility_session show_player_error
fail_playback status p =
    let dropped = record (stop_compatibility_session p) { compatibility_tried = true } in
    show_player_error (fatal_message status)
      (if is_some p.compatibility_session then dropped else p)
