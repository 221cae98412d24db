-- ===== src/Player/Operations.antt =====
-- The operations of the player that stop, start or keep what it holds, in terms of its leases.
use silo_plugin_dispatcharr.Base.{
  ℕ, String, refl, Bool, true, false, ◌&&◌, none, some, if◌then◌else◌, is_some, string_eq, nat_eq,
  ◌==◌,
}
use silo_plugin_dispatcharr.Player.State.{
  is_current, Source, fatal_message, direct, Channel, show_player_error, begin_compatible,
  fail_playback, destroy_attachment, fallback_from_time_shift, stop_playback, set_video_source,
  shared_playback_mode, open_channel, set_view, leave_for_multiview, Player,
  stop_compatibility_session, stop_time_shift_session, stop_current_watch,
}
use silo_plugin_dispatcharr.Player.State.{fatal_message}
use silo_plugin_dispatcharr.Player.Leases.{
  Keeps, Keeps-refl, Keeps-trans, stop_compatibility_session-Keeps, stop_time_shift_session-Keeps,
  stop_current_watch-Keeps, Keeps-same,
}

pub destroy_attachment-Keeps : (p : Player) → Keeps p (destroy_attachment p)
unfolding destroy_attachment
destroy_attachment-Keeps p = Keeps-same p _ refl refl refl refl refl refl refl (λ h. h)

pub set_video_source-Keeps : (s : Source) (p : Player) → Keeps p (set_video_source s p)
unfolding set_video_source
set_video_source-Keeps s p = Keeps-same p _ refl refl refl refl refl refl refl (λ h. h)

pub show_player_error-Keeps : (m : String) (p : Player) → Keeps p (show_player_error m p)
unfolding show_player_error
show_player_error-Keeps m p = Keeps-same p _ refl refl refl refl refl refl refl (λ h. h)

pub stop_playback-Keeps : (p : Player) → Keeps p (stop_playback p)
unfolding stop_playback
stop_playback-Keeps p = Keeps-trans (stop_compatibility_session-Keeps p) (
    Keeps-trans (destroy_attachment-Keeps (stop_compatibility_session p))
      (stop_time_shift_session-Keeps (destroy_attachment (stop_compatibility_session p))))

-- The player when the viewer leaves it.
left_player : (p : Player) → Keeps p (stop_current_watch (stop_playback p))
left_player p = Keeps-trans (stop_playback-Keeps p) (stop_current_watch-Keeps (stop_playback p))

Keeps-if : (b : Bool) (p q r : Player) → Keeps p q → Keeps p r → Keeps p (if b then q else r)
Keeps-if true p q r a b = a
Keeps-if false p q r a b = b

viewed : (view : String) (p : Player) → Keeps p (record p { view = view })
viewed view p = Keeps-same p _ refl refl refl refl refl refl refl (λ h. h)

pub set_view-Keeps : (view : String) (p : Player) → Keeps p (set_view view p)
unfolding set_view
set_view-Keeps view p =
    let left =
      if p.view == "player" then stop_current_watch (stop_playback p) else stop_playback p in
    Keeps-trans
      (Keeps-if (view == "player") p p left (Keeps-refl p) (
        Keeps-if (p.view == "player") p (stop_current_watch (stop_playback p)) (stop_playback p)
          (left_player p) (stop_playback-Keeps p)))
      (viewed view (if view == "player" then p else left))

pub leave_for_multiview-Keeps : (p : Player) → Keeps p (leave_for_multiview p)
unfolding leave_for_multiview
leave_for_multiview-Keeps p =
    let left = if p.view == "player" then stop_current_watch (stop_playback p) else p in
    Keeps-trans
      (Keeps-if (p.view == "player") p (stop_current_watch (stop_playback p)) p (left_player p)
        (Keeps-refl p))
      (viewed "multiview" left)

pub fallback_from_time_shift-Keeps :
    (c : Channel) (p : Player) → Keeps p (fallback_from_time_shift c p)
unfolding fallback_from_time_shift
fallback_from_time_shift-Keeps c p =
    Keeps-if (p.view == "player" && is_current c p) p
      (set_video_source (direct c) (stop_time_shift_session p)) p
      (Keeps-trans (stop_time_shift_session-Keeps p)
        (set_video_source-Keeps (direct c) (stop_time_shift_session p)))
      (Keeps-refl p)

pub shared_playback_mode-Keeps : (p : Player) → Keeps p (shared_playback_mode p)
unfolding shared_playback_mode
shared_playback_mode-Keeps p =
    elim p.current_channel
      as (λ o. Keeps p (elim o as (λ _. Player) [
        | none ↦ p
        | some c ↦ set_video_source (direct c) (stop_time_shift_session p)
      ])) [
        | none ↦ Keeps-refl p
        | some c ↦
            Keeps-trans (stop_time_shift_session-Keeps p)
              (set_video_source-Keeps (direct c) (stop_time_shift_session p))
      ]

pub open_channel-Keeps : (c : Channel) (p : Player) → Keeps p (open_channel c p)
unfolding open_channel
open_channel-Keeps c p =
    let stopped = stop_time_shift_session (stop_compatibility_session p) in
    Keeps-trans
      (Keeps-trans (stop_compatibility_session-Keeps p)
        (stop_time_shift_session-Keeps (stop_compatibility_session p)))
      (Keeps-same stopped (record stopped { current_channel = some c; view = "player" }) refl refl
        refl refl refl refl refl (λ h. h))

tried_now : (p : Player) → Keeps p (record p { compatibility_tried = true })
tried_now p = Keeps-same p _ refl refl refl refl refl refl refl (λ h. refl)

pub begin_compatible-Keeps : (p : Player) → Keeps p (begin_compatible p)
unfolding begin_compatible
begin_compatible-Keeps p =
    let tried = record p { compatibility_tried = true } in
    let bare = destroy_attachment (stop_time_shift_session tried) in
    Keeps-trans (tried_now p) (
      Keeps-trans (stop_time_shift_session-Keeps tried) (
        Keeps-trans (destroy_attachment-Keeps (stop_time_shift_session tried)) (
          Keeps-same bare (record bare { error_message = ""; waiting = true }) refl refl refl refl
            refl refl refl (λ h. h))))

pub fail_playback-Keeps : (status : ℕ) (p : Player) → Keeps p (fail_playback status p)
unfolding fail_playback
fail_playback-Keeps status p =
    let dropped = record (stop_compatibility_session p) { compatibility_tried = true } in
    let next = if is_some p.compatibility_session then dropped else p in
    Keeps-trans
      (Keeps-if (is_some p.compatibility_session) p dropped p
        (Keeps-trans (stop_compatibility_session-Keeps p)
          (tried_now (stop_compatibility_session p)))
        (Keeps-refl p))
      (show_player_error-Keeps (fatal_message status) next)
