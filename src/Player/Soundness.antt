-- ===== src/Player/Soundness.antt =====
-- One step of the player, an action or a task that goes on, in terms of its leases.
use silo_plugin_dispatcharr.Base.{
  ◌<◌, ◌≡◌, ◌≢◌, inl, inr, Bool, false, none, some, List, [], ◌∷◌, ◌++◌, arith, if◌then◌else◌,
  nat_beq_iff, Bool-cases, All, All-append, string_eq, nat_eq,
}
use silo_plugin_dispatcharr.Player.State.{
  can_try_compatible, fail_playback, Channel, open_channel, begin_compatible, watch, transcode,
  timeshift, Lease, Player, stop_of,
}
use silo_plugin_dispatcharr.Player.Tasks.{
  Action, play_channel, set_view_to, playback_error, shared_mode, rewind_error, open_multiview, act,
  try_compatible_playback, Task, watch_start, play_libraries, shift_start, shift_wait, shift_status,
  compatible_start, compatible_status, compatible_sleep, compatible_libraries, Reply, resume,
  granted_by, System, session_of,
}
use silo_plugin_dispatcharr.Player.Leases.{Keeps, attempt, IsAccounted, is_stopped-append}
use silo_plugin_dispatcharr.Player.Resume.{Follows, task_attempt, task_kind, IsTask}
use silo_plugin_dispatcharr.Player.Steps.{resume-Resumes}
use silo_plugin_dispatcharr.Player.Operations.{
  open_channel-Keeps, set_view-Keeps, fail_playback-Keeps, shared_playback_mode-Keeps,
  fallback_from_time_shift-Keeps, leave_for_multiview-Keeps, begin_compatible-Keeps,
}
use silo_plugin_dispatcharr.Player.Apart.{
  follow-IsApart, IsTask-Resumes, All-both, newer, AllApart-append, kind_beq_eq, IsTask-Keeps,
  IsApart, All-mono, AllApart-remove, All-remove, AllApart,
}

abbrev pub IsGranted : Player → Lease → Type 0
IsGranted p l = IsAccounted p l.kind l.id × (l.id ≢ "")

-- What holds of the player with all that is under way.
pub record IsSound (s : System) : Type 0 where
  pub tasks : All (IsTask s.player) s.tasks
  pub apart : AllApart s.tasks
  pub granted : All (IsGranted s.player) s.granted
  pub untried : s.player.compatibility_tried ≡ false → s.player.compatibility_session ≡ none

-- The tasks that one task starts.
resume-AllApart :
    (rewind_on : Bool) (t : Task) (r : Reply) (p : Player) → AllApart (resume rewind_on t r p).1
unfolding resume
resume-AllApart rewind_on (watch_start a) r p = ground arith
resume-AllApart rewind_on (play_libraries a c) r p = ground arith
resume-AllApart rewind_on (shift_start a c) r p = ground arith
resume-AllApart rewind_on (shift_wait a c l n) r p = ground arith
resume-AllApart rewind_on (shift_status a c l n) r p = ground arith
resume-AllApart rewind_on (compatible_start a c) r p = ground arith
resume-AllApart rewind_on (compatible_status a c s n) r p = ground arith
resume-AllApart rewind_on (compatible_sleep a c s n) r p = ground arith
resume-AllApart rewind_on (compatible_libraries a c s) r p = ground arith

-- A reply's lease is held or stopped at once.
resume-IsGranted :
    (rewind_on : Bool) (t : Task) (r : Reply) (p : Player)
    → All (IsGranted (resume rewind_on t r p).0) (granted_by t r)
unfolding resume granted_by
resume-IsGranted rewind_on (watch_start a) r p = ground (
  arith,
  string_eq.beq_iff r.id "",
  string_eq.beq_iff r.id r.id,
  is_stopped-append p.stops (stop_of watch (session_of r.id)) watch r.id,
)
resume-IsGranted rewind_on (play_libraries a c) r p = tt
resume-IsGranted rewind_on (shift_start a c) r p = ground (
  arith,
  string_eq.beq_iff r.id "",
  string_eq.beq_iff r.id r.id,
  is_stopped-append p.stops (stop_of timeshift (some r.id)) timeshift r.id,
)
resume-IsGranted rewind_on (shift_wait a c l n) r p = tt
resume-IsGranted rewind_on (shift_status a c l n) r p = tt
resume-IsGranted rewind_on (compatible_start a c) r p = ground (
  arith,
  string_eq.beq_iff r.id "",
  string_eq.beq_iff r.id r.id,
  is_stopped-append p.stops (stop_of transcode (some r.id)) transcode r.id,
)
resume-IsGranted rewind_on (compatible_status a c s n) r p = tt
resume-IsGranted rewind_on (compatible_sleep a c s n) r p = tt
resume-IsGranted rewind_on (compatible_libraries a c s) r p = tt

-- What an action does: it keeps the sessions, and the task that it starts is new.
record Acts (p q : Player) (new old : List Task) : Type 0 where
  keeps : Keeps p q
  tasks : All (IsTask q) new
  apart : AllApart new
  fresh : All (λ n. All (IsApart n) old) new

Keeps-Acts : (p q : Player) (old : List Task) → Keeps p q → Acts p q [] old
Keeps-Acts p q old k = record { keeps = k; tasks = tt; apart = tt; fresh = tt }

open_channel-attempt :
    (c : Channel) (p : Player)
    → (p.time_shift_attempt < (open_channel c p).time_shift_attempt)
      × ((open_channel c p).time_shift_session ≡ none)
unfolding open_channel
open_channel-attempt c p = ground arith

all_newer :
    (p : Player) (n : Task) (old : List Task)
    → attempt (task_kind n) p < task_attempt n
    → All (IsTask p) old
    → All (IsApart n) old
all_newer p n old new h =
    All-mono (IsTask p) (IsApart n) old
      (λ u k. newer p (task_kind n) (task_kind u) (task_attempt n) (task_attempt u) new k.begun) h

-- No task of the transcoding session is under way before a first try.
untried_apart :
    (p : Player) (c : Channel) (old : List Task)
    → p.compatibility_tried ≡ false
    → All (IsTask p) old
    → All (IsApart (compatible_start p.compatibility_attempt c)) old
untried_apart p c old e h =
    All-mono (IsTask p) (IsApart (compatible_start p.compatibility_attempt c)) old
      (λ u k. ground (
        arith,
        k.tried,
        kind_beq_eq transcode (task_kind u),
        nat_beq_iff p.compatibility_attempt (task_attempt u),
      ))
      h

begin_compatible-IsTask :
    (p : Player) (c : Channel)
    → p.compatibility_session ≡ none
    → IsTask (begin_compatible p) (compatible_start p.compatibility_attempt c)
unfolding begin_compatible
begin_compatible-IsTask p c e = record {
  begun = ground arith;
  expects = λ a. ground arith;
  tried = λ k a. ground arith;
}

act-Acts :
    (a : Action) (s : System)
    → IsSound s
    → Acts s.player (act a s.player).0 (act a s.player).1 s.tasks
unfolding act try_compatible_playback
act-Acts (play_channel c) s h =
    let opened = open_channel c s.player in
    let new = open_channel-attempt c s.player in
    record {
      keeps = open_channel-Keeps c s.player;
      tasks =
          (record { begun = omega arith; expects = λ e. new.1; tried = λ k e. ground arith }, tt);
      apart = (tt, tt);
      fresh = (
        all_newer s.player (play_libraries opened.time_shift_attempt c) s.tasks new.0 h.tasks,
        tt,
      );
    }
act-Acts (set_view_to view) s h = Keeps-Acts s.player _ s.tasks (set_view-Keeps view s.player)
act-Acts (playback_error codec_failure status) s h =
    elim s.player.current_channel
      as (λ o.
        let out = elim o as (λ _. Player × List Task) [
          | none ↦ (fail_playback status s.player, [])
          | some channel ↦
              if can_try_compatible codec_failure false s.player
              then (
                begin_compatible s.player,
                compatible_start s.player.compatibility_attempt channel ∷ [],
              )
              else (fail_playback status s.player, [])
        ] in
        Acts s.player out.0 out.1 s.tasks) [
          | none ↦ Keeps-Acts s.player _ s.tasks (fail_playback-Keeps status s.player)
          | some c ↦ elim (Bool-cases (can_try_compatible codec_failure false s.player)) [
            | inl e ↦ rw e (
                let e1 : s.player.compatibility_tried ≡ false = ground arith in
                let start = compatible_start s.player.compatibility_attempt c in
                record {
                  keeps = begin_compatible-Keeps s.player;
                  tasks = (begin_compatible-IsTask s.player c (h.untried e1), tt);
                  apart = (tt, tt);
                  fresh = (untried_apart s.player c s.tasks e1 h.tasks, tt);
                })
            | inr e ↦ rw e (Keeps-Acts s.player _ s.tasks (fail_playback-Keeps status s.player))
          ]
        ]
act-Acts shared_mode s h = Keeps-Acts s.player _ s.tasks (shared_playback_mode-Keeps s.player)
act-Acts (rewind_error c) s h =
    Keeps-Acts s.player _ s.tasks (fallback_from_time_shift-Keeps c s.player)
act-Acts open_multiview s h = Keeps-Acts s.player _ s.tasks (leave_for_multiview-Keeps s.player)

-- One step keeps what holds.
pub act-IsSound :
    (a : Action) (s : System)
    → IsSound s
    → IsSound (record {
      player = (act a s.player).0;
      tasks = (act a s.player).1 ++ s.tasks;
      granted = s.granted;
    })
act-IsSound a s h =
    let p = s.player in
    let q = (act a p).0 in
    let new = (act a p).1 in
    let k = act-Acts a s h in
    record {
      tasks =
          All-append (IsTask q) new s.tasks k.tasks
            (All-mono (IsTask p) (IsTask q) s.tasks (λ u. IsTask-Keeps p q u k.keeps) h.tasks);
      apart = AllApart-append new s.tasks k.apart k.fresh h.apart;
      granted =
          All-mono (IsGranted p) (IsGranted q) s.granted
            (λ l g. (k.keeps.leases l.kind l.id g.1 g.0, g.1)) h.granted;
      untried = k.keeps.untried h.untried;
    }

pub resume-IsSound :
    (rewind_on : Bool) (p : Player) (before : List Task) (t : Task) (after : List Task)
    (granted : List Lease) (r : Reply)
    → IsSound (record { player = p; tasks = before ++ t ∷ after; granted = granted })
    → IsSound (record {
      player = (resume rewind_on t r p).0;
      tasks = (resume rewind_on t r p).1 ++ (before ++ after);
      granted = granted_by t r ++ granted;
    })
resume-IsSound rewind_on p before t after granted r h =
    let q = (resume rewind_on t r p).0 in
    let new = (resume rewind_on t r p).1 in
    let old = before ++ after in
    let mine = All-remove (IsTask p) before t after h.tasks in
    let others = AllApart-remove before t after h.apart in
    let k = resume-Resumes p r rewind_on t mine.0 in
    let both = All-both (IsApart t) (IsTask p) old others.0 mine.1 in
    record {
      tasks = All-append (IsTask q) new old k.tasks (
          All-mono (λ u. IsApart t u × IsTask p u) (IsTask q) old
            (λ u a. IsTask-Resumes p q t u new k a.0 a.1) both);
      apart =
          AllApart-append new old (resume-AllApart rewind_on t r p)
            (All-mono (Follows p t) (λ n. All (IsApart n) old) new
              (λ n f.
                All-mono (λ u. IsApart t u × IsTask p u) (IsApart n) old
                  (λ u a. follow-IsApart p t n u f a.1 a.0) both)
              k.follow)
            others.1;
      granted =
          All-append (IsGranted q) (granted_by t r) granted (resume-IsGranted rewind_on t r p) (
            All-mono (IsGranted p) (IsGranted q) granted
              (λ l g. (k.leases l.kind l.id g.1 g.0, g.1)) h.granted);
      untried = k.untried h.untried;
    }
