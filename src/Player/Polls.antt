-- ===== src/Player/Polls.antt =====
-- How often the continuations of the player can go on.
use silo_plugin_dispatcharr.Base.{
  ℕ, ◌+◌, ◌-◌, ◌*◌, ◌≤◌, ◌<◌, ◌≡◌, ap, ◌∙◌, Bool, List, [], ◌∷◌, ◌++◌, arith, ltb→lt, string_eq,
  nat_eq,
}
use silo_plugin_dispatcharr.Player.State.{Player}
use silo_plugin_dispatcharr.Player.Tasks.{
  Task, watch_start, play_libraries, shift_start, shift_wait, shift_status, compatible_start,
  compatible_status, compatible_sleep, compatible_libraries, Reply, resume, Action, play_channel,
  set_view_to, playback_error, shared_mode, rewind_error, open_multiview, act,
  try_compatible_playback, System, Moves, acts, resumes, here, next,
}

-- How often a task and those that follow it can go on.
abbrev pub rank : Task → ℕ
rank (watch_start a) = 1
rank (play_libraries a c) = 65
rank (shift_start a c) = 63
rank (shift_wait a c l n) = 2 + 2 * (30 - n)
rank (shift_status a c l n) = 1 + 2 * (30 - n)
rank (compatible_start a c) = 73
rank (compatible_status a c s n) = 2 + 2 * (35 - n)
rank (compatible_sleep a c s n) = 1 + 2 * (35 - n)
rank (compatible_libraries a c s) = 1

abbrev pub ranks : List Task → ℕ
ranks [] = 0
ranks (t ∷ ts) = rank t + ranks ts

abbrev pub acted : {rewind_on : Bool} {s u : System} → Moves rewind_on s u → ℕ
acted here = 0
acted (next ms (acts a e)) = 1 + acted ms
acted (next ms (resumes before t after r e f)) = acted ms

abbrev pub resumed : {rewind_on : Bool} {s u : System} → Moves rewind_on s u → ℕ
resumed here = 0
resumed (next ms (acts a e)) = resumed ms
resumed (next ms (resumes before t after r e f)) = 1 + resumed ms

ranks-append : (xs ys : List Task) → ranks (xs ++ ys) ≡ ranks xs + ranks ys
ranks-append [] ys = omega arith
ranks-append (x ∷ xs) ys = ground (arith, ranks-append xs ys)

resume-ranks :
    (rewind_on : Bool) (t : Task) (r : Reply) (p : Player)
    → ranks (resume rewind_on t r p).1 < rank t
unfolding resume
resume-ranks rewind_on (watch_start a) r p = ground arith
resume-ranks rewind_on (play_libraries a c) r p = ground arith
resume-ranks rewind_on (shift_start a c) r p = ground arith
resume-ranks rewind_on (shift_wait a c l n) r p = ground arith
resume-ranks rewind_on (shift_status a c l n) r p = ground (arith, ltb→lt (n + 1) 30)
resume-ranks rewind_on (compatible_start a c) r p = ground arith
resume-ranks rewind_on (compatible_status a c s n) r p = ground arith
resume-ranks rewind_on (compatible_sleep a c s n) r p = ground (arith, ltb→lt (n + 1) 35)
resume-ranks rewind_on (compatible_libraries a c s) r p = ground arith

act-ranks : (a : Action) (p : Player) → ranks (act a p).1 ≤ 73
unfolding act try_compatible_playback
act-ranks (play_channel c) p = omega arith
act-ranks (set_view_to v) p = omega arith
act-ranks (playback_error b n) p = ground arith
act-ranks shared_mode p = omega arith
act-ranks (rewind_error c) p = omega arith
act-ranks open_multiview p = omega arith

-- However long the viewer acts, the continuations of the player go on at most 73 times for each
-- action, and as often as the sum of the ranks of those that were under way says: polling ends
-- whatever the service answers.
pub Moves-resumed :
    (rewind_on : Bool) (s u : System) (ms : Moves rewind_on s u)
    → resumed ms + ranks u.tasks ≤ ranks s.tasks + 73 * acted ms
Moves-resumed rewind_on s u here = omega arith
Moves-resumed rewind_on s u (next {t} ms (acts a e)) =
    let new = (act a t.player).1 in
    let total : ranks u.tasks ≡ ranks new + ranks t.tasks =
      ap (λ o. ranks o.tasks) e ∙ ranks-append new t.tasks in
    omega (arith, Moves-resumed rewind_on s t ms, act-ranks a t.player, total)
Moves-resumed rewind_on s u (next {t = v} ms (resumes before t after r e f)) =
    let new = (resume rewind_on t r v.player).1 in
    let total : ranks u.tasks ≡ ranks new + (ranks before + ranks after) =
      ap (λ o. ranks o.tasks) f
      ∙ ranks-append new (before ++ after)
      ∙ ap (λ n. ranks new + n) (ranks-append before after) in
    let was : ranks v.tasks ≡ ranks before + (rank t + ranks after) =
      ap ranks e ∙ ranks-append before (t ∷ after) in
    omega (arith, Moves-resumed rewind_on s v ms, resume-ranks rewind_on t r v.player, total, was)
