-- ===== src/Player/Steps.antt =====
-- The tasks of the player one by one, in terms of its leases.
use silo_plugin_dispatcharr.Base.{
  ℕ, suc, ◌+◌, String, ◌≡◌, refl, inl, inr, Bool, true, false, ◌&&◌, ◌||◌, not, none, some, arith,
  ltb, nat_beq, Bool-cases, string_eq, nat_eq, ◌==◌,
}
use silo_plugin_dispatcharr.Player.State.{
  is_current, direct, rewind, set_video_source, start_watch, watch, timeshift, Channel, Player,
  stop_of,
}
use silo_plugin_dispatcharr.Player.Tasks.{
  resume, Reply, Task, watch_start, play_libraries, shift_start, shift_wait, shift_status,
  compatible_start, compatible_status, compatible_sleep, compatible_libraries, session_of,
}
use silo_plugin_dispatcharr.Player.Leases.{
  Keeps-same, Keeps-trans, start_watch-Keeps, Keeps, Keeps-refl,
}
use silo_plugin_dispatcharr.Player.Operations.{show_player_error-Keeps, set_video_source-Keeps}
use silo_plugin_dispatcharr.Player.Transcoding.{
  compatible_start-Resumes, compatible_status-Resumes, compatible_sleep-Resumes,
  compatible_libraries-Resumes,
}
use silo_plugin_dispatcharr.Player.Resume.{
  IsTask, Resumes, Keeps-Resumes, continue-Resumes, stopped-Keeps, fail_time_shift-Keeps,
  watched-leases, watched-slots, shifted-leases, shifted-slots,
}

module _ (p : Player) (r : Reply) where
  watch_start-Resumes :
      (rewind_on : Bool) (a : ℕ)
      → IsTask p (watch_start a)
      → Resumes p
          (watch_start a)
          (resume rewind_on (watch_start a) r p).0
          (resume rewind_on (watch_start a) r p).1
  unfolding resume
  watch_start-Resumes rewind_on a h = elim (Bool-cases r.ok) [
    | inr e ↦ rw e (Keeps-Resumes p p (watch_start a) (Keeps-refl p))
    | inl e ↦ elim (Bool-cases (nat_beq a p.watch_attempt)) [
      | inr late ↦
          rw e rw late
            (Keeps-Resumes p _ (watch_start a) (stopped-Keeps p (stop_of watch (session_of r.id))))
      | inl now ↦ rw e rw now (record {
        leases = λ k id ne x. watched-leases p r.id (ground (arith, h.expects)) k id x;
        slots = λ k. inr (ground (arith, watched-slots p r.id k));
        tried = λ z x. x;
        untried = λ x. x;
        tasks = tt;
        follow = tt;
      })
    ]
  ]

  start_watch-attempt : (start_watch p).watch_attempt ≡ suc p.watch_attempt
  unfolding start_watch
  start_watch-attempt = omega arith

  begun-IsTask : IsTask (start_watch p) (watch_start (start_watch p).watch_attempt)
  unfolding start_watch
  begun-IsTask = record { begun = omega arith; expects = λ z. refl; tried = λ k z. ground arith }

  begun_direct :
      (c : Channel)
      → IsTask
          (set_video_source (direct c) (start_watch p))
          (watch_start (start_watch p).watch_attempt)
  unfolding start_watch set_video_source
  begun_direct c = record { begun = omega arith; expects = λ z. refl; tried = λ k z. ground arith }

  shift_begun :
      (a : ℕ) (c : Channel)
      → IsTask p (play_libraries a c)
      → IsTask (start_watch p) (shift_start a c)
  unfolding start_watch
  shift_begun a c h = record { begun = h.begun; expects = h.expects; tried = λ k z. ground arith }

  play_libraries-Resumes :
      (rewind_on : Bool) (a : ℕ) (c : Channel)
      → IsTask p (play_libraries a c)
      → Resumes p
          (play_libraries a c)
          (resume rewind_on (play_libraries a c) r p).0
          (resume rewind_on (play_libraries a c) r p).1
  unfolding resume
  play_libraries-Resumes rewind_on a c h =
      let t = play_libraries a c in
      let k = start_watch-Keeps p in
      let q = set_video_source (direct c) (start_watch p) in
      let kq : Keeps p q = Keeps-trans k (set_video_source-Keeps (direct c) (start_watch p)) in
      elim (Bool-cases r.ok) [
        | inr e ↦ rw e (Keeps-Resumes p _ t (show_player_error-Keeps _ p))
        | inl e ↦ elim (Bool-cases (nat_beq a p.time_shift_attempt && is_current c p)) [
          | inr late ↦ rw e rw late (Keeps-Resumes p p t (Keeps-refl p))
          | inl now ↦ elim (Bool-cases (rewind_on && not (c.stream_format == "hls"))) [
            | inl shift ↦ rw e rw now rw shift (record {
              leases = k.leases;
              slots = λ kk. ground (arith, k.slots kk);
              tried = k.tried;
              untried = k.untried;
              tasks = (begun-IsTask, (shift_begun a c h, tt));
              follow = (inr (omega (arith, start_watch-attempt)), (inl (ground arith), tt));
            })
            | inr direct_ ↦ rw e rw now rw direct_ (record {
              leases = kq.leases;
              slots = λ kk. ground (arith, kq.slots kk);
              tried = kq.tried;
              untried = kq.untried;
              tasks = (begun_direct c, tt);
              follow = (inr (omega (arith, start_watch-attempt)), tt);
            })
          ]
        ]
      ]

  shift_start-Resumes :
      (rewind_on : Bool) (a : ℕ) (c : Channel)
      → IsTask p (shift_start a c)
      → Resumes p
          (shift_start a c)
          (resume rewind_on (shift_start a c) r p).0
          (resume rewind_on (shift_start a c) r p).1
  unfolding resume
  shift_start-Resumes rewind_on a c h =
      let t = shift_start a c in
      elim (Bool-cases r.ok) [
        | inr e ↦ rw e (Keeps-Resumes p _ t (fail_time_shift-Keeps a c p))
        | inl e ↦
            elim (Bool-cases
              (nat_beq a p.time_shift_attempt && p.view == "player" && is_current c p)) [
                | inr late ↦
                    rw e rw late
                      (Keeps-Resumes p _ t (stopped-Keeps p (stop_of timeshift (some r.id))))
                | inl now ↦ rw e rw now (record {
                  leases = λ k id ne x. shifted-leases p r.id (ground (arith, h.expects)) k id x;
                  slots = λ k. inr (ground (arith, shifted-slots p r.id k));
                  tried = λ z x. x;
                  untried = λ x. x;
                  tasks = (
                    record { begun = h.begun; expects = λ z. refl; tried = λ k z. ground arith },
                    tt,
                  );
                  follow = (inl (ground arith), tt);
                })
              ]
      ]

  shift_wait-Resumes :
      (rewind_on : Bool) (a : ℕ) (c : Channel) (l : String) (n : ℕ)
      → IsTask p (shift_wait a c l n)
      → Resumes p
          (shift_wait a c l n)
          (resume rewind_on (shift_wait a c l n) r p).0
          (resume rewind_on (shift_wait a c l n) r p).1
  unfolding resume
  shift_wait-Resumes rewind_on a c l n h =
      let t = shift_wait a c l n in
      elim (Bool-cases (
        nat_beq a p.time_shift_attempt
        && p.view == "player"
        && (elim p.time_shift_session as (λ _. Bool) [ none ↦ false | some held ↦ held == l ]))) [
          | inr late ↦ rw late (Keeps-Resumes p p t (Keeps-refl p))
          | inl now ↦ rw now (
              continue-Resumes p t (shift_status a c l n) (ground arith)
                (record { begun = h.begun; expects = h.expects; tried = h.tried }))
        ]

  shift_status-Resumes :
      (rewind_on : Bool) (a : ℕ) (c : Channel) (l : String) (n : ℕ)
      → IsTask p (shift_status a c l n)
      → Resumes p
          (shift_status a c l n)
          (resume rewind_on (shift_status a c l n) r p).0
          (resume rewind_on (shift_status a c l n) r p).1
  unfolding resume set_video_source
  shift_status-Resumes rewind_on a c l n h =
      let t = shift_status a c l n in
      elim (Bool-cases (not r.ok || r.failed)) [
        | inl bad ↦ rw bad (Keeps-Resumes p _ t (fail_time_shift-Keeps a c p))
        | inr good ↦ elim (Bool-cases r.ready) [
          | inl ready ↦ rw good rw ready (
              Keeps-Resumes p _ t (
                Keeps-same p
                  (record p { video_attachment = some (rewind l); time_shift_timeline = true }) refl
                  refl refl refl refl refl refl (λ x. x)))
          | inr wait ↦ elim (Bool-cases (ltb (n + 1) 30)) [
            | inl more ↦ rw good rw wait rw more (
                continue-Resumes p t (shift_wait a c l (n + 1)) (ground arith)
                  (record { begun = h.begun; expects = h.expects; tried = h.tried }))
            | inr over ↦ rw good rw wait rw over (Keeps-Resumes p _ t (fail_time_shift-Keeps a c p))
          ]
        ]
      ]

  -- Whatever task goes on.
  pub resume-Resumes :
      (rewind_on : Bool) (t : Task)
      → IsTask p t
      → Resumes p t (resume rewind_on t r p).0 (resume rewind_on t r p).1
  resume-Resumes rewind_on (watch_start a) h = watch_start-Resumes rewind_on a h
  resume-Resumes rewind_on (play_libraries a c) h = play_libraries-Resumes rewind_on a c h
  resume-Resumes rewind_on (shift_start a c) h = shift_start-Resumes rewind_on a c h
  resume-Resumes rewind_on (shift_wait a c l n) h = shift_wait-Resumes rewind_on a c l n h
  resume-Resumes rewind_on (shift_status a c l n) h = shift_status-Resumes rewind_on a c l n h
  resume-Resumes rewind_on (compatible_start a c) h = compatible_start-Resumes p r rewind_on a c h
  resume-Resumes rewind_on (compatible_status a c s n) h =
      compatible_status-Resumes p r rewind_on a c s n h
  resume-Resumes rewind_on (compatible_sleep a c s n) h =
      compatible_sleep-Resumes p r rewind_on a c s n h
  resume-Resumes rewind_on (compatible_libraries a c s) h =
      compatible_libraries-Resumes p r rewind_on a c s h
