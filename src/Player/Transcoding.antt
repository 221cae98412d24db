-- ===== src/Player/Transcoding.antt =====
-- The tasks of a transcoding session, in terms of the leases of the player.
use silo_plugin_dispatcharr.Base.{
  ℕ, ◌+◌, String, refl, inl, inr, Bool, true, ◌&&◌, ◌||◌, not, none, some, arith, ltb, Bool-cases,
  string_eq, nat_eq,
}
use silo_plugin_dispatcharr.Player.State.{
  compatible, set_video_source, transcode, Channel, Player, stop_of,
}
use silo_plugin_dispatcharr.Player.Tasks.{
  compatible_failure, is_active, resume, Reply, compatible_start, compatible_status,
  compatible_sleep, compatible_libraries,
}
use silo_plugin_dispatcharr.Player.Leases.{Keeps-same, Keeps-refl}
use silo_plugin_dispatcharr.Player.Resume.{
  IsTask, Resumes, Keeps-Resumes, continue-Resumes, stopped-Keeps, fail_compatible-Resumes,
  transcoded-leases, transcoded-slots,
}

module _ (p : Player) (r : Reply) where
  pub compatible_start-Resumes :
      (rewind_on : Bool) (g : ℕ) (c : Channel)
      → IsTask p (compatible_start g c)
      → Resumes p
          (compatible_start g c)
          (resume rewind_on (compatible_start g c) r p).0
          (resume rewind_on (compatible_start g c) r p).1
  unfolding resume
  compatible_start-Resumes rewind_on g c h =
      let t = compatible_start g c in
      elim (Bool-cases r.ok) [
        | inr e ↦
            rw e (fail_compatible-Resumes r.message g c none p h.begun h.expects t (λ k x. x) refl)
        | inl e ↦ elim (Bool-cases (is_active g c p)) [
          | inr late ↦
              rw e rw late (Keeps-Resumes p _ t (stopped-Keeps p (stop_of transcode (some r.id))))
          | inl now ↦ rw e rw now (record {
            leases = λ k id ne x. transcoded-leases p r.id (ground (arith, h.expects)) k id x;
            slots = λ k. inr (ground (arith, transcoded-slots p r.id k));
            tried = λ z x. x;
            untried = λ x z. ground (arith, h.tried);
            tasks = (record { begun = h.begun; expects = λ z. refl; tried = h.tried }, tt);
            follow = (inl (ground arith), tt);
          })
        ]
      ]

  pub compatible_status-Resumes :
      (rewind_on : Bool) (g : ℕ) (c : Channel) (s : String) (n : ℕ)
      → IsTask p (compatible_status g c s n)
      → Resumes p
          (compatible_status g c s n)
          (resume rewind_on (compatible_status g c s n) r p).0
          (resume rewind_on (compatible_status g c s n) r p).1
  unfolding resume
  compatible_status-Resumes rewind_on g c s n h =
      let t = compatible_status g c s n in
      elim (Bool-cases (r.ok && not (is_active g c p))) [
        | inl late ↦ rw late (Keeps-Resumes p p t (Keeps-refl p))
        | inr on ↦ elim (Bool-cases (not r.ok || r.failed)) [
          | inl bad ↦ rw on rw bad (
              fail_compatible-Resumes (compatible_failure r) g c (some s) p h.begun h.expects t
                (λ k x. x) refl)
          | inr good ↦ elim (Bool-cases r.ready) [
            | inl ready ↦ rw on rw good rw ready (
                continue-Resumes p t (compatible_libraries g c s) (ground arith)
                  (record { begun = h.begun; expects = h.expects; tried = h.tried }))
            | inr wait ↦ rw on rw good rw wait (
                continue-Resumes p t (compatible_sleep g c s n) (ground arith)
                  (record { begun = h.begun; expects = h.expects; tried = h.tried }))
          ]
        ]
      ]

  pub compatible_sleep-Resumes :
      (rewind_on : Bool) (g : ℕ) (c : Channel) (s : String) (n : ℕ)
      → IsTask p (compatible_sleep g c s n)
      → Resumes p
          (compatible_sleep g c s n)
          (resume rewind_on (compatible_sleep g c s n) r p).0
          (resume rewind_on (compatible_sleep g c s n) r p).1
  unfolding resume
  compatible_sleep-Resumes rewind_on g c s n h =
      let t = compatible_sleep g c s n in
      elim (Bool-cases (ltb (n + 1) 35)) [
        | inr over ↦ rw over (
            fail_compatible-Resumes "This channel took too long to prepare for playback." g c
              (some s) p h.begun h.expects t (λ k x. x) refl)
        | inl more ↦ elim (Bool-cases (is_active g c p)) [
          | inr late ↦ rw more rw late (Keeps-Resumes p p t (Keeps-refl p))
          | inl now ↦ rw more rw now (
              continue-Resumes p t (compatible_status g c s (n + 1)) (ground arith)
                (record { begun = h.begun; expects = h.expects; tried = h.tried }))
        ]
      ]

  pub compatible_libraries-Resumes :
      (rewind_on : Bool) (g : ℕ) (c : Channel) (s : String)
      → IsTask p (compatible_libraries g c s)
      → Resumes p
          (compatible_libraries g c s)
          (resume rewind_on (compatible_libraries g c s) r p).0
          (resume rewind_on (compatible_libraries g c s) r p).1
  unfolding resume set_video_source
  compatible_libraries-Resumes rewind_on g c s h =
      let t = compatible_libraries g c s in
      elim (Bool-cases r.ok) [
        | inr e ↦
            rw e
              (fail_compatible-Resumes r.message g c (some s) p h.begun h.expects t (λ k x. x) refl)
        | inl e ↦ elim (Bool-cases (is_active g c p)) [
          | inr late ↦ rw e rw late (Keeps-Resumes p p t (Keeps-refl p))
          | inl now ↦ rw e rw now (
              Keeps-Resumes p _ t (
                Keeps-same p
                  (record p {
                    video_attachment = some (compatible s);
                    compatibility_heartbeat = true;
                  })
                  refl refl refl refl refl refl refl (λ x. x)))
        ]
      ]
