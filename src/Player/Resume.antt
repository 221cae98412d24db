-- ===== src/Player/Resume.antt =====
-- What a task may do to the leases of the player when it goes on.
use silo_plugin_dispatcharr.Base.{
  ℕ, ◌≤◌, ◌<◌, String, ◌≡◌, refl, ◌≢◌, ◌⊎◌, inl, inr, Bool, true, false, ◌&&◌, Option, none, some,
  List, [], ◌∷◌, ◌++◌, arith, nat_beq, Bool-cases, All, string_eq, nat_eq,
}
use silo_plugin_dispatcharr.Player.State.{
  Kind, watch, transcode, timeshift, Lease, Channel, Player, stop_of, show_player_error,
}
use silo_plugin_dispatcharr.Player.Tasks.{
  Task, watch_start, play_libraries, shift_start, shift_wait, shift_status, compatible_start,
  compatible_status, compatible_sleep, compatible_libraries, fail_compatible, fail_time_shift,
  session_of,
}
use silo_plugin_dispatcharr.Player.Leases.{
  attempt, session, kind_beq, IsAccounted, Keeps, is_stopped-append, Keeps-refl,
}
use silo_plugin_dispatcharr.Player.Operations.{fallback_from_time_shift-Keeps}

-- The generation of a task, and the session that its kind has as long as the generation lasts.
abbrev pub task_kind : Task → Kind
task_kind (watch_start a) = watch
task_kind (play_libraries a c) = timeshift
task_kind (shift_start a c) = timeshift
task_kind (shift_wait a c l n) = timeshift
task_kind (shift_status a c l n) = timeshift
task_kind (compatible_start a c) = transcode
task_kind (compatible_status a c s n) = transcode
task_kind (compatible_sleep a c s n) = transcode
task_kind (compatible_libraries a c s) = transcode

abbrev pub task_attempt : Task → ℕ
task_attempt (watch_start a) = a
task_attempt (play_libraries a c) = a
task_attempt (shift_start a c) = a
task_attempt (shift_wait a c l n) = a
task_attempt (shift_status a c l n) = a
task_attempt (compatible_start a c) = a
task_attempt (compatible_status a c s n) = a
task_attempt (compatible_sleep a c s n) = a
task_attempt (compatible_libraries a c s) = a

abbrev pub task_session : Task → Option String
task_session (watch_start a) = none
task_session (play_libraries a c) = none
task_session (shift_start a c) = none
task_session (shift_wait a c l n) = some l
task_session (shift_status a c l n) = some l
task_session (compatible_start a c) = none
task_session (compatible_status a c s n) = some s
task_session (compatible_sleep a c s n) = some s
task_session (compatible_libraries a c s) = some s

pub record IsTask (p : Player) (t : Task) : Type 0 where
  pub begun : task_attempt t ≤ attempt (task_kind t) p
  pub expects : task_attempt t ≡ attempt (task_kind t) p → session (task_kind t) p ≡ task_session t
  pub tried :
      kind_beq (task_kind t) transcode ≡ true
      → task_attempt t ≡ p.compatibility_attempt
      → p.compatibility_tried ≡ true

abbrev pub is_same : Task → Task → Bool
is_same t u = kind_beq (task_kind t) (task_kind u) && nat_beq (task_attempt t) (task_attempt u)

-- A new task follows the one that went on, or it is of a new generation.
abbrev pub Follows : Player → Task → Task → Type 0
Follows p t u = (is_same t u ≡ true) ⊎ (attempt (task_kind u) p < task_attempt u)

-- What a task may do when it goes on: it may change the session of its own generation.
pub record Resumes (p : Player) (t : Task) (q : Player) (new : List Task) : Type 0 where
  pub leases : (k : Kind) (id : String) → id ≢ "" → IsAccounted p k id → IsAccounted q k id
  pub slots :
      (k : Kind)
      → (attempt k p < attempt k q)
        ⊎ ((attempt k p ≡ attempt k q)
            × ((session k p ≡ session k q)
                ⊎ ((kind_beq (task_kind t) k ≡ true) × (attempt k p ≡ task_attempt t))))
  pub tried :
      p.compatibility_attempt ≡ q.compatibility_attempt
      → p.compatibility_tried ≡ true
      → q.compatibility_tried ≡ true
  pub untried :
      (p.compatibility_tried ≡ false → p.compatibility_session ≡ none)
      → q.compatibility_tried ≡ false
      → q.compatibility_session ≡ none
  pub tasks : All (IsTask q) new
  pub follow : All (Follows p t) new

-- A task that keeps the sessions and starts no other.
pub Keeps-Resumes : (p q : Player) (t : Task) → Keeps p q → Resumes p t q []
Keeps-Resumes p q t h = record {
  leases = h.leases;
  slots = λ k. ground (arith, h.slots k);
  tried = h.tried;
  untried = h.untried;
  tasks = tt;
  follow = tt;
}

-- A task of the same generation goes on, and the player is as before.
pub continue-Resumes :
    (p : Player) (t u : Task) → is_same t u ≡ true → IsTask p u → Resumes p t p (u ∷ [])
continue-Resumes p t u same h = record {
  leases = λ k id ne e. e;
  slots = λ k. inr (refl, inl refl);
  tried = λ e x. x;
  untried = λ x. x;
  tasks = (h, tt);
  follow = (inl same, tt);
}

stopped_leases :
    (p : Player) (ls : List Lease) (k : Kind) (id : String)
    → id ≢ ""
    → IsAccounted p k id
    → IsAccounted (record p { stops = p.stops ++ ls }) k id
stopped_leases p ls watch id ne h = ground (arith, is_stopped-append p.stops ls watch id)
stopped_leases p ls transcode id ne h = ground (arith, is_stopped-append p.stops ls transcode id)
stopped_leases p ls timeshift id ne h = ground (arith, is_stopped-append p.stops ls timeshift id)

stopped_slots :
    (p : Player) (ls : List Lease) (k : Kind)
    → let q = record p { stops = p.stops ++ ls } in
      (attempt k p < attempt k q) ⊎ ((attempt k p ≡ attempt k q) × (session k p ≡ session k q))
stopped_slots p ls watch = inr (refl, refl)
stopped_slots p ls transcode = inr (refl, refl)
stopped_slots p ls timeshift = inr (refl, refl)

-- A stop is asked for, and nothing else changes.
pub stopped-Keeps : (p : Player) (ls : List Lease) → Keeps p (record p { stops = p.stops ++ ls })
stopped-Keeps p ls = record {
  leases = stopped_leases p ls;
  slots = stopped_slots p ls;
  tried = λ e x. x;
  untried = λ x. x;
}

module _ (m : String) (g : ℕ) (c : Channel) (s : Option String) (p : Player)
    (bound : g ≤ p.compatibility_attempt)
    (mine : g ≡ p.compatibility_attempt → p.compatibility_session ≡ s) where
  fail_compatible-leases :
      (k : Kind) (id : String)
      → id ≢ ""
      → IsAccounted p k id
      → IsAccounted (fail_compatible m g c s p) k id
  unfolding fail_compatible show_player_error
  fail_compatible-leases watch id ne h =
      ground (arith, is_stopped-append p.stops (stop_of transcode s) watch id)
  fail_compatible-leases timeshift id ne h =
      ground (arith, is_stopped-append p.stops (stop_of transcode s) timeshift id)
  fail_compatible-leases transcode id ne h =
      ground (arith, mine, is_stopped-append p.stops (stop_of transcode s) transcode id)

  fail_compatible-slots :
      (k : Kind)
      → (attempt k p ≡ attempt k (fail_compatible m g c s p))
        × ((session k p ≡ session k (fail_compatible m g c s p))
            ⊎ ((kind_beq transcode k ≡ true) × (attempt k p ≡ g)))
  unfolding fail_compatible show_player_error
  fail_compatible-slots watch = ground arith
  fail_compatible-slots timeshift = ground arith
  fail_compatible-slots transcode = ground arith

  fail_compatible-tried :
      (p.compatibility_tried ≡ (fail_compatible m g c s p).compatibility_tried)
      × ((fail_compatible m g c s p).compatibility_session ≡ none
          ⊎ (fail_compatible m g c s p).compatibility_session ≡ p.compatibility_session)
  unfolding fail_compatible show_player_error
  fail_compatible-tried = ground arith

  pub fail_compatible-Resumes :
      (t : Task)
      → ((k : Kind) → kind_beq transcode k ≡ true → kind_beq (task_kind t) k ≡ true)
      → task_attempt t ≡ g
      → Resumes p t (fail_compatible m g c s p) []
  fail_compatible-Resumes t same a = record {
    leases = fail_compatible-leases;
    slots = λ k. inr (ground (arith, fail_compatible-slots k, same k));
    tried = λ z x. ground (arith, fail_compatible-tried);
    untried = λ z x. ground (arith, fail_compatible-tried);
    tasks = tt;
    follow = tt;
  }

pub fail_time_shift-Keeps : (a : ℕ) (c : Channel) (p : Player) → Keeps p (fail_time_shift a c p)
unfolding fail_time_shift
fail_time_shift-Keeps a c p = elim (Bool-cases (nat_beq a p.time_shift_attempt)) [
  | inl e ↦ rw e (fallback_from_time_shift-Keeps c p)
  | inr e ↦ rw e (Keeps-refl p)
]

-- The session of a task's generation, where there was none, is what a reply brings.
module _ (p : Player) (id : String) where
  abbrev pub watched : Player
  watched = record p { current_session = session_of id; heartbeat = true }

  pub watched-leases :
      p.current_session ≡ none
      → (k : Kind) (i : String) → IsAccounted p k i
      → IsAccounted watched k i
  watched-leases e watch i h = ground arith
  watched-leases e transcode i h = h
  watched-leases e timeshift i h = h

  pub watched-slots :
      (k : Kind)
      → (attempt k p ≡ attempt k watched)
        × ((session k p ≡ session k watched)
            ⊎ ((kind_beq watch k ≡ true) × (attempt k p ≡ p.watch_attempt)))
  watched-slots watch = (refl, inr (refl, refl))
  watched-slots transcode = (refl, inl refl)
  watched-slots timeshift = (refl, inl refl)

  abbrev pub shifted : Player
  shifted = record p { time_shift_session = some id; time_shift_heartbeat = true }

  pub shifted-leases :
      p.time_shift_session ≡ none
      → (k : Kind) (i : String) → IsAccounted p k i
      → IsAccounted shifted k i
  shifted-leases e watch i h = h
  shifted-leases e transcode i h = h
  shifted-leases e timeshift i h = ground arith

  pub shifted-slots :
      (k : Kind)
      → (attempt k p ≡ attempt k shifted)
        × ((session k p ≡ session k shifted)
            ⊎ ((kind_beq timeshift k ≡ true) × (attempt k p ≡ p.time_shift_attempt)))
  shifted-slots watch = (refl, inl refl)
  shifted-slots transcode = (refl, inl refl)
  shifted-slots timeshift = (refl, inr (refl, refl))

  abbrev pub transcoded : Player
  transcoded = record p { compatibility_session = some id }

  pub transcoded-leases :
      p.compatibility_session ≡ none
      → (k : Kind) (i : String) → IsAccounted p k i
      → IsAccounted transcoded k i
  transcoded-leases e watch i h = h
  transcoded-leases e transcode i h = ground arith
  transcoded-leases e timeshift i h = h

  pub transcoded-slots :
      (k : Kind)
      → (attempt k p ≡ attempt k transcoded)
        × ((session k p ≡ session k transcoded)
            ⊎ ((kind_beq transcode k ≡ true) × (attempt k p ≡ p.compatibility_attempt)))
  transcoded-slots watch = (refl, inl refl)
  transcoded-slots transcode = (refl, inr (refl, refl))
  transcoded-slots timeshift = (refl, inl refl)
