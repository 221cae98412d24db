-- ===== src/Player/Leases.antt =====
-- The sessions and leases that the service has handed out, and how the first operations treat them.
use silo_plugin_dispatcharr.Base.{
  ℕ, ◌<◌, String, ◌≡◌, refl, ◌≢◌, ◌⊎◌, inr, Bool, true, false, ◌&&◌, ◌||◌, Option, none, some, List,
  [], ◌∷◌, ◌++◌, arith, string_eq, nat_eq, ◌==◌,
}
use silo_plugin_dispatcharr.Player.State.{
  Kind, watch, transcode, timeshift, Lease, Player, stop_of, stop_of_named,
  stop_compatibility_session, stop_time_shift_session, stop_current_watch, start_watch,
}

-- The generation and the session of one kind.
abbrev pub attempt : Kind → Player → ℕ
attempt watch p = p.watch_attempt
attempt transcode p = p.compatibility_attempt
attempt timeshift p = p.time_shift_attempt

abbrev pub session : Kind → Player → Option String
session watch p = p.current_session
session transcode p = p.compatibility_session
session timeshift p = p.time_shift_session

abbrev pub kind_beq : Kind → Kind → Bool
kind_beq watch watch = true
kind_beq transcode transcode = true
kind_beq timeshift timeshift = true
kind_beq _ _ = false

-- A lease that the player uses, or that it has asked to stop.
abbrev pub is_held : Player → Kind → String → Bool
is_held p kind id = elim (session kind p) [ none ↦ false | some held ↦ held == id ]

abbrev pub is_stopped : List Lease → Kind → String → Bool
is_stopped [] kind id = false
is_stopped (l ∷ ls) kind id = (kind_beq l.kind kind && l.id == id) || is_stopped ls kind id

abbrev pub IsAccounted : Player → Kind → String → Type 0
IsAccounted p kind id = (is_held p kind id || is_stopped p.stops kind id) ≡ true

-- What a part of the code may do to the sessions without losing one: a session changes only with a
-- new generation.
pub record Keeps (p q : Player) : Type 0 where
  pub leases : (k : Kind) (id : String) → id ≢ "" → IsAccounted p k id → IsAccounted q k id
  pub slots :
      (k : Kind)
      → (attempt k p < attempt k q) ⊎ ((attempt k p ≡ attempt k q) × (session k p ≡ session k q))
  pub tried :
      p.compatibility_attempt ≡ q.compatibility_attempt
      → p.compatibility_tried ≡ true
      → q.compatibility_tried ≡ true
  pub untried :
      (p.compatibility_tried ≡ false → p.compatibility_session ≡ none)
      → q.compatibility_tried ≡ false
      → q.compatibility_session ≡ none

pub is_stopped-append :
    (xs ys : List Lease) (k : Kind) (id : String)
    → is_stopped (xs ++ ys) k id ≡ (is_stopped xs k id || is_stopped ys k id)
is_stopped-append [] ys k id = refl
is_stopped-append (x ∷ xs) ys k id = ground (arith, is_stopped-append xs ys k id)

pub Keeps-refl : (p : Player) → Keeps p p
Keeps-refl p = record {
  leases = λ k id ne h. h;
  slots = λ k. inr (refl, refl);
  tried = λ e h. h;
  untried = λ h. h;
}

pub Keeps-trans : {p q r : Player} → Keeps p q → Keeps q r → Keeps p r
Keeps-trans {p} {q} {r} a b = record {
  leases = λ k id ne h. b.leases k id ne (a.leases k id ne h);
  slots = λ k. ground (arith, a.slots k, b.slots k);
  tried = λ e h. ground (arith, a.slots transcode, b.slots transcode, a.tried, b.tried);
  untried = λ h. b.untried (a.untried h);
}

-- A session with a name is stopped where one without is left alone.
held_named :
    (s : Option String) (id : String)
    → id ≢ ""
    → (elim s as (λ _. Bool) [ none ↦ false | some held ↦ held == id ]) ≡ true
    → is_stopped (stop_of_named timeshift s) timeshift id ≡ true
held_named none id ne h = ground arith
held_named (some s) id ne h =
    ground (arith, string_eq.beq_iff s id, string_eq.beq_iff s "", string_eq.beq_iff id "")

stop_compatibility_session-leases :
    (p : Player) (k : Kind) (id : String)
    → id ≢ ""
    → IsAccounted p k id
    → IsAccounted (stop_compatibility_session p) k id
unfolding stop_compatibility_session
stop_compatibility_session-leases p watch id ne h =
    ground (arith, is_stopped-append p.stops (stop_of transcode p.compatibility_session) watch id)
stop_compatibility_session-leases p transcode id ne h =
    ground
      (arith, is_stopped-append p.stops (stop_of transcode p.compatibility_session) transcode id)
stop_compatibility_session-leases p timeshift id ne h =
    ground
      (arith, is_stopped-append p.stops (stop_of transcode p.compatibility_session) timeshift id)

stop_compatibility_session-slots :
    (p : Player) (k : Kind)
    → (attempt k p < attempt k (stop_compatibility_session p))
      ⊎ ((attempt k p ≡ attempt k (stop_compatibility_session p))
          × (session k p ≡ session k (stop_compatibility_session p)))
unfolding stop_compatibility_session
stop_compatibility_session-slots p watch = ground arith
stop_compatibility_session-slots p transcode = ground arith
stop_compatibility_session-slots p timeshift = ground arith

pub stop_compatibility_session-Keeps : (p : Player) → Keeps p (stop_compatibility_session p)
unfolding stop_compatibility_session
stop_compatibility_session-Keeps p = record {
  leases = stop_compatibility_session-leases p;
  slots = stop_compatibility_session-slots p;
  tried = λ e h. ground arith;
  untried = λ h k. ground arith;
}

stop_time_shift_session-leases :
    (p : Player) (k : Kind) (id : String)
    → id ≢ ""
    → IsAccounted p k id
    → IsAccounted (stop_time_shift_session p) k id
unfolding stop_time_shift_session
stop_time_shift_session-leases p watch id ne h =
    ground
      (arith, is_stopped-append p.stops (stop_of_named timeshift p.time_shift_session) watch id)
stop_time_shift_session-leases p transcode id ne h =
    ground
      (arith, is_stopped-append p.stops (stop_of_named timeshift p.time_shift_session) transcode id)
stop_time_shift_session-leases p timeshift id ne h = ground (
  arith,
  is_stopped-append p.stops (stop_of_named timeshift p.time_shift_session) timeshift id,
  string_eq.beq_iff id "",
  held_named p.time_shift_session id ne,
)

stop_time_shift_session-slots :
    (p : Player) (k : Kind)
    → (attempt k p < attempt k (stop_time_shift_session p))
      ⊎ ((attempt k p ≡ attempt k (stop_time_shift_session p))
          × (session k p ≡ session k (stop_time_shift_session p)))
unfolding stop_time_shift_session
stop_time_shift_session-slots p watch = ground arith
stop_time_shift_session-slots p transcode = ground arith
stop_time_shift_session-slots p timeshift = ground arith

pub stop_time_shift_session-Keeps : (p : Player) → Keeps p (stop_time_shift_session p)
unfolding stop_time_shift_session
stop_time_shift_session-Keeps p = record {
  leases = stop_time_shift_session-leases p;
  slots = stop_time_shift_session-slots p;
  tried = λ e h. ground arith;
  untried = λ h k. ground arith;
}

stop_current_watch-leases :
    (p : Player) (k : Kind) (id : String)
    → id ≢ ""
    → IsAccounted p k id
    → IsAccounted (stop_current_watch p) k id
unfolding stop_current_watch
stop_current_watch-leases p watch id ne h =
    ground (arith, is_stopped-append p.stops (stop_of watch p.current_session) watch id)
stop_current_watch-leases p transcode id ne h =
    ground (arith, is_stopped-append p.stops (stop_of watch p.current_session) transcode id)
stop_current_watch-leases p timeshift id ne h =
    ground (arith, is_stopped-append p.stops (stop_of watch p.current_session) timeshift id)

stop_current_watch-slots :
    (p : Player) (k : Kind)
    → (attempt k p < attempt k (stop_current_watch p))
      ⊎ ((attempt k p ≡ attempt k (stop_current_watch p))
          × (session k p ≡ session k (stop_current_watch p)))
unfolding stop_current_watch
stop_current_watch-slots p watch = ground arith
stop_current_watch-slots p transcode = ground arith
stop_current_watch-slots p timeshift = ground arith

pub stop_current_watch-Keeps : (p : Player) → Keeps p (stop_current_watch p)
unfolding stop_current_watch
stop_current_watch-Keeps p = record {
  leases = stop_current_watch-leases p;
  slots = stop_current_watch-slots p;
  tried = λ e h. ground arith;
  untried = λ h k. ground arith;
}

start_watch-leases :
    (p : Player) (k : Kind) (id : String)
    → id ≢ ""
    → IsAccounted p k id
    → IsAccounted (start_watch p) k id
unfolding start_watch
start_watch-leases p watch id ne h =
    ground (arith, is_stopped-append p.stops (stop_of watch p.current_session) watch id)
start_watch-leases p transcode id ne h =
    ground (arith, is_stopped-append p.stops (stop_of watch p.current_session) transcode id)
start_watch-leases p timeshift id ne h =
    ground (arith, is_stopped-append p.stops (stop_of watch p.current_session) timeshift id)

start_watch-slots :
    (p : Player) (k : Kind)
    → (attempt k p < attempt k (start_watch p))
      ⊎ ((attempt k p ≡ attempt k (start_watch p)) × (session k p ≡ session k (start_watch p)))
unfolding start_watch
start_watch-slots p watch = ground arith
start_watch-slots p transcode = ground arith
start_watch-slots p timeshift = ground arith

pub start_watch-Keeps : (p : Player) → Keeps p (start_watch p)
unfolding start_watch
start_watch-Keeps p = record {
  leases = start_watch-leases p;
  slots = start_watch-slots p;
  tried = λ e h. ground arith;
  untried = λ h k. ground arith;
}

module _ (p q : Player) (wa : p.watch_attempt ≡ q.watch_attempt)
    (ws : p.current_session ≡ q.current_session)
    (ca : p.compatibility_attempt ≡ q.compatibility_attempt)
    (cs : p.compatibility_session ≡ q.compatibility_session)
    (ta : p.time_shift_attempt ≡ q.time_shift_attempt)
    (ts : p.time_shift_session ≡ q.time_shift_session) (st : p.stops ≡ q.stops) where
  same_leases : (k : Kind) (id : String) → IsAccounted p k id → IsAccounted q k id
  same_leases watch id h = ground arith
  same_leases transcode id h = ground arith
  same_leases timeshift id h = ground arith

  same_slots : (k : Kind) → (attempt k p ≡ attempt k q) × (session k p ≡ session k q)
  same_slots watch = (wa, ws)
  same_slots transcode = (ca, cs)
  same_slots timeshift = (ta, ts)

  -- What leaves the sessions alone keeps them.
  pub Keeps-same : (p.compatibility_tried ≡ true → q.compatibility_tried ≡ true) → Keeps p q
  Keeps-same tr = record {
    leases = λ k id ne h. same_leases k id h;
    slots = λ k. inr (same_slots k);
    tried = λ e h. tr h;
    untried = λ h e. ground arith;
  }
