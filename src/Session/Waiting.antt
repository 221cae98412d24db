-- ===== src/Session/Waiting.antt =====
-- Which calls wait, and for what.
use silo_plugin_dispatcharr.Base.{
  ℕ, zero, suc, ◌≡◌, refl, Bool, true, false, ◌&&◌, ◌||◌, List, [], ◌∷◌, map, arith, nat_beq,
  string_eq, nat_eq,
}
use silo_plugin_dispatcharr.Session.State.{
  Credentials, Call, before, first, second, after, ended, failed, Session, Refreshed, core_fetch,
  answer, break_off, change_at, is_first_at, receive_reply, lose_reply, refreshed_credentials,
  go_on, end_refresh, Event, fetches, replies, loses, refreshes, happen,
}

abbrev pub is_waiting : Call → Bool
is_waiting before = true
is_waiting after = true
is_waiting _ = false

abbrev pub has_waiting : List Call → Bool
has_waiting [] = false
has_waiting (c ∷ cs) = is_waiting c || has_waiting cs

-- The waiting calls after a reply: a 401 to a first request adds one.
has_waiting-answer :
    (status i : ℕ) (cs : List Call)
    → has_waiting (change_at (answer status) i cs)
      ≡ (has_waiting cs || (nat_beq status 401 && is_first_at i cs))
unfolding answer
has_waiting-answer status i [] = ground arith
has_waiting-answer status zero (before ∷ cs) = refl
has_waiting-answer status zero (first sent ∷ cs) = ground arith
has_waiting-answer status zero (after ∷ cs) = refl
has_waiting-answer status zero (second sent ∷ cs) = ground arith
has_waiting-answer status zero (ended n ∷ cs) = ground arith
has_waiting-answer status zero (failed ∷ cs) = ground arith
has_waiting-answer status (suc i) (c ∷ cs) = ground (arith, has_waiting-answer status i cs)

is_waiting-break_off : (c : Call) → is_waiting (break_off c) ≡ is_waiting c
unfolding break_off
is_waiting-break_off before = refl
is_waiting-break_off (first sent) = refl
is_waiting-break_off after = refl
is_waiting-break_off (second sent) = refl
is_waiting-break_off (ended n) = refl
is_waiting-break_off failed = refl

has_waiting-break_off :
    (i : ℕ) (cs : List Call) → has_waiting (change_at break_off i cs) ≡ has_waiting cs
has_waiting-break_off i [] = refl
has_waiting-break_off zero (c ∷ cs) = ground (arith, is_waiting-break_off c)
has_waiting-break_off (suc i) (c ∷ cs) = ground (arith, has_waiting-break_off i cs)

is_waiting-go_on :
    (r : Refreshed) (old new : Credentials) (c : Call) → is_waiting (go_on r old new c) ≡ false
unfolding go_on
is_waiting-go_on r old new before = ground arith
is_waiting-go_on r old new (first sent) = refl
is_waiting-go_on r old new after = ground arith
is_waiting-go_on r old new (second sent) = refl
is_waiting-go_on r old new (ended n) = refl
is_waiting-go_on r old new failed = refl

has_waiting-go_on :
    (r : Refreshed) (old new : Credentials) (cs : List Call)
    → has_waiting (map (go_on r old new) cs) ≡ false
has_waiting-go_on r old new [] = refl
has_waiting-go_on r old new (c ∷ cs) =
    ground (arith, is_waiting-go_on r old new c, has_waiting-go_on r old new cs)

-- A refresh is under way exactly while a call waits for it.
abbrev pub IsServed : Session → Type 0
IsServed s = s.refreshing ≡ has_waiting s.calls

pub happen-IsServed : (e : Event) (s : Session) → IsServed s → IsServed (happen e s)
unfolding happen core_fetch receive_reply lose_reply end_refresh
happen-IsServed fetches s h = ground arith
happen-IsServed (replies i status) s h = ground (arith, has_waiting-answer status i s.calls)
happen-IsServed (loses i) s h = ground (arith, has_waiting-break_off i s.calls)
happen-IsServed (refreshes r) s h =
    ground
      (arith, has_waiting-go_on r s.credentials (refreshed_credentials r s.credentials) s.calls)

abbrev pub happens : List Event → Session → Session
happens [] s = s
happens (e ∷ es) s = happens es (happen e s)
