-- ===== src/Session/Retried.antt =====
-- What becomes of a call when refreshes succeed.
use silo_plugin_dispatcharr.Base.{
  ℕ, zero, suc, String, ◌≡◌, refl, ◌⊎◌, Bool, true, false, ◌&&◌, not, List, [], ◌∷◌, map, arith,
  if◌then◌else◌, string_eq, nat_eq, ◌==◌,
}
use silo_plugin_dispatcharr.Session.State.{
  Credentials, Call, before, first, second, after, ended, failed, Session, tokens, refused, broken,
  core_fetch, answer, change_at, receive_reply, refreshed_credentials, go_on, end_refresh, Event,
  fetches, replies, loses, refreshes, happen, core_request_headers,
}
use silo_plugin_dispatcharr.Session.Waiting.{has_waiting, IsServed, happen-IsServed, happens}

-- The request at an index is one that was sent again.
abbrev pub is_second_at : ℕ → List Call → Bool
is_second_at i [] = false
is_second_at zero (second sent ∷ cs) = true
is_second_at zero (_ ∷ cs) = false
is_second_at (suc i) (c ∷ cs) = is_second_at i cs

-- An event of a server that issues a token at each refresh, takes a request that was sent again,
-- and is always reached. A 401 to a request sent for the first time is allowed.
abbrev pub is_granted : Event → Session → Bool
is_granted fetches s = true
is_granted (replies i status) s = not (status == 401 && is_second_at i s.calls)
is_granted (loses i) s = false
is_granted (refreshes (tokens access refresh)) s = not (access == "")
is_granted (refreshes refused) s = false
is_granted (refreshes broken) s = false

abbrev pub are_granted : List Event → Session → Bool
are_granted [] s = true
are_granted (e ∷ es) s = is_granted e s && are_granted es (happen e s)

-- The first header carries a token.
abbrev pub is_authorized : List (String × String) → Bool
is_authorized [] = false
is_authorized ((name, value) ∷ sent) = name == "Authorization"

-- A call is not over with a 401 or an error, and what it sent again carries a token.
abbrev pub is_fine : Call → Bool
is_fine (second sent) = is_authorized sent
is_fine (ended status) = not (status == 401)
is_fine failed = false
is_fine _ = true

abbrev pub are_fine : List Call → Bool
are_fine [] = true
are_fine (c ∷ cs) = is_fine c && are_fine cs

are_fine-answer :
    (status i : ℕ) (cs : List Call)
    → (status == 401 && is_second_at i cs) ≡ false
    → are_fine cs ≡ true
    → are_fine (change_at (answer status) i cs) ≡ true
unfolding answer
are_fine-answer status i [] h k = refl
are_fine-answer status zero (before ∷ cs) h k = k
are_fine-answer status zero (first sent ∷ cs) h k = ground (arith, nat_eq.beq_iff status 401)
are_fine-answer status zero (after ∷ cs) h k = k
are_fine-answer status zero (second sent ∷ cs) h k = ground arith
are_fine-answer status zero (ended n ∷ cs) h k = k
are_fine-answer status zero (failed ∷ cs) h k = k
are_fine-answer status (suc i) (c ∷ cs) h k = ground (arith, are_fine-answer status i cs)

is_authorized-core_request_headers :
    (c : Credentials)
    → (c.access_token == "") ≡ false
    → is_authorized (core_request_headers c) ≡ true
unfolding core_request_headers
is_authorized-core_request_headers c h = rw h refl

module _ (access refresh : String) (given : (access == "") ≡ false) (old : Credentials)
    (signed_in : (old.refresh_token == "") ≡ false) where
  abbrev new : Credentials
  new = refreshed_credentials (tokens access refresh) old

  is_fine-go_on :
      (c : Call) → is_fine c ≡ true → is_fine (go_on (tokens access refresh) old new c) ≡ true
  unfolding go_on refreshed_credentials
  is_fine-go_on before h = refl
  is_fine-go_on (first sent) h = refl
  is_fine-go_on after h =
      rw (signed_in, given)
        (is_authorized-core_request_headers
          (record old {
            access_token = access;
            refresh_token = if refresh == "" then old.refresh_token else refresh;
          })
          given)
  is_fine-go_on (second sent) h = h
  is_fine-go_on (ended n) h = h
  is_fine-go_on failed h = h

  are_fine-go_on :
      (cs : List Call)
      → are_fine cs ≡ true
      → are_fine (map (go_on (tokens access refresh) old new) cs) ≡ true
  are_fine-go_on [] h = refl
  are_fine-go_on (c ∷ cs) h = ground (arith, is_fine-go_on c, are_fine-go_on cs)

-- The page can refresh its session, and every call is fine.
abbrev IsFine : Session → Type 0
IsFine s = ((s.credentials.refresh_token == "") ≡ false) × (are_fine s.calls ≡ true)

end_refresh-IsFine :
    (access refresh : String) (s : Session)
    → (access == "") ≡ false
    → IsFine s
    → IsFine (end_refresh (tokens access refresh) s)
unfolding end_refresh refreshed_credentials
end_refresh-IsFine access refresh s given h =
    (ground arith, are_fine-go_on access refresh given s.credentials h.0 s.calls h.1)

happen-IsFine : (e : Event) (s : Session) → is_granted e s ≡ true → IsFine s → IsFine (happen e s)
unfolding happen core_fetch receive_reply
happen-IsFine fetches s g h = ground arith
happen-IsFine (replies i status) s g h = ground (arith, are_fine-answer status i s.calls)
happen-IsFine (loses i) s g h = ground arith
happen-IsFine (refreshes (tokens access refresh)) s g h =
    ground (arith, end_refresh-IsFine access refresh s)
happen-IsFine (refreshes refused) s g h = ground arith
happen-IsFine (refreshes broken) s g h = ground arith

happens-IsFine :
    (es : List Event) (s : Session) → are_granted es s ≡ true → IsFine s → IsFine (happens es s)
happens-IsFine [] s g h = h
happens-IsFine (e ∷ es) s g h =
    happens-IsFine es (happen e s) (ground arith) (happen-IsFine e s (ground arith) h)

happens-IsServed : (es : List Event) (s : Session) → IsServed s → IsServed (happens es s)
happens-IsServed [] s h = h
happens-IsServed (e ∷ es) s h = happens-IsServed es (happen e s) (happen-IsServed e s h)

abbrev pub opened : Credentials → Session
opened c = record { credentials = c; refreshing = false; calls = [] }

-- However calls of coreFetch, replies, 401s, errors of the network and ends of refreshes follow
-- one another from a page without calls: a refresh is under way exactly while a call waits for
-- it; and if the page has a refresh token, each refresh brings an access token, no request is
-- lost, and a request that was sent again is not answered with 401, then no call is over with a
-- 401 or an error, and each request that was sent again carries a token.
pub happens-opened :
    (es : List Event) (c : Credentials)
    → let s = happens es (opened c) in
      (s.refreshing ≡ has_waiting s.calls)
      × (((c.refresh_token == "") ≡ true)
          ⊎ ((are_granted es (opened c) ≡ false) ⊎ (are_fine s.calls ≡ true)))
happens-opened es c =
    (happens-IsServed es (opened c) refl, ground (arith, happens-IsFine es (opened c)))
