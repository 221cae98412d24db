-- ===== src/Session/State.antt =====
-- `coreFetch` and `refreshCoreSession`. A token is empty where there is none. The requests that wait
-- for one refresh go on together when it ends: they await the same promise.
use Prim.Native.String.{◌++◌ as concat}
use silo_plugin_dispatcharr.Base.{
  ℕ, zero, suc, String, Bool, true, false, ◌&&◌, ◌||◌, not, List, [], ◌∷◌, ◌++◌, map, nat_beq,
  if◌then◌else◌, string_eq, nat_eq, ◌==◌,
}

pub record Credentials : Type 0 where
  pub access_token : String
  pub refresh_token : String
  pub profile_id : String
  pub profile_token : String

-- The headers that `coreRequestOptions` adds.
unfoldable pub core_request_headers : Credentials → List (String × String)
core_request_headers c =
    (if c.access_token == "" then [] else ("Authorization", concat "Bearer " c.access_token) ∷ [])
    ++ (if c.profile_id == "" then [] else ("X-Profile-Id", c.profile_id) ∷ [])
    ++ (if c.profile_token == "" then [] else ("X-Profile-Token", c.profile_token) ∷ [])

-- Where a call of `coreFetch` is, with the headers that it has sent: it waits for a refresh before
-- its request, for the reply, for a refresh after a 401, or for the second reply; or it is over, with
-- a status or with an error.
pub data Call : Type 0 where
  before : Call
  first second : List (String × String) → Call
  after : Call
  ended : ℕ → Call
  failed : Call

pub record Session : Type 0 where
  pub credentials : Credentials
  pub refreshing : Bool
  pub calls : List Call

-- How the request of a refresh ends: with tokens, the second empty where there is none, without,
-- or with an error of the network.
pub data Refreshed : Type 0 where
  tokens : String → String → Refreshed
  refused broken : Refreshed

-- `coreFetch` up to its first await.
unfoldable pub core_fetch : Session → Session
unfolding core_request_headers
core_fetch s =
    let c = s.credentials in
    let send = record s { calls = first (core_request_headers c) ∷ s.calls } in
    let wait = record s { refreshing = true; calls = before ∷ s.calls } in
    if c.access_token == "" && not (c.refresh_token == "") then wait else send

-- A reply with a status to a call.
unfoldable pub answer : ℕ → Call → Call
answer status (first sent) = if nat_beq status 401 then after else ended status
answer status (second sent) = ended status
answer status call = call

-- An error of the network.
unfoldable pub break_off : Call → Call
break_off (first sent) = failed
break_off (second sent) = failed
break_off call = call

-- The call at an index, changed.
abbrev pub change_at : (Call → Call) → ℕ → List Call → List Call
change_at f i [] = []
change_at f zero (c ∷ cs) = f c ∷ cs
change_at f (suc i) (c ∷ cs) = c ∷ change_at f i cs

-- The call at an index waits for its first reply.
abbrev pub is_first_at : ℕ → List Call → Bool
is_first_at i [] = false
is_first_at zero (first sent ∷ cs) = true
is_first_at zero (_ ∷ cs) = false
is_first_at (suc i) (c ∷ cs) = is_first_at i cs

-- A 401 to the first request starts a refresh, unless one is under way.
unfoldable pub receive_reply : ℕ → ℕ → Session → Session
unfolding answer
receive_reply i status s = record s {
  calls = change_at (answer status) i s.calls;
  refreshing = s.refreshing || (nat_beq status 401 && is_first_at i s.calls);
}

unfoldable pub lose_reply : ℕ → Session → Session
unfolding break_off
lose_reply i s = record s { calls = change_at break_off i s.calls }

-- `refreshCoreSession` from its reply on. Without a refresh token it answers without a request.
unfoldable pub refreshed_credentials : Refreshed → Credentials → Credentials
refreshed_credentials (tokens access refresh) c =
    let refresh_token = if refresh == "" then c.refresh_token else refresh in
    let given = record c { access_token = access; refresh_token = refresh_token } in
    if c.refresh_token == "" || access == "" then c else given
refreshed_credentials _ c = c

abbrev pub is_refreshed : Refreshed → Credentials → Bool
is_refreshed (tokens access refresh) c = not (c.refresh_token == "" || access == "")
is_refreshed _ c = false

abbrev pub is_broken : Refreshed → Credentials → Bool
is_broken broken c = not (c.refresh_token == "")
is_broken _ c = false

-- What a call does when the refresh ends.
unfoldable pub go_on : Refreshed → Credentials → Credentials → Call → Call
unfolding core_request_headers
go_on r old c before = if is_broken r old then failed else first (core_request_headers c)
go_on r old c after =
    if is_broken r old
    then failed
    else if is_refreshed r old
    then second (core_request_headers c)
    else ended 401
go_on r old c call = call

unfoldable pub end_refresh : Refreshed → Session → Session
unfolding refreshed_credentials go_on
end_refresh r s =
    let c = refreshed_credentials r s.credentials in
    record s { credentials = c; refreshing = false; calls = map (go_on r s.credentials c) s.calls }

-- What may happen next; a refresh ends only while there is one.
pub data Event : Type 0 where
  fetches : Event
  replies : ℕ → ℕ → Event
  loses : ℕ → Event
  refreshes : Refreshed → Event

unfoldable pub happen : Event → Session → Session
unfolding core_fetch receive_reply lose_reply end_refresh
happen fetches s = core_fetch s
happen (replies i status) s = receive_reply i status s
happen (loses i) s = lose_reply i s
happen (refreshes r) s = if s.refreshing then end_refresh r s else s
