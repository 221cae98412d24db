-- ===== src/Session/Tests.antt =====
-- A concrete session.
use silo_plugin_dispatcharr.Base.{
  ◌≡◌, refl, ◌⊎◌, true, false, List, [], ◌∷◌, string_eq, nat_eq, ◌==◌,
}
use silo_plugin_dispatcharr.Session.State.{
  Credentials, Event, fetches, replies, refreshes, tokens, ended, second, happen, core_fetch,
  receive_reply, answer, end_refresh, go_on, refreshed_credentials, core_request_headers,
}
use silo_plugin_dispatcharr.Session.Waiting.{has_waiting, happens}
use silo_plugin_dispatcharr.Session.Retried.{are_granted, are_fine, opened, happens-opened}

abbrev signed_in : Credentials
signed_in = record {
  access_token = "old";
  refresh_token = "r";
  profile_id = "";
  profile_token = "";
}

-- Two requests get a 401, one refresh serves both, and the requests sent again are taken.
abbrev expired : List Event
expired =
    fetches
    ∷ fetches
    ∷ replies 0 401
    ∷ replies 1 401
    ∷ refreshes (tokens "new" "")
    ∷ replies 0 200
    ∷ []

happens-opened_example :
    let s = happens expired (opened signed_in) in
    (s.refreshing ≡ has_waiting s.calls)
    × (((signed_in.refresh_token == "") ≡ true)
        ⊎ ((are_granted expired (opened signed_in) ≡ false) ⊎ (are_fine s.calls ≡ true)))
happens-opened_example = happens-opened expired signed_in

-- The first alternatives do not hold of this run.
expired_run_is_granted : are_granted expired (opened signed_in) ≡ true
unfolding happen core_fetch receive_reply answer end_refresh go_on
expired_run_is_granted = refl

-- One call is over, and the other has sent its request again with the new token.
expired_run_calls :
    (happens expired (opened signed_in)).calls
    ≡ ended 200 ∷ second (("Authorization", "Bearer new") ∷ []) ∷ []
unfolding happen core_fetch receive_reply answer end_refresh go_on refreshed_credentials
    core_request_headers
expired_run_calls = refl
