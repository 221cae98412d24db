-- ===== src/Errors/Tests.antt =====
-- Concrete failures.
use silo_plugin_dispatcharr.Base.{
  String, ◌≡◌, refl, Bool, true, false, if◌then◌else◌, string_eq, nat_eq, ◌==◌,
}
use silo_plugin_dispatcharr.Errors.State.{
  Failure, Wording, Pattern, unauthorized, markup, html, unreachable, forbidden, timed_out,
  no_network, not_reached, expired, readable_error,
}
use silo_plugin_dispatcharr.Errors.Causes.{IsCaused, readable_error-IsCaused}

abbrev finds : Pattern → String → Bool
finds unauthorized s = s == "unauthorized"
finds markup s = s == "{}"
finds html s = false
finds unreachable s = s == "connection refused"
finds forbidden s = false
finds timed_out s = false
finds no_network s = false

abbrev wording : Wording
wording = record {
  trim = λ s. s;
  lower = λ s. s;
  unwrap = λ s. if s == "request failed (400): name is taken" then "name is taken" else s;
  size = λ s. 12;
  finds = finds;
  upper_first = λ s. if s == "name is taken" then "N" else "";
  rest_with_stop = λ s. if s == "name is taken" then "ame is taken." else s;
}

abbrev taken : Failure
taken = record {
  message = "request failed (400): name is taken";
  printed = "";
  status = 400;
  timeout = false;
}

readable_error-IsCaused_example : IsCaused wording taken "Name is taken."
unfolding readable_error
readable_error-IsCaused_example = readable_error-IsCaused wording taken

taken_is_readable : readable_error wording taken ≡ "Name is taken."
unfolding readable_error
taken_is_readable = refl

-- A refused connection of another status than 502 and 503.
refused_is_not_reached :
    readable_error wording
      (record { message = "connection refused"; printed = ""; status = 500; timeout = false })
    ≡ not_reached
unfolding readable_error
refused_is_not_reached = refl

expired_first :
    readable_error wording
      (record { message = "unauthorized"; printed = ""; status = 401; timeout = true })
    ≡ expired
unfolding readable_error
expired_first = refl
