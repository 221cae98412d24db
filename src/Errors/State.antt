-- ===== src/Errors/State.antt =====
-- An error, the patterns that are tested on its text, and the sentences made of it.
use silo_plugin_dispatcharr.Base.{
  ℕ, String, Bool, ◌&&◌, ◌||◌, not, Option, none, some, List, [], ◌∷◌, leb, if◌then◌else◌,
  string_eq, nat_eq, ◌==◌, contains,
}
use Prim.Native.String.{◌++◌ as concat}

-- A thrown value: its message, empty where it has none, how it prints itself, its status, 0 where it
-- has none, and whether a timeout made it.
pub record Failure : Type 0 where
  pub message : String
  pub printed : String
  pub status : ℕ
  pub timeout : Bool

-- The patterns of the code, by what they look for.
pub data Pattern : Type 0 where
  unauthorized : Pattern
  html : Pattern
  unreachable : Pattern
  forbidden : Pattern
  timed_out : Pattern
  markup : Pattern
  no_network : Pattern

pub record ErrorRule : Type 0 where
  pub statuses : List ℕ
  pub pattern : Pattern
  pub message : String

abbrev pub rejected : String
rejected =
    "Dispatcharr rejected these credentials. Check the username and password or API key, and make sure nothing in front of Dispatcharr requires its own login."

abbrev pub web_page : String
web_page =
    "Dispatcharr returned a web page instead of API data. The base URL may point at a login page or proxy instead of Dispatcharr."

abbrev pub not_reached : String
not_reached = "Dispatcharr can't be reached right now. Try again in a few minutes."

abbrev pub expired : String
expired = "Your Silo session expired. Refresh the page or sign in again."

abbrev pub too_long : String
too_long = "The request took too long. Try again."

abbrev pub no_permission : String
no_permission = "You don't have permission to do that."

abbrev pub not_available : String
not_available = "That item is no longer available. Refresh and try again."

abbrev pub too_many : String
too_many = "Too many requests right now. Wait a moment and try again."

abbrev pub no_connection : String
no_connection = "Can't reach Silo. Check your network connection and try again."

abbrev pub provider_error_rules : List ErrorRule
provider_error_rules =
    record { statuses = []; pattern = unauthorized; message = rejected }
    ∷ record { statuses = []; pattern = html; message = web_page }
    ∷ record { statuses = 502 ∷ 503 ∷ []; pattern = unreachable; message = not_reached }
    ∷ []

-- The language's operations on texts: `trim`, `toLowerCase`, the removal of the wrapper of a failed
-- request, the number of characters, whether a pattern is found, the first character in upper case,
-- and the other characters with a full stop behind them.
pub record Wording : Type 0 where
  pub trim : String → String
  pub lower : String → String
  pub unwrap : String → String
  pub size : String → ℕ
  pub finds : Pattern → String → Bool
  pub upper_first : String → String
  pub rest_with_stop : String → String

unfoldable pub raw_error_detail : Failure → String
raw_error_detail e = if e.message == "" then e.printed else e.message

abbrev pub or_message : Option String → String → String
or_message none other = other
or_message (some message) other = message

module _ (w : Wording) where
  -- There is no prefix of the provider to strip.
  unfoldable pub readable_error_text : Failure → String
  unfolding raw_error_detail
  readable_error_text e = w.trim (w.unwrap (w.trim (raw_error_detail e)))

  -- The message of the first rule that matches a status or a text in lower case.
  unfoldable pub first_rule : List ErrorRule → ℕ → String → Option String
  first_rule [] status text = none
  first_rule (r ∷ rs) status text =
      if contains r.statuses status || w.finds r.pattern text
      then some r.message
      else first_rule rs status text

  -- A short message of the plugin's own validation.
  abbrev pub is_plain : ℕ → String → Bool
  is_plain status text =
      (status == 400 || status == 422)
      && not (text == "")
      && leb (w.size text) 160
      && not (w.finds markup text)

  -- What is said where no rule matches.
  abbrev pub general_error : ℕ → String → String
  general_error status text =
      let lower = w.lower text in
      if status == 403 || w.finds forbidden lower
      then no_permission
      else if status == 404
      then not_available
      else if status == 408 || status == 504 || w.finds timed_out lower
      then too_long
      else if status == 429
      then too_many
      else if is_plain status text
      then concat (w.upper_first text) (w.rest_with_stop text)
      else if status == 0 && w.finds no_network lower
      then no_connection
      else ""

  unfoldable pub readable_error : Failure → String
  unfolding readable_error_text first_rule
  readable_error e =
      let text = readable_error_text e in
      if e.status == 401
      then expired
      else if e.timeout
      then if text == "" then too_long else text
      else or_message (first_rule provider_error_rules e.status (w.lower text))
          (general_error e.status text)

  unfoldable pub friendly_error : Failure → String → String
  unfolding readable_error
  friendly_error e fallback = if readable_error e == "" then fallback else readable_error e

  unfoldable pub error_sentence : String → Failure → String
  unfolding readable_error
  error_sentence lead e =
      if readable_error e == "" then lead else concat lead (concat " " (readable_error e))

  unfoldable pub admin_error_detail : Failure → String
  unfolding readable_error raw_error_detail
  admin_error_detail e =
      let friendly = readable_error e in
      let raw = raw_error_detail e in
      if friendly == ""
      then if raw == "" then "Unknown error." else raw
      else if not (raw == "") && not (raw == friendly)
      then concat friendly (concat " (" (concat raw ")"))
      else friendly
