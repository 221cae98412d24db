-- ===== src/Settings/Lists.antt =====
-- The lists of the admin settings: aliases and renames of categories, the channels of teams, the
-- featured events and the libraries of sports.
use silo_plugin_dispatcharr.Base.{
  String, Bool, ◌&&◌, not, Option, none, some, List, [], map, if◌then◌else◌, take, filter,
  string_eq, nat_eq, ◌==◌,
}
use Prim.Native.String.{◌++◌ as concat}
use silo_plugin_dispatcharr.Ids.{unique_ids}
use silo_plugin_dispatcharr.Prefs.Json.{Json}
use silo_plugin_dispatcharr.Settings.State.{
  Numbers, property, text_of, or_value, items, TeamPin, CategoryAlias, CategoryRename,
}
use silo_plugin_dispatcharr.Settings.Unique.{keep_unseen}
use silo_plugin_dispatcharr.Settings.Keywords.{Texts}

abbrev pub alias_key : CategoryAlias → String
alias_key a = concat a.source_path (concat "\0" a.alias_path)

abbrev pub is_alias : CategoryAlias → Bool
is_alias a = not (a.source_path == "") && not (a.alias_path == "")

abbrev pub is_rename : CategoryRename → Bool
is_rename r = not (r.source_path == "") && not (r.display_name == "")

abbrev pub is_pin : TeamPin → Bool
is_pin p = not (p.league_id == "") && not (p.team_name == "") && not (p.channel_id == "")

module _ (t : Texts) where
  -- `String((v && v.name) || "").trim()`
  abbrev pub trimmed : String → Json → String
  trimmed name v = t.trim (text_of (property name v))

  abbrev pub read_alias : Json → CategoryAlias
  read_alias v = record { source_path = trimmed "sourcePath" v; alias_path = trimmed "aliasPath" v }

  unfoldable pub normalize_category_aliases : Option Json → List CategoryAlias
  unfolding keep_unseen
  normalize_category_aliases value =
      keep_unseen is_alias alias_key [] (map read_alias (items value))

  abbrev pub rename_key : CategoryRename → String
  rename_key r = t.lower r.source_path

  unfoldable pub normalize_category_renames : Option Json → List CategoryRename
  unfolding keep_unseen
  normalize_category_renames value = keep_unseen is_rename rename_key [] (
      map
        (λ v. record {
          source_path = trimmed "sourcePath" v;
          display_name =
              t.trim (text_of (or_value (property "displayName" v) (property "aliasPath" v)));
        })
        (items value))

  abbrev pub pin_key : TeamPin → String
  pin_key p = concat p.league_id (concat "|" (t.lower p.team_name))

  abbrev pub read_pin : Json → TeamPin
  read_pin v = record {
    league_id = trimmed "leagueId" v;
    team_name = trimmed "teamName" v;
    channel_id = trimmed "channelId" v;
    channel_name = trimmed "channelName" v;
  }

  unfoldable pub normalize_team_pins : Option Json → List TeamPin
  unfolding keep_unseen
  normalize_team_pins value = take 200 (keep_unseen is_pin pin_key [] (map read_pin (items value)))

  abbrev pub featured_texts : Option Json → List String
  featured_texts value =
      filter (λ id. not (id == "")) (map (λ v. t.trim (text_of (some v))) (items value))

  unfoldable pub normalize_featured_events : Option Json → List String
  unfolding unique_ids
  normalize_featured_events value = take 100 (unique_ids (featured_texts value))

-- An identifier of a library as its text, or the empty text.
abbrev pub library_id : (n : Numbers) → Json → String
library_id n v = elim (n.number (some v)) [
  | none ↦ ""
  | some x ↦ if n.is_integer x && not (n.le x (n.of 0)) then n.text x else ""
]

abbrev pub library_texts : (n : Numbers) → Option Json → List String
library_texts n value = filter (λ id. not (id == "")) (map (library_id n) (items value))

unfoldable pub normalize_library_ids : (n : Numbers) → Option Json → List String
unfolding unique_ids
normalize_library_ids n value = unique_ids (library_texts n value)
