-- ===== src/Settings/Single.antt =====
-- The lists of normalised admin settings.
use silo_plugin_dispatcharr.Base.{
  String, ◌≡◌, Bool, true, Option, [], map, All, All-take, map-take, string_eq, nat_eq, IsDistinct,
  take-IsDistinct,
}
use silo_plugin_dispatcharr.Ids.{unique_ids, unique_ids-IsDistinct}
use silo_plugin_dispatcharr.Prefs.Json.{Json, Fields, arr, nil}
use silo_plugin_dispatcharr.Settings.State.{Numbers, items}
use silo_plugin_dispatcharr.Settings.Unique.{keep_unseen, keep_unseen-IsDistinct, keep_unseen-All}
use silo_plugin_dispatcharr.Settings.Keywords.{Texts}
use silo_plugin_dispatcharr.Settings.Windows.{ids, IsClosed, normalize_event_keyword_rows-IsClosed}
use silo_plugin_dispatcharr.Settings.Lists.{
  alias_key, is_alias, is_pin, pin_key, read_pin, read_alias, featured_texts, library_texts,
  normalize_category_aliases, normalize_team_pins, normalize_featured_events, normalize_library_ids,
}
use silo_plugin_dispatcharr.Settings.Normal.{
  Settings, setting, normalize_admin_category_settings, default_keywords_value,
}

module _ (t : Texts) (n : Numbers) (before : String → String → Bool) where
  -- The lists of the settings have no element twice.
  pub record IsUnique (s : Settings n.Number) : Type 0 where
    pub pins : IsDistinct (map (pin_key t) s.team_pins)
    pub whole_pins : All (λ p. is_pin p ≡ true) s.team_pins
    pub aliases : IsDistinct (map alias_key s.category_aliases)
    pub whole_aliases : All (λ a. is_alias a ≡ true) s.category_aliases
    pub featured : IsDistinct s.featured_events
    pub libraries : IsDistinct s.sports_library_ids
    pub categories : IsDistinct (ids t n s.event_keywords)
    pub rules : All (IsClosed t n) s.event_keywords

  pins-IsUnique :
      (v : Option Json)
      → IsDistinct (map (pin_key t) (normalize_team_pins t v))
        × All (λ p. is_pin p ≡ true) (normalize_team_pins t v)
  unfolding normalize_team_pins
  pins-IsUnique v =
      let pins = keep_unseen is_pin (pin_key t) [] (map (read_pin t) (items v)) in
      (
        rw (map-take (pin_key t) 200 pins) (
            take-IsDistinct 200 (map (pin_key t) pins)
              (keep_unseen-IsDistinct is_pin (pin_key t) [] (map (read_pin t) (items v)))),
        All-take (λ p. is_pin p ≡ true) 200 pins
            (keep_unseen-All is_pin (pin_key t) [] (map (read_pin t) (items v))),
      )

  aliases-IsUnique :
      (v : Option Json)
      → IsDistinct (map alias_key (normalize_category_aliases t v))
        × All (λ a. is_alias a ≡ true) (normalize_category_aliases t v)
  unfolding normalize_category_aliases
  aliases-IsUnique v = (
    keep_unseen-IsDistinct is_alias alias_key [] (map (read_alias t) (items v)),
    keep_unseen-All is_alias alias_key [] (map (read_alias t) (items v)),
  )

  featured-IsDistinct : (v : Option Json) → IsDistinct (normalize_featured_events t v)
  unfolding normalize_featured_events
  featured-IsDistinct v =
      take-IsDistinct 100 (unique_ids (featured_texts t v))
        (unique_ids-IsDistinct (featured_texts t v))

  libraries-IsDistinct : (v : Option Json) → IsDistinct (normalize_library_ids n v)
  unfolding normalize_library_ids
  libraries-IsDistinct v = unique_ids-IsDistinct (library_texts n v)

  -- In normalised admin settings no channel of a team, alias, featured event, library or category
  -- of keywords is listed twice, none of the first two lacks a part, the keywords of a rule
  -- differ but for case, and only a series has a window, of 15 to 360 minutes.
  pub normalize_admin_category_settings-IsUnique :
      (raw : Fields) → IsUnique (normalize_admin_category_settings t n before raw)
  unfolding normalize_admin_category_settings
  normalize_admin_category_settings-IsUnique raw =
      let pins = pins-IsUnique (setting raw "sportsTeamChannels" (arr nil)) in
      let aliases = aliases-IsUnique (setting raw "categoryAliases" (arr nil)) in
      let rules =
        normalize_event_keyword_rows-IsClosed t n before
          (setting raw "eventKeywords" default_keywords_value) in
      record {
        pins = pins.0;
        whole_pins = pins.1;
        aliases = aliases.0;
        whole_aliases = aliases.1;
        featured = featured-IsDistinct (setting raw "featuredEventIds" (arr nil));
        libraries = libraries-IsDistinct (setting raw "sportsLibraryIds" (arr nil));
        categories = rules.0;
        rules = rules.1;
      }
