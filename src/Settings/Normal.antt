-- ===== src/Settings/Normal.antt =====
-- `normalizeAdminCategorySettings` and `normalizeVirtualGroupSource`. The settings that come in are the
-- fields of an object, and those that come out are a record; a field that the code does not name
-- stays as it is and is left out. Identifiers of libraries are kept as their texts.
use silo_plugin_dispatcharr.Base.{
  ℕ, String, Bool, true, false, ◌||◌, not, Option, none, some, List, [], ◌∷◌, map, if◌then◌else◌,
  string_eq, nat_eq, ◌==◌, contains,
}
use silo_plugin_dispatcharr.Prefs.Json.{
  Json, null, bool, num, str, arr, obj, nil, Fields, end, field, get, of_list, of_strings,
}
use silo_plugin_dispatcharr.Settings.State.{
  Numbers, property, text_of, items, is_true, is_not_false, number_or, clamp_number, TeamPin,
  CategoryAlias, CategoryRename, GuidePolicy,
}
use silo_plugin_dispatcharr.Settings.Keywords.{
  Texts, Rule, default_event_keyword_rules, normalize_event_keyword_rows,
}
use silo_plugin_dispatcharr.Settings.Lists.{
  normalize_category_aliases, normalize_team_pins, normalize_featured_events, normalize_library_ids,
}

pub record Settings (Number : Type 0) : Type 0 where
  pub app_display_name : String
  pub side_menu_mode : String
  pub mode : String
  pub delimiter : String
  pub virtual_group_label : String
  pub allow_recordings : Bool
  pub recording_pre_pad : Number
  pub recording_post_pad : Number
  pub comskip_enabled : Bool
  pub sports_enabled : Bool
  pub sports_guide : GuidePolicy
  pub separate_sports_app : Bool
  pub sports_library_ids : List String
  pub team_pins : List TeamPin
  pub sports_first_player : Bool
  pub featured_events : List String
  pub hls_buffer_seconds : Number
  pub rewind_enabled : Bool
  pub rewind_cache : Number
  pub rewind_window : Number
  pub rewind_min_free : Number
  pub rewind_max_channels : Number
  pub collapse_duplicates : Bool
  pub flatten_wrappers : Bool
  pub virtual_group_source : String
  pub infer_channel_name_groups : Bool
  pub ecm_url : String
  pub ecm_enabled : Bool
  pub category_renames : List CategoryRename
  pub category_aliases : List CategoryAlias
  pub event_keywords : List (Rule Number)

-- `v === "text"`
abbrev pub is_text : String → Option Json → Bool
is_text s (some (str v)) = v == s
is_text s none = false
is_text s (some null) = false
is_text s (some (bool b)) = false
is_text s (some (num v)) = false
is_text s (some (arr xs)) = false
is_text s (some (obj f)) = false

-- `Object.assign(defaults, settings)`, read at a key.
abbrev pub setting : Fields → String → Json → Option Json
setting raw key default = elim (get key raw) [ some v ↦ some v | none ↦ some default ]

-- The default rows, as values.
abbrev pub default_keywords_value : Json
default_keywords_value = arr (
    of_list (
      map
        (λ r. obj (
          field "categoryId" (str r.0)
            (field "categoryName" (str r.1) (field "keywords" (arr (of_strings r.2)) end))))
        default_event_keyword_rules))

abbrev pub default_guide : Json
default_guide =
    obj (field "enabled" (bool true) (field "groups" (arr nil) (field "overrides" (arr nil) end)))

-- Of a value that is no object, every property is undefined.
abbrev pub guide_policy : Option Json → GuidePolicy
guide_policy none = record { is_enabled = true; groups = []; overrides = [] }
guide_policy (some v) = record {
  is_enabled = is_not_false (property "enabled" v);
  groups = items (property "groups" v);
  overrides = items (property "overrides" v);
}

abbrev pub sources : List String
sources = "group" ∷ "group_channel" ∷ "channel" ∷ "profile" ∷ "profile_group" ∷ []

abbrev pub minutes_of_rewind : List ℕ
minutes_of_rewind = 15 ∷ 30 ∷ 60 ∷ 90 ∷ 120 ∷ []

-- The language's texts and numbers, and how names of categories compare.
module _ (t : Texts) (n : Numbers) (before : String → String → Bool) where
  unfoldable pub normalize_virtual_group_source : Option Json → Bool → String
  normalize_virtual_group_source value infer_legacy =
      let mode = t.trim (text_of value) in
      if contains sources mode then mode else if infer_legacy then "group_channel" else "group"

  unfoldable pub virtual_group_label_suffix : Option Json → String
  virtual_group_label_suffix value =
      let label = t.trim (t.without_virtual (t.trim (text_of value))) in
      if label == "" then "Groups" else label

  unfoldable pub normalize_admin_ecm_url : Option Json → String
  normalize_admin_ecm_url value =
      let trimmed = t.trim (text_of value) in
      let lower = t.lower trimmed in
      if t.starts_with lower "https://" || t.starts_with lower "http://" then trimmed else ""

  abbrev pub normal_mode : Option Json → String
  normal_mode v =
      if is_text "custom" v || is_text "admin_delimiter" v || is_text "delimiter" v
      then "delimiter"
      else "normal"

  -- The number of minutes, when it is one of those that are offered.
  abbrev pub offered : List ℕ → n.Number → n.Number
  offered [] x = n.of 30
  offered (m ∷ ms) x = if n.same (n.of m) x then x else offered ms x

  abbrev pub rewind_window_of : Option n.Number → n.Number
  rewind_window_of none = n.of 30
  rewind_window_of (some x) = offered minutes_of_rewind x

  abbrev pub rounded : ℕ → ℕ → ℕ → Option Json → n.Number
  rounded low high d v = clamp_number n low high (n.round (number_or n v d))

  unfoldable pub normalize_admin_category_settings : Fields → Settings n.Number
  unfolding normalize_virtual_group_source virtual_group_label_suffix normalize_admin_ecm_url
      normalize_category_aliases normalize_team_pins normalize_featured_events normalize_library_ids
      normalize_event_keyword_rows clamp_number
  normalize_admin_category_settings raw =
      let name = t.trim (text_of (setting raw "appDisplayName" (str "Live TV (Dispatcharr)"))) in
      let source =
        normalize_virtual_group_source (setting raw "virtualGroupSource" (str "group"))
          (is_true (setting raw "inferChannelNameGroups" (bool false))) in
      let url = normalize_admin_ecm_url (setting raw "ecmURL" (str "")) in
      let collapse : Option Json = elim (setting raw "collapseDuplicateVirtualGroups" (bool true)) [
        | some v ↦ some v
        | none ↦ get "collapseDuplicateProfileGroups" raw
      ] in
      record {
        app_display_name = t.front 80 (if name == "" then "Live TV (Dispatcharr)" else name);
        side_menu_mode =
            if is_text "channels" (setting raw "sideMenuMode" (str "guide"))
            then "channels"
            else "guide";
        mode =
            if source == "profile" || source == "profile_group"
            then "delimiter"
            else normal_mode (setting raw "mode" (str "normal"));
        delimiter =
            if is_text "dash" (setting raw "delimiter" (str "pipe")) then "dash" else "pipe";
        virtual_group_label =
            virtual_group_label_suffix (setting raw "virtualGroupLabel" (str "Groups"));
        allow_recordings = is_not_false (setting raw "allowRecordingsByDefault" (bool true));
        recording_pre_pad = rounded 0 60 0 (setting raw "recordingPrePadMinutes" (num "0"));
        recording_post_pad = rounded 0 60 0 (setting raw "recordingPostPadMinutes" (num "0"));
        comskip_enabled = is_true (setting raw "recordingComskipEnabled" (bool false));
        sports_enabled = is_not_false (setting raw "sportsEnabled" (bool true));
        sports_guide = guide_policy (setting raw "sportsGuide" default_guide);
        separate_sports_app = is_true (setting raw "separateSportsApp" (bool false));
        sports_library_ids = normalize_library_ids n (setting raw "sportsLibraryIds" (arr nil));
        team_pins = normalize_team_pins t (setting raw "sportsTeamChannels" (arr nil));
        sports_first_player = is_true (setting raw "sportsFirstPlayerEnabled" (bool false));
        featured_events = normalize_featured_events t (setting raw "featuredEventIds" (arr nil));
        hls_buffer_seconds = rounded 5 60 12 (setting raw "hlsBufferSeconds" (num "12"));
        rewind_enabled = is_true (setting raw "liveRewindEnabled" (bool false));
        rewind_cache =
            clamp_number n 1 500 (number_or n (setting raw "liveRewindCacheGB" (num "5")) 5);
        rewind_window =
            rewind_window_of (n.number (setting raw "liveRewindWindowMinutes" (num "30")));
        rewind_min_free =
            clamp_number n 1 100 (number_or n (setting raw "liveRewindMinFreeGB" (num "2")) 2);
        rewind_max_channels = rounded 1 100 20 (setting raw "liveRewindMaxChannels" (num "20"));
        collapse_duplicates = is_not_false collapse;
        flatten_wrappers = is_not_false (setting raw "flattenRedundantGroupWrappers" (bool true));
        virtual_group_source = source;
        infer_channel_name_groups = not (source == "group");
        ecm_url = url;
        ecm_enabled = not (url == "");
        category_renames = [];
        category_aliases = normalize_category_aliases t (setting raw "categoryAliases" (arr nil));
        event_keywords =
            normalize_event_keyword_rows t n before
              (setting raw "eventKeywords" default_keywords_value);
      }
