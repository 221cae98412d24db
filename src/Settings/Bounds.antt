-- ===== src/Settings/Bounds.antt =====
-- The numbers of normalised admin settings, and how long their lists are.
use silo_plugin_dispatcharr.Base.{
  ℕ, ◌≤◌, String, ◌≡◌, Bool, true, Option, List, arith, length, take, length-take, string_eq,
  nat_eq,
}
use silo_plugin_dispatcharr.Prefs.Json.{Json, Fields, num}
use silo_plugin_dispatcharr.Settings.State.{Numbers, number_or, clamp_number-IsWithin}
use silo_plugin_dispatcharr.Settings.Keywords.{Texts}
use silo_plugin_dispatcharr.Settings.Lists.{normalize_team_pins, normalize_featured_events}
use silo_plugin_dispatcharr.Settings.Normal.{
  Settings, setting, rounded, normalize_admin_category_settings,
}

module _ (t : Texts) (n : Numbers) (before : String → String → Bool) where
  abbrev IsIn : ℕ → ℕ → n.Number → Type 0
  IsIn low high x = (n.le (n.of low) x ≡ true) × (n.le x (n.of high) ≡ true)

  -- The numbers of the settings, and how many elements the lists have.
  pub record IsBounded (s : Settings n.Number) : Type 0 where
    pub pre_pad : IsIn 0 60 s.recording_pre_pad
    pub post_pad : IsIn 0 60 s.recording_post_pad
    pub hls_buffer : IsIn 5 60 s.hls_buffer_seconds
    pub cache : IsIn 1 500 s.rewind_cache
    pub min_free : IsIn 1 100 s.rewind_min_free
    pub max_channels : IsIn 1 100 s.rewind_max_channels
    pub pins : length s.team_pins ≤ 200
    pub featured : length s.featured_events ≤ 100

  rounded-IsIn :
      (low high d : ℕ) (v : Option Json)
      → low ≤ high
      → IsIn low high (rounded t n before low high d v)
  rounded-IsIn low high d v h = clamp_number-IsWithin n low high (n.round (number_or n v d)) h

  length-take-le : {A : Type 0} (k : ℕ) (xs : List A) → length (take k xs) ≤ k
  length-take-le k xs = omega (arith, length-take k xs)

  -- Whatever object the admin settings come from, each number of the normalised ones lies between
  -- its bounds, and there are at most 200 channels of teams and 100 featured events.
  pub normalize_admin_category_settings-IsBounded :
      (raw : Fields) → IsBounded (normalize_admin_category_settings t n before raw)
  unfolding normalize_admin_category_settings normalize_team_pins normalize_featured_events
  normalize_admin_category_settings-IsBounded raw = record {
    pre_pad = rounded-IsIn 0 60 0 (setting raw "recordingPrePadMinutes" (num "0")) (omega arith);
    post_pad = rounded-IsIn 0 60 0 (setting raw "recordingPostPadMinutes" (num "0")) (omega arith);
    hls_buffer = rounded-IsIn 5 60 12 (setting raw "hlsBufferSeconds" (num "12")) (omega arith);
    cache =
        clamp_number-IsWithin n 1 500 (number_or n (setting raw "liveRewindCacheGB" (num "5")) 5)
          (omega arith);
    min_free =
        clamp_number-IsWithin n 1 100 (number_or n (setting raw "liveRewindMinFreeGB" (num "2")) 2)
          (omega arith);
    max_channels =
        rounded-IsIn 1 100 20 (setting raw "liveRewindMaxChannels" (num "20")) (omega arith);
    pins = length-take-le 200 _;
    featured = length-take-le 100 _;
  }
