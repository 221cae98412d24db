-- ===== src/Settings/Layers.antt =====
-- The layers of the organisation of channels: virtualGroupSourceMode, organizationLayerState and the
-- four tests of which paths are used.
use silo_plugin_dispatcharr.Base.{
  String, ◌≡◌, refl, sym, Bool, true, false, ◌&&◌, ◌||◌, some, All, string_eq, nat_eq, ◌==◌,
  contains, All-contains,
}
use silo_plugin_dispatcharr.Prefs.Json.{Fields, str, display}
use silo_plugin_dispatcharr.Settings.State.{Numbers}
use silo_plugin_dispatcharr.Settings.Keywords.{Texts}
use silo_plugin_dispatcharr.Settings.Normal.{
  Settings, sources, normalize_virtual_group_source, normalize_admin_category_settings,
}
use silo_plugin_dispatcharr.Settings.Shape.{IsTyped, normalize_admin_category_settings-IsTyped}

pub record Layers : Type 0 where
  pub profiles : Bool
  pub groups : Bool
  pub channels : Bool

module _ (t : Texts) (n : Numbers) (before : String → String → Bool) where
  unfoldable pub virtual_group_source_mode : Settings n.Number → String
  unfolding normalize_virtual_group_source
  virtual_group_source_mode s =
      normalize_virtual_group_source t n before (some (str s.virtual_group_source))
        s.infer_channel_name_groups

  unfoldable pub use_source_group_virtual_paths : Settings n.Number → Bool
  unfolding virtual_group_source_mode
  use_source_group_virtual_paths s =
      let source = virtual_group_source_mode s in
      source == "group" || source == "group_channel" || source == "profile_group"

  unfoldable pub use_channel_name_virtual_paths : Settings n.Number → Bool
  unfolding virtual_group_source_mode
  use_channel_name_virtual_paths s =
      let source = virtual_group_source_mode s in source == "channel" || source == "group_channel"

  unfoldable pub use_profile_group_virtual_paths : Settings n.Number → Bool
  unfolding virtual_group_source_mode
  use_profile_group_virtual_paths s = virtual_group_source_mode s == "profile_group"

  unfoldable pub use_channel_profile_virtual_paths : Settings n.Number → Bool
  unfolding virtual_group_source_mode
  use_channel_profile_virtual_paths s =
      let source = virtual_group_source_mode s in source == "profile" || source == "profile_group"

  unfoldable pub organization_layer_state : Settings n.Number → Layers
  unfolding virtual_group_source_mode
  organization_layer_state s =
      let source = virtual_group_source_mode s in
      record {
        profiles = source == "profile" || source == "profile_group";
        groups = source == "group" || source == "group_channel" || source == "profile_group";
        channels = source == "channel" || source == "group_channel";
      }

  -- What the layers of normalised settings are.
  pub record IsLayered (s : Settings n.Number) : Type 0 where
    pub some_layer :
        ((organization_layer_state s).profiles
          || (organization_layer_state s).groups
          || (organization_layer_state s).channels)
        ≡ true
    pub delimited : (organization_layer_state s).profiles ≡ true → s.mode ≡ "delimiter"
    pub by_group : (organization_layer_state s).groups ≡ use_source_group_virtual_paths s
    pub by_name : (organization_layer_state s).channels ≡ use_channel_name_virtual_paths s
    pub by_profile : (organization_layer_state s).profiles ≡ use_channel_profile_virtual_paths s
    pub both :
        ((organization_layer_state s).profiles && (organization_layer_state s).groups)
        ≡ use_profile_group_virtual_paths s

  read_back :
      (w : String) (b : Bool)
      → t.trim w ≡ w
      → contains sources w ≡ true
      → (w == "") ≡ false
      → normalize_virtual_group_source t n before (some (str w)) b ≡ w
  unfolding normalize_virtual_group_source display
  read_back w b e m ne = rw ne (rw e (rw m refl))

  -- The mode that is read back is the one that was stored.
  virtual_group_source_mode-normal :
      (s : Settings n.Number)
      → All (λ w. t.trim w ≡ w) sources
      → IsTyped t n before s
      → virtual_group_source_mode s ≡ s.virtual_group_source
  unfolding virtual_group_source_mode
  virtual_group_source_mode-normal s h typed =
      let w = s.virtual_group_source in
      read_back w s.infer_channel_name_groups
        (All-contains (λ v. t.trim v ≡ v) sources w h typed.source) typed.source
        (All-contains (λ v. (v == "") ≡ false) sources w (refl, (refl, (refl, (refl, (refl, tt)))))
          typed.source)

  abbrev layers_of : String → Layers
  layers_of source = record {
    profiles = source == "profile" || source == "profile_group";
    groups = source == "group" || source == "group_channel" || source == "profile_group";
    channels = source == "channel" || source == "group_channel";
  }

  abbrev IsSource : String → Type 0
  IsSource w =
      (((layers_of w).profiles || (layers_of w).groups || (layers_of w).channels) ≡ true)
      × (((layers_of w).profiles && (layers_of w).groups) ≡ (w == "profile_group"))

  layers_of-IsSource : (w : String) → contains sources w ≡ true → IsSource w
  layers_of-IsSource w m =
      All-contains IsSource sources w
        ((refl, refl), ((refl, refl), ((refl, refl), ((refl, refl), ((refl, refl), tt))))) m

  -- For normalised settings, when trimming leaves the five words of sources alone, at least one
  -- layer is used, profiles are used only with delimited names, and the layers agree with the tests
  -- that decide which paths channels get.
  pub organization_layer_state-IsLayered :
      (raw : Fields)
      → All (λ w. t.trim w ≡ w) sources
      → IsLayered (normalize_admin_category_settings t n before raw)
  unfolding organization_layer_state use_source_group_virtual_paths use_channel_name_virtual_paths
      use_profile_group_virtual_paths use_channel_profile_virtual_paths
  organization_layer_state-IsLayered raw h =
      let s = normalize_admin_category_settings t n before raw in
      let typed = normalize_admin_category_settings-IsTyped t n before raw in
      let e = virtual_group_source_mode-normal s h typed in
      let layers = layers_of-IsSource s.virtual_group_source typed.source in
      record {
        some_layer = rw e layers.0;
        delimited = λ p. typed.by_profile (rw (sym e) p);
        by_group = refl;
        by_name = refl;
        by_profile = refl;
        both = rw e layers.1;
      }
