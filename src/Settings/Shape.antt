-- ===== src/Settings/Shape.antt =====
-- The words in normalised admin settings.
use silo_plugin_dispatcharr.Base.{
  ℕ, String, ◌≡◌, refl, ◌≢◌, inl, inr, Bool, true, false, ◌||◌, not, Option, none, some, List, [],
  ◌∷◌, arith, if◌then◌else◌, Bool-cases, string_eq, nat_eq, ◌==◌, contains,
}
use silo_plugin_dispatcharr.Prefs.Json.{Json, Fields, bool, num, str}
use silo_plugin_dispatcharr.Settings.State.{Numbers, text_of, is_true}
use silo_plugin_dispatcharr.Settings.Keywords.{Texts}
use silo_plugin_dispatcharr.Settings.Normal.{
  Settings, is_text, setting, sources, minutes_of_rewind, normalize_virtual_group_source,
  virtual_group_label_suffix, normal_mode, offered, rewind_window_of,
  normalize_admin_category_settings,
}

module _ (t : Texts) (n : Numbers) (before : String → String → Bool) where
  abbrev pub is_window_choice : List ℕ → n.Number → Bool
  is_window_choice [] x = false
  is_window_choice (m ∷ ms) x = n.same (n.of m) x || is_window_choice ms x

  -- The words of the settings are among those that the rest of the code tests for, and the settings
  -- that follow from others agree with them.
  pub record IsTyped (s : Settings n.Number) : Type 0 where
    pub side_menu : contains ("channels" ∷ "guide" ∷ []) s.side_menu_mode ≡ true
    pub modes : contains ("normal" ∷ "delimiter" ∷ []) s.mode ≡ true
    pub delimiters : contains ("pipe" ∷ "dash" ∷ []) s.delimiter ≡ true
    pub source : contains sources s.virtual_group_source ≡ true
    pub label : s.virtual_group_label ≢ ""
    pub window : is_window_choice minutes_of_rewind s.rewind_window ≡ true
    pub by_profile :
        (s.virtual_group_source == "profile" || s.virtual_group_source == "profile_group") ≡ true
        → s.mode ≡ "delimiter"
    pub inferred : s.infer_channel_name_groups ≡ not (s.virtual_group_source == "group")
    pub ecm : s.ecm_enabled ≡ not (s.ecm_url == "")
    pub renames : s.category_renames ≡ []

  choice_listed : (b : Bool) (x y : String) → contains (x ∷ y ∷ []) (if b then x else y) ≡ true
  choice_listed b x y = ground (arith, string_eq.beq_iff x x, string_eq.beq_iff y y)

  choice_listed' : (b : Bool) (x y : String) → contains (y ∷ x ∷ []) (if b then x else y) ≡ true
  choice_listed' b x y = ground (arith, string_eq.beq_iff x x, string_eq.beq_iff y y)

  normalize_virtual_group_source_listed :
      (v : Option Json) (b : Bool)
      → contains sources (normalize_virtual_group_source t n before v b) ≡ true
  unfolding normalize_virtual_group_source
  normalize_virtual_group_source_listed v b =
      elim (Bool-cases (contains sources (t.trim (text_of v)))) [
        | inl e ↦ rw e e
        | inr e ↦ rw e (elim (Bool-cases b) [ inl f ↦ rw f refl | inr f ↦ rw f refl ])
      ]

  not_empty : (s : String) → (s == "") ≡ false → s ≢ ""
  not_empty s e = λ h. ground (arith, string_eq.beq_iff s "")

  label_not_empty : (v : Option Json) → virtual_group_label_suffix t n before v ≢ ""
  unfolding virtual_group_label_suffix
  label_not_empty v =
      let label = t.trim (t.without_virtual (t.trim (text_of v))) in
      elim (Bool-cases (label == "")) [
        | inl e ↦ rw e (not_empty "Groups" refl)
        | inr e ↦ rw e (not_empty label e)
      ]

  offered-is_window_choice :
      (ms : List ℕ) (x : n.Number)
      → (is_window_choice ms (offered t n before ms x)
          || n.same (n.of 30) (offered t n before ms x))
        ≡ true
  offered-is_window_choice [] x = (n.same_iff (n.of 30) (n.of 30)).1 refl
  offered-is_window_choice (m ∷ ms) x = ground (arith, offered-is_window_choice ms x)

  rewind_window_offered :
      (x : Option n.Number)
      → is_window_choice minutes_of_rewind (rewind_window_of t n before x) ≡ true
  rewind_window_offered none = ground (arith, n.same_iff (n.of 30) (n.of 30))
  rewind_window_offered (some x) = ground (arith, offered-is_window_choice minutes_of_rewind x)

  mode_listed :
      (b : Bool) (v : Option Json)
      → contains ("normal" ∷ "delimiter" ∷ []) (if b then "delimiter" else normal_mode t n before v)
        ≡ true
  mode_listed b v =
      let m = is_text "custom" v || is_text "admin_delimiter" v || is_text "delimiter" v in
      elim (Bool-cases b) [
        | inl e ↦ rw e refl
        | inr e ↦ rw e (elim (Bool-cases m) [ inl f ↦ rw f refl | inr f ↦ rw f refl ])
      ]

  -- Whatever object the admin settings come from, the normalised ones have only words that the
  -- code tests for, an offered window of rewinding and a label; settings by profile are
  -- delimited, and the settings that follow from others agree with them.
  pub normalize_admin_category_settings-IsTyped :
      (raw : Fields) → IsTyped (normalize_admin_category_settings t n before raw)
  unfolding normalize_admin_category_settings
  normalize_admin_category_settings-IsTyped raw =
      let source_value = setting raw "virtualGroupSource" (str "group") in
      let legacy = is_true (setting raw "inferChannelNameGroups" (bool false)) in
      let source = normalize_virtual_group_source t n before source_value legacy in
      let profile = source == "profile" || source == "profile_group" in
      record {
        side_menu =
            choice_listed (is_text "channels" (setting raw "sideMenuMode" (str "guide"))) "channels"
              "guide";
        modes = mode_listed profile (setting raw "mode" (str "normal"));
        delimiters =
            choice_listed' (is_text "dash" (setting raw "delimiter" (str "pipe"))) "dash" "pipe";
        source = normalize_virtual_group_source_listed source_value legacy;
        label = label_not_empty (setting raw "virtualGroupLabel" (str "Groups"));
        window =
            rewind_window_offered (n.number (setting raw "liveRewindWindowMinutes" (num "30")));
        by_profile = λ e. rw e refl;
        inferred = refl;
        ecm = refl;
        renames = refl;
      }
