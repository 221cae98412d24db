-- ===== src/Settings/Tests.antt =====
-- Concrete settings, with a simple reading of texts and numbers.
use silo_plugin_dispatcharr.Base.{
  ℕ, String, ◌≡◌, refl, inl, inr, Bool, true, false, Option, none, some, List, [], ◌∷◌, ◌++◌, arith,
  leb, nat_beq, if◌then◌else◌, nat_beq_iff, Bool-cases, All, string_eq, nat_eq, ◌==◌, contains,
}
use silo_plugin_dispatcharr.Prefs.Json.{
  display, get, Json, null, bool, num, str, arr, obj, nil, cons, Fields, end, field,
}
use silo_plugin_dispatcharr.Settings.State.{Numbers}
use silo_plugin_dispatcharr.Settings.Keywords.{
  default_event_keyword_rules, Texts, default_rules, read_rules, normalize_event_keyword_rows,
}
use silo_plugin_dispatcharr.Settings.Keep.{IsPiece, IsSplitting}
use silo_plugin_dispatcharr.Settings.Rules.{listed, named, listed-normalize_event_keyword_rows}
use silo_plugin_dispatcharr.Settings.Normal.{normalize_admin_category_settings}
use silo_plugin_dispatcharr.Settings.Shape.{IsTyped, normalize_admin_category_settings-IsTyped}
use silo_plugin_dispatcharr.Settings.Bounds.{IsBounded, normalize_admin_category_settings-IsBounded}
use silo_plugin_dispatcharr.Settings.Single.{IsUnique, normalize_admin_category_settings-IsUnique}
use silo_plugin_dispatcharr.Settings.Layers.{IsLayered, organization_layer_state-IsLayered}

-- One text has a comma.
abbrev split : String → List String
split s = if s == "Oscars,Tonys" then "Oscars" ∷ "Tonys" ∷ [] else s ∷ []

abbrev lower : String → String
lower s = if s == "Oscars" then "oscars" else s

abbrev texts : Texts
texts = record {
  trim = λ s. s;
  lower = lower;
  split = split;
  blank = λ s. s;
  hyphen = λ s. s;
  without_virtual = λ s. s;
  front = λ k s. s;
  starts_with = λ s p. s == p;
}

abbrev read_number : Option Json → Option ℕ
read_number (some (num s)) = if s == "90" then some 90 else if s == "7" then some 7 else some 0
read_number none = none
read_number (some null) = some 0
read_number (some (bool b)) = some (if b then 1 else 0)
read_number (some (str s)) = none
read_number (some (arr xs)) = none
read_number (some (obj f)) = none

leb_total : (a b : ℕ) → leb a b ≡ false → leb b a ≡ true
leb_total a b h = ground arith

leb_refl : (a : ℕ) → leb a a ≡ true
leb_refl a = ground arith

abbrev numbers : Numbers
numbers = record {
  Number = ℕ;
  number = read_number;
  of = λ k. k;
  le = leb;
  same = nat_beq;
  round = λ k. k;
  is_integer = λ k. true;
  text = λ k. if nat_beq k 7 then "7" else "90";
  le_total = leb_total;
  le_refl = leb_refl;
  le_of = λ a b. refl;
  same_iff = nat_beq_iff;
}

abbrev no_order : String → String → Bool
no_order a b = false

abbrev raw : Fields
raw = field "virtualGroupSource" (str "profile_group") (
    field "mode" (str "normal") (
      field "hlsBufferSeconds" (num "90") (
        field "sportsLibraryIds" (arr (cons (num "7") (cons (num "7") nil)))
          (field "liveRewindWindowMinutes" (num "90") end))))

abbrev keyword_row : Json
keyword_row = obj (field "categoryId" (str "award") (field "keywords" (str "Oscars,Tonys") end))

normalize_admin_category_settings-IsTyped_example :
    IsTyped texts numbers no_order (normalize_admin_category_settings texts numbers no_order raw)
normalize_admin_category_settings-IsTyped_example =
    normalize_admin_category_settings-IsTyped texts numbers no_order raw

normalize_admin_category_settings-IsBounded_example :
    IsBounded texts numbers no_order (normalize_admin_category_settings texts numbers no_order raw)
normalize_admin_category_settings-IsBounded_example =
    normalize_admin_category_settings-IsBounded texts numbers no_order raw

normalize_admin_category_settings-IsUnique_example :
    IsUnique texts numbers no_order (normalize_admin_category_settings texts numbers no_order raw)
normalize_admin_category_settings-IsUnique_example =
    normalize_admin_category_settings-IsUnique texts numbers no_order raw

layers_fit :
    IsLayered texts numbers no_order (normalize_admin_category_settings texts numbers no_order raw)
layers_fit =
    organization_layer_state-IsLayered texts numbers no_order raw
      (refl, (refl, (refl, (refl, (refl, tt)))))

piece : (s : String) → (s == "Oscars,Tonys") ≡ false → IsPiece texts s
piece s e = record { split_once = rw e refl; trim_same = refl }

split-IsSplitting : IsSplitting texts
split-IsSplitting s = elim (Bool-cases (s == "Oscars,Tonys")) [
  | inl e ↦ rw e (piece "Oscars" refl, (piece "Tonys" refl, tt))
  | inr e ↦ rw e (piece s e, tt)
]

pieces : (xs : List String) → contains xs "Oscars,Tonys" ≡ false → All (IsPiece texts) xs
pieces [] e = tt
pieces (x ∷ xs) e = elim (Bool-cases (x == "Oscars,Tonys")) [
  | inl f ↦ absurd (ground arith)
  | inr f ↦ (piece x f, pieces xs (ground arith))
]

rules_pieces :
    (rs : List (String × String × List String))
    → All (λ r. contains r.2 "Oscars,Tonys" ≡ false) rs
    → All (λ r. All (IsPiece texts) r.2) rs
rules_pieces [] h = tt
rules_pieces (r ∷ rs) h = (pieces r.2 h.0, rules_pieces rs h.1)

default_pieces : All (λ r. All (IsPiece texts) r.2) default_event_keyword_rules
default_pieces = rules_pieces default_event_keyword_rules (refl, (refl, (refl, (refl, tt))))

listed-normalize_event_keyword_rows_example :
    listed texts numbers "awards" "oscars"
      (normalize_event_keyword_rows texts numbers no_order (some (arr (cons keyword_row nil))))
    ≡ named texts numbers "awards" "oscars" (
        default_rules texts numbers ++ read_rules texts numbers (some (arr (cons keyword_row nil))))
listed-normalize_event_keyword_rows_example =
    listed-normalize_event_keyword_rows texts numbers no_order (some (arr (cons keyword_row nil)))
      "awards" "oscars" split-IsSplitting default_pieces

buffer_is_clamped :
    (normalize_admin_category_settings texts numbers no_order raw).hls_buffer_seconds ≡ 60
unfolding normalize_admin_category_settings get
buffer_is_clamped = refl

-- A text of an older version that the defaults hide.
older_source_is_lost :
    (normalize_admin_category_settings texts numbers no_order
      (field "inferChannelNameGroups" (bool true) end)).virtual_group_source
    ≡ "group"
unfolding normalize_admin_category_settings get display
older_source_is_lost = refl

older_collapse_is_lost :
    (normalize_admin_category_settings texts numbers no_order
      (field "collapseDuplicateProfileGroups" (bool false) end)).collapse_duplicates
    ≡ true
unfolding normalize_admin_category_settings get display
older_collapse_is_lost = refl
