-- ===== src/Settings/State.antt =====
-- What the normalisers read of a JSON value, the language's numbers, and the settings.
use silo_plugin_dispatcharr.Base.{
  ℕ, ◌≤◌, String, ◌≡◌, ◌↔◌, Bool, true, false, Option, none, some, List, [], arith, leb,
  if◌then◌else◌, string_eq, nat_eq,
}
use silo_plugin_dispatcharr.Prefs.Json.{
  Json, null, bool, num, str, arr, obj, to_list, get, truthy, display,
}

-- The language's numbers without NaN, where 0 and -0 are one number. `number v` is `Number(v)`, and
-- none for NaN.
pub record Numbers : Type 1 where
  pub Number : Type 0
  pub number : Option Json → Option Number
  pub of : ℕ → Number
  pub le : Number → Number → Bool
  pub same : Number → Number → Bool
  pub round : Number → Number
  pub is_integer : Number → Bool
  pub text : Number → String
  pub le_total : (a b : Number) → le a b ≡ false → le b a ≡ true
  pub le_refl : (a : Number) → le a a ≡ true
  pub le_of : (a b : ℕ) → le (of a) (of b) ≡ leb a b
  pub same_iff : (a b : Number) → (same a b ≡ true) ↔ (a ≡ b)

-- `v.name`, undefined for what is no object.
abbrev pub property : String → Json → Option Json
property name (obj f) = get name f
property name null = none
property name (bool b) = none
property name (num t) = none
property name (str s) = none
property name (arr xs) = none

-- `v || w`
abbrev pub or_value : Option Json → Option Json → Option Json
or_value none w = w
or_value (some v) w = if truthy v then some v else w

-- `String(v || "")`
abbrev pub text_of : Option Json → String
text_of none = ""
text_of (some v) = if truthy v then display v else ""

-- `items(v)`
abbrev pub items : Option Json → List Json
items none = []
items (some (arr xs)) = to_list xs
items (some null) = []
items (some (bool b)) = []
items (some (num t)) = []
items (some (str s)) = []
items (some (obj f)) = []

-- `v === true`
abbrev pub is_true : Option Json → Bool
is_true none = false
is_true (some (bool b)) = b
is_true (some null) = false
is_true (some (num t)) = false
is_true (some (str s)) = false
is_true (some (arr xs)) = false
is_true (some (obj f)) = false

-- `v !== false`
abbrev pub is_not_false : Option Json → Bool
is_not_false none = true
is_not_false (some (bool b)) = b
is_not_false (some null) = true
is_not_false (some (num t)) = true
is_not_false (some (str s)) = true
is_not_false (some (arr xs)) = true
is_not_false (some (obj f)) = true

pub record TeamPin : Type 0 where
  pub league_id : String
  pub team_name : String
  pub channel_id : String
  pub channel_name : String

pub record CategoryAlias : Type 0 where
  pub source_path : String
  pub alias_path : String

pub record CategoryRename : Type 0 where
  pub source_path : String
  pub display_name : String

pub record GuidePolicy : Type 0 where
  pub is_enabled : Bool
  pub groups : List Json
  pub overrides : List Json

module _ (n : Numbers) where
  -- `Number(v) || d`
  abbrev pub number_or : Option Json → ℕ → n.Number
  number_or v d = elim (n.number v) [
    | none ↦ n.of d
    | some x ↦ if n.same x (n.of 0) then n.of d else x
  ]

  -- `Math.max(low, Math.min(high, x))`
  unfoldable pub clamp_number : ℕ → ℕ → n.Number → n.Number
  clamp_number low high x =
      let least = if n.le (n.of high) x then n.of high else x in
      if n.le (n.of low) least then least else n.of low

  pub clamp_number-IsWithin :
      (low high : ℕ) (x : n.Number)
      → low ≤ high
      → (n.le (n.of low) (clamp_number low high x) ≡ true)
        × (n.le (clamp_number low high x) (n.of high) ≡ true)
  unfolding clamp_number
  clamp_number-IsWithin low high x h = ground (
    arith,
    n.le_total (n.of high) x,
    n.le_refl (n.of high),
    n.le_refl (n.of low),
    n.le_of low high,
  )
