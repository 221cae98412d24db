-- ===== src/Prefs/Json/Equal.antt =====
-- Equality of values. `JSON.stringify` prints different values differently, so the code's
-- comparison of printed texts is equality of values.
use mathlib.Core.Bool.{decide, decide_iff}
use silo_plugin_dispatcharr.Base.{
  String, Bool, true, false, ◌≡◌, ◌≢◌, refl, arith, Eq, ◌==◌, string_eq, beq_refl, Option, none,
  some,
}
use silo_plugin_dispatcharr.Prefs.Json.Values.{Json, null}

pub ne_of_beq : (a b : String) → (a == b) ≡ false → a ≢ b
ne_of_beq a b h = λ e. ground (arith, string_eq.beq_iff a b)

decide_by : (a b : String) (t : Bool) → (a == b) ≡ t → Dec (a ≡ b)
decide_by a b true e = yes ((string_eq.beq_iff a b).0 e)
decide_by a b false e = no (ne_of_beq a b e)

unfoldable pub String-discrete : Discrete String
unfolding decide_by
String-discrete a b = decide_by a b (a == b) refl

unfoldable pub Json-discrete : Discrete Json
unfolding String-discrete
Json-discrete = hlevel String-discrete

instance abbrev pub json_eq : Eq Json
json_eq = record {
  beq = λ a b. decide (Json-discrete a b);
  beq_iff = λ a b. decide_iff (Json-discrete a b);
}

-- `undefined` and `null` compare equal: both are printed as "null".
abbrev or_null : Option Json → Json
or_null none = null
or_null (some v) = v

unfoldable pub prefs_value_equal : Option Json → Option Json → Bool
prefs_value_equal left right = or_null left == or_null right

pub prefs_value_equal_self : (v : Option Json) → prefs_value_equal v v ≡ true
unfolding prefs_value_equal
prefs_value_equal_self v = beq_refl (or_null v)

-- Unequal values are not both undefined.
pub prefs_value_equal-none : prefs_value_equal none none ≡ true
prefs_value_equal-none = prefs_value_equal_self none
