-- ===== src/Prefs/Json/Values.antt =====
-- The values, and objects as lists of fields in insertion order.
use Prim.Native.String.{◌++◌ as concat}
use silo_plugin_dispatcharr.Base.{
  String, Bool, true, false, ◌≡◌, refl, not, arith, List, [], ◌∷◌, Option, none, some,
  if◌then◌else◌, ◌==◌, string_eq, contains,
}

mutual
  pub data Json : Type 0 where
    null : Json
    bool : Bool → Json
    num : String → Json
    str : String → Json
    arr : Items → Json
    obj : Fields → Json

  pub data Items : Type 0 where
    nil : Items
    cons : Json → Items → Items

  pub data Fields : Type 0 where
    end : Fields
    field : String → Json → Fields → Fields

abbrev pub to_list : Items → List Json
to_list nil = []
to_list (cons x xs) = x ∷ to_list xs

abbrev pub of_list : List Json → Items
of_list [] = nil
of_list (x ∷ xs) = cons x (of_list xs)

-- An array of strings.
abbrev pub of_strings : List String → Items
of_strings [] = nil
of_strings (s ∷ ss) = cons (str s) (of_strings ss)

-- `o[k]`, `none` for undefined.
unfoldable pub get : String → Fields → Option Json
get k end = none
get k (field j v r) = if j == k then some v else get k r

-- `o[k] = v`: a new key goes to the end.
unfoldable pub put : String → Json → Fields → Fields
put k v end = field k v end
put k v (field j w r) = if j == k then field k v r else field j w (put k v r)

-- `delete o[k]`
unfoldable pub remove : String → Fields → Fields
remove k end = end
remove k (field j w r) = if j == k then remove k r else field j w (remove k r)

-- `Object.keys(o)`
abbrev pub keys : Fields → List String
keys end = []
keys (field k v r) = k ∷ keys r

-- `!!v`
abbrev pub truthy : Json → Bool
truthy null = false
truthy (bool b) = b
truthy (num t) = not (t == "0")
truthy (str s) = not (s == "")
truthy (arr xs) = true
truthy (obj f) = true

-- `String(v)`, and how `String` prints an element of an array.
unfoldable mutual
  pub display : Json → String
  display null = "null"
  display (bool true) = "true"
  display (bool false) = "false"
  display (num t) = t
  display (str s) = s
  display (arr xs) = display_items xs
  display (obj f) = "[object Object]"

  pub display_element : Json → String
  display_element null = ""
  display_element (bool true) = "true"
  display_element (bool false) = "false"
  display_element (num t) = t
  display_element (str s) = s
  display_element (arr xs) = display_items xs
  display_element (obj f) = "[object Object]"

  pub display_items : Items → String
  display_items nil = ""
  display_items (cons x xs) = display_tail (display_element x) xs

  pub display_tail : String → Items → String
  display_tail s nil = s
  display_tail s (cons x xs) = concat s (concat "," (display_tail (display_element x) xs))

pub get-put :
    (k j : String) (v : Json) (f : Fields)
    → get j (put k v f) ≡ (if k == j then some v else get j f)
unfolding get put
get-put k j v end = refl
get-put k j v (field i w r) =
    ground
      (arith, string_eq.beq_iff k j, string_eq.beq_iff i k, string_eq.beq_iff i j, get-put k j v r)

pub get-remove :
    (k j : String) (f : Fields) → get j (remove k f) ≡ (if k == j then none else get j f)
unfolding get remove
get-remove k j end = ground arith
get-remove k j (field i w r) =
    ground
      (arith, string_eq.beq_iff k j, string_eq.beq_iff i k, string_eq.beq_iff i j, get-remove k j r)

-- A key that an object does not list has no value.
pub get-absent : (k : String) (f : Fields) → contains (keys f) k ≡ false → get k f ≡ none
unfolding get
get-absent k end h = refl
get-absent k (field j v r) h = ground (arith, get-absent k r)
