-- ===== src/Base/Json.antt =====
-- Values of a JavaScript program, as far as `JSON.parse` and its callers handle them.
use Prim.Native.Nat.{ℕ, zero, suc, ◌+◌, ◌-◌, ◌/◌, ◌%◌}
use Prim.Native.Char.{code}
use Prim.Native.String.{String}
use Prim.Native.String
use mathlib.Core.Bool.{Bool, true, false, not, ◌||◌}
use mathlib.Core.List.{List, [], ◌∷◌}
use text.Mathlib.Text.{◌==◌ as str_eq}
use frontend_observability.Base.Tests.{includes, if◌then◌else◌, leb, ltb, ◌==◌}

-- A number. `negative n` is -(n + 1); `fraction s n p` lies strictly between n and n + 1 in
-- magnitude, with sign s (true below zero), and p tells it from the others there.
pub data Num : Type 0 where
  nat : ℕ → Num
  negative : ℕ → Num
  fraction : Bool → ℕ → ℕ → Num
  not_a_number : Num
  infinite : Bool → Num

mutual
  pub data Value : Type 0 where
    undefined : Value
    null : Value
    bool : Bool → Value
    num : Num → Value
    str : String → Value
    array : Elements → Value
    object : Fields → Value

  -- The fields of an object.
  pub data Fields : Type 0 where
    end : Fields
    field : String → Value → Fields → Fields

  -- The elements of an array.
  pub data Elements : Type 0 where
    no_element : Elements
    element : Value → Elements → Elements

-- The first field of that name; the names of an object's own fields are distinct.
abbrev pub get_field : String → Fields → Value
get_field k end = undefined
get_field k (field j v fs) = if str_eq j k then v else get_field k fs

-- `value?.k`
abbrev pub get : String → Value → Value
get k (object fs) = get_field k fs
get k _ = undefined

-- `Object.keys(value)` of an object.
abbrev pub field_names : Fields → List String
field_names end = []
field_names (field k v fs) = k ∷ field_names fs

abbrev pub items : Elements → List Value
items no_element = []
items (element v vs) = v ∷ items vs

-- `value !== null && typeof value === "object" && !Array.isArray(value)`
abbrev pub is_plain_object : Value → Bool
is_plain_object (object fs) = true
is_plain_object _ = false

-- `value.length` of a text counts UTF-16 code units: two for a code point of 65536 or more.
abbrev pub utf16_length : String → ℕ
utf16_length String.[] = 0
utf16_length (String.◌∷◌ c s) = (if ltb (code c) 65536 then 1 else 2) + utf16_length s

-- `text.slice(0, n)`
abbrev pub slice_units : ℕ → String → String
slice_units n String.[] = String.[]
slice_units n (String.◌∷◌ c s) =
    let width = if ltb (code c) 65536 then 1 else 2 in
    let behind = slice_units (n - width) s in if leb width n then String.◌∷◌ c behind else String.[]

-- The numerals of a number.
abbrev pub nth_text : List String → ℕ → String
nth_text [] n = ""
nth_text (x ∷ xs) zero = x
nth_text (x ∷ xs) (suc n) = nth_text xs n

abbrev pub digit : ℕ → String
digit = nth_text ("0" ∷ "1" ∷ "2" ∷ "3" ∷ "4" ∷ "5" ∷ "6" ∷ "7" ∷ "8" ∷ "9" ∷ [])

abbrev pub decimal_behind : ℕ → ℕ → String → String
decimal_behind zero n behind = behind
decimal_behind (suc fuel) n behind =
    let longer = String.◌++◌ (digit (n % 10)) behind in
    let rest = decimal_behind fuel (n / 10) longer in if ltb n 10 then longer else rest

abbrev pub decimal : ℕ → String
decimal n = decimal_behind (suc n) n ""

abbrev pub is_finite : Num → Bool
is_finite not_a_number = false
is_finite (infinite s) = false
is_finite _ = true

-- `typeof value === "string"`
abbrev pub is_string : Value → Bool
is_string (str s) = true
is_string _ = false

abbrev pub is_truthy : Value → Bool
is_truthy undefined = false
is_truthy null = false
is_truthy (bool b) = b
is_truthy (num (nat zero)) = false
is_truthy (num not_a_number) = false
is_truthy (str s) = not (utf16_length s == 0)
is_truthy _ = true

abbrev pub is_text : String → Value → Bool
is_text s (str t) = str_eq t s
is_text s _ = false

-- `object.k = value` for a field that may exist.
abbrev pub set_field : String → Value → Fields → Fields
set_field k v end = field k v end
set_field k v (field j w fs) = if str_eq j k then field j v fs else field j w (set_field k v fs)

unfoldable pub any_not_included : List String → List String → Bool
any_not_included [] allowed = false
any_not_included (k ∷ ks) allowed = not (includes allowed k) || any_not_included ks allowed

-- `Object.keys(object).some((key) => !allowedKeys.includes(key))`
abbrev pub has_unknown_key : Value → List String → Bool
has_unknown_key (object fs) allowed = any_not_included (field_names fs) allowed
has_unknown_key _ allowed = false
