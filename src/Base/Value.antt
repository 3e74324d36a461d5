-- ===== src/Base/Value.antt =====
-- The JavaScript values of a field that the program checks before it uses it. Numbers are integers:
-- `negative n` is -(n + 1); arrays and objects are modelled by types of their own.
use Prim.Native.Nat.{ℕ, zero, suc, ◌<◌}
use Prim.Native.String.{String}
use mathlib.Core.Path.{◌≡◌}
use mathlib.Core.Logic.{◌↔◌}
use mathlib.Core.Bool.{Bool, true, false, not}
use mathlib.Core.Option.{Option, none, some}
use native.Mathlib.Omega.{arith}
use text.Mathlib.Text.{◌==◌ as str_eq}
use text.Mathlib.TextEquality.{eq_iff}
use aigent_place.Base.Tests.{leb, ltb, eqb, if◌then◌else◌}
use aigent_place.Base.Keys.{Key}

pub data Value : Type 0 where
  undefined null : Value
  boolean : Bool → Value
  number : ℕ → Value
  negative : ℕ → Value
  string : String → Value

abbrev pub max_safe_integer : ℕ
max_safe_integer = 9007199254740991

-- `===`
unfoldable pub strict_equal : Value → Value → Bool
strict_equal undefined undefined = true
strict_equal null null = true
strict_equal (boolean true) (boolean b) = b
strict_equal (boolean false) (boolean b) = not b
strict_equal (number a) (number b) = eqb a b
strict_equal (negative a) (negative b) = eqb a b
strict_equal (string s) (string t) = str_eq s t
strict_equal _ _ = false

pub strict_equal_iff : (a b : Value) → (strict_equal a b ≡ true) ↔ (a ≡ b)
unfolding strict_equal
strict_equal_iff (string s) (string t) = ground (arith, eq_iff s t)
strict_equal_iff (boolean true) b = ground arith
strict_equal_iff (boolean false) b = ground arith
strict_equal_iff a b = ground arith

instance abbrev pub value_key : Key Value
value_key = record { same = strict_equal; same_iff = strict_equal_iff }

-- `Number.isSafeInteger(v) && v > 0`, with the number
unfoldable pub positive_integer : Value → Option ℕ
positive_integer (number zero) = none
positive_integer (number (suc n)) = if leb (suc n) max_safe_integer then some (suc n) else none
positive_integer _ = none

-- `Number.isSafeInteger(v) && v >= 0`, with the number
unfoldable pub non_negative_integer : Value → Option ℕ
non_negative_integer (number n) = if leb n max_safe_integer then some n else none
non_negative_integer _ = none

-- `v ?? d`
unfoldable pub or_else : Value → Value → Value
or_else undefined d = d
or_else null d = d
or_else v d = v

-- `Number.isSafeInteger(v)` for a value compared from above, with the number if it is not negative
unfoldable pub is_safe_integer : Value → Bool
is_safe_integer (number n) = leb n max_safe_integer
is_safe_integer (negative n) = ltb n max_safe_integer
is_safe_integer _ = false

-- `a <= b` for integers; any other pair compares as `false`
unfoldable pub less_equal : Value → Value → Bool
less_equal (number a) (number b) = leb a b
less_equal (negative a) (number b) = true
less_equal (negative a) (negative b) = leb b a
less_equal _ _ = false

-- `typeof v === "string"`
unfoldable pub is_string : Value → Bool
is_string (string s) = true
is_string _ = false

-- `typeof v === "string" && v.length > 0`, with the string
unfoldable pub non_empty_string : Value → Option String
non_empty_string (string s) = if str_eq s "" then none else some s
non_empty_string _ = none

-- `v ? … : …`
unfoldable pub truthy : Value → Bool
truthy undefined = false
truthy null = false
truthy (boolean b) = b
truthy (number n) = not (eqb n 0)
truthy (negative n) = true
truthy (string s) = not (str_eq s "")

-- `null` or the string
abbrev pub nullable_string : Option String → Value
nullable_string none = null
nullable_string (some s) = string s

pub positive_integer_pos :
    (v : Value) (n : ℕ) → positive_integer v ≡ some n → (0 < n) × (v ≡ number n)
unfolding positive_integer
positive_integer_pos (number (suc m)) n h = ground arith
positive_integer_pos (number zero) n h = ground arith
positive_integer_pos v n h = ground arith
