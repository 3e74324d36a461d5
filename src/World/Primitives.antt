-- ===== src/World/Primitives.antt =====
-- scripts/world-contract.mjs: `primitiveHalfExtents`. The extents are in half millimetres.
pub mod Bounds
use aigent_place.Base.{ℕ, ◌+◌, ◌*◌, Option, none, some}
use aigent_place.Base.Value.{Value, positive_integer, non_negative_integer}
use aigent_place.Base.Outcome.{Outcome, ok, thrown, Error, invalid_argument, ◌>>=◌}

-- A primitive by its `kind`, its sizes unchecked; `unknown` is any other kind.
pub data Primitive : Type 0 where
  box : (size_x_mm size_y_mm size_z_mm : Value) → Primitive
  sphere : (radius_mm : Value) → Primitive
  capsule : (radius_mm segment_length_mm : Value) → Primitive
  cylinder cone : (radius_mm height_mm : Value) → Primitive
  panel : (width_mm height_mm thickness_mm : Value) → Primitive
  unknown : Primitive

pub record Extents : Type 0 where
  pub x : ℕ
  pub y : ℕ
  pub z : ℕ

-- `finiteInteger`, which throws when it fails
unfoldable pub required : Option ℕ → Outcome ℕ
required none = thrown invalid_argument
required (some n) = ok n

unfoldable pub sized : Value → Outcome ℕ
unfolding required
sized size = required (positive_integer size)

unfoldable pub sized_or_zero : Value → Outcome ℕ
unfolding required
sized_or_zero size = required (non_negative_integer size)

unfoldable pub cuboid : Value → Value → Value → Outcome Extents
cuboid x y z = do x' ← sized x; y' ← sized y; z' ← sized z; ok (record { x = x'; y = y'; z = z' })

unfoldable pub upright : Value → Value → Outcome Extents
upright radius height = do
  r ← sized radius
  h ← sized height
  ok (record { x = 2 * r; y = h; z = 2 * r })

unfoldable pub primitive_half_extents : Primitive → Outcome Extents
primitive_half_extents (box x y z) = cuboid x y z
primitive_half_extents (sphere radius) =
    sized radius >>= λ r. ok (record { x = 2 * r; y = 2 * r; z = 2 * r })
primitive_half_extents (capsule radius length) = sized radius >>= λ r.
    sized_or_zero length >>= λ l. ok (record { x = 2 * r; y = l + 2 * r; z = 2 * r })
primitive_half_extents (cylinder radius height) = upright radius height
primitive_half_extents (cone radius height) = upright radius height
primitive_half_extents (panel width height thickness) = cuboid width height thickness
primitive_half_extents unknown = thrown invalid_argument
