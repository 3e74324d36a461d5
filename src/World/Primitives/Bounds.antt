-- ===== src/World/Primitives/Bounds.antt =====
-- The extents of accepted primitives (scripts/world-contract.mjs).
use aigent_place.Base.{ℕ, ◌+◌, ◌*◌, ◌<◌, ◌≡◌, arith, inl, inr, Option-cases}
use aigent_place.Base.Value.{Value, positive_integer, positive_integer_pos}
use aigent_place.Base.Outcome.{Outcome, ok, thrown, ◌>>=◌, chain-eq-ok}
use aigent_place.World.Primitives.{
  Primitive, box, sphere, capsule, cylinder, cone, panel, unknown, Extents, required, sized,
  sized_or_zero, cuboid, upright, primitive_half_extents,
}

sized_pos : (size : Value) {n : ℕ} → sized size ≡ ok n → 0 < n
unfolding sized required
sized_pos size {n} h = elim (Option-cases (positive_integer size)) [
  | inl e ↦ let k : ◌≡◌ {A = Outcome ℕ} (thrown _) (ok n) = rw e at h in absurd (ground arith)
  | inr (m, e) ↦
      let k : ◌≡◌ {A = Outcome ℕ} (ok m) (ok n) = rw e at h in
      let p = (positive_integer_pos size m e).0 in ground arith
]

-- Along each axis there is something.
pub record IsSolid (e : Extents) : Type 0 where
  pub wide : 0 < e.x
  pub tall : 0 < e.y
  pub deep : 0 < e.z

cuboid-IsSolid : (x y z : Value) {e : Extents} → cuboid x y z ≡ ok e → IsSolid e
unfolding cuboid
cuboid-IsSolid x y z {e} h =
    let (a, sx, h1) =
      chain-eq-ok (sized x)
        (λ x'. sized y >>= λ y'. sized z >>= λ z'. ok (record { x = x'; y = y'; z = z' })) h in
    let (b, sy, h2) =
      chain-eq-ok (sized y) (λ y'. sized z >>= λ z'. ok (record { x = a; y = y'; z = z' })) h1 in
    let (c, sz, h3) = chain-eq-ok (sized z) (λ z'. ok (record { x = a; y = b; z = z' })) h2 in
    ground (arith, sized_pos x sx, sized_pos y sy, sized_pos z sz, h3)

upright-IsSolid : (radius height : Value) {e : Extents} → upright radius height ≡ ok e → IsSolid e
unfolding upright
upright-IsSolid radius height {e} h =
    let (r, sr, h1) =
      chain-eq-ok (sized radius)
        (λ r. sized height >>= λ h'. ok (record { x = 2 * r; y = h'; z = 2 * r })) h in
    let (t, st, h2) =
      chain-eq-ok (sized height) (λ h'. ok (record { x = 2 * r; y = h'; z = 2 * r })) h1 in
    ground (arith, sized_pos radius sr, sized_pos height st, h2)

-- A primitive that is accepted has a positive extent along each axis, whatever its kind.
pub primitive_half_extents-IsSolid :
    (p : Primitive) {e : Extents} → primitive_half_extents p ≡ ok e → IsSolid e
unfolding primitive_half_extents
primitive_half_extents-IsSolid (box x y z) h = cuboid-IsSolid x y z h
primitive_half_extents-IsSolid (panel x y z) h = cuboid-IsSolid x y z h
primitive_half_extents-IsSolid (cylinder r t) h = upright-IsSolid r t h
primitive_half_extents-IsSolid (cone r t) h = upright-IsSolid r t h
primitive_half_extents-IsSolid unknown h = absurd (ground arith)
primitive_half_extents-IsSolid (sphere radius) h =
    let (r, sr, h1) =
      chain-eq-ok (sized radius) (λ r. ok (record { x = 2 * r; y = 2 * r; z = 2 * r })) h in
    ground (arith, sized_pos radius sr, h1)
primitive_half_extents-IsSolid (capsule radius length) h =
    let (r, sr, h1) =
      chain-eq-ok (sized radius)
        (λ r. sized_or_zero length >>= λ l. ok (record { x = 2 * r; y = l + 2 * r; z = 2 * r }))
        h in
    let (l, sl, h2) =
      chain-eq-ok (sized_or_zero length) (λ l. ok (record { x = 2 * r; y = l + 2 * r; z = 2 * r }))
        h1 in
    ground (arith, sized_pos radius sr, h2)
