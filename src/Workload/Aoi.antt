-- ===== src/Workload/Aoi.antt =====
-- scripts/workload-contract.mjs: the area of interest, `truncateAoi` and `aoiCapForRole`. Coordinates
-- are integers, and an id is the number that its decimal text names.
pub mod Truncate
use aigent_place.Base.{
  ℕ, ◌+◌, ◌-◌, ◌*◌, min, Bool, Option, none, some, List, [], ◌∷◌, map, if◌then◌else◌, ltb, eqb,
}
use aigent_place.Base.Int.{ℤ, pos, negsuc}
use aigent_place.Base.Lists.{any, take}
use aigent_place.Base.Sort.{sort_by}
use aigent_place.Base.Value.{Value, string, positive_integer, strict_equal}
use aigent_place.Base.Outcome.{Outcome, ok, thrown, invalid_argument, ◌>>=◌}
use aigent_place.Double.{round_whole}
use aigent_place.Workload.Policy.{Policy}

abbrev pub aoi_hard_cap : ℕ
aoi_hard_cap = 100

-- `Math.abs(a - b)`
unfoldable pub gap : ℤ → ℤ → ℕ
gap (pos a) (pos b) = (a - b) + (b - a)
gap (negsuc a) (negsuc b) = (a - b) + (b - a)
gap (pos a) (negsuc b) = a + b + 1
gap (negsuc a) (pos b) = a + b + 1

pub record Point : Type 0 where
  pub x : ℤ
  pub y : ℤ
  pub z : ℤ

-- An element of `entities`: no object, or an object with an id, if it has one, and a place.
pub data Entity : Type 0 where
  no_object : Entity
  entity : (id : Option ℕ) → Point → Entity

-- In doubles: every operation rounds its result.
unfoldable pub distance_squared : Point → Point → ℕ
unfolding gap
distance_squared focus at =
    let dx = round_whole (gap at.x focus.x) in
    let dy = round_whole (gap at.y focus.y) in
    let dz = round_whole (gap at.z focus.z) in
    round_whole
      (round_whole (round_whole (dx * dx) + round_whole (dy * dy)) + round_whole (dz * dz))

pub record Ranked : Type 0 where
  pub id : ℕ
  pub distance_sq : ℕ

-- The order of `ranked.sort`: nearest first, and by id at the same distance.
unfoldable pub comes_before : Ranked → Ranked → Bool
comes_before left right =
    if eqb left.distance_sq right.distance_sq
    then ltb left.id right.id
    else ltb left.distance_sq right.distance_sq

unfoldable pub has_seen : ℕ → List ℕ → Bool
unfolding any
has_seen id seen = any (eqb id) seen

-- The body of `entities.map`, for an entity and the ids seen before it
unfoldable pub rank_one : Point → List ℕ → Entity → Outcome Ranked
rank_one focus seen no_object = thrown invalid_argument
rank_one focus seen (entity none at) = thrown invalid_argument
rank_one focus seen (entity (some id) at) =
    if has_seen id seen
    then thrown invalid_argument
    else ok (record { id = id; distance_sq = distance_squared focus at })

unfoldable pub rank : Point → List ℕ → List Entity → Outcome (List Ranked)
rank focus seen [] = ok []
rank focus seen (e ∷ entities) = rank_one focus seen e >>= λ first.
    rank focus (first.id ∷ seen) entities >>= λ rest. ok (first ∷ rest)

unfoldable pub nearest : ℕ → List Ranked → List ℕ
nearest cap ranked = map (λ (entry : Ranked). entry.id) (take cap (sort_by comes_before ranked))

-- `none` is a value of `entities` that is no array.
unfoldable pub truncate_from : Option (List Entity) → Point → Option ℕ → Outcome (List ℕ)
truncate_from entities focus none = thrown invalid_argument
truncate_from none focus (some cap) = thrown invalid_argument
truncate_from (some entities) focus (some cap) =
    rank focus [] entities >>= λ ranked. ok (nearest cap ranked)

unfoldable pub truncate_aoi : Option (List Entity) → Point → Value → Outcome (List ℕ)
unfolding truncate_from
truncate_aoi entities focus cap = truncate_from entities focus (positive_integer cap)

unfoldable pub aoi_cap_for_role : Policy → Value → Outcome ℕ
aoi_cap_for_role policy role =
    if strict_equal role (string "aigent")
    then ok aoi_hard_cap
    else if strict_equal role (string "viewer")
    then ok (min policy.viewer_aoi_cap aoi_hard_cap)
    else thrown invalid_argument
