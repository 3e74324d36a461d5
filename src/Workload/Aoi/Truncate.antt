-- ===== src/Workload/Aoi/Truncate.antt =====
-- What `truncateAoi` of scripts/workload-contract.mjs keeps.
use aigent_place.Base.{◌⊎◌, ◌<◌, ◌≤◌, ℕ, min, false, none, some, List, [], ◌∷◌, ◌++◌, map, ◌≡◌}
use mathlib.Core.List.{Perm}
use aigent_place.Base.Lists.{All, length}
use aigent_place.Base.Outcome.{Outcome, ok, thrown}
use aigent_place.Base.Value.{Value}
use aigent_place.Workload.Aoi.{Entity, no_object, entity, Point, Ranked, distance_squared, has_seen}

-- `r` is the entity's id with its distance from the focus.
abbrev pub IsRankOf : Point → Entity → Ranked → Type 0
IsRankOf focus no_object r = ⊥
IsRankOf focus (entity none at) r = ⊥
IsRankOf focus (entity (some id) at) r = (r.id ≡ id) × (r.distance_sq ≡ distance_squared focus at)

-- The entities' ranks, one for each.
abbrev pub AreRanksOf : Point → List Entity → List Ranked → Type 0
AreRanksOf focus [] [] = Unit
AreRanksOf focus (e ∷ es) (r ∷ rs) = IsRankOf focus e r × AreRanksOf focus es rs
AreRanksOf focus _ _ = ⊥

abbrev pub Distinct : List ℕ → Type 0
Distinct [] = Unit
Distinct (id ∷ ids) = (has_seen id ids ≡ false) × Distinct ids

abbrev pub ids_of : List Ranked → List ℕ
ids_of rs = map (λ (r : Ranked). r.id) rs

ranked_or_none : Outcome (List Ranked) → List Ranked
ranked_or_none (ok ranked) = ranked
ranked_or_none (thrown e) = []

abbrev pub AreRanked : Point → List ℕ → List Entity → List Ranked → Type 0
AreRanked focus seen entities ranked =
    AreRanksOf focus entities ranked
    × Distinct (ids_of ranked)
    × All (λ (r : Ranked). has_seen r.id seen ≡ false) ranked

-- `n` is nearer than `f`, or as near and not behind it by id.
abbrev pub NoFarther : Ranked → Ranked → Type 0
NoFarther n f = (n.distance_sq < f.distance_sq) ⊎ ((n.distance_sq ≡ f.distance_sq) × (n.id ≤ f.id))

abbrev pub NearestFirst : List Ranked → Type 0
NearestFirst [] = Unit
NearestFirst (n ∷ rest) = All (λ f. NoFarther n f) rest × NearestFirst rest

-- The ids `kept` of the entities are those of the `near` ranks, in order.
pub record IsTruncation (focus : Point) (entities : List Entity) (cap : ℕ) (kept : List ℕ)
    : Type 0 where
  pub near : List Ranked
  pub far : List Ranked
  pub ranked : List Ranked
  pub ranks : AreRanksOf focus entities ranked
  pub distinct : Distinct (ids_of ranked)
  pub all : Perm (near ++ far) ranked
  pub size : length near ≡ min cap (length entities)
  pub ordered : NearestFirst near
  pub nearest_first : All (λ f. All (λ n. NoFarther n f) near) far
  pub kept_ids : kept ≡ ids_of near

kept_or_none : Outcome (List ℕ) → List ℕ
kept_or_none (ok kept) = kept
kept_or_none (thrown e) = []
