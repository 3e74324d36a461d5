-- ===== src/Ruleset/Catalog.antt =====
-- scripts/ruleset-contract.mjs: `PARAMETER_CATALOG`, and what `PARAMETER_CATALOG[path]` gives.
use aigent_place.Base.{
  String, Bool, true, false, Option, none, some, List, [], ◌∷◌, ◌++◌, if◌then◌else◌, ◌==◌,
  string_key,
}
use aigent_place.Base.Lists.{any}
use aigent_place.Base.Map.{Map, lookup}
use aigent_place.Ruleset.Setting.{Setting, number, integer}

pub data Migration : Type 0 where
  grandfather clamp evict : Migration

-- `is_int` is a `type` of "int"; the other type is "number".
pub record Spec : Type 0 where
  pub is_int : Bool
  pub min : Setting
  pub max : Setting
  pub default : Setting
  pub meta : Bool
  pub migration : Migration

abbrev pub movement_parameters : Map String Spec
movement_parameters =
    (
      "movement.lease_ttl_ms",
      record {
        is_int = true;
        min = integer 1000;
        max = integer 60000;
        default = integer 10000;
        meta = false;
        migration = clamp;
      },
    )
    ∷ (
      "movement.max_speed_mm_per_s",
      record {
        is_int = true;
        min = integer 1;
        max = integer 50000;
        default = integer 5000;
        meta = false;
        migration = clamp;
      },
    )
    ∷ (
      "movement.blocked_lease_ticks",
      record {
        is_int = true;
        min = integer 1;
        max = integer 200;
        default = integer 20;
        meta = false;
        migration = clamp;
      },
    )
    ∷ (
      "movement.displacement_step_mm",
      record {
        is_int = true;
        min = integer 1;
        max = integer 1000;
        default = integer 50;
        meta = false;
        migration = clamp;
      },
    )
    ∷ (
      "movement.max_displacement_radius_mm",
      record {
        is_int = true;
        min = integer 0;
        max = integer 100000;
        default = integer 5000;
        meta = false;
        migration = clamp;
      },
    )
    ∷ (
      "movement.unstick_blocked_ticks",
      record {
        is_int = true;
        min = integer 1;
        max = integer 2000;
        default = integer 40;
        meta = false;
        migration = clamp;
      },
    )
    ∷ (
      "movement.unstick_rate_per_minute",
      record {
        is_int = true;
        min = integer 1;
        max = integer 60;
        default = integer 6;
        meta = false;
        migration = clamp;
      },
    )
    ∷ []

abbrev pub shape_parameters : Map String Spec
shape_parameters =
    (
      "shape.body_max_parts",
      record {
        is_int = true;
        min = integer 1;
        max = integer 256;
        default = integer 32;
        meta = false;
        migration = grandfather;
      },
    )
    ∷ (
      "shape.body_max_joints",
      record {
        is_int = true;
        min = integer 0;
        max = integer 256;
        default = integer 32;
        meta = false;
        migration = grandfather;
      },
    )
    ∷ (
      "shape.object_max_parts",
      record {
        is_int = true;
        min = integer 1;
        max = integer 256;
        default = integer 64;
        meta = false;
        migration = grandfather;
      },
    )
    ∷ (
      "shape.object_max_joints",
      record {
        is_int = true;
        min = integer 0;
        max = integer 256;
        default = integer 64;
        meta = false;
        migration = grandfather;
      },
    )
    ∷ (
      "shape.max_extent_mm",
      record {
        is_int = true;
        min = integer 1;
        max = integer 100000;
        default = integer 10000;
        meta = false;
        migration = clamp;
      },
    )
    ∷ []

abbrev pub budget_parameters : Map String Spec
budget_parameters =
    (
      "budget.objects_per_aigent",
      record {
        is_int = true;
        min = integer 0;
        max = integer 10000;
        default = integer 100;
        meta = false;
        migration = evict;
      },
    )
    ∷ (
      "budget.area_mm2_per_aigent",
      record {
        is_int = true;
        min = integer 0;
        max = integer 1000000000000;
        default = integer 25000000;
        meta = false;
        migration = evict;
      },
    )
    ∷ (
      "budget.chunk_touches_per_hour",
      record {
        is_int = true;
        min = integer 1;
        max = integer 100000;
        default = integer 500;
        meta = false;
        migration = clamp;
      },
    )
    ∷ (
      "lifecycle.despawn_timeout_ms",
      record {
        is_int = true;
        min = integer 1000;
        max = integer 86400000;
        default = integer 300000;
        meta = false;
        migration = clamp;
      },
    )
    ∷ []

abbrev pub traffic_parameters : Map String Spec
traffic_parameters =
    (
      "speech.radius_mm",
      record {
        is_int = true;
        min = integer 0;
        max = integer 100000;
        default = integer 30000;
        meta = false;
        migration = clamp;
      },
    )
    ∷ (
      "speech.rate_per_minute",
      record {
        is_int = true;
        min = integer 0;
        max = integer 600;
        default = integer 60;
        meta = false;
        migration = clamp;
      },
    )
    ∷ (
      "channel.post_rate_per_minute",
      record {
        is_int = true;
        min = integer 0;
        max = integer 600;
        default = integer 30;
        meta = false;
        migration = clamp;
      },
    )
    ∷ (
      "action.submission_rate_per_second",
      record {
        is_int = true;
        min = integer 1;
        max = integer 100;
        default = integer 20;
        meta = false;
        migration = clamp;
      },
    )
    ∷ (
      "physics.min_object_thickness_mm",
      record {
        is_int = true;
        min = integer 1;
        max = integer 1000;
        default = integer 10;
        meta = false;
        migration = clamp;
      },
    )
    ∷ (
      "physics.sweep_max_mm",
      record {
        is_int = true;
        min = integer 1;
        max = integer 100000;
        default = integer 5000;
        meta = false;
        migration = clamp;
      },
    )
    ∷ []

abbrev pub governance_parameters : Map String Spec
governance_parameters =
    (
      "governance.quorum_ratio",
      record {
        is_int = false;
        min = number false 1 100;
        max = integer 1;
        default = number false 1 10;
        meta = true;
        migration = clamp;
      },
    )
    ∷ (
      "governance.pass_threshold",
      record {
        is_int = false;
        min = number false 1 2;
        max = integer 1;
        default = number false 1 2;
        meta = true;
        migration = clamp;
      },
    )
    ∷ (
      "governance.vote_duration_ticks",
      record {
        is_int = true;
        min = integer 1200;
        max = integer 2592000;
        default = integer 72000;
        meta = true;
        migration = clamp;
      },
    )
    ∷ (
      "governance.soak_delay_ticks",
      record {
        is_int = true;
        min = integer 200;
        max = integer 120000;
        default = integer 1200;
        meta = true;
        migration = clamp;
      },
    )
    ∷ (
      "governance.meta_quorum_ratio",
      record {
        is_int = false;
        min = number false 1 100;
        max = integer 1;
        default = number false 1 5;
        meta = true;
        migration = clamp;
      },
    )
    ∷ (
      "governance.meta_pass_threshold",
      record {
        is_int = false;
        min = number false 1 2;
        max = integer 1;
        default = number false 2 3;
        meta = true;
        migration = clamp;
      },
    )
    ∷ (
      "governance.meta_vote_duration_ticks",
      record {
        is_int = true;
        min = integer 1200;
        max = integer 2592000;
        default = integer 216000;
        meta = true;
        migration = clamp;
      },
    )
    ∷ (
      "governance.meta_soak_delay_ticks",
      record {
        is_int = true;
        min = integer 200;
        max = integer 120000;
        default = integer 6000;
        meta = true;
        migration = clamp;
      },
    )
    ∷ []

unfoldable pub catalog : Map String Spec
catalog =
    movement_parameters ++ shape_parameters ++ budget_parameters ++ traffic_parameters
    ++ governance_parameters

-- The properties that every object has from `Object.prototype`.
abbrev pub inherited_names : List String
inherited_names =
    "constructor" ∷ "__proto__" ∷ "__defineGetter__" ∷ "__defineSetter__" ∷ "__lookupGetter__"
    ∷ "__lookupSetter__" ∷ "hasOwnProperty" ∷ "isPrototypeOf" ∷ "propertyIsEnumerable"
    ∷ "toLocaleString" ∷ "toString" ∷ "valueOf" ∷ []

-- `PARAMETER_CATALOG[path]`: an entry, an inherited property (which has no `migration`), or nothing.
pub data Entry : Type 0 where
  spec : Spec → Entry
  inherited nothing : Entry

unfoldable pub entry_or : Bool → Option Spec → Entry
entry_or is_inherited (some s) = spec s
entry_or is_inherited none = if is_inherited then inherited else nothing

unfoldable pub entry_of : String → Entry
unfolding entry_or
entry_of path = entry_or (any (λ name. name == path) inherited_names) (lookup path catalog)
