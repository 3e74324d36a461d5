-- ===== src/Ruleset/Constitution/Complete.antt =====
-- `validateCandidate` of scripts/ruleset-contract.mjs refuses nothing that is constitutional.
use aigent_place.Base.{String, some, ◌≡◌, string_key}
use aigent_place.Base.Map.{Map, lookup}
use aigent_place.Ruleset.Setting.{Setting}
use aigent_place.Ruleset.Catalog.{Spec, catalog}

-- A path of the catalog.
abbrev pub IsKnown : String → Type 0
IsKnown path = (s : Spec) × (lookup path catalog ≡ some s)
