-- ===== src/ArchitectureRelations/Relation.antt =====
-- _relation and the relations of dependencies (indexing/relations.py). `identify` is
-- compute_architecture_relation_id, a SHA-256 hash, and `digest` the first eight characters of the
-- SHA-256 of a relation's fields; `property_keys` are the texts that _SPRING_PROPERTY_RE finds in a
-- snippet; `locate` is root_relative and `application_names` local_spring_application_names, which
-- read the file system; `compile` is re.compile.
use systemlens.Prelude.{ℕ, Option, none, some, List, [], ◌∷◌, if◌then◌else◌}
use systemlens.Prelude.Dict.{Dict, get, put}
use systemlens.Text.{Text, text_eq, codes}
use systemlens.Models.{ArchitectureRelation}
use systemlens.DataOperations.Projection.{DiscoveredModule, module_identity}
use systemlens.Graph.Paths.{Compile}

pub record ModuleDependency : Type 0 where
  pub source : Text
  pub target : Text

-- The keyword arguments of _relation that a site gives.
pub record RelationEvidence : Type 0 where
  pub origin : Text
  pub confidence : Text
  pub in_module : Option Text
  pub path : Option Text
  pub start_line : Option ℕ
  pub end_line : Option ℕ
  pub qualified_name : Option Text

pub record Outside : Type 0 where
  pub identify : Text → Text → Text → Text → Text → Option Text → Option ℕ → Text
  pub digest : ArchitectureRelation → Text
  pub property_keys : Text → List Text
  pub locate : DiscoveredModule → Text → Text
  pub application_names : DiscoveredModule → List Text
  pub compile : Compile

-- _relation
unfoldable pub relation_of :
    Outside → Text → Text → Text → Text → Text → RelationEvidence → ArchitectureRelation
relation_of o source_kind source_name relation target_kind target_name v = record {
  id = o.identify source_kind source_name relation target_kind target_name v.path v.start_line;
  source_kind = source_kind;
  source_name = source_name;
  relation = relation;
  target_kind = target_kind;
  target_name = target_name;
  origin = v.origin;
  confidence = v.confidence;
  in_module = v.in_module;
  path = v.path;
  start_line = v.start_line;
  end_line = v.end_line;
  qualified_name = v.qualified_name;
}

unfoldable pub kind_of_module : DiscoveredModule → Text
kind_of_module m = if m.starts_application then codes "microservice" else codes "module"

unfoldable pub module_kinds : Dict Text Text → List DiscoveredModule → Dict Text Text
unfolding kind_of_module module_identity
module_kinds d [] = d
module_kinds d (m ∷ ms) = module_kinds (put d (module_identity m) (kind_of_module m)) ms

-- module_kinds.get(name, "module")
unfoldable pub kind_or_module : Dict Text Text → Text → Text
kind_or_module kinds name = elim (get kinds name) [ none ↦ codes "module" | some kind ↦ kind ]

module _ (o : Outside) (kinds : Dict Text Text) where
  unfoldable pub dependency_relation : ModuleDependency → ArchitectureRelation
  unfolding relation_of kind_or_module
  dependency_relation d =
      relation_of o (kind_or_module kinds d.source) d.source (codes "depends_on")
        (kind_or_module kinds d.target) d.target
        (record {
          origin = codes "derived";
          confidence = codes "high";
          in_module = some d.source;
          path = none;
          start_line = none;
          end_line = none;
          qualified_name = none;
        })
