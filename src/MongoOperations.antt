-- ===== src/MongoOperations.antt =====
-- domain/mongo_operations.py: what a Spring Data MongoDB call does.
pub mod Laws
mod Examples
use systemlens.Prelude.{Bool, true, false, ◌||◌, Option, none, some, List, [], ◌∷◌}
use systemlens.Prelude.Dict.{Dict, get}
use systemlens.Text.{Text, text_eq, codes}

pub data MongoAction : Type 0 where
  read insert update delete create_or_update read_update : MongoAction

pub data Facet : Type 0 where
  reads writes : Facet

abbrev pub actions : Dict Text MongoAction
actions =
    (codes "aggregate", MongoAction.read)
    ∷ (codes "count", MongoAction.read)
    ∷ (codes "exists", MongoAction.read)
    ∷ (codes "existsById", MongoAction.read)
    ∷ (codes "find", MongoAction.read)
    ∷ (codes "findAll", MongoAction.read)
    ∷ (codes "findById", MongoAction.read)
    ∷ (codes "findOne", MongoAction.read)
    ∷ (codes "findAndModify", MongoAction.read_update)
    ∷ (codes "findAndReplace", MongoAction.read_update)
    ∷ (codes "insert", MongoAction.insert)
    ∷ (codes "insertAll", MongoAction.insert)
    ∷ (codes "remove", MongoAction.delete)
    ∷ (codes "delete", MongoAction.delete)
    ∷ (codes "deleteAll", MongoAction.delete)
    ∷ (codes "deleteAllById", MongoAction.delete)
    ∷ (codes "deleteById", MongoAction.delete)
    ∷ (codes "save", MongoAction.create_or_update)
    ∷ (codes "saveAll", MongoAction.create_or_update)
    ∷ (codes "updateFirst", MongoAction.update)
    ∷ (codes "updateMulti", MongoAction.update)
    ∷ (codes "upsert", MongoAction.create_or_update)
    ∷ []

unfoldable pub mongo_action : Text → Option MongoAction
mongo_action operation = get actions operation

-- The facets of an action: "read" and "write".
unfoldable pub facets_of : MongoAction → List Facet
facets_of MongoAction.read = Facet.reads ∷ []
facets_of MongoAction.read_update = Facet.reads ∷ Facet.writes ∷ []
facets_of _ = Facet.writes ∷ []

unfoldable pub mongo_facets : Text → List Facet
unfolding mongo_action facets_of
mongo_facets operation = elim (mongo_action operation) [
  | none ↦ []
  | some action ↦ facets_of action
]
