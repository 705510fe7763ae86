-- ===== src/Models.antt =====
-- domain/models.py: the indexed integration points and facts.
pub mod EndpointIds
mod Examples
pub mod Facts
pub mod UniqueIds
use systemlens.Prelude.{
  ℕ, Bool, ◌&&◌, ◌||◌, not, Option, none, some, if◌then◌else◌, ◌==◌, List, [], ◌∷◌,
}
use systemlens.Text.{Text, text_eq, codes}

-- The words of the source for systems and roles.
abbrev pub kafka : Text
kafka = codes "kafka"

abbrev pub rest : Text
rest = codes "rest"

abbrev pub produce : Text
produce = codes "produce"

abbrev pub consume : Text
consume = codes "consume"

abbrev pub serve : Text
serve = codes "serve"

abbrev pub call : Text
call = codes "call"

-- `in_module` is the field `module`.
pub record MessageEndpoint : Type 0 where
  pub id : Text
  pub role : Text
  pub system : Text
  pub topic : Text
  pub topic_dynamic : Bool
  pub source : Text
  pub framework : Option Text
  pub path : Text
  pub start_line : ℕ
  pub end_line : ℕ
  pub snippet : Text
  pub in_module : Option Text
  pub qualified_name : Option Text
  pub message_type : Option Text
  pub topic_display : Option Text

unfoldable pub kafka_topic : MessageEndpoint → Option Text
kafka_topic e = if e.system == kafka then some e.topic else none

unfoldable pub route : MessageEndpoint → Option Text
route e = if e.system == rest then some e.topic else none

-- `true` where `validate_semantics` returns, `false` where it raises ValueError
unfoldable pub validate_semantics : MessageEndpoint → Bool
validate_semantics e =
    let valid_role =
      if e.system == kafka
      then e.role == produce || e.role == consume
      else e.role == serve || e.role == call in
    (e.system == kafka || e.system == rest) && valid_role

pub record ArchitectureRelation : Type 0 where
  pub id : Text
  pub source_kind : Text
  pub source_name : Text
  pub relation : Text
  pub target_kind : Text
  pub target_name : Text
  pub origin : Text
  pub confidence : Text
  pub in_module : Option Text
  pub path : Option Text
  pub start_line : Option ℕ
  pub end_line : Option ℕ
  pub qualified_name : Option Text
