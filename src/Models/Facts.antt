-- ===== src/Models/Facts.antt =====
-- GraphFact and merge_graph_facts of domain/models.py. A value of `metadata` is None, a text or another
-- object; the ranks are one above the source's, whose -1 for an unknown word is 0 here.
pub mod Laws
use systemlens.Prelude.{
  ℕ, zero, suc, Bool, true, false, ◌&&◌, ◌||◌, Option, none, some, List, [], ◌∷◌, if◌then◌else◌,
  ◌==◌, ltb, leb, nat_beq,
}
use systemlens.Prelude.Dict.{Dict, get, put}
use systemlens.Text.{Text, text_eq, codes}

pub data Value : Type 0 where
  null : Value
  str : Text → Value
  other : ℕ → Value

pub record GraphFact : Type 0 where
  pub id : Text
  pub fact_type : Text
  pub kind : Text
  pub name : Option Text
  pub source_kind : Option Text
  pub source_name : Option Text
  pub target_kind : Option Text
  pub target_name : Option Text
  pub relation : Option Text
  pub origin : Text
  pub confidence : Text
  pub evidence_path : Option Text
  pub evidence_line : Option ℕ
  pub note : Option Text
  pub technology : Option Text
  pub metadata : Option (Dict Text Value)
  pub namespace : Text
  pub status : Text
  pub in_module : Option Text
  pub pass_id : Option Text
  pub source_revision : Option Text

unfoldable pub confidence_rank : Text → ℕ
confidence_rank c =
    if c == codes "high"
    then 4
    else if c == codes "medium"
    then 3
    else if c == codes "low"
    then 2
    else if c == codes "unknown"
    then 1
    else 0

unfoldable pub status_rank : Text → ℕ
status_rank s =
    if s == codes "confirmed"
    then 3
    else if s == codes "proposed"
    then 2
    else if s == codes "unresolved" || s == codes "ambiguous"
    then 1
    else 0

-- The order of the pairs (confidence, status): a <= b.
unfoldable pub quality_leb : GraphFact → GraphFact → Bool
quality_leb a b =
    ltb (confidence_rank a.confidence) (confidence_rank b.confidence)
    || (nat_beq (confidence_rank a.confidence) (confidence_rank b.confidence)
        && leb (status_rank a.status) (status_rank b.status))

-- `a or b` on optional texts and lines: None, "" and 0 are false.
unfoldable pub or_text : Option Text → Option Text → Option Text
or_text none b = b
or_text (some []) b = b
or_text (some (c ∷ s)) b = some (c ∷ s)

unfoldable pub or_line : Option ℕ → Option ℕ → Option ℕ
or_line none b = b
or_line (some zero) b = b
or_line (some (suc n)) b = some (suc n)

unfoldable pub entries : Option (Dict Text Value) → Dict Text Value
entries none = []
entries (some d) = d

-- {**d, **e}
unfoldable pub merged : Dict Text Value → Dict Text Value → Dict Text Value
merged d [] = d
merged d ((k, v) ∷ e) = merged (put d k v) e

unfoldable pub filled : GraphFact → GraphFact → GraphFact
unfolding entries
filled stronger weaker = record stronger {
  evidence_path = or_text stronger.evidence_path weaker.evidence_path;
  evidence_line = or_line stronger.evidence_line weaker.evidence_line;
  note = or_text stronger.note weaker.note;
  technology = or_text stronger.technology weaker.technology;
  in_module = or_text stronger.in_module weaker.in_module;
  pass_id = or_text stronger.pass_id weaker.pass_id;
  source_revision = or_text stronger.source_revision weaker.source_revision;
  metadata = some (merged (entries weaker.metadata) (entries stronger.metadata));
}

-- `none` is the ValueError for facts of different identities.
unfoldable pub merge_graph_facts : GraphFact → GraphFact → Option GraphFact
unfolding filled
merge_graph_facts existing incoming =
    if existing.id == incoming.id
    then if quality_leb existing incoming
      then some (filled incoming existing)
      else some (filled existing incoming)
    else none
