-- ===== src/Models/Facts/Laws.antt =====
-- Merging a repeated fact never degrades its evidence (domain/models.py).
use mathlib.Core.List.Memᴰ
use systemlens.Prelude.{
  ℕ, suc, List, Option, none, some, ◌∷◌, if◌then◌else◌, ◌≡◌, ◌≢◌, ◌⊎◌, arith, Memᴰ, ◌↔◌,
}
use systemlens.Prelude.Dict.{Dict, keys}
use systemlens.Text.{Text, text_eq, text_beq_iff}
use systemlens.Models.Facts.{Value, GraphFact, quality_leb, entries, merge_graph_facts}

-- Merging fails exactly for facts of different identities.
pub merge_error :
    (existing incoming : GraphFact)
    → (merge_graph_facts existing incoming ≡ none) ↔ (existing.id ≢ incoming.id)
unfolding merge_graph_facts
merge_error existing incoming = (
  λ h e. ground (arith, text_beq_iff existing.id incoming.id),
  λ h. ground (arith, text_beq_iff existing.id incoming.id, h),
)

-- What a merged fact keeps of the stronger of two observations.
pub record Keeps (stronger merged_fact : GraphFact) : Type 0 where
  pub id : merged_fact.id ≡ stronger.id
  pub fact_type : merged_fact.fact_type ≡ stronger.fact_type
  pub kind : merged_fact.kind ≡ stronger.kind
  pub name : merged_fact.name ≡ stronger.name
  pub source_kind : merged_fact.source_kind ≡ stronger.source_kind
  pub source_name : merged_fact.source_name ≡ stronger.source_name
  pub target_kind : merged_fact.target_kind ≡ stronger.target_kind
  pub target_name : merged_fact.target_name ≡ stronger.target_name
  pub relation : merged_fact.relation ≡ stronger.relation
  pub origin : merged_fact.origin ≡ stronger.origin
  pub confidence : merged_fact.confidence ≡ stronger.confidence
  pub status : merged_fact.status ≡ stronger.status
  pub namespace : merged_fact.namespace ≡ stronger.namespace

-- The observation that a merge keeps, and the one that only fills gaps.
abbrev pub stronger_of : GraphFact → GraphFact → GraphFact
stronger_of existing incoming = if quality_leb existing incoming then incoming else existing

abbrev pub weaker_of : GraphFact → GraphFact → GraphFact
weaker_of existing incoming = if quality_leb existing incoming then existing else incoming

-- Python's truth of an optional text and of an optional line.
abbrev pub IsGiven : Option Text → Type 0
IsGiven o = (c : ℕ) × ((s : Text) × (o ≡ some (c ∷ s)))

-- The optional evidence of a fact.
pub data Evidence : Type 0 where
  path note technology in_module pass_id source_revision : Evidence

unfoldable pub evidence : Evidence → GraphFact → Option Text
evidence Evidence.path f = f.evidence_path
evidence Evidence.note f = f.note
evidence Evidence.technology f = f.technology
evidence Evidence.in_module f = f.in_module
evidence Evidence.pass_id f = f.pass_id
evidence Evidence.source_revision f = f.source_revision

-- A line of the source counts from 1.
abbrev pub IsLine : Option ℕ → Type 0
IsLine o = (n : ℕ) × (o ≡ some (suc n))

abbrev pub metadata_keys : GraphFact → List Text
metadata_keys f = keys (entries f.metadata)

-- What a merged fact has of the evidence of two observations, of which the first is the stronger.
pub record KeepsEvidence (stronger weaker r : GraphFact) : Type 0 where
  pub texts :
      (k : Evidence)
      → IsGiven (evidence k stronger) ⊎ IsGiven (evidence k weaker)
      → IsGiven (evidence k r)
  pub text_of : (k : Evidence) → IsGiven (evidence k stronger) → evidence k r ≡ evidence k stronger
  pub line : IsLine stronger.evidence_line ⊎ IsLine weaker.evidence_line → IsLine r.evidence_line
  pub line_of : IsLine stronger.evidence_line → r.evidence_line ≡ stronger.evidence_line
  pub metadata :
      (k : Text)
      → Memᴰ k (metadata_keys stronger) ⊎ Memᴰ k (metadata_keys weaker)
      → Memᴰ k (metadata_keys r)

-- The first value that is there.
abbrev pub first : Option Value → Option Value → Option Value
first none b = b
first (some v) b = some v
