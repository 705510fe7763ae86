-- ===== src/MongoOperations/Laws.antt =====
-- The facets of MongoDB calls (domain/mongo_operations.py).
use mathlib.Core.List.Memᴰ
use systemlens.Prelude.{◌≡◌, subst, refl, some, Memᴰ, Option-cases, inl, inr, ◌↔◌}
use systemlens.Text.{Text}
use systemlens.MongoOperations.{MongoAction, Facet, facets_of, mongo_action, mongo_facets}

-- An action changes documents.
abbrev pub Changes : MongoAction → Type 0
Changes MongoAction.read = ⊥
Changes _ = Unit

writes_iff : (a : MongoAction) → Memᴰ Facet.writes (facets_of a) ↔ Changes a
unfolding facets_of
writes_iff MongoAction.read = (λ m. cc (Memᴰ.eq_of_singleton m), λ h. absurd h)
writes_iff MongoAction.read_update = (λ _. tt, λ _. Memᴰ.tail (Memᴰ.head refl))
writes_iff MongoAction.insert = (λ _. tt, λ _. Memᴰ.head refl)
writes_iff MongoAction.update = (λ _. tt, λ _. Memᴰ.head refl)
writes_iff MongoAction.delete = (λ _. tt, λ _. Memᴰ.head refl)
writes_iff MongoAction.create_or_update = (λ _. tt, λ _. Memᴰ.head refl)

-- A call has the write facet exactly if it is a known operation whose action is not a mere read.
pub mongo_writes_iff :
    (operation : Text)
    → Memᴰ Facet.writes (mongo_facets operation)
      ↔ ((a : MongoAction) × ((mongo_action operation ≡ some a) × Changes a))
unfolding mongo_facets
mongo_writes_iff operation = elim (Option-cases (mongo_action operation)) [
  | inl e ↦ rw (e, mongo_facets) (λ m. absurd (Memᴰ.not-nil m), λ (a, (q, h)). cc)
  | inr (b, e) ↦
      rw (e, mongo_facets)
        (
          λ m. (b, (refl, (writes_iff b).0 m)),
          λ (a, (q, h)). let same : a ≡ b = cc in (writes_iff b).1 (subst Changes same h),
        )
]
