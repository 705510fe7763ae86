-- ===== src/Freshness/Laws.antt =====
-- When a stale inventory is reported (indexing/freshness.py).
mod Examples
use systemlens.Prelude.{
  ◌≡◌, ◌≢◌, refl, Bool, true, false, not, ◌&&◌, Option, none, some, ◌⊎◌, inl, inr, ◌↔◌, arith,
  Bool-cases, option_beq, option_beq_iff, option_eq,
}
use systemlens.Text.{Text, text_eq, text_beq}
use systemlens.Freshness.{
  endpoint_inventory_signature, is_endpoint_inventory_stale, endpoint_inventory_warning,
}

-- There is no warning exactly if the stored signature is the current one, or none is stored and the
-- inventory is not indexed.
pub no_warning_iff :
    (repr : Text → Text) (stored : Option Text) (scope : Text) (inventory_indexed : Bool)
    → (endpoint_inventory_warning repr stored scope inventory_indexed ≡ none) ↔ (
        (stored ≡ some endpoint_inventory_signature)
        ⊎ ((stored ≡ none) × (inventory_indexed ≡ false)))
unfolding endpoint_inventory_warning is_endpoint_inventory_stale option_beq
no_warning_iff repr none scope true = (λ h. cc, λ h. elim h [ inl e ↦ cc | inr k ↦ cc k.1 ])
no_warning_iff repr none scope false = (λ _. inr (refl, refl), λ _. refl)
no_warning_iff repr (some s) scope indexed =
    let current = option_beq_iff (some s) (some endpoint_inventory_signature) in
    elim (Bool-cases (option_beq (some s) (some endpoint_inventory_signature))) [
      | inl t ↦ (λ _. inl (current.0 t), λ _. rw (t, endpoint_inventory_warning) refl)
      | inr t ↦ (
        λ h. cc (rw (t, endpoint_inventory_warning) at h),
        λ h. elim h [ inl e ↦ cc (current.1 e, t) | inr k ↦ cc k.0 ],
      )
    ]
