-- ===== src/CodeFlows/Dispatch.antt =====
-- Which edges of the call graph entry_dispatch_allowed excludes (domain/code_flows.py).
use mathlib.Core.List.Memᴰ
use systemlens.Prelude.{
  ◌≡◌, ◌≢◌, refl, sym, ◌∙◌, false, List, [], ◌∷◌, filter, map, contains, contains_iff, length, ltb,
  Memᴰ, Memᴰ-filter, Memᴰ-dedup, Distinct, Distinct-dedup, Bool-cases, inl, inr, ◌↔◌, arith,
}
use systemlens.Text.{Text, text_eq, text_beq, text_beq_iff}
use systemlens.CodeFlows.{owner, simple_name, overrides, entry_dispatch_allowed}

-- A callee of the call site that is an override of the callee.
abbrev pub IsOverride : Text → List Text → Text → Type 0
IsOverride callee callees m = Memᴰ m callees × (simple_name m ≡ simple_name callee)

two_iff :
    (xs : List Text) (o : Text)
    → Distinct xs
    → Memᴰ o xs
    → (ltb (length xs) 2 ≡ false) ↔ ((x : Text) × (Memᴰ x xs × (x ≢ o)))
two_iff [] o d m = absurd (Memᴰ.not-nil m)
two_iff (x ∷ []) o d m =
    (λ h. cc, λ (y, (n, k)). absurd (k (Memᴰ.eq_of_singleton n ∙ sym (Memᴰ.eq_of_singleton m))))
two_iff (x ∷ y ∷ xs) o d m = (
  λ h. elim (Bool-cases (text_beq x o)) [
    | inl t ↦
        let same : x ≡ o = (text_beq_iff x o).0 t in
        (y, (Memᴰ.tail (Memᴰ.head refl), λ e. d.0 (Memᴰ.head (same ∙ sym e))))
    | inr t ↦ (x, (Memᴰ.head refl, λ e. cc ((text_beq_iff x o).1 e)))
  ],
  λ h. ground arith,
)

overrides_iff :
    (callee : Text) (callees : List Text) (o : Text)
    → Memᴰ o (overrides callee callees)
      ↔ ((m : Text) × (IsOverride callee callees m × (owner m ≡ o)))
unfolding overrides
overrides_iff callee callees o =
    let named = λ (c : Text). text_beq (simple_name c) (simple_name callee) in
    let once = Memᴰ-dedup o (map owner (filter named callees)) in
    (
      λ n.
          let (m, k, e) = Memᴰ.of_map owner (filter named callees) (once.0 n) in
          let (l, t) = (Memᴰ-filter named m callees).0 k in
          (m, ((l, (text_beq_iff (simple_name m) (simple_name callee)).0 t), e)),
      λ (m, ((l, e), q)). once.1 (
          Memᴰ.cast (sym q) (
            Memᴰ.map owner (
              (Memᴰ-filter named m callees).1
                (l, (text_beq_iff (simple_name m) (simple_name callee)).1 e)))),
    )

-- An edge is excluded exactly if its call site stands outside the entry's class and fans out: among
-- the callees of the site with the callee's name one is declared by the entry's class and one by
-- another class, and the callee itself is not declared by the entry's class.
pub entry_dispatch_iff :
    (entry caller callee : Text) (callees : List Text)
    → (entry_dispatch_allowed entry caller callee callees ≡ false) ↔ (
        (owner caller ≢ owner entry)
        × (((m : Text) × (IsOverride callee callees m × (owner m ≡ owner entry)))
            × (((m : Text) × (IsOverride callee callees m × (owner m ≢ owner entry)))
                × (owner callee ≢ owner entry))))
unfolding entry_dispatch_allowed overrides
entry_dispatch_iff entry caller callee callees =
    let owners = overrides callee callees in
    let o = owner entry in
    let own = overrides_iff callee callees o in
    let within = contains_iff owners o in
    let at_caller = text_beq_iff (owner caller) o in
    let at_callee = text_beq_iff (owner callee) o in
    let distinct : Distinct owners = Distinct-dedup _ in
    elim (Bool-cases (text_beq (owner caller) o)) [
      | inl t ↦ rw t (λ h. cc, λ h. absurd (h.0 (at_caller.0 t)))
      | inr t ↦ elim (Bool-cases (contains owners o)) [
        | inr c ↦ (λ h. ground arith, λ h. absurd (cc (within.1 (own.1 h.1.0), c)))
        | inl c ↦
            let two = two_iff owners o distinct (within.0 c) in
            (
              λ h.
                  let (x, (n, k)) = two.0 (ground arith) in
                  let (m, (i, e)) = (overrides_iff callee callees x).0 n in
                  (
                    λ e'. cc (at_caller.1 e', t),
                    (
                      own.0 (within.0 c),
                      ((m, (i, λ q. k (sym e ∙ q))), λ q. ground (arith, at_callee.1 q)),
                    ),
                  ),
              λ (a, (b, ((m, (i, n)), d))).
                  let wide =
                    two.1
                      (owner m, ((overrides_iff callee callees (owner m)).1 (m, (i, refl)), n)) in
                  ground (arith, at_callee, d),
            )
      ]
    ]
