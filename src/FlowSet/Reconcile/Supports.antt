-- ===== src/FlowSet/Reconcile/Supports.antt =====
-- What a flow needs at one endpoint to be complete (indexing/code_flows.py).
use mathlib.Core.List.Memᴰ
use mathlib.Core.Logic.{⊎_elim}
use systemlens.Prelude.{
  ◌<◌, ◌≡◌, refl, sym, ap, ◌∙◌, ◌↔◌, ◌⊎◌, inl, inr, Bool, true, false, ◌&&◌, ◌||◌, not, Option,
  none, some, List, [], ◌∷◌, map, length, length-map, ltb, nat_beq, Memᴰ, Distinct, ◌==◌, arith,
  Bool-cases, option_eq, option_beq_iff, length-dedup_iff, pair_eq,
}
use systemlens.Text.{Text, text_eq, text_beq_iff}
use systemlens.Models.{MessageEndpoint, kafka}
use systemlens.Graph.Edges.{GraphEdge}
use systemlens.CodeFlows.Internal.{is_input, is_output}
use systemlens.FlowSet.Reconcile.{
  target, continuation, stays_in, ambiguous, effect_supported, matching_incoming, entry_supported,
  supported,
}
use systemlens.FlowSet.Reconcile.Sites.{
  departures, arrivals, outgoing-departures, incoming-arrivals,
}

abbrev pub Same : Text → Option MessageEndpoint → Type 0
Same name next =
    (n : MessageEndpoint) × ((next ≡ some n) × ((is_input n ≡ true) × (n.in_module ≡ some name)))

-- What the flow of a module needs at one endpoint, between its neighbours.
pub data Supported (name : Text) (edges : List GraphEdge)
    : Option MessageEndpoint → MessageEndpoint → Option MessageEndpoint → Type 0 where
  continued :
      {p : Option MessageEndpoint} {e : MessageEndpoint} {n : Option MessageEndpoint}
      → is_output e ≡ true
      → Same name n
      → Supported name edges p e n
  called :
      {p : Option MessageEndpoint} {e : MessageEndpoint} {n : Option MessageEndpoint}
      → is_output e ≡ true
      → (edge : GraphEdge) → departures edges e n ≡ edge ∷ []
      → Supported name edges p e n
  published :
      {p : Option MessageEndpoint} {e : MessageEndpoint} {n : Option MessageEndpoint}
      → is_output e ≡ true
      → e.system ≡ kafka
      → (edge : GraphEdge) → Memᴰ edge (departures edges e n)
      → Distinct (map target (departures edges e n))
      → Supported name edges p e n
  entered :
      {e : MessageEndpoint} {n : Option MessageEndpoint}
      → is_input e ≡ true
      → is_output e ≡ false
      → Supported name edges none e n
  reached_inside :
      {p : MessageEndpoint} {e : MessageEndpoint} {n : Option MessageEndpoint}
      → is_input e ≡ true
      → is_output e ≡ false
      → e.in_module ≡ some name
      → Supported name edges (some p) e n
  reached :
      {p : MessageEndpoint} {e : MessageEndpoint} {n : Option MessageEndpoint}
      → is_input e ≡ true
      → is_output e ≡ false
      → (edge : GraphEdge) → arrivals edges p e ≡ edge ∷ []
      → Supported name edges (some p) e n
  unrelated :
      {p : Option MessageEndpoint} {e : MessageEndpoint} {n : Option MessageEndpoint}
      → is_input e ≡ false
      → is_output e ≡ false
      → Supported name edges p e n

empty_or : (xs : List GraphEdge) → (length xs ≡ 0) ⊎ ((x : GraphEdge) × Memᴰ x xs)
empty_or [] = inl refl
empty_or (x ∷ xs) = inr (x, Memᴰ.head refl)

length-of_mem : (xs : List GraphEdge) (x : GraphEdge) → Memᴰ x xs → 0 < length xs
length-of_mem [] x m = absurd (Memᴰ.not-nil m)
length-of_mem (y ∷ xs) x m = omega arith

one_of_length : (xs : List GraphEdge) → length xs ≡ 1 → (x : GraphEdge) × (xs ≡ x ∷ [])
one_of_length [] h = absurd (omega (arith, h))
one_of_length (x ∷ []) h = (x, refl)
one_of_length (x ∷ y ∷ xs) h = absurd (omega (arith, h))

unambiguous_iff :
    (e : MessageEndpoint) (xs : List GraphEdge)
    → ((ltb 0 (length xs) && not (ambiguous e xs)) ≡ true) ↔ (
        ((x : GraphEdge) × (xs ≡ x ∷ []))
        ⊎ ((e.system ≡ kafka) × (((x : GraphEdge) × Memᴰ x xs) × Distinct (map target xs))))
unfolding ambiguous
unambiguous_iff e xs = (
  λ h. elim (Bool-cases (e.system == kafka)) [
    | inl t ↦ elim (empty_or xs) [
      | inl z ↦ absurd (ground (arith, z))
      | inr x ↦ inr (
        (text_beq_iff e.system kafka).0 t,
        (x, (length-dedup_iff (map target xs)).0 (ground (arith, length-map target xs))),
      )
    ]
    | inr t ↦ inl (one_of_length xs (ground (arith, t)))
  ],
  ⊎_elim (λ (x, q). rw q (ground (arith, (length-dedup_iff (target x ∷ [])).1 (Memᴰ.not-nil, tt))))
      (λ (k, ((x, m), d)). ground (
        arith,
        length-of_mem xs x m,
        length-map target xs,
        (length-dedup_iff (map target xs)).1 d,
        (text_beq_iff e.system kafka).1 k,
      )),
)

next_cases :
    (name : Text) (next : Option MessageEndpoint)
    → (stays_in name (continuation next) ≡ true) ↔ Same name next
unfolding continuation stays_in
next_cases name none = (λ h. cc, λ (n, (q, s)). cc)
next_cases name (some n) = elim (Bool-cases (is_input n)) [
  | inl t ↦ rw t (
    λ h. (n, (refl, (t, (option_beq_iff n.in_module (some name)).0 h))),
    λ (m, (q, (i, s))). (option_beq_iff n.in_module (some name)).1 (cc),
  )
  | inr t ↦ rw t (λ h. cc, λ (m, (q, (i, s))). cc)
]

abbrev has_edge : MessageEndpoint → List GraphEdge → Bool
has_edge e xs = ltb 0 (length xs) && not (ambiguous e xs)

effect_test :
    (name : Text) (edges : List GraphEdge) (e : MessageEndpoint) (n : Option MessageEndpoint)
    → effect_supported name edges e n
      ≡ (stays_in name (continuation n) || has_edge e (departures edges e n))
unfolding effect_supported
effect_test name edges e n =
    ap (λ xs. stays_in name (continuation n) || has_edge e xs) (outgoing-departures edges e n)

effect_holds :
    {name : Text} {edges : List GraphEdge} {p : Option MessageEndpoint} {e : MessageEndpoint}
    {n : Option MessageEndpoint}
    → Supported name edges p e n
    → is_output e ≡ true
    → effect_supported name edges e n ≡ true
effect_holds {name} {edges} {p} {e} {n} (continued _ s) out =
    rw (effect_test name edges e n, (next_cases name n).1 s) refl
effect_holds {name} {edges} {p} {e} {n} (called _ x q) out =
    let test = (unambiguous_iff e (departures edges e n)).1 (inl (x, q)) in
    rw (effect_test name edges e n, test) (ground arith)
effect_holds {name} {edges} {p} {e} {n} (published _ k x m d) out =
    let test = (unambiguous_iff e (departures edges e n)).1 (inr (k, ((x, m), d))) in
    rw (effect_test name edges e n, test) (ground arith)
effect_holds (entered i o) out = cc
effect_holds (reached_inside i o s) out = cc
effect_holds (reached i o x q) out = cc
effect_holds (unrelated i o) out = cc

effect_supported_iff :
    (name : Text) (edges : List GraphEdge) (p : Option MessageEndpoint) (e : MessageEndpoint)
    (n : Option MessageEndpoint)
    → is_output e ≡ true
    → (effect_supported name edges e n ≡ true) ↔ Supported name edges p e n
effect_supported_iff name edges p e n out = (
  λ h.
      let test = sym (effect_test name edges e n) ∙ h in
      elim (Bool-cases (stays_in name (continuation n))) [
        | inl t ↦ continued out ((next_cases name n).0 t)
        | inr t ↦
            ⊎_elim (λ (x, q). called out x q) (λ (k, ((x, m), d)). published out k x m d)
              ((unambiguous_iff e (departures edges e n)).0 (rw t at test))
      ],
  λ s. effect_holds s out,
)

entry_supported_iff :
    (name : Text) (edges : List GraphEdge) (p : Option MessageEndpoint) (e : MessageEndpoint)
    (n : Option MessageEndpoint)
    → is_input e ≡ true
    → is_output e ≡ false
    → (entry_supported name edges p e ≡ true) ↔ Supported name edges p e n
unfolding entry_supported
entry_supported_iff name edges none e n i o = (λ h. entered i o, λ s. refl)
entry_supported_iff name edges (some q) e n i o = (
  λ h. elim (Bool-cases (e.in_module == some name)) [
    | inl t ↦ reached_inside i o ((option_beq_iff e.in_module (some name)).0 t)
    | inr t ↦
        let (x, r) = one_of_length (matching_incoming edges q e) (ground arith) in
        reached i o x (sym (incoming-arrivals edges q e) ∙ r)
  ],
  go,
)
  where
    go :
        Supported name edges (some q) e n
        → (e.in_module == some name || nat_beq (length (matching_incoming edges q e)) 1) ≡ true
    go (continued u s) = cc
    go (called u x r) = cc
    go (published u k x m d) = cc
    go (reached_inside _ _ s) = rw ((option_beq_iff e.in_module (some name)).1 s) refl
    go (reached _ _ x r) = rw (incoming-arrivals edges q e, r) (ground arith)
    go (unrelated u _) = cc

pub supported_iff :
    (name : Text) (edges : List GraphEdge) (p : Option MessageEndpoint) (e : MessageEndpoint)
    (n : Option MessageEndpoint)
    → (supported name edges p e n ≡ true) ↔ Supported name edges p e n
unfolding supported
supported_iff name edges p e n = elim (Bool-cases (is_output e)) [
  | inl t ↦ rw t (effect_supported_iff name edges p e n t)
  | inr t ↦ elim (Bool-cases (is_input e)) [
    | inl i ↦ rw (t, i) (entry_supported_iff name edges p e n i t)
    | inr i ↦ rw (t, i) (λ h. unrelated i t, λ s. refl)
  ]
]
