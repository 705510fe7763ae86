-- ===== src/ArchitectureRelations/Sites.antt =====
-- The sites at which the edges of build_graph (domain/graph.py) start, as the indexes of
-- group_endpoints_by_module hold them.
use mathlib.Core.List.Memᴰ
use mathlib.Core.Logic.{⊎_elim}
use systemlens.Prelude.{
  ◌≡◌, refl, sym, ap, ◌∙◌, Bool, true, false, ◌&&◌, ◌||◌, not, none, some, List, [], ◌∷◌, ◌++◌,
  ◌==◌, if◌then◌else◌, contains, map, Memᴰ, Memᴰ-filter, Bool-cases, Option-cases, inl, inr, ◌⊎◌,
  arith,
}
use systemlens.Prelude.Dict.{push, values}
use systemlens.Text.{Text, text_eq, text_beq, text_beq_iff, codes}
use systemlens.Models.{MessageEndpoint, kafka, rest, produce, call}
use systemlens.Graph.Paths.{paths_match, http_methods_match}
use systemlens.Graph.Evidence.{is_configured_api_client_call}
use systemlens.Graph.Edges.{GraphEdge, EdgeKey}
use systemlens.Graph.Edges.Build.{
  Inputs, Endpoints, Sited, all_endpoints, is_rest, calls_of, produces_of, kafka_endpoints,
  manifest_services, group_endpoints_by_module, resolved_configured_api_call, effective_call,
}
use systemlens.Graph.Edges.Emits.{
  Emits, Emits.contracted, Emits.routed, Emits.configured, Emits.outside, Emits.messaged,
}
use systemlens.Graph.Relations.{flattened}
use systemlens.Graph.Relations.Sites.{IsIndexed}

-- Each endpoint of the grouped ones stands under its module.
abbrev pub OwnNames : Endpoints → Type 0
OwnNames d = (s : Text) (e : MessageEndpoint) → Memᴰ (s, e) (all_endpoints d) → e.in_module ≡ some s

group_cases :
    (j : Text) (es : List MessageEndpoint) (d : Endpoints) (p : Sited)
    → Memᴰ p (all_endpoints ((j, es) ∷ d))
    → ((p.0 ≡ j) × Memᴰ p.1 es) ⊎ Memᴰ p (all_endpoints d)
unfolding all_endpoints
group_cases j es d p m =
    ⊎_elim
      (λ n.
        let (x, k, q) = Memᴰ.of_map (λ (y : MessageEndpoint). (j, y)) es n in
        inl (sym (ap (λ (z : Sited). z.0) q), Memᴰ.cast (sym (ap (λ (z : Sited). z.1) q)) k))
      inr (Memᴰ.append_cases (map (λ (y : MessageEndpoint). (j, y)) es) m)

of_group :
    (j : Text) (es : List MessageEndpoint) (d : Endpoints) (p : Sited)
    → p.0 ≡ j
    → Memᴰ p.1 es
    → Memᴰ p (all_endpoints ((j, es) ∷ d))
unfolding all_endpoints
of_group j es d p q m =
    Memᴰ.append_left (all_endpoints d)
      (Memᴰ.cast (ap (λ (n : Text). (n, p.1)) q) (Memᴰ.map (λ (y : MessageEndpoint). (j, y)) m))

of_later :
    (j : Text) (es : List MessageEndpoint) (d : Endpoints) (p : Sited)
    → Memᴰ p (all_endpoints d)
    → Memᴰ p (all_endpoints ((j, es) ∷ d))
unfolding all_endpoints
of_later j es d p m = Memᴰ.append_right (map (λ y. (j, y)) es) m

push-sites :
    (d : Endpoints) (name : Text) (e : MessageEndpoint) (p : Sited)
    → Memᴰ p (all_endpoints (push d name e))
    → Memᴰ p (all_endpoints d) ⊎ ((p.0 ≡ name) × (p.1 ≡ e))
unfolding push
push-sites [] name e p m =
    ⊎_elim (λ (q, n). inr (q, Memᴰ.eq_of_singleton n)) inl (group_cases name (e ∷ []) [] p m)
push-sites ((j, es) ∷ d) name e p m = elim (Bool-cases (text_beq j name)) [
  | inl t ↦
      ⊎_elim
        (λ (q, n).
          ⊎_elim (λ k. inl (of_group j es d p q k))
            (λ one. inr (q ∙ (text_beq_iff j name).0 t, Memᴰ.eq_of_singleton one))
            (Memᴰ.append_cases es n))
        (λ k. inl (of_later j es d p k)) (group_cases j (es ++ e ∷ []) d p (rw t at m))
  | inr t ↦
      ⊎_elim (λ (q, n). inl (of_group j es d p q n))
        (λ k. ⊎_elim (λ r. inl (of_later j es d p r)) inr (push-sites d name e p k))
        (group_cases j es (push d name e) p (rw t at m))
]

grouped-OwnNames :
    (es : List MessageEndpoint) (d : Endpoints)
    → OwnNames d
    → OwnNames (group_endpoints_by_module d es)
unfolding group_endpoints_by_module
grouped-OwnNames [] d h = h
grouped-OwnNames (e ∷ es) d h = elim (Option-cases e.in_module) [
  | inl q ↦ rw (q, group_endpoints_by_module) (grouped-OwnNames es d h)
  | inr (name, q) ↦
      rw (q, group_endpoints_by_module)
        (grouped-OwnNames es (push d name e) (λ s x m.
          ⊎_elim (h s x)
            (λ (n, same). ap (λ (y : MessageEndpoint). y.in_module) same ∙ (q ∙ ap some (sym n)))
            (push-sites d name e (s, x) m)))
]

pub grouped_sites : (es : List MessageEndpoint) → OwnNames (group_endpoints_by_module [] es)
unfolding all_endpoints
grouped_sites es = grouped-OwnNames es [] (λ s e m. absurd (Memᴰ.not-nil m))

sites_indexed :
    (d : Endpoints) (p : Sited) → Memᴰ p (all_endpoints d) → Memᴰ p.1 (flattened (values d))
unfolding all_endpoints
sites_indexed [] p m = absurd (Memᴰ.not-nil m)
sites_indexed ((j, es) ∷ d) p m =
    ⊎_elim (λ (q, n). Memᴰ.append_left (flattened (values d)) n)
      (λ n. Memᴰ.append_right es (sites_indexed d p n)) (group_cases j es d p m)

-- The endpoint that the edge starts at has the id, the place and the role of a site that is indexed
-- in the source service.
pub record StartsAt (d : Endpoints) (edge : GraphEdge) : Type 0 where
  pub site : MessageEndpoint
  pub indexed : IsIndexed d edge.from_service site
  pub id : site.id ≡ edge.from_endpoint.id
  pub path : site.path ≡ edge.from_endpoint.path
  pub line : site.start_line ≡ edge.from_endpoint.start_line
  pub kind :
      ((edge.kind ≡ rest) × (site.role ≡ call)) ⊎ ((edge.kind ≡ kafka) × (site.role ≡ produce))

last_true : (p q : Bool) → (p && q) ≡ true → q ≡ true
last_true p q h = ground arith

module _ (d : Endpoints) (own : OwnNames d) where
  call_site :
      (from : Text) (caller : MessageEndpoint)
      → Memᴰ (from, caller) (calls_of d)
      → IsIndexed d from caller × (caller.role ≡ call)
  unfolding calls_of is_rest
  call_site from caller m =
      let (n, t) = (Memᴰ-filter (is_rest call) (from, caller) (all_endpoints d)).0 m in
      (
        (sites_indexed d (from, caller) n, own from caller n),
        (text_beq_iff caller.role call).0 (last_true _ _ t),
      )

  produce_site :
      (from : Text) (producer : MessageEndpoint)
      → Memᴰ (from, producer) (produces_of d)
      → IsIndexed d from producer × (producer.role ≡ produce)
  unfolding produces_of kafka_endpoints
  produce_site from producer m =
      let (n, t) =
        (Memᴰ-filter (λ s. s.1.role == produce) (from, producer) (kafka_endpoints d)).0 m in
      let (k, u) =
        (Memᴰ-filter
            (λ s.
              s.1.system == kafka
              && (not (contains (manifest_services d) s.0) || s.1.source == codes "manifest"))
            (from, producer) (all_endpoints d)).0
          n in
      (
        (sites_indexed d (from, producer) k, own from producer k),
        (text_beq_iff producer.role produce).0 t,
      )

-- The call that reaches a route is the caller's, but for its topic.
record SamePlace (a e : MessageEndpoint) : Type 0 where
  id : a.id ≡ e.id
  path : a.path ≡ e.path
  line : a.start_line ≡ e.start_line

passed : (test : Bool) (a e : MessageEndpoint) → (if test then none else some a) ≡ some e → a ≡ e
passed test a e h = elim (Bool-cases test) [ inl t ↦ cc (rw t at h) | inr t ↦ cc (rw t at h) ]

resolved-SamePlace :
    (caller served effective : MessageEndpoint)
    → resolved_configured_api_call caller served ≡ some effective
    → SamePlace caller effective
unfolding resolved_configured_api_call
resolved-SamePlace caller served effective h =
    let same =
      passed
        (not caller.topic_dynamic
          || not (is_configured_api_client_call caller)
          || not (http_methods_match caller.topic served.topic))
        (record caller { topic = served.topic; topic_dynamic = false }) effective h in
    record {
      id = ap (λ (x : MessageEndpoint). x.id) same;
      path = ap (λ (x : MessageEndpoint). x.path) same;
      line = ap (λ (x : MessageEndpoint). x.start_line) same;
    }

effective-SamePlace :
    (b : Inputs) (selected : List Text) (caller served effective : MessageEndpoint)
    → effective_call b selected caller served ≡ some effective
    → SamePlace caller effective
unfolding effective_call
effective-SamePlace b selected caller served effective h =
    elim (Bool-cases (contains selected served.id)) [
      | inl t ↦
          let same : caller ≡ effective = cc (rw t at h) in
          record {
            id = ap (λ (x : MessageEndpoint). x.id) same;
            path = ap (λ (x : MessageEndpoint). x.path) same;
            line = ap (λ (x : MessageEndpoint). x.start_line) same;
          }
      | inr t ↦ elim (Bool-cases (paths_match b.compile caller.topic served.topic)) [
        | inl u ↦ cc (rw (t, u) at h)
        | inr u ↦ resolved-SamePlace caller served effective (rw (t, u) at h)
      ]
    ]

module _ (b : Inputs) (own : OwnNames b.endpoints_by_service) where
  open b use {endpoints_by_service as d}

  pub starts_at : (k : EdgeKey) (edge : GraphEdge) → Emits b k edge → StartsAt d edge
  starts_at k e (contracted from to caller served m c p q) =
      let (i, r) = call_site d own from caller m in
      rw q (record {
        site = caller;
        indexed = i;
        id = refl;
        path = refl;
        line = refl;
        kind = inl (refl, r);
      })
  starts_at k e (routed from to caller effective served m r n s f p q) =
      let (i, o) = call_site d own from caller m in
      let same = effective-SamePlace b _ caller served effective f in
      rw q (record {
        site = caller;
        indexed = i;
        id = same.id;
        path = same.path;
        line = same.line;
        kind = inl (refl, o);
      })
  starts_at k e (configured from domain caller m c i n p q) =
      let (at, r) = call_site d own from caller m in
      rw q (record {
        site = caller;
        indexed = at;
        id = refl;
        path = refl;
        line = refl;
        kind = inl (refl, r);
      })
  starts_at k e (outside from name caller m c n p q) =
      let (i, r) = call_site d own from caller m in
      rw q (record {
        site = caller;
        indexed = i;
        id = refl;
        path = refl;
        line = refl;
        kind = inl (refl, r);
      })
  starts_at k e (messaged from to producer consumer m s n a c p q) =
      let (i, r) = produce_site d own from producer m in
      rw q (record {
        site = producer;
        indexed = i;
        id = refl;
        path = refl;
        line = refl;
        kind = inr (refl, r);
      })
