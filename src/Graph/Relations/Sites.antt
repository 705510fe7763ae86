-- ===== src/Graph/Relations/Sites.antt =====
-- The sites that the indexes of graph_edges_from_relations (domain/graph.py) hand out.
use mathlib.Core.List.Memᴰ
use mathlib.Core.Logic.{⊎_elim}
use systemlens.Prelude.{
  ◌≡◌, sym, ap, ◌∙◌, subst, true, false, not, some, List, [], ◌∷◌, filter, Memᴰ, Memᴰ-filter,
  Bool-cases, Option-cases, inl, inr, ◌↔◌, arith, pair_eq, option_eq, ℕ_eq,
}
use systemlens.Prelude.Dict.{group, group_all, Memᴰ-group_all, group_all-Memᴰ, values}
use systemlens.Text.{Text, text_eq, text_beq, text_beq_iff}
use systemlens.Models.{MessageEndpoint, ArchitectureRelation, kafka, rest, consume, serve}
use systemlens.MessageTypes.{message_types_conflict}
use systemlens.Graph.Paths.{Compile, paths_match}
use systemlens.Graph.Routes.Select.{select_sound}
use systemlens.Graph.Edges.Build.{Endpoints}
use systemlens.Graph.Relations.{
  SiteKey, flattened, with_module, site_key_of, source_index, is_consumption, is_service,
  consumers_index, serves_index, role_of, target_endpoints, candidates_for,
}

-- An indexed endpoint of a module.
abbrev pub IsIndexed : Endpoints → Text → MessageEndpoint → Type 0
IsIndexed d m e = Memᴰ e (flattened (values d)) × (e.in_module ≡ some m)

pub with_module_iff :
    (es : List MessageEndpoint) (m : Text) (e : MessageEndpoint)
    → Memᴰ (m, e) (with_module es) ↔ (Memᴰ e es × (e.in_module ≡ some m))
with_module_iff [] m e = (λ n. absurd (Memᴰ.not-nil n), λ h. absurd (Memᴰ.not-nil h.0))
with_module_iff (x ∷ es) m e =
    let later = with_module_iff es m e in
    elim (Option-cases x.in_module) [
      | inl q ↦ simp q (
        λ n. (Memᴰ.tail (later.0 n).0, (later.0 n).1),
        λ (n, h).
            ⊎_elim (λ p. cc (sym (ap (λ (z : MessageEndpoint). z.in_module) p) ∙ h, q))
              (λ k. later.1 (k, h)) (Memᴰ.cases_cons n),
      )
      | inr (t, q) ↦ simp q (
        λ n.
            ⊎_elim
              (λ p.
                let same : e ≡ x = ap (λ (z : Text × MessageEndpoint). z.1) p in
                let name : m ≡ t = ap (λ (z : Text × MessageEndpoint). z.0) p in
                (
                  Memᴰ.head same,
                  ap (λ (z : MessageEndpoint). z.in_module) same ∙ (q ∙ ap some (sym name)),
                ))
              (λ k. (Memᴰ.tail (later.0 k).0, (later.0 k).1)) (Memᴰ.cases_cons n),
        λ (n, h).
            ⊎_elim
              (λ p.
                let both : some t ≡ some m =
                  sym q ∙ (sym (ap (λ (z : MessageEndpoint). z.in_module) p) ∙ h) in
                let name : t ≡ m = cc in Memᴰ.head (cc))
              (λ k. Memᴰ.tail (later.1 (k, h))) (Memᴰ.cases_cons n),
      )
    ]

module _ (compile : Compile) (d : Endpoints) where
  abbrev all : List (Text × MessageEndpoint)
  all = with_module (flattened (values d))

  -- The sites that are evidence of a relation.
  pub record IsEvidence (r : ArchitectureRelation) (source : MessageEndpoint) : Type 0 where
    pub indexed : IsIndexed d r.source_name source
    pub path : some source.path ≡ r.path
    pub line : some source.start_line ≡ r.start_line
    pub role : source.role ≡ role_of r

  pub candidates_iff :
      (r : ArchitectureRelation) (source : MessageEndpoint)
      → Memᴰ source (candidates_for compile d r) ↔ IsEvidence r source
  unfolding candidates_for source_index group
  candidates_iff r source =
      let key : SiteKey = (r.source_name, (r.path, (r.start_line, role_of r))) in
      (
        λ m.
            ⊎_elim (λ n. absurd (Memᴰ.not-nil n))
              (λ ((name, e), n, k, q).
                let same : e ≡ source = q in
                let (listed, in_m) = (with_module_iff (flattened (values d)) name e).0 n in
                let named : name ≡ r.source_name = ap (λ (z : SiteKey). z.0) k in
                subst (IsEvidence r) same (record {
                  indexed = (listed, in_m ∙ ap some named);
                  path = ap (λ (z : SiteKey). z.1.0) k;
                  line = ap (λ (z : SiteKey). z.1.1.0) k;
                  role = ap (λ (z : SiteKey). z.1.1.1) k;
                }))
              (Memᴰ-group_all site_key_of (λ (s : Text × MessageEndpoint). s.1) [] all key source
                m),
        λ h.
            let there = (with_module_iff (flattened (values d)) r.source_name source).1 h.indexed in
            let at : site_key_of (r.source_name, source) ≡ key = cc (h.path, h.line, h.role) in
            subst
              (λ z.
                Memᴰ source
                  (group (group_all site_key_of (λ (s : Text × MessageEndpoint). s.1) [] all) z))
              at
              (group_all-Memᴰ site_key_of (λ (s : Text × MessageEndpoint). s.1) [] all
                (r.source_name, source) there),
      )

  -- What a target site has to do with the site of its source.
  pub record IsTarget (kind target_service : Text) (source target : MessageEndpoint) : Type 0 where
    pub indexed : IsIndexed d target_service target
    pub of_topic :
        kind ≡ kafka
        → (target.role ≡ consume)
          × ((target.topic ≡ source.topic)
              × (message_types_conflict source.message_type target.message_type ≡ false))
    pub of_route :
        kind ≡ rest → (target.role ≡ serve) × (paths_match compile source.topic target.topic ≡ true)

  consumers_sound :
      (m topic : Text) (e : MessageEndpoint)
      → Memᴰ e (group (consumers_index d) (m, topic))
      → IsIndexed d m e × ((e.role ≡ consume) × (e.topic ≡ topic))
  unfolding consumers_index group
  consumers_sound m topic e h =
      ⊎_elim (λ n. absurd (Memᴰ.not-nil n))
        (λ ((name, x), n, k, q).
          let same : x ≡ e = q in
          let (n', t) = (Memᴰ-filter is_consumption (name, x) all).0 n in
          let (listed, in_m) = (with_module_iff (flattened (values d)) name x).0 n' in
          subst
            (λ (z : MessageEndpoint). IsIndexed d m z × ((z.role ≡ consume) × (z.topic ≡ topic)))
            same
            (
              (listed, in_m ∙ ap some (ap (λ (z : Text × Text). z.0) k)),
              (ground (arith, text_beq_iff x.role consume), ap (λ (z : Text × Text). z.1) k),
            ))
        (Memᴰ-group_all (λ (s : Text × MessageEndpoint). (s.0, s.1.topic)) (λ s. s.1) []
          (filter is_consumption all) (m, topic) e h)

  serves_sound :
      (m : Text) (e : MessageEndpoint)
      → Memᴰ e (group (serves_index d) m)
      → IsIndexed d m e × (e.role ≡ serve)
  unfolding serves_index group
  serves_sound m e h =
      ⊎_elim (λ n. absurd (Memᴰ.not-nil n))
        (λ ((name, x), n, k, q).
          let same : x ≡ e = q in
          let (n', t) = (Memᴰ-filter is_service (name, x) all).0 n in
          let (listed, in_m) = (with_module_iff (flattened (values d)) name x).0 n' in
          subst (λ (z : MessageEndpoint). IsIndexed d m z × (z.role ≡ serve)) same
            ((listed, in_m ∙ ap some k), ground (arith, text_beq_iff x.role serve)))
        (Memᴰ-group_all (λ (s : Text × MessageEndpoint). s.0) (λ s. s.1) [] (filter is_service all)
          m e h)

  rest_not_kafka : kafka ≡ rest → ⊥
  unfolding text_beq
  rest_not_kafka e = cc ((text_beq_iff kafka rest).1 e)

  pub targets_sound :
      (kind to : Text) (source target : MessageEndpoint)
      → Memᴰ target (target_endpoints compile d kind to source)
      → IsTarget kind to source target
  unfolding target_endpoints
  targets_sound kind to source target m = elim (Bool-cases (text_beq kind kafka)) [
    | inl t ↦
        let (n, c) =
          (Memᴰ-filter
              (λ (x : MessageEndpoint).
                not (message_types_conflict source.message_type x.message_type))
              target (group (consumers_index d) (to, source.topic))).0
            (rw t at m) in
        let (i, (r, q)) = consumers_sound to source.topic target n in
        record {
          indexed = i;
          of_topic = λ _. (r, (q, ground arith));
          of_route = λ e. absurd (rest_not_kafka (sym ((text_beq_iff kind kafka).0 t) ∙ e));
        }
    | inr t ↦
        let (n, p) =
          select_sound compile source.topic (group (serves_index d) to) target (rw t at m) in
        let (i, r) = serves_sound to target n in
        record {
          indexed = i;
          of_topic = λ e. cc ((text_beq_iff kind kafka).1 e);
          of_route = λ e. (r, p);
        }
  ]
