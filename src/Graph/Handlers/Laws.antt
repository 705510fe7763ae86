-- ===== src/Graph/Handlers/Laws.antt =====
-- Which calls find_outbound_calls_in_consumers (domain/graph.py) reports.
use mathlib.Core.List.Memᴰ
use mathlib.Core.Logic.{⊎_elim}
use systemlens.Prelude.{
  ◌≡◌, sym, ap, ◌∙◌, subst, ◌≤◌, true, List, [], ◌∷◌, filter, map, Memᴰ, Memᴰ-filter, ◌↔◌, arith,
}
use systemlens.Prelude.Dict.{Dict, group, group_all, Memᴰ-group_all, group_all-Memᴰ}
use systemlens.Text.{Text, text_eq, text_beq_iff}
use systemlens.Models.{MessageEndpoint, kafka, rest, consume, call}
use systemlens.Graph.Handlers.{
  OutboundCallInConsumer, is_consumer, is_call, calls_by_path, inside, calls_inside, outbound_of,
  find_outbound_calls_in_consumers,
}

-- A REST call whose first line stands within a Kafka handler of the same file.
pub record CallsWithin (consumer site : MessageEndpoint) : Type 0 where
  pub consumes : (consumer.system ≡ kafka) × (consumer.role ≡ consume)
  pub calls : (site.system ≡ rest) × (site.role ≡ call)
  pub same_file : site.path ≡ consumer.path
  pub after : consumer.start_line ≤ site.start_line
  pub before : site.start_line ≤ consumer.end_line

abbrev pub pair_of : MessageEndpoint → MessageEndpoint → OutboundCallInConsumer
pair_of consumer site = record { consumer = consumer; call_site = site }

inside_iff :
    (consumer site : MessageEndpoint)
    → (inside consumer site ≡ true)
      ↔ ((consumer.start_line ≤ site.start_line) × (site.start_line ≤ consumer.end_line))
unfolding inside
inside_iff consumer site = ground arith

calls_inside_iff :
    (calls : List MessageEndpoint) (handler consumer site : MessageEndpoint)
    → Memᴰ (pair_of consumer site) (calls_inside calls handler)
      ↔ ((consumer ≡ handler) × (Memᴰ site calls × (inside handler site ≡ true)))
unfolding calls_inside
calls_inside_iff calls handler consumer site =
    let there = Memᴰ-filter (inside handler) site calls in
    (
      λ m.
          let (s, n, e) = Memᴰ.of_map (pair_of handler) (filter (inside handler) calls) m in
          let same : s ≡ site = ap (λ (p : OutboundCallInConsumer). p.call_site) e in
          (
            sym (ap (λ (p : OutboundCallInConsumer). p.consumer) e),
            there.0 (Memᴰ.cast (sym same) n),
          ),
      λ (e, h).
          subst (λ z. Memᴰ (pair_of z site) (map (pair_of handler) (filter (inside handler) calls)))
            (sym e) (Memᴰ.map (pair_of handler) (there.1 h)),
    )

outbound_of_iff :
    (d : Dict Text (List MessageEndpoint)) (consumers : List MessageEndpoint)
    (consumer site : MessageEndpoint)
    → Memᴰ (pair_of consumer site) (outbound_of d consumers) ↔ (
        Memᴰ consumer consumers
        × (Memᴰ site (group d consumer.path) × (inside consumer site ≡ true)))
unfolding outbound_of
outbound_of_iff d [] consumer site = (λ m. absurd (Memᴰ.not-nil m), λ h. absurd (Memᴰ.not-nil h.0))
outbound_of_iff d (c ∷ cs) consumer site =
    let one = calls_inside_iff (group d c.path) c consumer site in
    let rest = outbound_of_iff d cs consumer site in
    (
      λ m.
          ⊎_elim
            (λ k.
              let (e, (n, t)) = one.0 k in
              (
                Memᴰ.head e,
                (
                  subst (λ (z : MessageEndpoint). Memᴰ site (group d z.path)) (sym e) n,
                  subst (λ z. inside z site ≡ true) (sym e) t,
                ),
              ))
            (λ k. (Memᴰ.tail (rest.0 k).0, (rest.0 k).1))
            (Memᴰ.append_cases (calls_inside (group d c.path) c) m),
      λ (m, (n, t)).
          ⊎_elim
            (λ e. Memᴰ.append_left (outbound_of d cs) (
              one.1 (
                e,
                (
                  subst (λ (z : MessageEndpoint). Memᴰ site (group d z.path)) e n,
                  subst (λ z. inside z site ≡ true) e t,
                ),
              )))
            (λ k. Memᴰ.append_right (calls_inside (group d c.path) c) (rest.1 (k, (n, t))))
            (Memᴰ.cases_cons m),
    )

calls_by_path_iff :
    (endpoints : List MessageEndpoint) (path : Text) (site : MessageEndpoint)
    → Memᴰ site (group (calls_by_path endpoints) path)
      ↔ (Memᴰ site endpoints × ((is_call site ≡ true) × (site.path ≡ path)))
unfolding calls_by_path group
calls_by_path_iff endpoints path site = (
  λ m.
      ⊎_elim (λ n. absurd (Memᴰ.not-nil n))
        (λ (x, n, e, q).
          let (k, t) = (Memᴰ-filter is_call x endpoints).0 n in
          (
            Memᴰ.cast (sym q) k,
            (ap is_call (sym q) ∙ t, ap (λ (z : MessageEndpoint). z.path) (sym q) ∙ e),
          ))
        (Memᴰ-group_all (λ (e : MessageEndpoint). e.path) (λ e. e) [] (filter is_call endpoints)
          path site m),
  λ (m, (t, e)).
      subst
        (λ z. Memᴰ site (
          group (group_all (λ (x : MessageEndpoint). x.path) (λ x. x) [] (filter is_call endpoints))
            z))
        e
        (group_all-Memᴰ (λ (x : MessageEndpoint). x.path) (λ x. x) [] (filter is_call endpoints)
          site ((Memᴰ-filter is_call site endpoints).1 (m, t))),
)

-- The report has a consumer and a call exactly where both are among the endpoints, the consumer is
-- a Kafka handler, the call is a REST call of the same file, and its first line stands within the
-- lines of the handler, both ends included.
pub outbound_iff :
    (endpoints : List MessageEndpoint) (consumer site : MessageEndpoint)
    → Memᴰ (pair_of consumer site) (find_outbound_calls_in_consumers endpoints)
      ↔ (Memᴰ consumer endpoints × (Memᴰ site endpoints × CallsWithin consumer site))
unfolding find_outbound_calls_in_consumers is_consumer is_call
outbound_iff endpoints consumer site =
    let pairs =
      outbound_of_iff (calls_by_path endpoints) (filter is_consumer endpoints) consumer site in
    let sites = calls_by_path_iff endpoints consumer.path site in
    let handlers = Memᴰ-filter is_consumer consumer endpoints in
    let lines = inside_iff consumer site in
    let system = text_beq_iff consumer.system kafka in
    let role = text_beq_iff consumer.role consume in
    let site_system = text_beq_iff site.system rest in
    let site_role = text_beq_iff site.role call in
    (
      λ m.
          let (h, (s, t)) = pairs.0 m in
          let (hm, ht) = handlers.0 h in
          let (sm, (st, sp)) = sites.0 s in
          (
            hm,
            (
              sm,
              record {
                consumes = (ground (arith, system), ground (arith, role));
                calls = (ground (arith, site_system), ground (arith, site_role));
                same_file = sp;
                after = (lines.0 t).0;
                before = (lines.0 t).1;
              },
            ),
          ),
      λ (hm, (sm, w)). pairs.1 (
        handlers.1 (hm, ground (arith, system, role, w.consumes)),
        (
          sites.1 (sm, (ground (arith, site_system, site_role, w.calls), w.same_file)),
          lines.1 (w.after, w.before),
        ),
      ),
    )
