-- ===== src/Graph/Messaging/Pairs.antt =====
-- The edges of a list of links (message_edges of Messaging, domain/graph.py) join indexed sites.
use mathlib.Core.List.Memᴰ
use mathlib.Core.Logic.{⊎_elim}
use systemlens.Prelude.{
  ◌≡◌, refl, sym, ap, subst, true, false, not, some, List, [], ◌∷◌, filter, map, Memᴰ, Memᴰ-filter,
  arith, ◌⊎◌, inl, inr, pair_eq,
}
use systemlens.Prelude.Dict.{group, group_all, Memᴰ-group_all, group_all-Memᴰ}
use systemlens.Text.{Text, text_eq, text_beq_iff}
use systemlens.Models.{MessageEndpoint, kafka, produce, consume}
use systemlens.MessageTypes.{message_types_conflict}
use systemlens.Graph.Edges.{GraphEdge, key_eq}
use systemlens.Graph.Edges.Build.{Endpoints, Sited, all_endpoints}
use systemlens.Graph.Messaging.{
  Link, is_messaging, kafka_endpoint_index, message_edge, edges_for, edges_between, message_edges,
}

-- An indexed messaging site of a service.
pub record IsSite (d : Endpoints) (service topic role : Text) (e : MessageEndpoint) : Type 0 where
  pub listed : Memᴰ (service, e) (all_endpoints d)
  pub messaging : e.system ≡ kafka
  pub topic_is : e.topic ≡ topic
  pub role_is : e.role ≡ role

-- Two sites that make an edge of a link.
pub record Carries (d : Endpoints) (Linked : Text → Text → Text → Type 0) (from to name : Text)
    (producer consumer : MessageEndpoint) : Type 0 where
  pub linked : Linked from to name
  pub produced : IsSite d from name produce producer
  pub consumed : IsSite d to name consume consumer
  pub compatible : message_types_conflict producer.message_type consumer.message_type ≡ false

abbrev pub Listed : List Link → Text → Text → Text → Type 0
Listed links from to name = Memᴰ (from, (to, name)) links

pub relinked :
    (d : Endpoints) (P Q : Text → Text → Text → Type 0) (from to name : Text)
    (producer consumer : MessageEndpoint)
    → (P from to name → Q from to name)
    → Carries d P from to name producer consumer
    → Carries d Q from to name producer consumer
relinked d P Q from to name producer consumer f h = record {
  linked = f h.linked;
  produced = h.produced;
  consumed = h.consumed;
  compatible = h.compatible;
}

module _ (d : Endpoints) where
  abbrev site_of : Sited → Text × (Text × Text)
  site_of s = (s.0, (s.1.topic, s.1.role))

  index_sound :
      (service topic role : Text) (e : MessageEndpoint)
      → Memᴰ e (group (kafka_endpoint_index d) (service, (topic, role)))
      → IsSite d service topic role e
  unfolding kafka_endpoint_index group
  index_sound service topic role e m =
      ⊎_elim (λ n. absurd (Memᴰ.not-nil n))
        (λ ((name, x), n, k, q).
          let same : x ≡ e = q in
          let (n', t) = (Memᴰ-filter is_messaging (name, x) (all_endpoints d)).0 n in
          subst (IsSite d service topic role) same (record {
            listed =
                subst (λ z. Memᴰ (z, x) (all_endpoints d))
                  (ap (λ (z : Text × (Text × Text)). z.0) k) n';
            messaging = ground (arith, text_beq_iff x.system kafka);
            topic_is = ap (λ (z : Text × (Text × Text)). z.1.0) k;
            role_is = ap (λ (z : Text × (Text × Text)). z.1.1) k;
          }))
        (Memᴰ-group_all site_of (λ (s : Sited). s.1) [] (filter is_messaging (all_endpoints d))
          (service, (topic, role)) e m)

  index_complete :
      (service topic role : Text) (e : MessageEndpoint)
      → ((role ≡ produce) ⊎ (role ≡ consume))
      → IsSite d service topic role e
      → Memᴰ e (group (kafka_endpoint_index d) (service, (topic, role)))
  unfolding kafka_endpoint_index
  index_complete service topic role e one h =
      let test : is_messaging (service, e) ≡ true = ground (
        arith,
        text_beq_iff e.system kafka,
        h.messaging,
        text_beq_iff e.role produce,
        text_beq_iff e.role consume,
        h.role_is,
        one,
      ) in
      let at : site_of (service, e) ≡ (service, (topic, role)) = cc (h.topic_is, h.role_is) in
      subst
        (λ z. Memᴰ e (
          group (group_all site_of (λ (s : Sited). s.1) [] (filter is_messaging (all_endpoints d)))
            z))
        at
        (group_all-Memᴰ site_of (λ (s : Sited). s.1) [] (filter is_messaging (all_endpoints d))
          (service, e)
          ((Memᴰ-filter is_messaging (service, e) (all_endpoints d)).1 (h.listed, test)))

  edges_for_iff :
      (from to : Text) (consumers : List MessageEndpoint) (p : MessageEndpoint) (e : GraphEdge)
      → Memᴰ e (edges_for from to consumers p)
      → (c : MessageEndpoint) × (Memᴰ c consumers
          × ((message_types_conflict p.message_type c.message_type ≡ false)
              × (message_edge from to p c ≡ e)))
  unfolding edges_for
  edges_for_iff from to consumers p e m =
      let test =
        λ (c : MessageEndpoint). not (message_types_conflict p.message_type c.message_type) in
      let (c, n, q) = Memᴰ.of_map (message_edge from to p) (filter test consumers) m in
      let (k, t) = (Memᴰ-filter test c consumers).0 n in (c, (k, (ground arith, q)))

  edges_between_sound :
      (from to : Text) (producers consumers : List MessageEndpoint) (e : GraphEdge)
      → Memᴰ e (edges_between from to producers consumers)
      → (p : MessageEndpoint) × (Memᴰ p producers
          × ((c : MessageEndpoint) × (Memᴰ c consumers
                × ((message_types_conflict p.message_type c.message_type ≡ false)
                    × (message_edge from to p c ≡ e)))))
  unfolding edges_between
  edges_between_sound from to [] consumers e m = absurd (Memᴰ.not-nil m)
  edges_between_sound from to (p ∷ producers) consumers e m =
      ⊎_elim (λ n. (p, (Memᴰ.head refl, edges_for_iff from to consumers p e n)))
        (λ n.
          let (x, (k, r)) = edges_between_sound from to producers consumers e n in
          (x, (Memᴰ.tail k, r)))
        (Memᴰ.append_cases (edges_for from to consumers p) m)

  edges_between_complete :
      (from to : Text) (producers consumers : List MessageEndpoint) (p c : MessageEndpoint)
      → Memᴰ p producers
      → Memᴰ c consumers
      → message_types_conflict p.message_type c.message_type ≡ false
      → Memᴰ (message_edge from to p c) (edges_between from to producers consumers)
  unfolding edges_between edges_for
  edges_between_complete from to [] consumers p c m n h = absurd (Memᴰ.not-nil m)
  edges_between_complete from to (x ∷ producers) consumers p c m n h =
      let test = λ (z : MessageEndpoint) (y : MessageEndpoint).
        not (message_types_conflict z.message_type y.message_type) in
      ⊎_elim
        (λ same. Memᴰ.append_left (edges_between from to producers consumers) (
          subst
            (λ z.
              Memᴰ (message_edge from to p c)
                (map (message_edge from to z) (filter (test z) consumers)))
            same
            (Memᴰ.map (message_edge from to p)
              ((Memᴰ-filter (test p) c consumers).1 (n, ground arith)))))
        (λ k. Memᴰ.append_right _ (edges_between_complete from to producers consumers p c k n h))
        (Memᴰ.cases_cons m)

  pub message_edges_sound :
      (links : List Link) (e : GraphEdge)
      → Memᴰ e (message_edges (kafka_endpoint_index d) links)
      → (name : Text) × ((consumer : MessageEndpoint) × ((e.to_endpoint ≡ some consumer)
            × Carries d (Listed links) e.from_service e.to_service name e.from_endpoint consumer))
  unfolding message_edges
  message_edges_sound [] e m = absurd (Memᴰ.not-nil m)
  message_edges_sound ((from, (to, name)) ∷ links) e m =
      let index = kafka_endpoint_index d in
      let producers = group index (from, (name, produce)) in
      let consumers = group index (to, (name, consume)) in
      ⊎_elim
        (λ n.
          let (p, (k, (c, (l, (t, q))))) = edges_between_sound from to producers consumers e n in
          (
            name,
            (
              c,
              (
                ap (λ (x : GraphEdge). x.to_endpoint) (sym q),
                subst
                    (λ (x : GraphEdge).
                      Carries d (Listed ((from, (to, name)) ∷ links)) x.from_service x.to_service
                        name x.from_endpoint c)
                    q
                    (record {
                      linked = Memᴰ.head refl;
                      produced = index_sound from name produce p k;
                      consumed = index_sound to name consume c l;
                      compatible = t;
                    }),
              ),
            ),
          ))
        (λ n.
          let (x, (c, (q, h))) = message_edges_sound links e n in
          (
            x,
            (
              c,
              (
                q,
                relinked d (Listed links) (Listed ((from, (to, name)) ∷ links)) e.from_service
                    e.to_service x e.from_endpoint c Memᴰ.tail h,
              ),
            ),
          ))
        (Memᴰ.append_cases (edges_between from to producers consumers) m)

  pub message_edges_complete :
      (links : List Link) (from to name : Text) (p c : MessageEndpoint)
      → Carries d (Listed links) from to name p c
      → Memᴰ (message_edge from to p c) (message_edges (kafka_endpoint_index d) links)
  unfolding message_edges
  message_edges_complete [] from to name p c h = absurd (Memᴰ.not-nil h.linked)
  message_edges_complete ((f, (t, n)) ∷ links) from to name p c h =
      ⊎_elim
        (λ q.
          let same_from : from ≡ f = ap (λ (z : Link). z.0) q in
          let same_to : to ≡ t = ap (λ (z : Link). z.1.0) q in
          let same_name : name ≡ n = ap (λ (z : Link). z.1.1) q in
          Memᴰ.append_left (message_edges (kafka_endpoint_index d) links) (
            subst
              (λ (z : Link). Memᴰ (message_edge from to p c) (
                edges_between z.0 z.1.0 (group (kafka_endpoint_index d) (z.0, (z.1.1, produce)))
                  (group (kafka_endpoint_index d) (z.1.0, (z.1.1, consume)))))
              q
              (edges_between_complete from to _ _ p c
                (index_complete from name produce p (inl refl) h.produced)
                (index_complete to name consume c (inr refl) h.consumed) h.compatible)))
        (λ k. Memᴰ.append_right _ (
          message_edges_complete links from to name p c (record {
            linked = k;
            produced = h.produced;
            consumed = h.consumed;
            compatible = h.compatible;
          })))
        (Memᴰ.cases_cons h.linked)
