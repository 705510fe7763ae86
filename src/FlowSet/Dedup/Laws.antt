-- ===== src/FlowSet/Dedup/Laws.antt =====
-- What the deduplication keeps of a set of flows (indexing/code_flows.py).
use mathlib.Core.List.Memᴰ
use mathlib.Core.Logic.{⊎_elim}
use systemlens.Prelude.{
  ◌≡◌, refl, sym, ◌≢◌, ap, ◌∙◌, subst, false, List, [], ◌∷◌, ◌==◌, filter, map, dedup, length, Memᴰ,
  Memᴰ-filter, Distinct,
}
use systemlens.Prelude.Dict.{Dict, keys, group, group_all-Memᴰ}
use systemlens.Prelude.Groups.{
  item_of_group, group_of_item, Distinct-group_all, group-group_all_new,
}
use systemlens.Text.{Text}
use systemlens.Text.Order.{sort, Memᴰ-sort, Distinct-map-sort}
use systemlens.CodeFlows.{CodeFlow}
use systemlens.CodeFlows.Internal.{EndpointsById}
use systemlens.CodeFlows.Tree.{flow_leb}
use systemlens.FlowSet.Anchors.{FlowKey, flow_key, flow_key_eq, flow_key_beq_iff}
use systemlens.FlowSet.Dedup.{
  route_signature, route_eq, preferred, least, represent, by_repr, selected, grouped,
  deduplicate_code_flows,
}
use systemlens.FlowSet.Dedup.Order.{least-Memᴰ, least_lem}

-- The flows that share a key.
abbrev pub parallel : EndpointsById → List CodeFlow → FlowKey → List CodeFlow
parallel d flows key = filter (λ f. flow_key d f == key) flows

-- `r` stands for the flows of a key: it is one of them but for the number of their routes, and none
-- of them is preferred to it.
pub record Represents (d : EndpointsById) (flows : List CodeFlow) (key : FlowKey) (r : CodeFlow)
    : Type 0 where
  pub chosen : CodeFlow
  pub given : Memᴰ chosen flows
  pub key_of : flow_key d chosen ≡ key
  pub counted : r ≡ record chosen {
    alternative_count = length (dedup (map route_signature (parallel d flows key)));
  }
  pub best : (f : CodeFlow) → Memᴰ f flows → flow_key d f ≡ key → preferred f chosen ≡ false

map_id : (xs : List CodeFlow) → map (λ (x : CodeFlow). x) xs ≡ xs
map_id [] = refl
map_id (x ∷ xs) = ap (λ (ys : List CodeFlow). x ∷ ys) (map_id xs)

cons_ne : (f : CodeFlow) (fs : List CodeFlow) → f ∷ fs ≢ []
cons_ne f fs e = cc

represent_same :
    (f g : CodeFlow) (fs gs : List CodeFlow) → f ∷ fs ≡ g ∷ gs → represent f fs ≡ represent g gs
represent_same f g fs gs e = cc

cons_of_mem :
    (f : CodeFlow) (fs : List CodeFlow)
    → Memᴰ f fs
    → (g : CodeFlow) × ((gs : List CodeFlow) × (fs ≡ g ∷ gs))
cons_of_mem f [] m = absurd (Memᴰ.not-nil m)
cons_of_mem f (g ∷ gs) m = (g, (gs, refl))

module _ (d : EndpointsById) (flows : List CodeFlow) where
  Distinct-grouped : Distinct (keys (grouped d flows))
  unfolding grouped
  Distinct-grouped = Distinct-group_all (flow_key d) (λ f. f) [] flows tt

  group-parallel : (key : FlowKey) → group (grouped d flows) key ≡ parallel d flows key
  unfolding grouped
  group-parallel key = group-group_all_new (flow_key d) (λ f. f) flows key ∙ map_id _

  -- Every flow stands in a group of the dict.
  item_of_flow :
      (f : CodeFlow)
      → Memᴰ f flows
      → Memᴰ (flow_key d f, parallel d flows (flow_key d f)) (grouped d flows)
  unfolding grouped
  item_of_flow f m =
      let key = flow_key d f in
      subst (λ fs. Memᴰ (key, fs) (grouped d flows)) (group-parallel key)
        (item_of_group (grouped d flows) key f (group_all-Memᴰ (flow_key d) (λ g. g) [] flows f m))

  Represents-represent :
      (key : FlowKey) (f : CodeFlow) (fs : List CodeFlow)
      → parallel d flows key ≡ f ∷ fs
      → Represents d flows key (represent f fs)
  unfolding represent
  Represents-represent key f fs q =
      let at = subst (Memᴰ (least f fs)) (sym q) (least-Memᴰ f fs) in
      let here = (Memᴰ-filter (λ g. flow_key d g == key) (least f fs) flows).0 at in
      record {
        chosen = least f fs;
        given = here.0;
        key_of = (flow_key_beq_iff (flow_key d (least f fs)) key).0 here.1;
        counted =
            ap
              (λ (gs : List CodeFlow). record (least f fs) {
                alternative_count = length (dedup (map route_signature gs));
              })
              (sym q);
        best = λ g m k. least_lem f fs g (
            subst (Memᴰ g) q (
              (Memᴰ-filter (λ h. flow_key d h == key) g flows).1
                (m, (flow_key_beq_iff (flow_key d g) key).1 k)));
      }

  -- Every item of the dict holds all flows of its key.
  parallel_of_item :
      (key : FlowKey) (fs : List CodeFlow)
      → Memᴰ (key, fs) (grouped d flows)
      → parallel d flows key ≡ fs
  parallel_of_item key fs m =
      sym (group-parallel key) ∙ group_of_item (grouped d flows) key fs Distinct-grouped m

  abbrev AreGroups : List (FlowKey × List CodeFlow) → Type 0
  AreGroups items =
      (key : FlowKey) (fs : List CodeFlow) → Memᴰ (key, fs) items → parallel d flows key ≡ fs

  selected_sound :
      (items : List (FlowKey × List CodeFlow)) (r : CodeFlow)
      → AreGroups items
      → Memᴰ r (selected items)
      → (key : FlowKey) × (Memᴰ key (map (λ p. p.0) items) × Represents d flows key r)
  unfolding selected
  selected_sound [] r h m = absurd (Memᴰ.not-nil m)
  selected_sound ((key, []) ∷ items) r h m =
      let (k, (n, s)) = selected_sound items r (λ j fs n. h j fs (Memᴰ.tail n)) m in
      (k, (Memᴰ.tail n, s))
  selected_sound ((key, f ∷ fs) ∷ items) r h m =
      ⊎_elim
        (λ e. (
          key,
          (
            Memᴰ.head refl,
            subst (Represents d flows key) (sym e)
                (Represents-represent key f fs (h key (f ∷ fs) (Memᴰ.head refl))),
          ),
        ))
        (λ t.
          let (k, (n, s)) = selected_sound items r (λ j gs n. h j gs (Memᴰ.tail n)) t in
          (k, (Memᴰ.tail n, s)))
        (Memᴰ.cases_cons m)

  selected_complete :
      (items : List (FlowKey × List CodeFlow)) (key : FlowKey) (f : CodeFlow) (fs : List CodeFlow)
      → Memᴰ (key, f ∷ fs) items
      → Memᴰ (represent f fs) (selected items)
  unfolding selected
  selected_complete [] key f fs m = absurd (Memᴰ.not-nil m)
  selected_complete ((k, []) ∷ items) key f fs m =
      ⊎_elim (λ e. absurd (cons_ne f fs (ap (λ (p : FlowKey × List CodeFlow). p.1) e)))
        (selected_complete items key f fs) (Memᴰ.cases_cons m)
  selected_complete ((k, g ∷ gs) ∷ items) key f fs m =
      ⊎_elim
        (λ e. Memᴰ.head (represent_same f g fs gs (ap (λ (p : FlowKey × List CodeFlow). p.1) e)))
        (λ n. Memᴰ.tail (selected_complete items key f fs n)) (Memᴰ.cases_cons m)

  -- The number of routes is no part of the key.
  key_of_representative :
      (key : FlowKey) (r : CodeFlow) → Represents d flows key r → flow_key d r ≡ key
  unfolding flow_key
  key_of_representative key r s = ap (flow_key d) s.counted ∙ s.key_of

  Distinct-selected :
      (items : List (FlowKey × List CodeFlow))
      → AreGroups items
      → Distinct (map (λ p. p.0) items)
      → Distinct (map (flow_key d) (selected items))
  unfolding selected
  Distinct-selected [] h t = tt
  Distinct-selected ((key, []) ∷ items) h t =
      Distinct-selected items (λ j fs n. h j fs (Memᴰ.tail n)) t.1
  Distinct-selected ((key, f ∷ fs) ∷ items) h t = (
    λ m.
        let (r, n, q) = Memᴰ.of_map (flow_key d) (selected items) m in
        let (k, (at, s)) = selected_sound items r (λ j gs o. h j gs (Memᴰ.tail o)) n in
        let mine =
          key_of_representative key (represent f fs)
            (Represents-represent key f fs (h key (f ∷ fs) (Memᴰ.head refl))) in
        t.0 (Memᴰ.cast (sym mine ∙ sym q ∙ key_of_representative k r s) at),
    Distinct-selected items (λ j gs n. h j gs (Memᴰ.tail n)) t.1,
  )

  sorted-AreGroups : (repr : FlowKey → Text) → AreGroups (sort (by_repr repr) (grouped d flows))
  sorted-AreGroups repr key fs m =
      parallel_of_item key fs ((Memᴰ-sort (by_repr repr) (key, fs) (grouped d flows)).0 m)

  -- The representative of a flow's group is selected.
  selected_flow :
      (items : List (FlowKey × List CodeFlow)) (f : CodeFlow)
      → Memᴰ f flows
      → Memᴰ (flow_key d f, parallel d flows (flow_key d f)) items
      → (r : CodeFlow) × (Memᴰ r (selected items) × (flow_key d r ≡ flow_key d f))
  selected_flow items f m at =
      let key = flow_key d f in
      let mine =
        (Memᴰ-filter (λ g. flow_key d g == key) f flows).1 (m, (flow_key_beq_iff key key).1 refl) in
      let (g, (gs, q)) = cons_of_mem f (parallel d flows key) mine in
      (
        represent g gs,
        (
          selected_complete items key g gs (subst (λ fs. Memᴰ (key, fs) items) q at),
          key_of_representative key (represent g gs) (Represents-represent key g gs q),
        ),
      )

  keys_map : (items : Dict FlowKey (List CodeFlow)) → map (λ p. p.0) items ≡ keys items
  keys_map [] = refl
  keys_map ((k, v) ∷ items) = ap (λ (ks : List FlowKey). k ∷ ks) (keys_map items)

  Distinct-sorted :
      (repr : FlowKey → Text) → Distinct (map (λ p. p.0) (sort (by_repr repr) (grouped d flows)))
  Distinct-sorted repr =
      Distinct-map-sort (by_repr repr) (λ p. p.0) (grouped d flows)
        (subst Distinct (sym (keys_map (grouped d flows))) Distinct-grouped)

pub deduplicate_lem :
    (repr : FlowKey → Text) (d : EndpointsById) (flows : List CodeFlow)
    → ((r : CodeFlow)
        → Memᴰ r (deduplicate_code_flows repr d flows)
        → Represents d flows (flow_key d r) r)
      × (((f : CodeFlow)
            → Memᴰ f flows
            → (r : CodeFlow) × (Memᴰ r (deduplicate_code_flows repr d flows)
                × (flow_key d r ≡ flow_key d f)))
          × Distinct (map (flow_key d) (deduplicate_code_flows repr d flows)))
unfolding deduplicate_code_flows
deduplicate_lem repr d flows =
    let items = sort (by_repr repr) (grouped d flows) in
    let groups = sorted-AreGroups d flows repr in
    (
      λ r m.
          let at = (Memᴰ-sort flow_leb r (selected items)).0 m in
          let (k, (_, s)) = selected_sound d flows items r groups at in
          subst (λ j. Represents d flows j r) (sym (key_of_representative d flows k r s)) s,
      (
        λ f m.
            let here = item_of_flow d flows f m in
            let (r, (n, k)) =
              selected_flow d flows items f m
                ((Memᴰ-sort (by_repr repr) _ (grouped d flows)).1 here) in
            (r, ((Memᴰ-sort flow_leb r (selected items)).1 n, k)),
        Distinct-map-sort flow_leb (flow_key d) (selected items)
            (Distinct-selected d flows items groups (Distinct-sorted d flows repr)),
      ),
    )
