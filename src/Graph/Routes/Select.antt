-- ===== src/Graph/Routes/Select.antt =====
-- What select_matching_routes of domain/graph.py keeps and what it drops.
use mathlib.Core.List.Memᴰ
use mathlib.Core.Logic.{⊎_elim}
use systemlens.Prelude.{
  ◌≡◌, refl, sym, ap, ◌∙◌, subst, Bool, true, false, ◌||◌, List, [], ◌∷◌, ltb, length, contains,
  contains_iff, Memᴰ, Memᴰ-filter, Bool-cases, inl, inr, ◌⊎◌, ◌==◌, ◌<◌, arith,
}
use systemlens.Prelude.Dict.{group, group_all, values, group_all-Memᴰ, Memᴰ-group_all}
use systemlens.Prelude.Groups.{
  Memᴰ-values, values-Memᴰ, Distinct-group_all, group_of_item, item_of_group,
}
use systemlens.Text.{Text, text_eq, codes, partition}
use systemlens.Models.{MessageEndpoint}
use systemlens.Graph.Paths.{Compile, split_path, paths_match}
use systemlens.Graph.Routes.{
  Rank, rank_leb, ends_in_wildcard, rank_of, group_of, selected_ids, all_ids, ranked_groups,
  candidates_of, select_matching_routes,
}
use systemlens.Graph.Routes.Ranks.{
  Ranked, Guesses, rank_leb_refl, selected_ids-best, selected_ids_nonempty,
}

all_ids_group :
    (gs : List Ranked) (i : Text)
    → Memᴰ i (all_ids gs)
    → (g : Ranked) × Memᴰ g gs × Memᴰ i (selected_ids g)
unfolding all_ids
all_ids_group [] i m = absurd (Memᴰ.not-nil m)
all_ids_group (g ∷ gs) i m =
    ⊎_elim (λ k. (g, Memᴰ.head refl, k))
      (λ k. let (h, n, p) = all_ids_group gs i k in (h, Memᴰ.tail n, p))
      (Memᴰ.append_cases (selected_ids g) m)

group_all_ids :
    (gs : List Ranked) (g : Ranked) (i : Text)
    → Memᴰ g gs
    → Memᴰ i (selected_ids g)
    → Memᴰ i (all_ids gs)
unfolding all_ids
group_all_ids [] g i m k = absurd (Memᴰ.not-nil m)
group_all_ids (h ∷ gs) g i m k =
    ⊎_elim (λ e. Memᴰ.append_left (all_ids gs) (subst (λ z. Memᴰ i (selected_ids z)) e k))
      (λ n. Memᴰ.append_right (selected_ids h) (group_all_ids gs g i n k)) (Memᴰ.cases_cons m)

module _ (call_topic : Text) (candidates : List MessageEndpoint) where
  abbrev ranked : MessageEndpoint → Rank × MessageEndpoint
  ranked serve = (rank_of call_topic serve, serve)

  -- An item of a ranked group is a candidate of that group, with its rank.
  group_items :
      (k : Text) (r : Rank) (s : MessageEndpoint)
      → Memᴰ (r, s) (group (ranked_groups call_topic candidates) k)
      → Memᴰ s candidates × (group_of call_topic s ≡ k) × (rank_of call_topic s ≡ r)
  unfolding ranked_groups group
  group_items k r s m =
      ⊎_elim (λ n. absurd (Memᴰ.not-nil n))
        (λ (x, n, e, q).
          let same : x ≡ s = ap (λ (u : Rank × MessageEndpoint). u.1) q in
          (
            Memᴰ.cast (sym same) n,
            ap (group_of call_topic) (sym same) ∙ e,
            ap (rank_of call_topic) (sym same) ∙ ap (λ (u : Rank × MessageEndpoint). u.0) q,
          ))
        (Memᴰ-group_all (group_of call_topic) ranked [] candidates k (r, s) m)

  candidate_grouped :
      (s : MessageEndpoint)
      → Memᴰ s candidates
      → Memᴰ (ranked s) (group (ranked_groups call_topic candidates) (group_of call_topic s))
  unfolding ranked_groups
  candidate_grouped s m = group_all-Memᴰ (group_of call_topic) ranked [] candidates s m

  group_of_value :
      (g : Ranked)
      → Memᴰ g (values (ranked_groups call_topic candidates))
      → (k : Text) × (group (ranked_groups call_topic candidates) k ≡ g)
  unfolding ranked_groups
  group_of_value g m =
      let d = group_all (group_of call_topic) ranked [] candidates in
      let (k, n) = Memᴰ-values d g m in
      (k, group_of_item d k g (Distinct-group_all (group_of call_topic) ranked [] candidates tt) n)

  abbrev selected : List Text
  selected = all_ids (values (ranked_groups call_topic candidates))

  -- A selected id belongs to a candidate that no candidate of its group beats, or they all guess.
  selected-best :
      (i : Text)
      → Memᴰ i selected
      → (s : MessageEndpoint) × Memᴰ s candidates
        × (s.id ≡ i)
        × ((t : MessageEndpoint)
            → Memᴰ t candidates
            → group_of call_topic t ≡ group_of call_topic s
            → Guesses (rank_of call_topic t)
              ⊎ (rank_leb (rank_of call_topic s) (rank_of call_topic t) ≡ true))
  selected-best i m =
      let (g, n, p) = all_ids_group (values (ranked_groups call_topic candidates)) i m in
      let (k, e) = group_of_value g n in
      let (r, s, q, h, w) = selected_ids-best g i p in
      let (c, kc, rc) = group_items k r s (subst (Memᴰ (r, s)) (sym e) q) in
      (
        s,
        c,
        h,
        λ t mt same.
            let placed : Memᴰ (ranked t) g = subst (Memᴰ (ranked t)) e (
              subst (λ z. Memᴰ (ranked t) (group (ranked_groups call_topic candidates) z))
                (same ∙ kc) (candidate_grouped t mt)) in
            ⊎_elim inl (λ l. inr (subst (λ z. rank_leb z (rank_of call_topic t) ≡ true) (sym rc) l))
              (w (rank_of call_topic t) t placed),
      )

  -- Some candidate of every candidate's group is selected.
  selected_nonempty :
      (t : MessageEndpoint)
      → Memᴰ t candidates
      → (s : MessageEndpoint) × Memᴰ s candidates × Memᴰ s.id selected
  selected_nonempty t m =
      let d = ranked_groups call_topic candidates in
      let k = group_of call_topic t in
      let placed = candidate_grouped t m in
      let (r, s, n, p) =
        selected_ids_nonempty (group d k) (λ e. Memᴰ.not-nil (subst (Memᴰ (ranked t)) e placed)) in
      (
        s,
        (group_items k r s n).0,
        group_all_ids (values d) (group d k) s.id
            (values-Memᴰ d k (group d k) (item_of_group d k (ranked t) placed)) p,
      )

module _ (compile : Compile) (call_topic : Text) (serves : List MessageEndpoint) where
  abbrev candidates : List MessageEndpoint
  candidates = candidates_of compile call_topic serves

  abbrev plain : Bool
  plain = ltb (length candidates) 2 || ends_in_wildcard (split_path (partition b' ' call_topic).1)

  select-candidate :
      (s : MessageEndpoint)
      → Memᴰ s (select_matching_routes compile call_topic serves)
      → Memᴰ s candidates
  unfolding select_matching_routes
  select-candidate s m = elim (Bool-cases plain) [
    | inl t ↦ rw t at m
    | inr t ↦
        ((Memᴰ-filter (λ serve. contains (selected call_topic candidates) serve.id) s candidates).0
          (rw t at m)).0
  ]

  -- Every selected route is one of the served routes and matches the call.
  pub select_sound :
      (s : MessageEndpoint)
      → Memᴰ s (select_matching_routes compile call_topic serves)
      → Memᴰ s serves × (paths_match compile call_topic s.topic ≡ true)
  unfolding candidates_of
  select_sound s m =
      (Memᴰ-filter (λ serve. paths_match compile call_topic serve.topic) s serves).0
        (select-candidate s m)

  -- The choice among routes never loses the call: if a served route matches, one is selected.
  pub select_nonempty :
      (t : MessageEndpoint)
      → Memᴰ t serves
      → paths_match compile call_topic t.topic ≡ true
      → (s : MessageEndpoint) × Memᴰ s (select_matching_routes compile call_topic serves)
  unfolding select_matching_routes candidates_of
  select_nonempty t m h =
      let found =
        (Memᴰ-filter (λ serve. paths_match compile call_topic serve.topic) t serves).1 (m, h) in
      elim (Bool-cases plain) [
        | inl e ↦ (t, rw e found)
        | inr e ↦
            let (s, n, p) = selected_nonempty call_topic candidates t found in
            (
              s,
              rw e (
                  (Memᴰ-filter (λ serve. contains (selected call_topic candidates) serve.id) s
                      candidates).1
                    (n, (contains_iff (selected call_topic candidates) s.id).1 p)),
            )
      ]

  few :
      (xs : List MessageEndpoint) (s t : MessageEndpoint)
      → length xs < 2
      → Memᴰ s xs
      → Memᴰ t xs
      → s ≡ t
  few [] s t h m n = absurd (Memᴰ.not-nil m)
  few (x ∷ []) s t h m n = Memᴰ.eq_of_singleton m ∙ sym (Memᴰ.eq_of_singleton n)
  few (x ∷ y ∷ xs) s t h m n = absurd (omega arith)

  group_of-explicit :
      ((partition b' ' call_topic).0 == codes "ANY") ≡ false
      → (s : MessageEndpoint) → group_of call_topic s ≡ []
  unfolding group_of
  group_of-explicit h s = rw h

  pub select_best :
      ((partition b' ' call_topic).0 == codes "ANY") ≡ false
      → ends_in_wildcard (split_path (partition b' ' call_topic).1) ≡ false
      → ((a b : MessageEndpoint) → Memᴰ a serves → Memᴰ b serves → a.id ≡ b.id → a ≡ b)
      → (s t : MessageEndpoint) → Memᴰ s (select_matching_routes compile call_topic serves)
      → Memᴰ t serves
      → paths_match compile call_topic t.topic ≡ true
      → Guesses (rank_of call_topic t)
        ⊎ (rank_leb (rank_of call_topic s) (rank_of call_topic t) ≡ true)
  unfolding select_matching_routes candidates_of
  select_best explicit open_end unique s t m mt ht =
      let matching = λ (serve : MessageEndpoint). paths_match compile call_topic serve.topic in
      let found = (Memᴰ-filter matching t serves).1 (mt, ht) in
      let chosen = select-candidate s m in
      elim (Bool-cases (ltb (length candidates) 2)) [
        | inl small ↦ inr (
            subst (λ z. rank_leb (rank_of call_topic z) (rank_of call_topic t) ≡ true)
              (few candidates t s (ground arith) found chosen)
              (rank_leb_refl (rank_of call_topic t)))
        | inr big ↦
            let many : plain ≡ false = ground arith in
            let (_, in_ids) =
              (Memᴰ-filter (λ serve. contains (selected call_topic candidates) serve.id) s
                  candidates).0
                (rw many at m) in
            let (c, mc, same, least) =
              selected-best call_topic candidates s.id
                ((contains_iff (selected call_topic candidates) s.id).0 in_ids) in
            let one : c ≡ s =
              unique c s ((Memᴰ-filter matching c serves).0 mc).0 (select_sound s m).0 same in
            subst
              (λ z.
                Guesses (rank_of call_topic t)
                ⊎ (rank_leb (rank_of call_topic z) (rank_of call_topic t) ≡ true))
              one
              (least t found (group_of-explicit explicit t ∙ sym (group_of-explicit explicit c)))
      ]
