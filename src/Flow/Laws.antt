-- ===== src/Flow/Laws.antt =====
-- What resolve_topic and trace_flow of application/flow.py return.
use mathlib.Core.List.Memᴰ
use mathlib.Core.Logic.{⊎_elim}
use systemlens.Prelude.{
  ◌≡◌, refl, sym, ap, ◌∙◌, Bool, true, false, Option, none, some, List, [], ◌∷◌, ◌++◌, filter,
  contains, contains_iff, dedup, foldl_inv, foldl_reaches, Memᴰ, Memᴰ-filter, Distinct,
  Distinct-append, Distinct-dedup, Bool-cases, Option-cases, inl, inr, ◌⊎◌, ◌↔◌, map, pair_eq,
  option_eq, not_mem_of_contains,
}
use systemlens.Text.{Text, text_eq, text_beq, text_beq_iff, lower, infix_of}
use systemlens.Text.Order.{text_leb, Memᴰ-sort, Distinct-sort}
use systemlens.Flow.{
  FlowSite, FlowResult, Services, topic_matches, only, resolve_topic, all_sites, all_topics,
  site_key, Trace, visit, trace_sites, trace_flow,
}

-- A topic that holds the query, whatever the case.
abbrev pub Mentions : Text → List Text → Text → Type 0
Mentions query topics t = Memᴰ t topics × (infix_of (lower query) (lower t) ≡ true)

-- The topic that the query names: the query itself, or the one topic that mentions it.
abbrev pub Names : Text → List Text → Text → Type 0
Names query topics t =
    (Memᴰ query topics × (t ≡ query))
    ⊎ ((¬ Memᴰ query topics)
        × (Mentions query topics t × ((u : Text) → Mentions query topics u → u ≡ t)))

Memᴰ-topic_matches :
    (query : Text) (topics : List Text) (t : Text)
    → Memᴰ t (topic_matches query topics) ↔ Mentions query topics t
unfolding topic_matches
Memᴰ-topic_matches query topics t =
    let p = λ (topic : Text). infix_of (lower query) (lower topic) in
    let sorted = Memᴰ-sort text_leb t (filter p topics) in
    let kept = Memᴰ-filter p t topics in (λ m. kept.0 (sorted.0 m), λ h. sorted.1 (kept.1 h))

Distinct-filter : (p : Text → Bool) (xs : List Text) → Distinct xs → Distinct (filter p xs)
unfolding filter
Distinct-filter p [] d = tt
Distinct-filter p (x ∷ xs) d = elim (Bool-cases (p x)) [
  | inl t ↦ rw t (λ m. d.0 ((Memᴰ-filter p x xs).0 m).0, Distinct-filter p xs d.1)
  | inr t ↦ rw t (Distinct-filter p xs d.1)
]

only_iff :
    (xs : List Text) (t : Text)
    → Distinct xs
    → (only xs ≡ some t) ↔ (Memᴰ t xs × ((u : Text) → Memᴰ u xs → u ≡ t))
unfolding only
only_iff [] t d = (λ h. cc, λ h. absurd (Memᴰ.not-nil h.0))
only_iff (x ∷ []) t d = (
  λ h. let same : x ≡ t = cc in (Memᴰ.head (sym same), λ u m. Memᴰ.eq_of_singleton m ∙ same),
  λ h. ap some (h.1 x (Memᴰ.head refl)),
)
only_iff (x ∷ y ∷ xs) t d = (
  λ h. cc,
  λ h. absurd (d.0 (Memᴰ.head (h.1 x (Memᴰ.head refl) ∙ sym (h.1 y (Memᴰ.tail (Memᴰ.head refl)))))),
)

-- A query resolves to a topic exactly if the query is that topic, or is none of the topics and
-- that topic is the only one that holds it, whatever the case. The topics are pairwise different.
pub resolve_topic_iff :
    (query : Text) (topics : List Text) (t : Text)
    → Distinct topics
    → (resolve_topic query topics ≡ some t) ↔ Names query topics t
unfolding resolve_topic
resolve_topic_iff query topics t d = elim (Bool-cases (contains topics query)) [
  | inl h ↦
      let here = (contains_iff topics query).0 h in
      rw h (λ e. inl (here, cc), λ n. ⊎_elim (λ k. ap some (sym k.1)) (λ k. absurd (k.0 here)) n)
  | inr h ↦
      let away = not_mem_of_contains topics query h in
      let one =
        only_iff (topic_matches query topics) t
          (unfold topic_matches in Distinct-sort text_leb _ (Distinct-filter _ topics d)) in
      let at = λ (u : Text). Memᴰ-topic_matches query topics u in
      rw h (
        λ e. let (m, u) = one.0 e in inr (away, ((at t).0 m, λ v k. u v ((at v).1 k))),
        λ n.
            ⊎_elim (λ k. absurd (away k.0))
              (λ k. one.1 ((at t).1 k.1.0, λ v m. k.1.1 v ((at v).0 m))) n,
      )
]

map-append :
    (xs : List FlowSite) (s : FlowSite)
    → map site_key (xs ++ s ∷ []) ≡ map site_key xs ++ site_key s ∷ []
map-append [] s = refl
map-append (x ∷ xs) s = cc (map-append xs s)

module _ (resolved : Text) where
  -- The loop so far: the sites are of the topic, and `seen_sites` are their keys, each once.
  record Sound (all : List FlowSite) (t : Trace) : Type 0 where
    pub from : (s : FlowSite) → Memᴰ s t.sites → Memᴰ s all × (s.endpoint.topic ≡ resolved)
    pub keys : (k : Option Text × Text) → Memᴰ k t.seen_sites ↔ Memᴰ k (map site_key t.sites)
    pub once : Distinct (map site_key t.sites)

  Sound-add :
      (all : List FlowSite) (t : Trace) (s : FlowSite)
      → Memᴰ s all
      → s.endpoint.topic ≡ resolved
      → contains t.seen_sites (site_key s) ≡ false
      → Sound all t
      → Sound all (record { sites = t.sites ++ s ∷ []; seen_sites = site_key s ∷ t.seen_sites })
  Sound-add all t s m e new h = record {
    from = λ u n.
        ⊎_elim (h.from u)
          (λ one.
            let same = Memᴰ.eq_of_singleton one in
            (Memᴰ.cast same m, ap (λ (x : FlowSite). x.endpoint.topic) same ∙ e))
          (Memᴰ.append_cases t.sites n);
    keys = λ k. rw (map-append t.sites s) (
      λ n.
          ⊎_elim (λ q. Memᴰ.append_right (map site_key t.sites) (Memᴰ.head q))
            (λ r. Memᴰ.append_left (site_key s ∷ []) ((h.keys k).0 r)) (Memᴰ.cases_cons n),
      λ n.
          ⊎_elim (λ r. Memᴰ.tail ((h.keys k).1 r)) (λ q. Memᴰ.head (Memᴰ.eq_of_singleton q))
            (Memᴰ.append_cases (map site_key t.sites) n),
    );
    once = rw (map-append t.sites s) (
        Distinct-append (map site_key t.sites) (site_key s) h.once
          (λ n. not_mem_of_contains t.seen_sites (site_key s) new ((h.keys (site_key s)).1 n)));
  }

  visit-Sound :
      (all : List FlowSite) (t : Trace) (s : FlowSite)
      → Memᴰ s all
      → Sound all t
      → Sound all (visit resolved t s)
  unfolding visit
  visit-Sound all t s m h = elim (Bool-cases (text_beq s.endpoint.topic resolved)) [
    | inr e ↦ rw e h
    | inl e ↦ elim (Bool-cases (contains t.seen_sites (site_key s))) [
      | inl c ↦ rw (e, c) h
      | inr c ↦ rw (e, c) (Sound-add all t s m ((text_beq_iff s.endpoint.topic resolved).0 e) c h)
    ]
  ]

  visit-seen :
      (t : Trace) (s : FlowSite)
      → s.endpoint.topic ≡ resolved
      → Memᴰ (site_key s) (visit resolved t s).seen_sites
  unfolding visit
  visit-seen t s e =
      let is : text_beq s.endpoint.topic resolved ≡ true =
        (text_beq_iff s.endpoint.topic resolved).1 e in
      elim (Bool-cases (contains t.seen_sites (site_key s))) [
        | inl c ↦ rw (is, c) ((contains_iff t.seen_sites (site_key s)).0 c)
        | inr c ↦ rw (is, c) (Memᴰ.head refl)
      ]

  visit-keeps :
      (k : Option Text × Text) (t : Trace) (s : FlowSite)
      → Memᴰ k t.seen_sites
      → Memᴰ k (visit resolved t s).seen_sites
  unfolding visit
  visit-keeps k t s m = elim (Bool-cases (text_beq s.endpoint.topic resolved)) [
    | inr e ↦ rw e m
    | inl e ↦ elim (Bool-cases (contains t.seen_sites (site_key s))) [
      | inl c ↦ rw (e, c) m
      | inr c ↦ rw (e, c) (Memᴰ.tail m)
    ]
  ]

  trace_sites-Sound : (d : Services) → Sound (all_sites d) (trace_sites resolved d)
  unfolding trace_sites
  trace_sites-Sound d =
      foldl_inv (Sound (all_sites d)) (visit resolved) (all_sites d)
        (λ t s m h. visit-Sound (all_sites d) t s m h) _
        (record { from = λ s m. absurd (Memᴰ.not-nil m); keys = λ k. (λ m. m, λ m. m); once = tt })

  trace_sites-keys :
      (d : Services) (s : FlowSite)
      → Memᴰ s (all_sites d)
      → s.endpoint.topic ≡ resolved
      → Memᴰ (site_key s) (map site_key (trace_sites resolved d).sites)
  unfolding trace_sites
  trace_sites-keys d s m e = ((trace_sites-Sound d).keys (site_key s)).0 (
      foldl_reaches (λ t. Memᴰ (site_key s) t.seen_sites) (visit resolved) s (all_sites d)
        (λ t. visit-seen t s e) (λ t u. visit-keeps (site_key s) t u) m _)

-- What the caller of trace_flow gets for a topic.
pub record Traces (d : Services) (r : FlowResult) : Type 0 where
  pub sites_of :
      (s : FlowSite) → Memᴰ s r.sites → Memᴰ s (all_sites d) × (s.endpoint.topic ≡ r.resolved_topic)
  pub complete :
      (s : FlowSite)
      → Memᴰ s (all_sites d)
      → s.endpoint.topic ≡ r.resolved_topic
      → Memᴰ (site_key s) (map site_key r.sites)
  pub once : Distinct (map site_key r.sites)

traced :
    (query : Text) (d : Services) (warnings : List Text) (t : Text)
    → resolve_topic query (all_topics d) ≡ some t
    → trace_flow query d warnings
      ≡ some (record {
        query = query;
        resolved_topic = t;
        sites = (trace_sites t d).sites;
        warnings = warnings;
      })
unfolding trace_flow trace_sites
traced query d warnings t h = rw (h, trace_flow) refl

-- For a topic that the query names among the indexed topics, the flow is found: its resolved topic
-- is that one, its sites are sites of that topic, every site of that topic has its service and id
-- among them, no service and id occurs twice, and the warnings are passed on as they are.
pub trace_flow_found :
    (query : Text) (d : Services) (warnings : List Text) (t : Text)
    → Names query (all_topics d) t
    → (r : FlowResult) × ((trace_flow query d warnings ≡ some r)
        × ((r.resolved_topic ≡ t) × ((r.warnings ≡ warnings) × Traces d r)))
unfolding all_topics
trace_flow_found query d warnings t n =
    let found =
      (resolve_topic_iff query (all_topics d) t
          (Distinct-dedup (map (λ (s : FlowSite). s.endpoint.topic) (all_sites d)))).1
        n in
    let sound = trace_sites-Sound t d in
    (
      record {
        query = query;
        resolved_topic = t;
        sites = (trace_sites t d).sites;
        warnings = warnings;
      },
      (
        traced query d warnings t found,
        (
          refl,
          (
            refl,
            record { sites_of = sound.from; complete = trace_sites-keys t d; once = sound.once },
          ),
        ),
      ),
    )

-- The flow is an error exactly if the query names no indexed topic: it is none of them, and none
-- or several of them hold it, whatever the case.
pub trace_flow_error :
    (query : Text) (d : Services) (warnings : List Text)
    → (trace_flow query d warnings ≡ none) ↔ ((t : Text) → ¬ Names query (all_topics d) t)
unfolding all_topics trace_flow dedup infix_of
trace_flow_error query d warnings =
    let named = λ (t : Text).
      resolve_topic_iff query (all_topics d) t
        (Distinct-dedup (map (λ (s : FlowSite). s.endpoint.topic) (all_sites d))) in
    elim (Option-cases (resolve_topic query (all_topics d))) [
      | inl e ↦ rw (e, trace_flow) (λ h t n. cc ((named t).1 n, e), λ h. refl)
      | inr (t, e) ↦ rw (e, trace_flow) (λ h. cc, λ h. absurd (h t ((named t).0 e)))
    ]
