-- ===== src/Graph/Targets/Laws.antt =====
-- What a resolved REST target means (domain/graph.py).
use mathlib.Core.List.Memᴰ
use mathlib.Core.Logic.{⊎_elim}
use systemlens.Prelude.{
  ◌≡◌, refl, sym, ap, ◌∙◌, subst, true, Option, none, some, List, [], ◌∷◌, ◌++◌, map, filter,
  contains_iff, any_at, any_of, dedup, Memᴰ, Memᴰ-append, Memᴰ-filter, Memᴰ-dedup, Distinct,
  Distinct-dedup, ◌↔◌, ◌⊎◌, inl, inr, arith,
}
use systemlens.Prelude.Dict.{Dict}
use systemlens.Text.{Text, text_eq, text_beq, text_beq_iff}
use systemlens.Text.Order.{text_leb, Memᴰ-sort, Distinct-sort}
use systemlens.Models.{MessageEndpoint}
use systemlens.Graph.Targets.{
  RestTargetPolicy, truthy, external_microservice_name, rest_target_service_hint,
  normalized_service_alias, alias_fits, services_matching_hint, resolution_of,
  resolve_rest_target_service,
}

-- The service is indexed, and its name or one of its aliases is the hint, up to normalization.
pub data Designates (service_names : List Text) (service_aliases : Dict Text (List Text))
    (hint s : Text) : Type 0 where
  by_name :
      Memᴰ s service_names
      → normalized_service_alias s ≡ normalized_service_alias hint
      → Designates service_names service_aliases hint s
  by_alias :
      (aliases : List Text) (alias : Text)
      → Memᴰ s service_names
      → Memᴰ (s, aliases) service_aliases
      → Memᴰ alias aliases
      → normalized_service_alias alias ≡ normalized_service_alias hint
      → Designates service_names service_aliases hint s

module _ (names : List Text) (d : Dict Text (List Text)) (hint : Text) where
  alias_fits_sound :
      (s : Text) (aliases : List Text)
      → Memᴰ (s, aliases) d
      → alias_fits names (normalized_service_alias hint) (s, aliases) ≡ true
      → Designates names d hint s
  unfolding alias_fits
  alias_fits_sound s aliases m t =
      let (alias, n, q) =
        any_at (λ alias. text_beq (normalized_service_alias alias) (normalized_service_alias hint))
          aliases (ground arith) in
      by_alias aliases alias ((contains_iff names s).0 (ground arith)) m n
        ((text_beq_iff (normalized_service_alias alias) (normalized_service_alias hint)).0 q)

  alias_fits_complete :
      (s : Text) (aliases : List Text) (alias : Text)
      → Memᴰ s names
      → Memᴰ alias aliases
      → normalized_service_alias alias ≡ normalized_service_alias hint
      → alias_fits names (normalized_service_alias hint) (s, aliases) ≡ true
  unfolding alias_fits
  alias_fits_complete s aliases alias m n e = rw (
    (contains_iff names s).1 m,
    any_of (λ alias. text_beq (normalized_service_alias alias) (normalized_service_alias hint))
        alias aliases n
        ((text_beq_iff (normalized_service_alias alias) (normalized_service_alias hint)).1 e),
  )

  abbrev by_names : List Text
  by_names =
      filter (λ s. text_beq (normalized_service_alias s) (normalized_service_alias hint)) names

  abbrev by_aliases : Dict Text (List Text)
  by_aliases = filter (alias_fits names (normalized_service_alias hint)) d

  from_names : (s : Text) → Memᴰ s by_names → Designates names d hint s
  from_names s n =
      let (m, t) =
        (Memᴰ-filter (λ s. text_beq (normalized_service_alias s) (normalized_service_alias hint)) s
            names).0
          n in
      by_name m ((text_beq_iff (normalized_service_alias s) (normalized_service_alias hint)).0 t)

  from_aliases : (s : Text) → Memᴰ s (map (λ item. item.0) by_aliases) → Designates names d hint s
  from_aliases s n =
      let (item, m, e) = Memᴰ.of_map (λ item. item.0) by_aliases n in
      let (k, t) = (Memᴰ-filter (alias_fits names (normalized_service_alias hint)) item d).0 m in
      subst (Designates names d hint) e (alias_fits_sound item.0 item.1 k t)

  listed :
      (s : Text)
      → Designates names d hint s
      → Memᴰ s by_names ⊎ Memᴰ s (map (λ item. item.0) by_aliases)
  listed s (by_name m e) = inl (
      (Memᴰ-filter (λ s. text_beq (normalized_service_alias s) (normalized_service_alias hint)) s
          names).1
        (m, (text_beq_iff (normalized_service_alias s) (normalized_service_alias hint)).1 e))
  listed s (by_alias aliases alias m k n e) = inr (
      Memᴰ.map (λ item. item.0)
        ((Memᴰ-filter (alias_fits names (normalized_service_alias hint)) (s, aliases) d).1
          (k, alias_fits_complete s aliases alias m n e)))

  -- The matches are the designated services.
  pub Memᴰ-services_matching_hint :
      (s : Text) → Memᴰ s (services_matching_hint names (some hint) d) ↔ Designates names d hint s
  unfolding services_matching_hint
  Memᴰ-services_matching_hint s =
      let found = by_names ++ map (λ item. item.0) by_aliases in
      let sorted = Memᴰ-sort text_leb s (dedup found) in
      let kept = Memᴰ-dedup s found in
      let joined = Memᴰ-append s by_names (map (λ item. item.0) by_aliases) in
      (
        λ m. ⊎_elim (from_names s) (from_aliases s) (joined.0 (kept.0 (sorted.0 m))),
        λ w. sorted.1 (kept.1 (joined.1 (listed s w))),
      )

  Distinct-services_matching_hint : Distinct (services_matching_hint names (some hint) d)
  unfolding services_matching_hint
  Distinct-services_matching_hint =
      Distinct-sort text_leb (dedup (by_names ++ map (λ item. item.0) by_aliases))
        (Distinct-dedup (by_names ++ map (λ item. item.0) by_aliases))

resolution_of-resolved :
    (hint : Option Text) (matches : List Text) (s : Text)
    → (resolution_of hint matches).service ≡ some s
    → matches ≡ s ∷ []
unfolding resolution_of
resolution_of-resolved hint [] s e = cc
resolution_of-resolved hint (m ∷ []) s e = cc
resolution_of-resolved hint (m ∷ n ∷ ms) s e = cc

-- A list of different elements whose only member is `s`.
only :
    (s : Text) (xs : List Text)
    → Distinct xs
    → Memᴰ s xs
    → ((t : Text) → Memᴰ t xs → t ≡ s)
    → xs ≡ s ∷ []
only s [] d m one = absurd (Memᴰ.not-nil m)
only s (x ∷ []) d m one = ap (λ (z : Text). z ∷ []) (one x (Memᴰ.head refl))
only s (x ∷ y ∷ xs) d m one =
    absurd (d.0 (Memᴰ.head (one x (Memᴰ.head refl) ∙ sym (one y (Memᴰ.tail (Memᴰ.head refl))))))

module _ (policy : RestTargetPolicy) (aliases : Dict Text (List Text)) (call : MessageEndpoint)
    (names : List Text) (hint : Text)
    (internal : truthy (external_microservice_name policy call) ≡ none)
    (hinted : rest_target_service_hint policy call ≡ some hint) where
  resolve-matches :
      resolve_rest_target_service policy aliases call names
      ≡ resolution_of (some hint) (services_matching_hint names (some hint) aliases)
  unfolding resolve_rest_target_service
  resolve-matches = rw (internal, resolve_rest_target_service) (rw hinted)

  -- A call that the policy does not mark as external and that carries the target hint `hint`
  -- resolves to a service `s` exactly when `s` is designated by the hint and no other service is.
  pub resolve_iff :
      (s : Text)
      → ((resolve_rest_target_service policy aliases call names).service ≡ some s)
        ↔ (Designates names aliases hint s × ((t : Text) → Designates names aliases hint t → t ≡ s))
  resolve_iff s =
      let matches = services_matching_hint names (some hint) aliases in
      let mem = Memᴰ-services_matching_hint names aliases hint in
      rw resolve-matches (
        λ e.
            let single = resolution_of-resolved (some hint) matches s e in
            (
              (mem s).0 (subst (Memᴰ s) (sym single) (Memᴰ.head refl)),
              λ t w. Memᴰ.eq_of_singleton (subst (Memᴰ t) single ((mem t).1 w)),
            ),
        λ w.
            let single =
              only s matches (Distinct-services_matching_hint names aliases hint) ((mem s).1 w.0)
                (λ t m. w.1 t ((mem t).0 m)) in
            rw single (unfold resolution_of in refl),
      )
