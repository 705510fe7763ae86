-- ===== src/FlowSet/SameMethod/Finish.antt =====
-- What the marks, the order and the new ids of the finished flows leave as it is
-- (indexing/code_flows.py).
use mathlib.Core.List.Memᴰ
use mathlib.Core.Logic.{⊎_elim}
use systemlens.Prelude.{◌≡◌, refl, sym, subst, ◌⊎◌, some, List, [], ◌∷◌, map, Memᴰ, Distinct}
use systemlens.Text.{Text}
use systemlens.Text.Order.{sort, Memᴰ-sort}
use systemlens.Models.UniqueIds.Laws.{Renamed, ensure_unique_total}
use systemlens.CodeFlows.{CodeFlow}
use systemlens.CodeFlows.Tree.{flow_leb}
use systemlens.FlowSet.Combine.{code_flow_ids, ensure_unique_code_flow_ids}
use systemlens.Models.UniqueIds.{ensure_unique_ids}
use systemlens.FlowSet.SameMethod.{Sources, finished}
use systemlens.FlowSet.SameMethod.Marks.{mark_flow, mark_after_commit_publications}

-- A property that a new id and the marks keep.
pub record IsStable (b : Sources) (P : CodeFlow → Type 0) : Type 0 where
  pub by_id : (f : CodeFlow) (t : Text) → P f → P (record f { id = t })
  pub by_mark : (f : CodeFlow) → P f → P (mark_flow b.after_commit_lines f)

module _ (b : Sources) (P : CodeFlow → Type 0) (stable : IsStable b P) where
  same_or_renamed :
      (f r : CodeFlow) → ((r ≡ f) ⊎ ((t : Text) × (r ≡ record f { id = t }))) → P f → P r
  same_or_renamed f r s p =
      ⊎_elim (λ e. subst P (sym e) p) (λ (t, e). subst P (sym e) (stable.by_id f t p)) s

  renamed_all :
      (fs rs : List CodeFlow)
      → Renamed (code_flow_ids b.digest) fs rs
      → ((f : CodeFlow) → Memᴰ f fs → P f)
      → (r : CodeFlow) → Memᴰ r rs
      → P r
  unfolding code_flow_ids
  renamed_all [] [] h k r m = absurd (Memᴰ.not-nil m)
  renamed_all [] (s ∷ rs) h k r m = absurd h
  renamed_all (f ∷ fs) [] h k r m = absurd h
  renamed_all (f ∷ fs) (s ∷ rs) (here, later) k r m =
      ⊎_elim (λ e. subst P (sym e) (same_or_renamed f s here (k f (Memᴰ.head refl))))
        (renamed_all fs rs later (λ g n. k g (Memᴰ.tail n)) r) (Memᴰ.cases_cons m)

  renamed_some :
      (fs rs : List CodeFlow) (f : CodeFlow)
      → Renamed (code_flow_ids b.digest) fs rs
      → Memᴰ f fs
      → P f
      → (r : CodeFlow) × (Memᴰ r rs × P r)
  unfolding code_flow_ids
  renamed_some [] rs f h m p = absurd (Memᴰ.not-nil m)
  renamed_some (g ∷ fs) [] f h m p = absurd h
  renamed_some (g ∷ fs) (s ∷ rs) f (here, later) m p =
      ⊎_elim (λ e. (s, (Memᴰ.head refl, same_or_renamed g s here (subst P e p))))
        (λ n. let (r, (k, q)) = renamed_some fs rs f later n p in (r, (Memᴰ.tail k, q)))
        (Memᴰ.cases_cons m)

  -- The finished flows exist and have different ids; what all given flows have, they have, and
  -- what one given flow has, one of them has.
  pub finished_lem :
      (flows : List CodeFlow)
      → (r : List CodeFlow) × ((finished b flows ≡ some r)
          × (Distinct (map (λ f. f.id) r)
              × ((((f : CodeFlow) → Memᴰ f flows → P f) → (f : CodeFlow) → Memᴰ f r → P f)
                  × ((f : CodeFlow) → Memᴰ f flows → P f → (g : CodeFlow) × (Memᴰ g r × P g)))))
  unfolding finished mark_after_commit_publications ensure_unique_code_flow_ids ensure_unique_ids
  finished_lem flows =
      let mark = mark_flow b.after_commit_lines in
      let sorted = sort flow_leb (map mark flows) in
      let (r, (e, (same, ids))) = ensure_unique_total (code_flow_ids b.digest) sorted in
      (
        r,
        (
          e,
          (
            ids,
            (
              λ h. renamed_all sorted r same (λ f m.
                  let (g, n, q) =
                    Memᴰ.of_map mark flows ((Memᴰ-sort flow_leb f (map mark flows)).0 m) in
                  subst P q (stable.by_mark g (h g n))),
              λ f m p.
                  renamed_some sorted r (mark f) same
                    ((Memᴰ-sort flow_leb (mark f) (map mark flows)).1 (Memᴰ.map mark m))
                    (stable.by_mark f p),
            ),
          ),
        ),
      )
