-- ===== src/Graph/Messaging/Contributions.antt =====
-- What a fact adds to the links, by the names of its two sides (domain/graph.py).
use systemlens.Prelude.{◌≡◌, Option, none, some, [], ◌∷◌, ◌++◌, arith}
use systemlens.Text.{Text, text_eq}
use systemlens.Graph.Messaging.{Link, Links, add, half_link, link_of}
use systemlens.Graph.Messaging.Sides.{Shown}

pub data Contribution : Type 0 where
  linking : Link → Contribution
  publishing consuming : Text → Text → Contribution
  nothing : Contribution

unfoldable pub apply : Contribution → Links → Links
apply (Contribution.linking l) links = record links { direct = links.direct ++ l ∷ [] }
apply (Contribution.publishing k v) links = record links { published = add links.published k v }
apply (Contribution.consuming k v) links = record links { consumed = add links.consumed k v }
apply Contribution.nothing links = links

half : Option Text → Option Text → Option Text → Option Text → Contribution
half (some (c ∷ s)) source_channel target_service (some (d ∷ t)) =
    Contribution.publishing (d ∷ t) (c ∷ s)
half source_service (some (c ∷ s)) (some (d ∷ t)) target_channel =
    Contribution.consuming (c ∷ s) (d ∷ t)
half _ _ _ _ = Contribution.nothing

pub whole : Option Text → Option Text → Option Text → Option Text → Text → Contribution
unfolding half
whole (some (c ∷ s)) source_channel (some (d ∷ t)) target_channel name =
    Contribution.linking (c ∷ s, (d ∷ t, name))
whole source_service source_channel target_service target_channel name =
    half source_service source_channel target_service target_channel

half_lem :
    (a b c d : Option Text) (links : Links) → half_link a b c d links ≡ apply (half a b c d) links
unfolding half_link half apply
half_lem a b c d links = ground arith

pub whole_lem :
    (a b c d : Option Text) (name : Text) (links : Links)
    → link_of a b c d name links ≡ apply (whole a b c d name) links
unfolding link_of whole apply
whole_lem a b c d name links = ground (arith, half_lem a b c d links)

pub whole-linking :
    (a b c d : Option Text) (name x y n : Text)
    → whole a b c d name ≡ Contribution.linking (x, (y, n))
    → Shown a x × (Shown c y × (n ≡ name))
unfolding whole half
whole-linking a b c d name x y n h = ground arith

pub linking-whole :
    (a b c d : Option Text) (name x y : Text)
    → Shown a x
    → Shown c y
    → whole a b c d name ≡ Contribution.linking (x, (y, name))
unfolding whole half
linking-whole a b c d name x y h k = ground arith

pub whole-publishing :
    (a b c d : Option Text) (name k v : Text)
    → whole a b c d name ≡ Contribution.publishing k v
    → Shown a v × Shown d k
unfolding whole half
whole-publishing a b c d name k v h = ground arith

pub publishing-whole :
    (a b d : Option Text) (name k v : Text)
    → Shown a v
    → Shown d k
    → whole a b none d name ≡ Contribution.publishing k v
unfolding whole half
publishing-whole a b d name k v h i = ground arith

pub whole-consuming :
    (a b c d : Option Text) (name k v : Text)
    → whole a b c d name ≡ Contribution.consuming k v
    → Shown b k × Shown c v
unfolding whole half
whole-consuming a b c d name k v h = ground arith

pub consuming-whole :
    (b c d : Option Text) (name k v : Text)
    → Shown b k
    → Shown c v
    → whole none b c d name ≡ Contribution.consuming k v
unfolding whole half
consuming-whole b c d name k v h i = ground arith
