-- ===== src/Text/Strings.antt =====
-- The `str` methods.
use Prim.Native.Char.{code}
use systemlens.Prelude.{
  ℕ, any, ◌≡◌, refl, ◌↔◌, Bool, true, false, ◌&&◌, ◌||◌, String, List, [], ◌∷◌, ◌++◌, map, nat_beq,
  if◌then◌else◌, arith, Eq,
}
use mathlib.Core.List.{reverse}
use systemlens.Text.Chars.{is_space, lower_code, lower_code_idem}

abbrev pub Text : Type 0
Text = List ℕ

unfoldable pub text_beq : Text → Text → Bool
text_beq [] [] = true
text_beq [] (y ∷ ys) = false
text_beq (x ∷ xs) [] = false
text_beq (x ∷ xs) (y ∷ ys) = nat_beq x y && text_beq xs ys

pub text_beq_iff : (xs ys : Text) → (text_beq xs ys ≡ true) ↔ (xs ≡ ys)
unfolding text_beq
text_beq_iff [] [] = (λ _. refl, λ _. refl)
text_beq_iff [] (y ∷ ys) = ground arith
text_beq_iff (x ∷ xs) [] = ground arith
text_beq_iff (x ∷ xs) (y ∷ ys) = ground (arith, text_beq_iff xs ys)

instance abbrev pub text_eq : Eq Text
text_eq = record { beq = text_beq; beq_iff = text_beq_iff }

-- A literal of the source.
abbrev pub codes : String → Text
codes String.[] = []
codes (String.◌∷◌ c s) = code c ∷ codes s

unfoldable pub lower : Text → Text
lower = map lower_code

unfoldable pub drop_while : (ℕ → Bool) → Text → Text
drop_while p [] = []
drop_while p (c ∷ s) = if p c then drop_while p s else c ∷ s

-- rstrip with a class of characters
unfoldable pub rstrip_by : (ℕ → Bool) → Text → Text
rstrip_by p [] = []
rstrip_by p (c ∷ s) = elim (rstrip_by p s) [ [] ↦ if p c then [] else c ∷ [] | d ∷ r ↦ c ∷ d ∷ r ]

unfoldable pub lstrip : Text → Text
lstrip = drop_while is_space

unfoldable pub strip : Text → Text
unfolding lstrip
strip s = rstrip_by is_space (lstrip s)

-- s.partition(sep), without the separator it returns in the middle
unfoldable pub partition : ℕ → Text → Text × Text
partition sep [] = ([], [])
partition sep (c ∷ s) =
    let (head, tail) = partition sep s in if nat_beq c sep then ([], s) else (c ∷ head, tail)

-- s.rpartition(sep), without the separator it returns in the middle
unfoldable pub rpartition : ℕ → Text → Text × Text
rpartition sep [] = ([], [])
rpartition sep (c ∷ s) =
    let (head, tail) = rpartition sep s in
    if any (λ d. nat_beq d sep) s
    then (c ∷ head, tail)
    else if nat_beq c sep
    then ([], s)
    else ([], c ∷ s)

-- s.split(sep)
unfoldable pub split : ℕ → Text → List Text
split sep [] = [] ∷ []
split sep (c ∷ s) =
    if nat_beq c sep
    then [] ∷ split sep s
    else elim (split sep s) [ [] ↦ (c ∷ []) ∷ [] | w ∷ ws ↦ (c ∷ w) ∷ ws ]

-- text.startswith(prefix)
unfoldable pub starts_with : Text → Text → Bool
starts_with [] s = true
starts_with (c ∷ p) [] = false
starts_with (c ∷ p) (d ∷ s) = nat_beq c d && starts_with p s

-- text.endswith(suffix)
unfoldable pub ends_with : Text → Text → Bool
unfolding starts_with
ends_with p s = starts_with (reverse p) (reverse s)

-- infix in text
unfoldable pub infix_of : Text → Text → Bool
unfolding starts_with
infix_of p [] = starts_with p []
infix_of p (c ∷ s) = starts_with p (c ∷ s) || infix_of p s

-- "".join(parts), sep.join(parts)
unfoldable pub join : List Text → Text
join [] = []
join (w ∷ ws) = w ++ join ws

unfoldable pub join_with : Text → List Text → Text
join_with sep [] = []
join_with sep (w ∷ []) = w
join_with sep (w ∷ v ∷ ws) = w ++ sep ++ join_with sep (v ∷ ws)

pub lower_idem : (s : Text) → lower (lower s) ≡ lower s
unfolding lower
lower_idem [] = refl
lower_idem (c ∷ s) = cc (lower_code_idem c, lower_idem s)

pub starts_with-append : (p s : Text) → starts_with p (p ++ s) ≡ true
unfolding starts_with
starts_with-append [] s = refl
starts_with-append (c ∷ p) s = ground (arith, starts_with-append p s)

-- A text with no separator is its own head.
pub partition-head :
    (sep : ℕ) (h t : Text) → (partition sep h).0 ≡ h → (partition sep (h ++ sep ∷ t)).0 ≡ h
unfolding partition
partition-head sep [] t e = ground arith
partition-head sep (c ∷ h) t e = ground (arith, partition-head sep h t)

split_path : split b'/' (codes "/a//b") ≡ codes "" ∷ codes "a" ∷ codes "" ∷ codes "b" ∷ []
unfolding split
split_path = refl

strip_spaces : strip (codes "  a b ") ≡ codes "a b"
unfolding strip drop_while rstrip_by is_space
strip_spaces = refl
