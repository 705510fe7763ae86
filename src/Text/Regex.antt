-- ===== src/Text/Regex.antt =====
-- The shapes of the regular expressions that the program searches for: a literal under
-- re.IGNORECASE, a greedy run of a class, and a run that ends at a word boundary.
use systemlens.Prelude.{
  ℕ, ◌+◌, Bool, false, not, [], ◌∷◌, nat_beq, Option, none, some, if◌then◌else◌,
}
use systemlens.Text.Chars.{is_word, lower_code}
use systemlens.Text.Strings.{Text}

-- The rest of a text behind a literal, whose letters match in either case.
unfoldable pub after_literal : Text → Text → Option Text
unfolding lower_code
after_literal [] s = some s
after_literal (c ∷ p) [] = none
after_literal (c ∷ p) (d ∷ s) =
    if nat_beq (lower_code c) (lower_code d) then after_literal p s else none

-- The longest prefix in a class: `[...]*`
unfoldable pub run : (ℕ → Bool) → Text → Text
run p [] = []
run p (c ∷ s) = if p c then c ∷ run p s else []

-- `[...]+` as a group
unfoldable pub run1 : (ℕ → Bool) → Text → Option Text
unfolding run
run1 p s = elim (run p s) [ [] ↦ none | c ∷ r ↦ some (c ∷ r) ]

word_at : Option ℕ → Bool
word_at none = false
word_at (some c) = is_word c

-- `\b` between two places, of which `none` is an end of the text
unfoldable pub boundary : Option ℕ → Option ℕ → Bool
unfolding is_word word_at
boundary a b = if word_at a then not (word_at b) else word_at b

first : Text → Option ℕ
first [] = none
first (c ∷ s) = some c

-- The longest prefix in the class `p` that may end where `stop` says, given the character before
-- it: what `[...]*` before an assertion matches after backtracking.
unfoldable pub longest : (ℕ → Bool) → (ℕ → Option ℕ → Bool) → ℕ → Text → Option Text
unfolding first
longest p stop before [] = if stop before none then some [] else none
longest p stop before (c ∷ s) =
    let rest = longest p stop c s in
    let here : Option Text = if stop before (some c) then some [] else none in
    if p c then elim rest [ none ↦ here | some r ↦ some (c ∷ r) ] else here

-- re.search: the first place where `match` succeeds, with its position. The character before the
-- place is handed to `match`.
unfoldable pub search_from :
    (Option ℕ → Text → Option Text) → Option ℕ → ℕ → Text → Option (ℕ × Text)
search_from match before i [] = elim (match before []) [ none ↦ none | some r ↦ some (i, r) ]
search_from match before i (c ∷ s) = elim (match before (c ∷ s)) [
  | none ↦ search_from match (some c) (i + 1) s
  | some r ↦ some (i, r)
]

unfoldable pub search : (Option ℕ → Text → Option Text) → Text → Option (ℕ × Text)
unfolding search_from
search match = search_from match none 0
