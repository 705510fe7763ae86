-- ===== src/MessageTypes/Spelling.antt =====
-- White space in payload types (domain/message_types.py).
use systemlens.Prelude.{
  ◌≡◌, refl, sym, ap, ◌∙◌, false, not, Option, none, some, [], ◌∷◌, filter, if◌then◌else◌,
  Bool-cases, inl, inr, arith,
}
use systemlens.Text.{Text, text_eq, text_beq_iff, is_space, strip, drop_while, rstrip_by}
use systemlens.MessageTypes.{
  squeeze, simple_spelling, drop_qualifiers, is_informative, informative_message_type,
  message_type_key, conflicting, message_types_conflict,
}

-- The characters of a text that are no white space.
abbrev pub unspaced : Text → Text
unspaced s = filter (λ c. not (is_space c)) s

unspaced_again : (s : Text) → unspaced (unspaced s) ≡ unspaced s
unfolding filter
unspaced_again [] = refl
unspaced_again (c ∷ s) = elim (Bool-cases (is_space c)) [
  | inl t ↦ rw t (unspaced_again s)
  | inr t ↦ rw t (rw t (ap (λ (r : Text). c ∷ r) (unspaced_again s)))
]

unspaced-drop_while : (s : Text) → unspaced (drop_while is_space s) ≡ unspaced s
unfolding filter drop_while
unspaced-drop_while [] = refl
unspaced-drop_while (c ∷ s) = elim (Bool-cases (is_space c)) [
  | inl t ↦ rw t (unspaced-drop_while s)
  | inr t ↦ rw t (rw t refl)
]

unspaced-rstrip_by : (s : Text) → unspaced (rstrip_by is_space s) ≡ unspaced s
unfolding filter rstrip_by
unspaced-rstrip_by [] = refl
unspaced-rstrip_by (c ∷ s) = ground (arith, unspaced-rstrip_by s)

unspaced-strip : (s : Text) → unspaced (strip s) ≡ unspaced s
unfolding strip
unspaced-strip s = unspaced-rstrip_by (drop_while is_space s) ∙ unspaced-drop_while s

spelled : (a b : Text) → unspaced a ≡ unspaced b → simple_spelling a ≡ simple_spelling b
unfolding simple_spelling squeeze
spelled a b h = ap (λ (s : Text). drop_qualifiers none 0 s) h

key_lem :
    (a : Text)
    → message_type_key (some a)
      ≡ (if is_informative (simple_spelling a) [] then some (simple_spelling a) else none)
unfolding message_type_key informative_message_type
key_lem a = elim (Bool-cases (is_informative (simple_spelling a) [])) [
  | inl t ↦
      rw (t, message_type_key, informative_message_type)
        (ap (λ (s : Text). some s) (spelled (strip a) a (unspaced-strip a)))
  | inr t ↦ rw (t, message_type_key, informative_message_type) refl
]

same_key :
    (a b : Text) → unspaced a ≡ unspaced b → message_type_key (some a) ≡ message_type_key (some b)
same_key a b h =
    key_lem a
    ∙ ap (λ (s : Text). if is_informative s [] then some s else none) (spelled a b h)
    ∙ sym (key_lem b)

conflicting_self : (k : Option Text) → conflicting k k ≡ false
unfolding conflicting
conflicting_self none = refl
conflicting_self (some k) = ground (arith, text_beq_iff k k)

-- White space does not matter: two payload types with the same other characters do not conflict, and
-- each conflicts with a third one, on either side, exactly if the other does.
pub conflict_unspaced :
    (a b : Text) (c : Option Text)
    → unspaced a ≡ unspaced b
    → (message_types_conflict (some a) (some b) ≡ false)
      × ((message_types_conflict (some a) c ≡ message_types_conflict (some b) c)
          × (message_types_conflict c (some a) ≡ message_types_conflict c (some b)))
unfolding message_types_conflict
conflict_unspaced a b c h =
    let q = same_key a b h in
    (
      rw q (conflicting_self (message_type_key (some b))),
      (
        ap (λ (k : Option Text). conflicting k (message_type_key c)) q,
        ap (λ (k : Option Text). conflicting (message_type_key c) k) q,
      ),
    )
