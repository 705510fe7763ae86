-- ===== src/MessageTypes/Laws.antt =====
-- The comparison of payload types is the same from both sides (domain/message_types.py).
use systemlens.Prelude.{◌≡◌, refl, Option, none, some, arith}
use systemlens.Text.{Text, text_eq, text_beq_iff}
use systemlens.MessageTypes.{conflicting, message_type_key, message_types_conflict}

conflicting_comm : (a b : Option Text) → conflicting a b ≡ conflicting b a
unfolding conflicting
conflicting_comm none none = refl
conflicting_comm none (some y) = refl
conflicting_comm (some x) none = refl
conflicting_comm (some x) (some y) = ground (arith, text_beq_iff x y, text_beq_iff y x)

-- Whether two payload types conflict does not depend on which side produces.
pub message_types_conflict_comm :
    (a b : Option Text) → message_types_conflict a b ≡ message_types_conflict b a
unfolding message_types_conflict
message_types_conflict_comm a b = conflicting_comm (message_type_key a) (message_type_key b)
