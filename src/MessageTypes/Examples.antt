-- ===== src/MessageTypes/Examples.antt =====
-- Runs of the comparison of payload types (domain/message_types.py).
use systemlens.Prelude.{◌≡◌, refl, false, some, filter}
use systemlens.Text.{Text, codes, is_space}
use systemlens.MessageTypes.{message_types_conflict}
use systemlens.MessageTypes.Spelling.{unspaced, conflict_unspaced}

abbrev spaced : Text
spaced = codes "Map.Entry<Order, Paid >"

abbrev plain : Text
plain = codes "Map.Entry<Order,Paid>"

same_spelling : unspaced spaced ≡ unspaced plain
unfolding filter is_space
same_spelling = refl

conflict_unspaced_example :
    (message_types_conflict (some spaced) (some plain) ≡ false)
    × ((message_types_conflict (some spaced) (some (codes "OrderPaid"))
          ≡ message_types_conflict (some plain) (some (codes "OrderPaid")))
        × (message_types_conflict (some (codes "OrderPaid")) (some spaced)
            ≡ message_types_conflict (some (codes "OrderPaid")) (some plain)))
conflict_unspaced_example = conflict_unspaced spaced plain (some (codes "OrderPaid")) same_spelling
