-- ===== src/Freshness.antt =====
-- indexing/freshness.py: whether the inventory of an index is out of date. `repr` is Python's repr
-- of a text.
pub mod Laws
use systemlens.Prelude.{
  Bool, true, false, ◌&&◌, not, Option, none, some, ◌++◌, if◌then◌else◌, ◌==◌, option_eq,
}
use systemlens.Text.{Text, text_eq, codes}

abbrev pub endpoint_inventory_signature : Text
endpoint_inventory_signature = codes "endpoint-inventory-v28-inherited-mappings-gateway-filters"

unfoldable pub is_endpoint_inventory_stale : Option Text → Bool
is_endpoint_inventory_stale stored = not (stored == some endpoint_inventory_signature)

unfoldable pub observed : (Text → Text) → Option Text → Text
observed repr none = codes "aucune signature stockée"
observed repr (some stored) = codes "signature " ++ repr stored

unfoldable pub endpoint_inventory_warning : (Text → Text) → Option Text → Text → Bool → Option Text
unfolding is_endpoint_inventory_stale observed
endpoint_inventory_warning repr stored scope inventory_indexed =
    if stored == none && not inventory_indexed
    then none
    else if not (is_endpoint_inventory_stale stored)
    then none
    else some (
        scope
        ++ (codes " : inventaire des intégrations potentiellement obsolète ("
            ++ (observed repr stored ++ codes ") ; relancez `systemlens index`.")))
