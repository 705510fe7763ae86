-- ===== src/Freshness/Laws/Examples.antt =====
-- A run of the warning on a stale inventory (indexing/freshness.py).
use systemlens.Text.{Text}

abbrev quoted : Text → Text
quoted s = s
