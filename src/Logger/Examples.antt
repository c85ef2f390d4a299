-- ===== src/Logger/Examples.antt =====
-- The theorem on src/logger.rs at a log of two entries.
use rignite.Common.{◌-◌, ◌≡◌, none, List, [], ◌∷◌, length, drop}
use rignite.Common.Text.{codes}
use rignite.Logger.{LogEntry, init, log_all, get_logs, get_logs-log_all}

abbrev entries : List LogEntry
entries =
    record { level = codes "INF"; message = codes "a" }
    ∷ record { level = codes "ERR"; message = codes "b" }
    ∷ []

get_logs-log_all_example :
    (get_logs (log_all (init none) entries) ≡ drop (length entries - 50) entries)
    × (get_logs (log_all none entries) ≡ [])
get_logs-log_all_example = get_logs-log_all entries
