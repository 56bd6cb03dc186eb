-- ===== src/DltServer/Saving.antt =====
-- dlt_log_server.cpp: `SaveDatabase` and `StoreDltConfig`.
use logging.Prelude.{ℕ, ◌+◌, List, [], ◌∷◌, if◌then◌else◌}
use logging.DltServer.Ids.{DltidT, to_string}
use logging.DltServer.Maps.{find_entry, assign, value_or}
use logging.DltServer.Config.{PersistentConfig, dltid_key, pair_key, string_key, ret_ok}
use logging.DltServer.Server.{Channelmask, DltLogChannel, DltLogServer}

unfoldable pub save_channels : List DltLogChannel → List (List ℕ × ℕ) → List (List ℕ × ℕ)
save_channels [] saved = saved
save_channels (c ∷ cs) saved =
    save_channels cs (assign (to_string c.channel_name) c.channel_threshold saved)

-- The names of the channels whose bit is set, from the `i`-th channel on.
unfoldable pub assigned_names : ℕ → List DltLogChannel → Channelmask → List DltidT
assigned_names i [] channel_set = []
assigned_names i (c ∷ cs) channel_set =
    let rest = assigned_names (i + 1) cs channel_set in
    if channel_set i then c.channel_name ∷ rest else rest

-- `m[app_id][ctx_id] = v`
unfoldable pub assign_nested :
    {V : Type 0}
    → DltidT
    → DltidT
    → V
    → List (DltidT × List (DltidT × V))
    → List (DltidT × List (DltidT × V))
assign_nested app_id ctx_id v m =
    assign app_id (assign ctx_id v (value_or (find_entry app_id m) [])) m

unfoldable pub save_assignments :
    List DltLogChannel
    → List ((DltidT × DltidT) × Channelmask)
    → List (DltidT × List (DltidT × List DltidT))
    → List (DltidT × List (DltidT × List DltidT))
save_assignments channels [] saved = saved
save_assignments channels (((app_id, ctx_id), set) ∷ rest) saved =
    save_assignments channels rest
      (assign_nested app_id ctx_id (assigned_names 0 channels set) saved)

unfoldable pub save_thresholds :
    List ((DltidT × DltidT) × ℕ)
    → List (DltidT × List (DltidT × ℕ))
    → List (DltidT × List (DltidT × ℕ))
save_thresholds [] saved = saved
save_thresholds (((app_id, ctx_id), l) ∷ rest) saved =
    save_thresholds rest (assign_nested app_id ctx_id l saved)

-- What `SaveDatabase` hands to `writer_callback`.
unfoldable pub save_database : {Double : Type 0} → DltLogServer Double → PersistentConfig
save_database s = record {
  channels = save_channels s.channels [];
  channel_assignments = save_assignments s.channels s.channel_assignments [];
  filtering_enabled = s.filtering_enabled;
  default_threshold = s.default_threshold;
  message_thresholds = save_thresholds s.message_thresholds [];
}

unfoldable pub store_dlt_config :
    {Double Db : Type 0}
    → (PersistentConfig → Db → Db)
    → DltLogServer Double × Db
    → (DltLogServer Double × Db) × List ℕ
store_dlt_config writer_callback (s, db) = ((s, writer_callback (save_database s) db), ret_ok ∷ [])
