-- ===== src/DltServer/Loading.antt =====
-- dlt_log_server.cpp: the loops of `InitLogChannels` that flatten the nested maps of a configuration.
use logging.Prelude.{ℕ, List, [], ◌∷◌}
use logging.DltServer.Ids.{DltidT}
use logging.DltServer.Maps.{find_entry, emplace, value_or}
use logging.DltServer.Config.{dltid_key, pair_key}
use logging.DltServer.Server.{Channelmask, empty_mask, single_bit, mask_or}

-- The map of names to indices, with the assignments that are being built. The lookup of a name by
-- `operator[]` enters a name that is not there, with index 0.
unfoldable pub channel_set :
    List DltidT → List (DltidT × ℕ) × Channelmask → List (DltidT × ℕ) × Channelmask
channel_set [] st = st
channel_set (c ∷ cs) (nums, set) =
    channel_set cs (emplace c 0 nums, mask_or set (single_bit (value_or (find_entry c nums) 0)))

unfoldable pub load_contexts :
    DltidT
    → List (DltidT × List DltidT)
    → List (DltidT × ℕ) × List ((DltidT × DltidT) × Channelmask)
    → List (DltidT × ℕ) × List ((DltidT × DltidT) × Channelmask)
load_contexts app_id [] st = st
load_contexts app_id ((ctx_id, names) ∷ rest) (nums, assignments) =
    let (nums', set) = channel_set names (nums, empty_mask) in
    load_contexts app_id rest (nums', emplace (app_id, ctx_id) set assignments)

unfoldable pub load_assignments :
    List (DltidT × List (DltidT × List DltidT))
    → List (DltidT × ℕ) × List ((DltidT × DltidT) × Channelmask)
    → List (DltidT × ℕ) × List ((DltidT × DltidT) × Channelmask)
load_assignments [] st = st
load_assignments ((app_id, contexts) ∷ rest) st =
    load_assignments rest (load_contexts app_id contexts st)

unfoldable pub load_levels :
    DltidT → List (DltidT × ℕ) → List ((DltidT × DltidT) × ℕ) → List ((DltidT × DltidT) × ℕ)
load_levels app_id [] thresholds = thresholds
load_levels app_id ((ctx_id, l) ∷ rest) thresholds =
    load_levels app_id rest (emplace (app_id, ctx_id) l thresholds)

unfoldable pub load_thresholds :
    List (DltidT × List (DltidT × ℕ)) → List ((DltidT × DltidT) × ℕ) → List ((DltidT × DltidT) × ℕ)
load_thresholds [] thresholds = thresholds
load_thresholds ((app_id, contexts) ∷ rest) thresholds =
    load_thresholds rest (load_levels app_id contexts thresholds)

unfoldable pub load_quotas :
    {Double : Type 0} → List (DltidT × Double) → List (DltidT × Double) → List (DltidT × Double)
load_quotas [] quotas = quotas
load_quotas ((app_id, kbps) ∷ rest) quotas = load_quotas rest (emplace app_id kbps quotas)
