-- ===== src/DltServer/Routing.antt =====
-- dlt_log_server.h and dlt_log_server.cpp: which channels a message is sent to. The result of
-- `FilterAndCall` is the indices of the channels that `f` is called with, in order.
use logging.Prelude.{ℕ, ◌+◌, Bool, true, not, Option, none, some, List, [], ◌∷◌, leb, if◌then◌else◌}
use logging.DltServer.Ids.{DltidT, no_id}
use logging.DltServer.Maps.{find_entry, value_or}
use logging.DltServer.Config.{dltid_key, pair_key}
use logging.DltServer.Server.{Channelmask, empty_mask, mask_none, DltLogChannel, DltLogServer}

unfoldable pub find_in_key_map :
    {V : Type 0} → List ((DltidT × DltidT) × V) → DltidT → DltidT → Option V
find_in_key_map m app_id ctx_id = elim (find_entry (app_id, ctx_id) m) [
  | some v ↦ some v
  | none ↦ elim (find_entry (no_id, ctx_id) m) [
    | some v ↦ some v
    | none ↦ find_entry (app_id, no_id) m
  ]
]

unfoldable pub calls_from : ℕ → List DltLogChannel → Channelmask → List ℕ
calls_from i [] assigned = []
calls_from i (c ∷ cs) assigned =
    let rest = calls_from (i + 1) cs assigned in if assigned i then i ∷ rest else rest

module _ {Double : Type 0} where
  unfoldable pub is_accepted_by_filtering : DltLogServer Double → DltidT → DltidT → ℕ → Bool
  is_accepted_by_filtering s app_id ctx_id log_level =
      if not s.filtering_enabled
      then true
      else leb log_level
          (value_or (find_in_key_map s.message_thresholds app_id ctx_id) s.default_threshold)

  unfoldable pub assigned_to_channels : DltLogServer Double → DltidT → DltidT → Channelmask
  assigned_to_channels s app_id ctx_id =
      value_or (find_in_key_map s.channel_assignments app_id ctx_id) empty_mask

  unfoldable pub filter_and_call : DltLogServer Double → DltidT → DltidT → ℕ → List ℕ
  filter_and_call s app_id ctx_id log_level =
      if not (is_accepted_by_filtering s app_id ctx_id log_level)
      then []
      else (let assigned = assigned_to_channels s app_id ctx_id in
          if mask_none assigned then s.default_channel ∷ [] else calls_from 0 s.channels assigned)

  -- `SendFtVerbose`: a file transfer goes to the channel for core dumps, if there is one.
  unfoldable pub send_ft_verbose : DltLogServer Double → DltidT → DltidT → ℕ → List ℕ
  send_ft_verbose s app_id ctx_id log_level = elim s.coredump_channel [
    | some i ↦ i ∷ []
    | none ↦ filter_and_call s app_id ctx_id log_level
  ]

  -- `GetQuota`, with the double 1.0 as a parameter.
  abbrev get_quota : Double → DltLogServer Double → DltidT → Double
  get_quota one_point_zero s name = value_or (find_entry name s.throughput_apps) one_point_zero
