-- ===== src/DltServer/Server.antt =====
-- dlt_log_server.h and dlt_log_server.cpp: the state of the server, and the diagnostic jobs on it.
-- Each job runs under `config_mutex_`, so a job is one step. A response is a string of bytes. The
-- callback for a change of the output state is the list of the values it was called with.
use logging.Prelude.{
  ℕ, zero, suc, Bool, true, false, not, ◌&&◌, ◌||◌, Option, none, some, List, [], ◌∷◌, ltb, ◌==◌,
  if◌then◌else◌,
}
use logging.DltServer.Ids.{DltidT, append_id}
use logging.DltServer.Maps.{find_entry, emplace, assign, erase_entry}
use logging.DltServer.Config.{
  StaticConfig, ThresholdT, level, use_default, AssignmentAction, remove, add, ret_ok, ret_error,
  dltid_key, pair_key,
}

-- `std::bitset<32>`: which bits are set. Bits from 32 on are never set.
abbrev pub Channelmask : Type 0
Channelmask = ℕ → Bool

abbrev pub empty_mask : Channelmask
empty_mask i = false

-- `ChannelmaskT{1U} << n`
abbrev pub single_bit : ℕ → Channelmask
single_bit n i = (i == n) && ltb i 32

abbrev pub mask_or : Channelmask → Channelmask → Channelmask
mask_or m k i = m i || k i

abbrev pub mask_and_not : Channelmask → Channelmask → Channelmask
mask_and_not m k i = m i && not (k i)

unfoldable pub any_below : ℕ → Channelmask → Bool
any_below zero m = false
any_below (suc n) m = m n || any_below n m

unfoldable pub mask_none : Channelmask → Bool
unfolding any_below
mask_none m = not (any_below 32 m)

-- The members of `DltLogChannel` that the server sets or reads.
pub record DltLogChannel : Type 0 where
  pub channel_name : DltidT
  pub channel_threshold : ℕ
  pub ecu : DltidT
  pub address : List ℕ
  pub port : ℕ
  pub dst_address : List ℕ
  pub dst_port : ℕ
  pub multicast_interface : List ℕ

pub record DltLogServer (Double : Type 0) : Type 0 where
  pub filtering_enabled : Bool
  pub dlt_output_enabled : Bool
  pub default_threshold : ℕ
  pub message_thresholds : List ((DltidT × DltidT) × ℕ)
  pub channel_assignments : List ((DltidT × DltidT) × Channelmask)
  pub throughput_overall : Double
  pub throughput_apps : List (DltidT × Double)
  pub static_config : StaticConfig Double
  pub channels : List DltLogChannel
  pub default_channel : ℕ
  pub coredump_channel : Option ℕ
  pub channel_nums : List (DltidT × ℕ)
  pub enabled_calls : List Bool

-- The jobs of `IDltLogServer` return the new state and the response.
abbrev pub Job : Type 0 → Type 0
Job Double = DltLogServer Double → DltLogServer Double × List ℕ

unfoldable pub append_names : List DltLogChannel → List ℕ → List ℕ
append_names [] response = response
append_names (c ∷ cs) response = append_names cs (append_id c.channel_name response)

-- `channels_[i].channel_threshold.store(threshold)`
unfoldable pub store_threshold : List DltLogChannel → ℕ → ℕ → List DltLogChannel
store_threshold [] i threshold = []
store_threshold (c ∷ cs) zero threshold = record c { channel_threshold = threshold } ∷ cs
store_threshold (c ∷ cs) (suc i) threshold = c ∷ store_threshold cs i threshold

-- The change that `SetLogChannelAssignment` makes to the assignments.
unfoldable pub change_assignment :
    DltidT × DltidT
    → Channelmask
    → AssignmentAction
    → List ((DltidT × DltidT) × Channelmask)
    → List ((DltidT × DltidT) × Channelmask)
change_assignment key mask add assignments = elim (find_entry key assignments) [
  | none ↦ emplace key mask assignments
  | some m ↦ assign key (mask_or m mask) assignments
]
change_assignment key mask remove assignments = elim (find_entry key assignments) [
  | none ↦ assignments
  | some m ↦
      if mask_none (mask_and_not m mask)
      then erase_entry key assignments
      else assign key (mask_and_not m mask) assignments
]

module _ {Double : Type 0} where
  unfoldable pub set_output_enabled : Bool → DltLogServer Double → DltLogServer Double
  set_output_enabled true s =
      if s.dlt_output_enabled
      then s
      else record s { dlt_output_enabled = true; enabled_calls = true ∷ s.enabled_calls }
  set_output_enabled false s =
      if s.dlt_output_enabled
      then record s { dlt_output_enabled = false; enabled_calls = false ∷ s.enabled_calls }
      else s

  unfoldable pub read_log_channel_names : Job Double
  unfolding append_names
  read_log_channel_names s = (s, append_names s.channels (ret_ok ∷ []))

  abbrev pub set_trace_state : Job Double
  set_trace_state s = (s, ret_ok ∷ [])

  abbrev pub set_default_trace_state : Job Double
  set_default_trace_state s = (s, ret_ok ∷ [])

  unfoldable pub set_log_channel_threshold : DltidT → ℕ → Job Double
  set_log_channel_threshold channel threshold s = elim (find_entry channel s.channel_nums) [
    | none ↦ (s, ret_error ∷ [])
    | some i ↦ (record s { channels = store_threshold s.channels i threshold }, ret_ok ∷ [])
  ]

  unfoldable pub set_log_level : DltidT → DltidT → ThresholdT → Job Double
  set_log_level app_id ctx_id (level l) s = (
    record s {
      message_thresholds =
          emplace (app_id, ctx_id) l (erase_entry (app_id, ctx_id) s.message_thresholds);
    },
    ret_ok ∷ [],
  )
  set_log_level app_id ctx_id use_default s = (
    record s { message_thresholds = erase_entry (app_id, ctx_id) s.message_thresholds },
    ret_ok ∷ [],
  )

  abbrev pub set_messaging_filtering_state : Bool → Job Double
  set_messaging_filtering_state enabled s = (record s { filtering_enabled = enabled }, ret_ok ∷ [])

  abbrev pub set_default_log_level : ℕ → Job Double
  set_default_log_level l s = (record s { default_threshold = l }, ret_ok ∷ [])

  unfoldable pub set_log_channel_assignment :
      DltidT → DltidT → DltidT → AssignmentAction → Job Double
  set_log_channel_assignment app_id ctx_id channel flag s =
      elim (find_entry channel s.channel_nums) [
        | none ↦ (s, ret_error ∷ [])
        | some i ↦ (
          record s {
            channel_assignments =
                change_assignment (app_id, ctx_id) (single_bit i) flag s.channel_assignments;
          },
          ret_ok ∷ [],
        )
      ]

  unfoldable pub set_dlt_output_enable : Bool → Job Double
  unfolding set_output_enabled
  set_dlt_output_enable enable s = (set_output_enabled enable s, ret_ok ∷ [])
