-- ===== src/DltServer/Config.antt =====
-- dlt_log_server_config.h, i_dlt_log_server.h and configurator_commands.h. A log level is its value;
-- `Double` is the type of the quotas, which the server only passes on.
use logging.Prelude.{ℕ, ◌≡◌, ◌↔◌, Bool, true, false, ◌&&◌, Option, List, [], ◌∷◌, arith, ◌==◌}
use logging.DltServer.Ids.{DltidT, dltid_eq, dltid_eq_iff}
use logging.DltServer.Maps.{Key}

-- What mw::log, a library outside the repository, says of log levels.
pub record LogLevels : Type 0 where
  pub try_get_log_level_from_u8 : ℕ → Option ℕ
  pub k_off : ℕ
  pub k_error : ℕ
  pub k_info : ℕ

pub record ChannelDescription : Type 0 where
  pub ecu : DltidT
  pub address : List ℕ
  pub port : ℕ
  pub dst_address : List ℕ
  pub dst_port : ℕ
  pub channel_threshold : ℕ
  pub multicast_interface : List ℕ

pub record StaticConfig (Double : Type 0) : Type 0 where
  pub coredump_channel : DltidT
  pub default_channel : DltidT
  pub channels : List (DltidT × ChannelDescription)
  pub filtering_enabled : Bool
  pub default_threshold : ℕ
  pub channel_assignments : List (DltidT × List (DltidT × List DltidT))
  pub message_thresholds : List (DltidT × List (DltidT × ℕ))
  pub overall_mbps : Double
  pub applications_kbps : List (DltidT × Double)
  pub quota_enforcement_enabled : Bool

-- The key of a channel is its name, as a string.
pub record PersistentConfig : Type 0 where
  pub channels : List (List ℕ × ℕ)
  pub filtering_enabled : Bool
  pub default_threshold : ℕ
  pub channel_assignments : List (DltidT × List (DltidT × List DltidT))
  pub message_thresholds : List (DltidT × List (DltidT × ℕ))

-- `PersistentConfig{}`, with the value of `LoglevelT::kOff`.
abbrev pub empty_config : ℕ → PersistentConfig
empty_config k_off = record {
  channels = [];
  filtering_enabled = false;
  default_threshold = k_off;
  channel_assignments = [];
  message_thresholds = [];
}

instance abbrev pub dltid_key : Key DltidT
dltid_key = record { same = dltid_eq; same_iff = dltid_eq_iff }

abbrev pub pair_eq : DltidT × DltidT → DltidT × DltidT → Bool
pair_eq p q = dltid_eq p.0 q.0 && dltid_eq p.1 q.1

pub pair_eq_iff : (p q : DltidT × DltidT) → (pair_eq p q ≡ true) ↔ (p ≡ q)
pair_eq_iff p q = ground arith

-- `KeyT`, with the equality of `std::pair`.
instance abbrev pub pair_key : Key (DltidT × DltidT)
pair_key = record { same = pair_eq; same_iff = pair_eq_iff }

abbrev pub string_eq : List ℕ → List ℕ → Bool
string_eq [] [] = true
string_eq [] (c ∷ cs) = false
string_eq (c ∷ cs) [] = false
string_eq (c ∷ cs) (d ∷ ds) = (c == d) && string_eq cs ds

pub string_eq_iff : (s t : List ℕ) → (string_eq s t ≡ true) ↔ (s ≡ t)
string_eq_iff [] [] = ground arith
string_eq_iff [] (c ∷ cs) = ground arith
string_eq_iff (c ∷ cs) [] = ground arith
string_eq_iff (c ∷ cs) (d ∷ ds) = ground (arith, string_eq_iff cs ds)

instance abbrev pub string_key : Key (List ℕ)
string_key = record { same = string_eq; same_iff = string_eq_iff }

pub data ThresholdT : Type 0 where
  level : ℕ → ThresholdT
  use_default : ThresholdT

pub data AssignmentAction : Type 0 where
  remove add : AssignmentAction

-- `kRetOk` and `kRetError`, as bytes.
abbrev pub ret_ok : ℕ
ret_ok = 0

abbrev pub ret_error : ℕ
ret_error = 254
