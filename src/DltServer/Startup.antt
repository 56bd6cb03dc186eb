-- ===== src/DltServer/Startup.antt =====
-- dlt_log_server.cpp: `InitLogChannels`, `InitLogChannelsDefault`, `SaveDatabase` and the jobs that
-- use them. The database behind the two callbacks is a value of its own: `reader_callback` is a
-- function of it, and `writer_callback` replaces it.
use logging.Prelude.{
  ℕ, ◌+◌, Bool, true, false, not, none, some, List, [], ◌∷◌, ◌++◌, leb, ◌==◌, if◌then◌else◌, length,
}
use logging.DltServer.Ids.{DltidT, no_id, dltid, dltid_eq, to_string}
use logging.DltServer.Loading.{load_assignments, load_thresholds, load_quotas}
use logging.DltServer.Maps.{find_entry, emplace, assign, value_or}
use logging.DltServer.Config.{
  LogLevels, ChannelDescription, StaticConfig, PersistentConfig, empty_config, ret_ok, dltid_key,
  pair_key, string_key,
}
use logging.DltServer.Server.{DltLogChannel, DltLogServer}

-- The bytes of "239.255.42.99", "TEST", "HOST" and "0.0.0.0".
abbrev multicast_address : List ℕ
multicast_address = 50 ∷ 51 ∷ 57 ∷ 46 ∷ 50 ∷ 53 ∷ 53 ∷ 46 ∷ 52 ∷ 50 ∷ 46 ∷ 57 ∷ 57 ∷ []

abbrev test_name : List ℕ
test_name = 84 ∷ 69 ∷ 83 ∷ 84 ∷ []

abbrev host_name : List ℕ
host_name = 72 ∷ 79 ∷ 83 ∷ 84 ∷ []

abbrev any_address : List ℕ
any_address = 48 ∷ 46 ∷ 48 ∷ 46 ∷ 48 ∷ 46 ∷ 48 ∷ []

abbrev pub is_empty : {A : Type 0} → List A → Bool
is_empty [] = true
is_empty (x ∷ xs) = false

-- What `InitLogChannels` does after its loops over the channels.
unfoldable pub load_settings :
    {Double : Type 0} → Bool → PersistentConfig → DltLogServer Double → DltLogServer Double
load_settings has_persistent config s =
    let (nums, assignments) =
      load_assignments
        (if has_persistent then config.channel_assignments else s.static_config.channel_assignments)
        (s.channel_nums, []) in
    record s {
      channel_nums = nums;
      channel_assignments = assignments;
      filtering_enabled =
          if has_persistent then config.filtering_enabled else s.static_config.filtering_enabled;
      default_threshold =
          if has_persistent then config.default_threshold else s.static_config.default_threshold;
      message_thresholds =
          load_thresholds
            (if has_persistent
              then config.message_thresholds
              else s.static_config.message_thresholds)
            [];
      throughput_overall = s.static_config.overall_mbps;
      throughput_apps = load_quotas s.static_config.applications_kbps [];
    }

module _ (levels : LogLevels) where
  -- `ChannelDescription{}`
  abbrev default_description : ChannelDescription
  default_description = record {
    ecu = no_id;
    address = [];
    port = 0;
    dst_address = [];
    dst_port = 0;
    channel_threshold = levels.k_off;
    multicast_interface = [];
  }

  -- The threshold of a channel in the persistent configuration, by `operator[]`.
  abbrev persistent_threshold : PersistentConfig → DltidT → ℕ
  persistent_threshold config name =
      value_or (find_entry (to_string name) config.channels) levels.k_off

  unfoldable pub init_log_channels_default :
      {Double : Type 0} → Bool → DltLogServer Double → DltLogServer Double
  init_log_channels_default reloading s = record s {
    filtering_enabled = false;
    default_threshold = levels.k_error;
    default_channel = 0;
    coredump_channel = none;
    channels =
        if reloading
        then (elim s.channels [
          | [] ↦ []
          | c ∷ cs ↦ record c { channel_threshold = levels.k_off } ∷ cs
        ])
        else (s.channels
            ++ record {
              channel_name = dltid test_name;
              channel_threshold = levels.k_info;
              ecu = dltid host_name;
              address = any_address;
              port = 3491;
              dst_address = multicast_address;
              dst_port = 3490;
              multicast_interface = [];
            }
              ∷ []);
  }

  -- The loop over the channels on a reload.
  unfoldable pub reload_channels :
      Bool
      → PersistentConfig
      → List (DltidT × ChannelDescription)
      → List DltLogChannel
      → List DltLogChannel
  reload_channels has_persistent config descriptions [] = []
  reload_channels has_persistent config descriptions (c ∷ cs) =
      record c {
        channel_threshold =
            if has_persistent
            then persistent_threshold config c.channel_name
            else (value_or (find_entry c.channel_name descriptions)
                default_description).channel_threshold;
      }
      ∷ reload_channels has_persistent config descriptions cs

  -- The lookups of that loop enter a name that has no description.
  unfoldable pub touch_descriptions :
      List DltLogChannel → List (DltidT × ChannelDescription) → List (DltidT × ChannelDescription)
  touch_descriptions [] descriptions = descriptions
  touch_descriptions (c ∷ cs) descriptions =
      touch_descriptions cs (emplace c.channel_name default_description descriptions)

  new_channel : Bool → PersistentConfig → DltidT → ChannelDescription → DltLogChannel
  new_channel has_persistent config name channel = record {
    channel_name = name;
    channel_threshold =
        if has_persistent then persistent_threshold config name else channel.channel_threshold;
    ecu = channel.ecu;
    address = channel.address;
    port = channel.port;
    dst_address = if is_empty channel.dst_address then multicast_address else channel.dst_address;
    dst_port = if not (channel.dst_port == 0) then channel.dst_port else 3490;
    multicast_interface = channel.multicast_interface;
  }

  -- The loop over the channels at the start, from the `i`-th on.
  unfoldable pub create_channels :
      {Double : Type 0}
      → Bool
      → PersistentConfig
      → ℕ
      → List (DltidT × ChannelDescription)
      → DltLogServer Double
      → DltLogServer Double
  unfolding new_channel
  create_channels has_persistent config i [] s = s
  create_channels has_persistent config i ((name, channel) ∷ rest) s =
      create_channels has_persistent config (i + 1) rest (record s {
        default_channel =
            if dltid_eq s.static_config.default_channel name then i else s.default_channel;
        coredump_channel =
            if dltid_eq s.static_config.coredump_channel name then some i else s.coredump_channel;
        channels = s.channels ++ new_channel has_persistent config name channel ∷ [];
        channel_nums = assign name i s.channel_nums;
      })

  unfoldable pub init_channels :
      {Double : Type 0} → Bool → PersistentConfig → DltLogServer Double → DltLogServer Double
  init_channels reloading config s =
      let has_persistent = not (is_empty config.channels) in
      let descriptions = s.static_config.channels in
      if reloading
      then record s {
        channels = reload_channels has_persistent config descriptions s.channels;
        static_config = record s.static_config {
          channels =
              if has_persistent then descriptions else touch_descriptions s.channels descriptions;
        };
      }
      else create_channels has_persistent config 0 descriptions s

-- The members before the body of the constructor.
abbrev pub initial_server :
    {Double : Type 0} → Double → StaticConfig Double → Bool → DltLogServer Double
initial_server zero_double static_config enabled = record {
  filtering_enabled = false;
  dlt_output_enabled = enabled;
  default_threshold = 0;
  message_thresholds = [];
  channel_assignments = [];
  throughput_overall = zero_double;
  throughput_apps = [];
  static_config = static_config;
  channels = [];
  default_channel = 0;
  coredump_channel = none;
  channel_nums = [];
  enabled_calls = [];
}

module _ {Double Db : Type 0} (levels : LogLevels) (reader_callback : Db → PersistentConfig) where
  unfoldable pub init_log_channels : Bool → Db → DltLogServer Double → DltLogServer Double
  init_log_channels reloading db s =
      if is_empty s.static_config.channels
      then init_log_channels_default levels reloading s
      else if leb 32 (length s.static_config.channels)
      then init_log_channels_default levels reloading s
      else (let config = reader_callback db in
          load_settings (not (is_empty config.channels)) config
            (init_channels levels reloading config (record s { coredump_channel = none })))

  -- The constructor.
  unfoldable pub new_server : Double → StaticConfig Double → Bool → Db → DltLogServer Double
  new_server zero_double static_config enabled db =
      init_log_channels false db (initial_server zero_double static_config enabled)

  -- `ResetToDefault`: the cleared database is written, and then read again.
  unfoldable pub reset_to_default :
      (PersistentConfig → Db → Db) → DltLogServer Double × Db → (DltLogServer Double × Db) × List ℕ
  reset_to_default writer_callback (s, db) =
      let db' = writer_callback (empty_config levels.k_off) db in
      ((init_log_channels true db' s, db'), ret_ok ∷ [])
