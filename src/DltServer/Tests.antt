-- ===== src/DltServer/Tests.antt =====
-- The theorems at a server with two channels, whose database is the configuration that it stores.
use logging.Prelude.{
  ℕ, ◌<◌, ◌≡◌, refl, ◌⊎◌, true, false, not, ◌&&◌, ◌||◌, none, some, List, [], ◌∷◌, arith, ltb, leb,
  ◌==◌, if◌then◌else◌, length,
}
use logging.DltServer.Ids.{DltidT, dltid, extract_id}
use logging.DltServer.Maps.{assign, find_entry}
use logging.DltServer.Config.{
  LogLevels, ChannelDescription, StaticConfig, PersistentConfig, empty_config, ret_ok, ret_error,
  dltid_key, add, level,
}
use logging.DltServer.Server.{mask_none, DltLogServer, set_log_channel_assignment, set_log_level}
use logging.DltServer.Startup.{
  reload_channels, reset_to_default, load_settings, create_channels, init_channels,
  init_log_channels, new_server,
}
use logging.DltServer.Routing.{
  find_in_key_map, filter_and_call, is_accepted_by_filtering, assigned_to_channels,
}
use logging.DltServer.Filtering.{occurs, filter_and_call-occurs}
use logging.DltServer.Loading.{load_quotas, load_thresholds, load_assignments}
use logging.DltServer.Commands.{parse, reset_job, execute, on_config_command}
use logging.DltServer.Levels.{set_log_level-accepted}
use logging.DltServer.Assignments.{set_log_channel_assignment-routes}
use logging.DltServer.Sending.{nv_message, send_to_channels, AreReady, Message}
use logging.Channel.State.{Channel, initial_channel}
use logging.DltServer.Recipients.{is_recipient, received, send_to_channels-received}
use logging.Channel.Specification.{stream_of}
use logging.Channel.Guarantees.{initial_channel-IsReady}
use logging.DltServer.Delivery.{after_commands, running_server, no_message_lost}
use logging.DltServer.Responses.{on_config_command-Answered, reset-coredump_channel}

abbrev levels : LogLevels
levels = record {
  try_get_log_level_from_u8 = λ n. if leb n 6 then some n else none;
  k_off = 0;
  k_error = 2;
  k_info = 4;
}

abbrev description : ChannelDescription
description = record {
  ecu = dltid (72 ∷ []);
  address = [];
  port = 3490;
  dst_address = [];
  dst_port = 0;
  channel_threshold = 4;
  multicast_interface = [];
}

abbrev name : ℕ → DltidT
name c = record { byte0 = c; byte1 = 0; byte2 = 0; byte3 = 0 }

-- Channels "A" and "B", "A" being the default and "B" the one for core dumps.
abbrev config : StaticConfig ℕ
config = record {
  coredump_channel = name 66;
  default_channel = name 65;
  channels = (name 65, description) ∷ (name 66, description) ∷ [];
  filtering_enabled = true;
  default_threshold = 4;
  channel_assignments = [];
  message_thresholds = [];
  overall_mbps = 1;
  applications_kbps = [];
  quota_enforcement_enabled = false;
}

abbrev reader : PersistentConfig → PersistentConfig
reader stored = stored

abbrev writer : PersistentConfig → PersistentConfig → PersistentConfig
writer stored old = stored

abbrev stored_nothing : PersistentConfig
stored_nothing = empty_config 0

unfoldable server : DltLogServer ℕ
server = new_server levels reader 0 config true stored_nothing

-- "Assign the messages of application "a" and context "c" to channel "B"", and a reset.
abbrev commands : List (List ℕ)
commands = (9 ∷ 97 ∷ 0 ∷ 0 ∷ 0 ∷ 99 ∷ 0 ∷ 0 ∷ 0 ∷ 66 ∷ 0 ∷ 0 ∷ 0 ∷ 1 ∷ []) ∷ (1 ∷ []) ∷ []

no_message_lost_example :
    let s = running_server levels reader writer 0 config true stored_nothing commands in
    (k : ℕ) × (k < length s.channels) × (occurs k (filter_and_call s (name 97) (name 99) 3) ≡ true)
unfolding running_server after_commands new_server init_log_channels init_channels create_channels
    load_settings load_assignments load_thresholds load_quotas on_config_command parse execute
    reset_to_default reload_channels is_accepted_by_filtering find_in_key_map find_entry
    set_log_channel_assignment assign extract_id
no_message_lost_example =
    no_message_lost levels reader writer 0 config true stored_nothing commands (name 97) (name 99) 3
      refl

on_config_command-Answered_example :
    let (st', response) =
      on_config_command levels reader writer (1 ∷ []) (server, stored_nothing) in
    ((rest : List ℕ) × (response ≡ ret_ok ∷ rest))
    ⊎ ((response ≡ ret_error ∷ []) × (st' ≡ (server, stored_nothing)))
on_config_command-Answered_example =
    on_config_command-Answered levels reader writer (1 ∷ []) server stored_nothing

reset-coredump_channel_example :
    (execute levels reader writer reset_job (server, stored_nothing)).0.0.coredump_channel ≡ none
reset-coredump_channel_example = reset-coredump_channel levels reader writer server stored_nothing

filter_and_call-occurs_example : occurs 1 (filter_and_call server (name 97) (name 99) 3) ≡ (
    is_accepted_by_filtering server (name 97) (name 99) 3
    && (if mask_none (assigned_to_channels server (name 97) (name 99))
        then server.default_channel == 1
        else ltb 1 (length server.channels) && assigned_to_channels server (name 97) (name 99) 1))
filter_and_call-occurs_example = filter_and_call-occurs server (name 97) (name 99) 3 1

set_log_level-accepted_example :
    (is_accepted_by_filtering
        (set_log_level (name 97) (name 99) (level 2) server).0
        (name 97)
        (name 99)
        3
      ≡ (not server.filtering_enabled || leb 3 2))
    × (is_accepted_by_filtering
          (set_log_level (name 97) (name 99) (level 2) server).0
          (name 98)
          (name 100)
          3
        ≡ is_accepted_by_filtering server (name 98) (name 100) 3)
set_log_level-accepted_example =
    set_log_level-accepted server (name 97) (name 99) 2 3 (name 98) (name 100) refl refl refl

set_log_channel_assignment-routes_example :
    occurs 1 (
      filter_and_call
        (set_log_channel_assignment (name 97) (name 99) (name 66) add server).0
        (name 97)
        (name 99)
        3)
    ≡ true
unfolding server new_server init_log_channels init_channels create_channels load_settings
    load_assignments load_thresholds load_quotas is_accepted_by_filtering find_in_key_map find_entry
    assign
set_log_channel_assignment-routes_example =
    set_log_channel_assignment-routes server (name 97) (name 99) (name 66) 1 3 refl (omega arith)
      (omega arith) refl

abbrev sent_message : Message
sent_message = nv_message 3 (name 97) (name 99) 77 1000 (1 ∷ 2 ∷ [])

send_to_channels-received_example :
    let cs = λ (k : ℕ). initial_channel (name 69) 4 in
    (ds : ℕ → Channel) × (send_to_channels (λ k calls. none) server sent_message cs ≡ some ds)
    × AreReady ds
    × ((k : ℕ)
        → stream_of (ds k) ≡ (
            if is_recipient server sent_message k
            then received sent_message (stream_of (cs k))
            else stream_of (cs k)))
send_to_channels-received_example =
    send_to_channels-received (λ k calls. none) server sent_message
      (λ k. initial_channel (name 69) 4) tt (λ k. initial_channel-IsReady (name 69) 4)
