-- ===== src/DltServer/Delivery.antt =====
-- The commands of `OnConfigCommand` keep the server routable, so no accepted message is lost.
use logging.Prelude.{
  ℕ, ◌<◌, ◌≡◌, refl, ap, inl, inr, Bool, true, false, List, [], ◌∷◌, arith, if◌then◌else◌,
  Option-cases, length,
}
use logging.DltServer.Ids.{DltidT}
use logging.DltServer.Maps.{find_entry}
use logging.DltServer.Config.{
  LogLevels, StaticConfig, PersistentConfig, level, use_default, AssignmentAction, dltid_key,
  pair_key,
}
use logging.DltServer.Server.{
  DltLogServer, read_log_channel_names, set_log_channel_threshold, set_log_level,
  set_log_channel_assignment, set_dlt_output_enable, set_output_enabled,
}
use logging.DltServer.Startup.{new_server, reset_to_default}
use logging.DltServer.Saving.{store_dlt_config}
use logging.DltServer.Routing.{is_accepted_by_filtering, filter_and_call}
use logging.DltServer.Filtering.{IsRoutable, occurs, filter_and_call_delivers}
use logging.DltServer.Commands.{
  DiagnosticJob, read_names_job, reset_job, store_job, trace_state_job, default_trace_state_job,
  channel_threshold_job, log_level_job, filtering_state_job, default_level_job, assignment_job,
  output_enable_job, parse, execute, on_config_command,
}
use logging.DltServer.Invariant.{
  IsRoutable-same, init_log_channels-reload, change_assignment-MasksBelow, length-store_threshold,
  new_server-IsRoutable,
}

module _ {Double Db : Type 0} (levels : LogLevels) (reader : Db → PersistentConfig)
    (writer : PersistentConfig → Db → Db) where
  set_log_channel_threshold-IsRoutable :
      (channel : DltidT) (l : ℕ) (s : DltLogServer Double)
      → IsRoutable s
      → IsRoutable (set_log_channel_threshold channel l s).0
  unfolding set_log_channel_threshold
  set_log_channel_threshold-IsRoutable channel l s r =
      elim (Option-cases (find_entry channel s.channel_nums)) [
        | inl e ↦ rw (e, set_log_channel_threshold) r
        | inr (i, e) ↦
            rw (e, set_log_channel_threshold)
              (IsRoutable-same s _ r (length-store_threshold s.channels i l) r.default_there refl
                refl)
      ]

  set_log_channel_assignment-IsRoutable :
      (app_id ctx_id channel : DltidT) (flag : AssignmentAction) (s : DltLogServer Double)
      → IsRoutable s
      → IsRoutable (set_log_channel_assignment app_id ctx_id channel flag s).0
  unfolding set_log_channel_assignment
  set_log_channel_assignment-IsRoutable app_id ctx_id channel flag s r =
      elim (Option-cases (find_entry channel s.channel_nums)) [
        | inl e ↦ rw (e, set_log_channel_assignment) r
        | inr (i, e) ↦
            rw (e, set_log_channel_assignment)
              (record {
                few = r.few;
                default_there = r.default_there;
                names_there = r.names_there;
                masks_there =
                    change_assignment-MasksBelow (r.names_there channel i e) (app_id, ctx_id) flag
                      s.channel_assignments r.masks_there;
              })
      ]

  same_maps :
      (s t : DltLogServer Double)
      → IsRoutable s
      → t.channels ≡ s.channels
      → t.default_channel ≡ s.default_channel
      → t.channel_nums ≡ s.channel_nums
      → t.channel_assignments ≡ s.channel_assignments
      → IsRoutable t
  same_maps s t r c d n a =
      IsRoutable-same s t r (ap length c) (omega (arith, d, r.default_there)) n a

  either :
      {s t : DltLogServer Double} (b : Bool)
      → IsRoutable s
      → IsRoutable t
      → IsRoutable (if b then s else t)
  either true r q = r
  either false r q = q

  set_output_enabled-IsRoutable :
      (enable : Bool) (s : DltLogServer Double)
      → IsRoutable s
      → IsRoutable (set_output_enabled enable s)
  unfolding set_output_enabled
  set_output_enabled-IsRoutable true s r =
      either s.dlt_output_enabled r (same_maps s _ r refl refl refl refl)
  set_output_enabled-IsRoutable false s r =
      either s.dlt_output_enabled (same_maps s _ r refl refl refl refl) r

  execute-IsRoutable :
      (job : DiagnosticJob) (s : DltLogServer Double) (db : Db)
      → IsRoutable s
      → IsRoutable (execute levels reader writer job (s, db)).0.0
  unfolding execute reset_to_default store_dlt_config read_log_channel_names set_log_level
      set_dlt_output_enable
  execute-IsRoutable read_names_job s db r = r
  execute-IsRoutable reset_job s db r = init_log_channels-reload levels reader _ s r
  execute-IsRoutable store_job s db r = r
  execute-IsRoutable trace_state_job s db r = r
  execute-IsRoutable default_trace_state_job s db r = r
  execute-IsRoutable (channel_threshold_job channel l) s db r =
      set_log_channel_threshold-IsRoutable channel l s r
  execute-IsRoutable (log_level_job app_id ctx_id (level l)) s db r =
      same_maps s _ r refl refl refl refl
  execute-IsRoutable (log_level_job app_id ctx_id use_default) s db r =
      same_maps s _ r refl refl refl refl
  execute-IsRoutable (filtering_state_job enabled) s db r = same_maps s _ r refl refl refl refl
  execute-IsRoutable (default_level_job l) s db r = same_maps s _ r refl refl refl refl
  execute-IsRoutable (assignment_job app_id ctx_id channel flag) s db r =
      set_log_channel_assignment-IsRoutable app_id ctx_id channel flag s r
  execute-IsRoutable (output_enable_job enable) s db r = set_output_enabled-IsRoutable enable s r

  on_config_command-IsRoutable :
      (command : List ℕ) (s : DltLogServer Double) (db : Db)
      → IsRoutable s
      → IsRoutable (on_config_command levels reader writer command (s, db)).0.0
  unfolding on_config_command
  on_config_command-IsRoutable command s db r = elim (Option-cases (parse levels command)) [
    | inl e ↦ rw (e, on_config_command) r
    | inr (job, e) ↦ rw (e, on_config_command) (execute-IsRoutable job s db r)
  ]

  -- The state after the commands, in order.
  unfoldable pub after_commands :
      List (List ℕ) → DltLogServer Double × Db → DltLogServer Double × Db
  after_commands [] st = st
  after_commands (command ∷ rest) st =
      after_commands rest (on_config_command levels reader writer command st).0

  after_commands-IsRoutable :
      (commands : List (List ℕ)) (s : DltLogServer Double) (db : Db)
      → IsRoutable s
      → IsRoutable (after_commands commands (s, db)).0
  unfolding after_commands
  after_commands-IsRoutable [] s db r = r
  after_commands-IsRoutable (command ∷ rest) s db r =
      after_commands-IsRoutable rest _ _ (on_config_command-IsRoutable command s db r)

  -- The server of a process that has been constructed and has then had those commands.
  unfoldable pub running_server :
      Double → StaticConfig Double → Bool → Db → List (List ℕ) → DltLogServer Double
  running_server zero_double config enabled db commands =
      (after_commands commands (new_server levels reader zero_double config enabled db, db)).0

  -- After the constructor and any commands, whatever the configuration and the database hold, every
  -- message that the filters accept is sent to at least one of the channels that the server has.
  pub no_message_lost :
      (zero_double : Double) (config : StaticConfig Double) (enabled : Bool) (db : Db)
      (commands : List (List ℕ)) (app_id ctx_id : DltidT) (log_level : ℕ)
      → is_accepted_by_filtering
          (running_server zero_double config enabled db commands)
          app_id
          ctx_id
          log_level
        ≡ true
      → (k : ℕ) × (k < length (running_server zero_double config enabled db commands).channels)
        × (occurs k (
              filter_and_call
                (running_server zero_double config enabled db commands)
                app_id
                ctx_id
                log_level)
            ≡ true)
  unfolding running_server
  no_message_lost zero_double config enabled db commands app_id ctx_id log_level =
      filter_and_call_delivers _ app_id ctx_id log_level (
        after_commands-IsRoutable commands _ db
          (new_server-IsRoutable levels reader zero_double config enabled db))
