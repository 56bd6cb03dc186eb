-- ===== src/DltServer/Commands.antt =====
-- diagnostic_job_parser.cpp, diagnostic_job_handler.cpp and `OnConfigCommand`: a command is a string
-- of bytes, its first one the number of the job.
use logging.Prelude.{
  ℕ, ◌+◌, Bool, not, ◌&&◌, Option, none, some, List, [], ◌∷◌, leb, ◌==◌, if◌then◌else◌, length,
  get_or,
}
use logging.DltServer.Ids.{DltidT, extract_id}
use logging.DltServer.Config.{
  LogLevels, PersistentConfig, ThresholdT, level, use_default, AssignmentAction, remove, add,
  ret_error,
}
use logging.DltServer.Server.{
  DltLogServer, Job, read_log_channel_names, set_trace_state, set_default_trace_state,
  set_log_channel_threshold, set_log_level, set_messaging_filtering_state, set_default_log_level,
  set_log_channel_assignment, set_dlt_output_enable,
}
use logging.DltServer.Startup.{reset_to_default}
use logging.DltServer.Saving.{store_dlt_config}

-- The handlers of diagnostic_job_handler.h.
pub data DiagnosticJob : Type 0 where
  read_names_job reset_job store_job trace_state_job default_trace_state_job : DiagnosticJob
  channel_threshold_job : DltidT → ℕ → DiagnosticJob
  log_level_job : DltidT → DltidT → ThresholdT → DiagnosticJob
  filtering_state_job : Bool → DiagnosticJob
  default_level_job : ℕ → DiagnosticJob
  assignment_job : DltidT → DltidT → DltidT → AssignmentAction → DiagnosticJob
  output_enable_job : Bool → DiagnosticJob

-- `command[i]`; the parser reads only bytes that the length check has shown to be there.
abbrev byte_at : List ℕ → ℕ → ℕ
byte_at command i = get_or command i 0

get_assignment_action : ℕ → Option AssignmentAction
get_assignment_action value =
    if leb value 1 then some (if value == 0 then remove else add) else none

module _ (levels : LogLevels) where
  open levels use {try_get_log_level_from_u8}

  parse_threshold : List ℕ → Option DiagnosticJob
  parse_threshold command =
      if not (length command == 1 + 4 + 1 + 1)
      then none
      else (elim (try_get_log_level_from_u8 (byte_at command 5)) [
        | none ↦ none
        | some l ↦ some (channel_threshold_job (extract_id command 1) l)
      ])

  parse_log_level : List ℕ → Option DiagnosticJob
  parse_log_level command =
      if not (length command == 1 + 4 + 4 + 1)
      then none
      else (let threshold = byte_at command 9 in
          if threshold == 0xff
          then some (log_level_job (extract_id command 1) (extract_id command 5) use_default)
          else (elim (try_get_log_level_from_u8 threshold) [
            | none ↦ none
            | some l ↦ some (log_level_job (extract_id command 1) (extract_id command 5) (level l))
          ]))

  parse_filtering : List ℕ → Option DiagnosticJob
  parse_filtering command =
      if not (length command == 1 + 1)
      then none
      else some (filtering_state_job (not (byte_at command 1 == 0)))

  parse_default_level : List ℕ → Option DiagnosticJob
  parse_default_level command =
      if not (length command == 1 + 1)
      then none
      else (elim (try_get_log_level_from_u8 (byte_at command 1)) [
        | none ↦ none
        | some l ↦ some (default_level_job l)
      ])

  parse_assignment : List ℕ → Option DiagnosticJob
  unfolding get_assignment_action
  parse_assignment command =
      if not (length command == 1 + 4 + 4 + 4 + 1)
      then none
      else (elim (get_assignment_action (byte_at command 13)) [
        | none ↦ none
        | some action ↦ some (
            assignment_job (extract_id command 1) (extract_id command 5) (extract_id command 9)
              action)
      ])

  parse_output_enable : List ℕ → Option DiagnosticJob
  parse_output_enable command =
      if not (length command == 1 + 1)
      then none
      else (let flag = byte_at command 1 in
          if not (flag == 1) && not (flag == 0) then none else some (output_enable_job (flag == 1)))

  parse_id : ℕ → List ℕ → Option DiagnosticJob
  unfolding parse_threshold parse_log_level parse_filtering parse_default_level parse_assignment
      parse_output_enable
  parse_id command_id command =
      if command_id == 8
      then some read_names_job
      else if command_id == 1
      then some reset_job
      else if command_id == 4
      then some store_job
      else if command_id == 5
      then some trace_state_job
      else if command_id == 7
      then some default_trace_state_job
      else if command_id == 3
      then parse_threshold command
      else if command_id == 0
      then parse_log_level command
      else if command_id == 2
      then parse_filtering command
      else if command_id == 6
      then parse_default_level command
      else if command_id == 9
      then parse_assignment command
      else if command_id == 10
      then parse_output_enable command
      else none

  unfoldable pub parse : List ℕ → Option DiagnosticJob
  unfolding parse_id
  parse [] = none
  parse (command_id ∷ rest) = parse_id command_id (command_id ∷ rest)

module _ {Double Db : Type 0} (levels : LogLevels) (reader_callback : Db → PersistentConfig)
    (writer_callback : PersistentConfig → Db → Db) where
  -- The server and the database of its two callbacks.
  on_server : Job Double → DltLogServer Double × Db → (DltLogServer Double × Db) × List ℕ
  on_server job (s, db) = let (s', response) = job s in ((s', db), response)

  -- `IDiagnosticJobHandler::Execute`.
  unfoldable pub execute :
      DiagnosticJob → DltLogServer Double × Db → (DltLogServer Double × Db) × List ℕ
  unfolding on_server
  execute read_names_job = on_server read_log_channel_names
  execute reset_job = reset_to_default levels reader_callback writer_callback
  execute store_job = store_dlt_config writer_callback
  execute trace_state_job = on_server set_trace_state
  execute default_trace_state_job = on_server set_default_trace_state
  execute (channel_threshold_job channel l) = on_server (set_log_channel_threshold channel l)
  execute (log_level_job app_id ctx_id t) = on_server (set_log_level app_id ctx_id t)
  execute (filtering_state_job enabled) = on_server (set_messaging_filtering_state enabled)
  execute (default_level_job l) = on_server (set_default_log_level l)
  execute (assignment_job app_id ctx_id channel flag) =
      on_server (set_log_channel_assignment app_id ctx_id channel flag)
  execute (output_enable_job enable) = on_server (set_dlt_output_enable enable)

  unfoldable pub on_config_command :
      List ℕ → DltLogServer Double × Db → (DltLogServer Double × Db) × List ℕ
  unfolding execute
  on_config_command command st = elim (parse levels command) [
    | none ↦ (st, ret_error ∷ [])
    | some job ↦ execute job st
  ]
