-- ===== src/DltServer/Responses.antt =====
-- What the responses to commands promise, and what a reset does to the channel for core dumps.
use logging.Prelude.{
  ℕ, ◌≡◌, refl, ◌⊎◌, inl, inr, none, List, [], ◌∷◌, leb, Bool-cases, Option-cases, length,
}
use logging.DltServer.Maps.{find_entry}
use logging.DltServer.Config.{LogLevels, PersistentConfig, level, use_default, dltid_key, pair_key}
use logging.DltServer.Server.{
  DltLogChannel, DltLogServer, read_log_channel_names, set_log_channel_threshold, set_log_level,
  set_log_channel_assignment, set_dlt_output_enable,
}
use logging.DltServer.Startup.{
  is_empty, load_settings, init_log_channels_default, init_channels, init_log_channels,
  reset_to_default,
}
use logging.DltServer.Saving.{store_dlt_config}
use logging.DltServer.Commands.{
  DiagnosticJob, read_names_job, reset_job, store_job, trace_state_job, default_trace_state_job,
  channel_threshold_job, log_level_job, filtering_state_job, default_level_job, assignment_job,
  output_enable_job, parse, execute, on_config_command,
}
use logging.DltServer.Server.{append_names}
use logging.DltServer.Ids.{append_id}
use logging.DltServer.Config.{ret_ok, ret_error}

append_names-ok :
    (cs : List DltLogChannel) (response : List ℕ)
    → (rest : List ℕ) × (append_names cs (ret_ok ∷ response) ≡ ret_ok ∷ rest)
unfolding append_names append_id
append_names-ok [] response = (response, refl)
append_names-ok (c ∷ cs) response = append_names-ok cs _

module _ {Double Db : Type 0} (levels : LogLevels) (reader : Db → PersistentConfig)
    (writer : PersistentConfig → Db → Db) where
  -- A command succeeded, or it was refused and changed nothing.
  Answered : DltLogServer Double × Db → (DltLogServer Double × Db) × List ℕ → Type 0
  Answered st (st', response) =
      ((rest : List ℕ) × (response ≡ ret_ok ∷ rest)) ⊎ ((response ≡ ret_error ∷ []) × (st' ≡ st))

  execute-Answered :
      (job : DiagnosticJob) (s : DltLogServer Double) (db : Db)
      → Answered (s, db) (execute levels reader writer job (s, db))
  unfolding Answered execute reset_to_default store_dlt_config read_log_channel_names set_log_level
      set_dlt_output_enable set_log_channel_threshold set_log_channel_assignment
  execute-Answered read_names_job s db = inl (append_names-ok s.channels [])
  execute-Answered reset_job s db = inl ([], refl)
  execute-Answered store_job s db = inl ([], refl)
  execute-Answered trace_state_job s db = inl ([], refl)
  execute-Answered default_trace_state_job s db = inl ([], refl)
  execute-Answered (channel_threshold_job channel l) s db =
      elim (Option-cases (find_entry channel s.channel_nums)) [
        | inl e ↦ rw (e, set_log_channel_threshold) (inr (refl, refl))
        | inr (i, e) ↦ rw (e, set_log_channel_threshold) (inl ([], refl))
      ]
  execute-Answered (log_level_job app_id ctx_id (level l)) s db = inl ([], refl)
  execute-Answered (log_level_job app_id ctx_id use_default) s db = inl ([], refl)
  execute-Answered (filtering_state_job enabled) s db = inl ([], refl)
  execute-Answered (default_level_job l) s db = inl ([], refl)
  execute-Answered (assignment_job app_id ctx_id channel flag) s db =
      elim (Option-cases (find_entry channel s.channel_nums)) [
        | inl e ↦ rw (e, set_log_channel_assignment) (inr (refl, refl))
        | inr (i, e) ↦ rw (e, set_log_channel_assignment) (inl ([], refl))
      ]
  execute-Answered (output_enable_job enable) s db = inl ([], refl)

  -- Every command, of whatever bytes, is answered: by `ret_ok` and possibly more, or by `ret_error`
  -- alone with the server and its database unchanged.
  pub on_config_command-Answered :
      (command : List ℕ) (s : DltLogServer Double) (db : Db)
      → let (st', response) = on_config_command levels reader writer command (s, db) in
        ((rest : List ℕ) × (response ≡ ret_ok ∷ rest))
        ⊎ ((response ≡ ret_error ∷ []) × (st' ≡ (s, db)))
  unfolding on_config_command Answered
  on_config_command-Answered command s db = elim (Option-cases (parse levels command)) [
    | inl e ↦ rw (e, on_config_command) (inr (refl, refl))
    | inr (job, e) ↦ rw (e, on_config_command) (execute-Answered job s db)
  ]

  -- After a reset the server has no channel for core dumps, even when its static configuration
  -- names one and the constructor had found it.
  pub reset-coredump_channel :
      (s : DltLogServer Double) (db : Db)
      → (execute levels reader writer reset_job (s, db)).0.0.coredump_channel ≡ none
  unfolding execute reset_to_default init_log_channels init_log_channels_default load_settings
      init_channels
  reset-coredump_channel s db = elim (Bool-cases (is_empty s.static_config.channels)) [
    | inl e ↦ rw e refl
    | inr e ↦ elim (Bool-cases (leb 32 (length s.static_config.channels))) [
      | inl l ↦ rw (e, l) refl
      | inr l ↦ rw (e, l) refl
    ]
  ]
