-- ===== src/Router/Quota.antt =====
-- Over its quota a session delivers nothing until its statistics are shown or its peer is gone.
use logging.Prelude.{
  ℕ, ◌≡◌, refl, ap, ◌∙◌, Bool, true, false, ◌&&◌, Option, List, [], ◌∷◌, arith, if◌then◌else◌,
}
use logging.Router.Session.{
  StatsData, SourceSession, SessionOutput, TickEnvironment, on_acquire_response,
  set_logging_client_enabled,
}
use logging.Router.Ticks.{
  SessionEvent, finalized_output, try_finalize_acquisition, update_request, process_logs, read_logs,
  process_and_route_log_messages, update_and_log_stats, process_tick, tick, happen, happen_all,
  ticked, acquire_responded, closed_by_peer, logging_enabled, shown,
}
use logging.Router.Requests.{
  update_request-balanced, update_and_log_stats-silent, try_finalize_acquisition-finalized,
}
use logging.SharedMemory.Reader.{read_shared}
use logging.SharedMemory.Records.{HeaderLayout}
use logging.Router.Outputs.{is_handled, route_calls-over_limit, total, total-append, total_parts}

abbrev pub keeps_quota : SessionEvent → Bool
keeps_quota (ticked env) = true
keeps_quota (acquire_responded acquired_buffer) = true
keeps_quota closed_by_peer = false
keeps_quota (logging_enabled enable) = true
keeps_quota (shown ring_buffer_size now) = false

abbrev pub all_keep_quota : List SessionEvent → Bool
all_keep_quota [] = true
all_keep_quota (e ∷ es) = keeps_quota e && all_keep_quota es

module _ {Descriptor Quota TimePoint : Type 0} (layout : HeaderLayout TimePoint)
    (get_dlt_msg_desc : List ℕ → Option Descriptor) (exceeds : ℕ → ℕ → Quota → Bool) where
  abbrev pub IsOver : SourceSession Descriptor Quota → Type 0
  IsOver s = (s.stats.quota_overlimit_detected ≡ true) × (s.command_detach_on_closed ≡ false)

  -- Nothing is handled, and the session stays over its quota.
  abbrev IsSilent :
      SourceSession Descriptor Quota × List (SessionOutput Descriptor TimePoint) → Type 0
  IsSilent (t, outputs) = (total is_handled outputs ≡ 0) × IsOver t

  update_and_log_stats-IsOver :
      (env : TickEnvironment) (m n : ℕ) (s : SourceSession Descriptor Quota)
      → IsOver s
      → IsOver (update_and_log_stats layout get_dlt_msg_desc exceeds env m n s).0
  unfolding update_and_log_stats
  update_and_log_stats-IsOver env m n s h = ground arith

  read_logs-IsOver :
      (env : TickEnvironment) (s : SourceSession Descriptor Quota)
      → IsOver s
      → IsSilent (read_logs layout get_dlt_msg_desc env s).0
  unfolding read_logs process_logs
  read_logs-IsOver env s (o, c) = rw c (
      rw o (
        route_calls-over_limit get_dlt_msg_desc is_handled
            (read_shared layout env.at_read s.reader).1.1 s.parser,
        (refl, refl),
      ))

  process_tick-IsSilent :
      (env : TickEnvironment) (s : SourceSession Descriptor Quota)
      → IsOver s
      → IsSilent (process_tick layout get_dlt_msg_desc exceeds env s)
  unfolding process_tick process_and_route_log_messages
  process_tick-IsSilent env s (o, c) =
      let (t, b) = try_finalize_acquisition layout get_dlt_msg_desc env s in
      let p = read_logs layout get_dlt_msg_desc env t in
      let (u, more) = update_request layout get_dlt_msg_desc env b p.0.0 in
      let q = update_and_log_stats layout get_dlt_msg_desc exceeds env p.1.0 p.1.1 u in
      let first : List (SessionOutput Descriptor TimePoint) = finalized_output s.data_acquired b in
      let h = try_finalize_acquisition-finalized layout get_dlt_msg_desc exceeds env s in
      let k = update_request-balanced layout get_dlt_msg_desc exceeds env b p.0.0 in
      let l = update_and_log_stats-silent layout get_dlt_msg_desc exceeds env p.1.0 p.1.1 u in
      let over : IsOver t =
        (ap (λ (x : StatsData Quota). x.quota_overlimit_detected) h.5 ∙ o, h.4 ∙ c) in
      let r = read_logs-IsOver env t over in
      (
        omega (arith, total_parts is_handled first p.0.1 more q.1, h.2, r.0, k.2, l.2),
        update_and_log_stats-IsOver env p.1.0 p.1.1 u (k.3 ∙ r.1.0, k.4 ∙ r.1.1),
      )

  IsSilent-if :
      (b : Bool) (x y : SourceSession Descriptor Quota × List (SessionOutput Descriptor TimePoint))
      → IsSilent x
      → IsSilent y
      → IsSilent (if b then x else y)
  IsSilent-if true x y h k = h
  IsSilent-if false x y h k = k

  happen-IsSilent :
      (e : SessionEvent) (s : SourceSession Descriptor Quota)
      → keeps_quota e ≡ true
      → IsOver s
      → IsSilent (happen layout get_dlt_msg_desc exceeds e s)
  unfolding happen tick total on_acquire_response set_logging_client_enabled
  happen-IsSilent (ticked env) s h o =
      IsSilent-if s.detach_on_closed_processed _ _ (refl, o) (process_tick-IsSilent env s o)
  happen-IsSilent (acquire_responded acquired_buffer) s h o = (refl, o)
  happen-IsSilent closed_by_peer s h o = cc
  happen-IsSilent (logging_enabled enable) s h o = (refl, o)
  happen-IsSilent (shown ring_buffer_size now) s h o = cc

  -- While its quota is exceeded, no record of a session reaches a handler, in any sequence of events
  -- before its statistics are shown or its peer is gone, and it stays over its quota.
  pub over_quota_silent :
      (es : List SessionEvent) (s : SourceSession Descriptor Quota)
      → s.stats.quota_overlimit_detected ≡ true
      → s.command_detach_on_closed ≡ false
      → all_keep_quota es ≡ true
      → let (t, outputs) = happen_all layout get_dlt_msg_desc exceeds es s in
        (total is_handled outputs ≡ 0) × (t.stats.quota_overlimit_detected ≡ true)
  unfolding happen_all total
  over_quota_silent [] s o c h = (refl, o)
  over_quota_silent (e ∷ es) s o c h =
      let (t, outputs) = happen layout get_dlt_msg_desc exceeds e s in
      let (u, more) = happen_all layout get_dlt_msg_desc exceeds es t in
      let first = happen-IsSilent e s (ground arith) (o, c) in
      let rest = over_quota_silent es t first.1.0 first.1.1 (ground arith) in
      (omega (arith, total-append is_handled outputs more, first.0, rest.0), rest.1)
