-- ===== src/Router/Closing.antt =====
-- A session whose peer is gone: its next tick is its last.
use logging.Prelude.{
  ℕ, ◌≡◌, refl, ◌∙◌, Bool, true, false, Option, List, [], ◌∷◌, arith, if◌then◌else◌,
}
use logging.Router.Session.{
  SourceSession, SessionOutput, TickEnvironment, on_acquire_response, on_closed_by_peer,
  set_logging_client_enabled, is_source_closed, show_stats,
}
use logging.Router.Ticks.{
  SessionEvent, try_finalize_acquisition, update_request, process_detached_logs, read_logs,
  process_and_route_log_messages, update_and_log_stats, process_tick, tick, happen, happen_all,
  ticked, acquire_responded, closed_by_peer, logging_enabled, shown,
}
use logging.Router.Requests.{try_finalize_acquisition-finalized}
use logging.SharedMemory.Records.{HeaderLayout}
use logging.Router.Outputs.{is_handled, is_request, total, total-append}

module _ {Descriptor Quota TimePoint : Type 0} (layout : HeaderLayout TimePoint)
    (get_dlt_msg_desc : List ℕ → Option Descriptor) (exceeds : ℕ → ℕ → Quota → Bool) where
  update_request-closed :
      (env : TickEnvironment) (b : Bool) (s : SourceSession Descriptor Quota)
      → (update_request layout get_dlt_msg_desc env b s).0.detach_on_closed_processed
        ≡ s.detach_on_closed_processed
  unfolding update_request
  update_request-closed env b s = ground arith

  update_and_log_stats-closed :
      (env : TickEnvironment) (m n : ℕ) (s : SourceSession Descriptor Quota)
      → (update_and_log_stats layout get_dlt_msg_desc exceeds env m n
          s).0.detach_on_closed_processed
        ≡ s.detach_on_closed_processed
  unfolding update_and_log_stats
  update_and_log_stats-closed env m n s = refl

  read_logs-closed :
      (env : TickEnvironment) (s : SourceSession Descriptor Quota)
      → s.command_detach_on_closed ≡ true
      → (read_logs layout get_dlt_msg_desc env s).0.0.detach_on_closed_processed ≡ true
  unfolding read_logs process_detached_logs
  read_logs-closed env s c = rw c refl

  process_tick-closed :
      (env : TickEnvironment) (s : SourceSession Descriptor Quota)
      → s.command_detach_on_closed ≡ true
      → (process_tick layout get_dlt_msg_desc exceeds env s).0.detach_on_closed_processed ≡ true
  unfolding process_tick process_and_route_log_messages
  process_tick-closed env s c =
      let (t, b) = try_finalize_acquisition layout get_dlt_msg_desc env s in
      let p = read_logs layout get_dlt_msg_desc env t in
      let u = (update_request layout get_dlt_msg_desc env b p.0.0).0 in
      let h = try_finalize_acquisition-finalized layout get_dlt_msg_desc exceeds env s in
      update_and_log_stats-closed env p.1.0 p.1.1 u
      ∙ (update_request-closed env b p.0.0 ∙ read_logs-closed env t (h.4 ∙ c))

  closed_if :
      (b : Bool) (x y : SourceSession Descriptor Quota × List (SessionOutput Descriptor TimePoint))
      → (b ≡ true → x.0.detach_on_closed_processed ≡ true)
      → y.0.detach_on_closed_processed ≡ true
      → (if b then x else y).0.detach_on_closed_processed ≡ true
  closed_if true x y h k = h refl
  closed_if false x y h k = k

  -- Only the statistics are shown of a session that is closed.
  abbrev pub IsIdle :
      SourceSession Descriptor Quota × List (SessionOutput Descriptor TimePoint) → Type 0
  IsIdle (t, outputs) =
      (t.detach_on_closed_processed ≡ true)
      × (total is_handled outputs ≡ 0)
      × (total is_request outputs ≡ 0)

  happen-IsIdle :
      (e : SessionEvent) (s : SourceSession Descriptor Quota)
      → s.detach_on_closed_processed ≡ true
      → IsIdle (happen layout get_dlt_msg_desc exceeds e s)
  unfolding happen tick total on_acquire_response set_logging_client_enabled on_closed_by_peer
      show_stats
  happen-IsIdle (ticked env) s h = simp h (refl, refl, refl)
  happen-IsIdle (acquire_responded acquired_buffer) s h = (h, refl, refl)
  happen-IsIdle closed_by_peer s h = (h, refl, refl)
  happen-IsIdle (logging_enabled enable) s h = (h, refl, refl)
  happen-IsIdle (shown ring_buffer_size now) s h = (h, refl, refl)

  happen_all-IsIdle :
      (es : List SessionEvent) (s : SourceSession Descriptor Quota)
      → s.detach_on_closed_processed ≡ true
      → IsIdle (happen_all layout get_dlt_msg_desc exceeds es s)
  unfolding happen_all total
  happen_all-IsIdle [] s h = (h, refl, refl)
  happen_all-IsIdle (e ∷ es) s h =
      let (t, outputs) = happen layout get_dlt_msg_desc exceeds e s in
      let (u, more) = happen_all layout get_dlt_msg_desc exceeds es t in
      let first = happen-IsIdle e s h in
      let rest = happen_all-IsIdle es t first.0 in
      (
        rest.0,
        omega (arith, total-append is_handled outputs more, first.1, rest.1),
        omega (arith, total-append is_request outputs more, first.2, rest.2),
      )

  -- Once the peer is gone the next tick closes the session, and then, whatever happens, it stays
  -- closed, gives nothing to handlers and sends no request.
  pub closed_is_final :
      (env : TickEnvironment) (es : List SessionEvent) (s : SourceSession Descriptor Quota)
      → let t = (tick layout get_dlt_msg_desc exceeds env (on_closed_by_peer s)).0 in
        (is_source_closed t ≡ true) × IsIdle (happen_all layout get_dlt_msg_desc exceeds es t)
  unfolding is_source_closed tick on_closed_by_peer
  closed_is_final env es s =
      let c = on_closed_by_peer s in
      let closed : (tick layout get_dlt_msg_desc exceeds env c).0.detach_on_closed_processed
          ≡ true =
        closed_if s.detach_on_closed_processed _ _ (λ e. e) (process_tick-closed env c refl) in
      (closed, happen_all-IsIdle es (tick layout get_dlt_msg_desc exceeds env c).0 closed)
