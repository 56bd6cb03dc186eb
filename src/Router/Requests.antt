-- ===== src/Router/Requests.antt =====
-- Over any sequence of events a session sends its requests one at a time.
use logging.Prelude.{
  ℕ, ◌+◌, ◌≤◌, ◌≡◌, refl, Bool, true, false, Option, List, [], ◌∷◌, arith, if◌then◌else◌,
}
use logging.Router.Session.{SourceSession, SessionOutput, TickEnvironment, handled}
use logging.Router.Parser.{HandlerCall}
use logging.Router.Ticks.{route_calls, update_request, update_and_log_stats}
use logging.SharedMemory.Records.{HeaderLayout}
use logging.Router.Session.{detached_logs_processed}
use logging.Router.Ticks.{try_finalize_acquisition, process_detached_logs, process_logs}
use logging.SharedMemory.Reader.{read_shared}
use logging.Router.Ticks.{finalized_output}
use logging.Router.Ticks.{process_and_route_log_messages, tick}
use logging.SharedMemory.Reader.{read_detached}
use logging.Router.Ticks.{read_logs}
use logging.Router.Ticks.{
  SessionEvent, process_tick, happen, happen_all, ticked, acquire_responded, closed_by_peer,
  logging_enabled, shown,
}
use logging.Router.Session.{
  on_acquire_response, on_closed_by_peer, set_logging_client_enabled, show_stats,
}
use logging.Router.Outputs.{
  is_request, is_finalization, is_handled, total, total-append, total_last, total_parts,
  route_calls-total,
}

module _ {Descriptor Quota TimePoint : Type 0} (layout : HeaderLayout TimePoint)
    (get_dlt_msg_desc : List ℕ → Option Descriptor) (exceeds : ℕ → ℕ → Quota → Bool) where
  abbrev pub pending : SourceSession Descriptor Quota → ℕ
  pending s = if s.acquire_requested then 1 else 0

  pub update_request-balanced :
      (env : TickEnvironment) (b : Bool) (s : SourceSession Descriptor Quota)
      → let (t, outputs) = update_request layout get_dlt_msg_desc env b s in
        (total is_request outputs + pending s ≤ (if b then 1 else 0) + pending t)
        × (total is_finalization outputs ≡ 0)
        × (total is_handled outputs ≡ 0)
        × (t.stats.quota_overlimit_detected ≡ s.stats.quota_overlimit_detected)
        × (t.command_detach_on_closed ≡ s.command_detach_on_closed)
  unfolding update_request total
  update_request-balanced env b s = ground arith

  pub update_and_log_stats-silent :
      (env : TickEnvironment) (m n : ℕ) (s : SourceSession Descriptor Quota)
      → let (t, outputs) = update_and_log_stats layout get_dlt_msg_desc exceeds env m n s in
        (total is_request outputs ≡ 0)
        × (total is_finalization outputs ≡ 0)
        × (total is_handled outputs ≡ 0)
        × (pending t ≡ pending s)
  unfolding update_and_log_stats total
  update_and_log_stats-silent env m n s = ground arith

  pub try_finalize_acquisition-finalized :
      (env : TickEnvironment) (s : SourceSession Descriptor Quota)
      → let (t, b) = try_finalize_acquisition layout get_dlt_msg_desc env s in
        let outputs : List (SessionOutput Descriptor TimePoint) =
          finalized_output s.data_acquired b in
        (total is_request outputs ≡ 0)
        × (total is_finalization outputs ≡ (if b then 1 else 0))
        × (total is_handled outputs ≡ 0)
        × (pending t ≡ pending s)
        × (t.command_detach_on_closed ≡ s.command_detach_on_closed)
        × (t.stats ≡ s.stats)
  unfolding try_finalize_acquisition total
  try_finalize_acquisition-finalized env s = ground arith

  module _ (f : SessionOutput Descriptor TimePoint → ℕ)
      (h : (c : HandlerCall Descriptor TimePoint) → f (handled c) ≡ 0)
      (g : (n : Option ℕ) → f (detached_logs_processed n) ≡ 0) where
    process_logs-total :
        (env : TickEnvironment) (s : SourceSession Descriptor Quota)
        → total f (process_logs layout get_dlt_msg_desc env s).0.1 ≡ 0
    unfolding process_logs
    process_logs-total env s =
        route_calls-total get_dlt_msg_desc f h s.stats.quota_overlimit_detected
          (read_shared layout env.at_read s.reader).1.1 s.parser

    process_detached_logs-total :
        (env : TickEnvironment) (s : SourceSession Descriptor Quota)
        → total f
            (process_detached_logs layout get_dlt_msg_desc env
              (process_logs layout get_dlt_msg_desc env s)).0.1
          ≡ 0
    unfolding process_detached_logs total
    process_detached_logs-total env s =
        let t = process_logs layout get_dlt_msg_desc env s in
        let r = read_detached layout env.at_read_detached t.0.0.reader in
        let routed = route_calls get_dlt_msg_desc false r.1.1 t.0.0.parser in
        omega (
          arith,
          total_last f t.0.1 routed.1.0 (detached_logs_processed r.1.0),
          process_logs-total env s,
          route_calls-total get_dlt_msg_desc f h false r.1.1 t.0.0.parser,
          g r.1.0,
        )

  -- The read of a tick sends nothing.
  read_logs-total :
      (f : SessionOutput Descriptor TimePoint → ℕ)
      → ((c : HandlerCall Descriptor TimePoint) → f (handled c) ≡ 0)
      → ((n : Option ℕ) → f (detached_logs_processed n) ≡ 0)
      → (env : TickEnvironment) (s : SourceSession Descriptor Quota)
      → total f (read_logs layout get_dlt_msg_desc env s).0.1 ≡ 0
  unfolding read_logs
  read_logs-total f h g env s =
      ground (arith, process_logs-total f h g env s, process_detached_logs-total f h g env s)

  read_logs-pending :
      (env : TickEnvironment) (s : SourceSession Descriptor Quota)
      → pending (read_logs layout get_dlt_msg_desc env s).0.0 ≡ pending s
  unfolding read_logs process_logs process_detached_logs
  read_logs-pending env s = ground arith

  -- As many requests as finalized acquisitions, but for one that is outstanding.
  abbrev IsBalanced :
      SourceSession Descriptor Quota
      → SourceSession Descriptor Quota × List (SessionOutput Descriptor TimePoint)
      → Type 0
  IsBalanced s (t, outputs) =
      total is_request outputs + pending s ≤ total is_finalization outputs + pending t

  process_tick-IsBalanced :
      (env : TickEnvironment) (s : SourceSession Descriptor Quota)
      → IsBalanced s (process_tick layout get_dlt_msg_desc exceeds env s)
  unfolding process_tick process_and_route_log_messages
  process_tick-IsBalanced env s =
      let (t, b) = try_finalize_acquisition layout get_dlt_msg_desc env s in
      let p = read_logs layout get_dlt_msg_desc env t in
      let (u, more) = update_request layout get_dlt_msg_desc env b p.0.0 in
      let q = update_and_log_stats layout get_dlt_msg_desc exceeds env p.1.0 p.1.1 u in
      let first : List (SessionOutput Descriptor TimePoint) = finalized_output s.data_acquired b in
      let h = try_finalize_acquisition-finalized env s in
      let k = update_request-balanced env b p.0.0 in
      let l = update_and_log_stats-silent env p.1.0 p.1.1 u in
      omega (
        arith,
        total_parts is_request first p.0.1 more q.1,
        total_parts is_finalization first p.0.1 more q.1,
        h.0,
        h.1,
        h.3,
        read_logs-total is_request (λ c. refl) (λ n. refl) env t,
        read_logs-total is_finalization (λ c. refl) (λ n. refl) env t,
        read_logs-pending env t,
        k.0,
        k.1,
        l.0,
        l.1,
        l.3,
      )

  IsBalanced-if :
      (b : Bool) (s : SourceSession Descriptor Quota)
      (x y : SourceSession Descriptor Quota × List (SessionOutput Descriptor TimePoint))
      → IsBalanced s x
      → IsBalanced s y
      → IsBalanced s (if b then x else y)
  IsBalanced-if true s x y h k = h
  IsBalanced-if false s x y h k = k

  happen-IsBalanced :
      (e : SessionEvent) (s : SourceSession Descriptor Quota)
      → IsBalanced s (happen layout get_dlt_msg_desc exceeds e s)
  unfolding happen tick total on_acquire_response on_closed_by_peer set_logging_client_enabled
      show_stats
  happen-IsBalanced (ticked env) s =
      IsBalanced-if s.detach_on_closed_processed s _ _ (omega arith) (process_tick-IsBalanced env s)
  happen-IsBalanced (acquire_responded acquired_buffer) s = omega arith
  happen-IsBalanced closed_by_peer s = omega arith
  happen-IsBalanced (logging_enabled enable) s = omega arith
  happen-IsBalanced (shown ring_buffer_size now) s = omega arith

  happen_all-IsBalanced :
      (es : List SessionEvent) (s : SourceSession Descriptor Quota)
      → IsBalanced s (happen_all layout get_dlt_msg_desc exceeds es s)
  unfolding happen_all total
  happen_all-IsBalanced [] s = omega arith
  happen_all-IsBalanced (e ∷ es) s =
      let (t, outputs) = happen layout get_dlt_msg_desc exceeds e s in
      let (u, more) = happen_all layout get_dlt_msg_desc exceeds es t in
      omega (
        arith,
        total-append is_request outputs more,
        total-append is_finalization outputs more,
        happen-IsBalanced e s,
        happen_all-IsBalanced es t,
      )

  -- A session that has no request outstanding sends, over any events, at most one more request than
  -- it finalizes acquisitions.
  pub one_request :
      (es : List SessionEvent) (s : SourceSession Descriptor Quota)
      → s.acquire_requested ≡ false
      → let outputs = (happen_all layout get_dlt_msg_desc exceeds es s).1 in
        total is_request outputs ≤ total is_finalization outputs + 1
  one_request es s e =
      let t = (happen_all layout get_dlt_msg_desc exceeds es s).0 in
      omega (arith, happen_all-IsBalanced es s, at_most_one t.acquire_requested)
    where
      at_most_one : (b : Bool) → (if b then 1 else 0) ≤ 1
      at_most_one b = ground arith
