-- ===== src/MessagePassing/Progress.antt =====
-- The queue is fair: a session in it is ticked after those before it, whatever happens meanwhile.
use logging.Prelude.{
  ℕ, ◌+◌, ◌≤◌, ◌<◌, ◌≡◌, refl, ap, subst, ◌∙◌, ◌⊎◌, inl, inr, some, List, [], ◌∷◌, arith,
  Option-cases,
}
use logging.MessagePassing.Server.{MessagePassingServer}
use logging.MessagePassing.Consistency.{count}
use logging.MessagePassing.Server.{Position, waiting, working, ticking, expediting}
use logging.MessagePassing.Server.{connect_callback, request_exit}
use logging.MessagePassing.Worker.{
  begin_tick, take_session, Event, take_next, handle, run_events, connected, disconnected,
  connect_requested, session_made, acquire_response, acquire_request, exit_requested, woke, took,
  left_queue, tick_returned,
}
use logging.MessagePassing.Queued.{
  rank, begun, begun_of, Quiet, some_eq, either, none_ne_some, disconnect_callback-Quiet,
  begin_connect_request-Quiet, emplace_session-Quiet, on_acquire_response-Quiet,
  notify_acquire_request-Quiet, Quiet-refl, wake_waiting-Quiet, leave_queue-Quiet,
  return_tick-Quiet,
}

module _ (k : ℕ) where
  -- What the worker owes to a session in the queue: its tick has begun, or it is in the queue still,
  -- and has moved up by as many places as ticks have begun.
  abbrev pub Owed : MessagePassingServer → MessagePassingServer → Type 0
  Owed s t =
      (begun_of k s.calls < begun_of k t.calls)
      ⊎ ((0 < count k t.work_queue)
          × (begun_of k t.calls ≡ begun_of k s.calls)
          × (rank k t.work_queue + begun t.calls ≤ rank k s.work_queue + begun s.calls))

  abbrev Proceeds : MessagePassingServer → MessagePassingServer → Type 0
  Proceeds s t = (begun_of k s.calls ≤ begun_of k t.calls) × (0 < count k s.work_queue → Owed s t)

  Quiet-Proceeds : (s t : MessagePassingServer) → Quiet k s t → Proceeds s t
  Quiet-Proceeds s t (a, b, c, d) =
      (omega (arith, d), λ h. inr (omega arith, d, omega (arith, b h, c)))

  Proceeds-trans : (s t u : MessagePassingServer) → Proceeds s t → Proceeds t u → Proceeds s u
  Proceeds-trans s t u (a, f) (b, g) = (omega arith, λ h. onwards (f h))
    where
      further :
          (0 < count k t.work_queue)
            × (begun_of k t.calls ≡ begun_of k s.calls)
            × (rank k t.work_queue + begun t.calls ≤ rank k s.work_queue + begun s.calls)
          → Owed t u
          → Owed s u
      further (x, y, z) (inl l) = inl (omega arith)
      further (x, y, z) (inr (l, m, n)) = inr (l, m ∙ y, omega arith)

      onwards : Owed s t → Owed s u
      onwards (inl l) = inl (omega arith)
      onwards (inr r) = further r (g r.0)

  take_session-Proceeds :
      (pid : ℕ) (pids : List ℕ) (s t : MessagePassingServer)
      → s.work_queue ≡ pid ∷ pids
      → take_session pid pids s ≡ some t
      → Proceeds s t
  unfolding take_session begin_tick begun begun_of
  take_session-Proceeds pid pids s t q e = elim (Option-cases (s.pid_session_map pid)) [
    | inl f ↦ absurd (none_ne_some (rw (f, take_session) at e))
    | inr (w, f) ↦
        subst (Proceeds s) (some_eq (rw (f, take_session) at e))
          (ground (arith, ap (count k) q, ap (rank k) q))
  ]

  take_next-Proceeds :
      (position : Position) (queue : List ℕ) (s t : MessagePassingServer)
      → s.work_queue ≡ queue
      → take_next position queue s ≡ some t
      → Proceeds s t
  unfolding take_next
  take_next-Proceeds working (pid ∷ pids) s t q e = take_session-Proceeds pid pids s t q e
  take_next-Proceeds working [] s t q e =
      subst (Proceeds s) (some_eq e) (Quiet-Proceeds s s (Quiet-refl k s))
  take_next-Proceeds waiting queue s t q e =
      subst (Proceeds s) (some_eq e) (Quiet-Proceeds s s (Quiet-refl k s))
  take_next-Proceeds (ticking _ _) queue s t q e =
      subst (Proceeds s) (some_eq e) (Quiet-Proceeds s s (Quiet-refl k s))
  take_next-Proceeds (expediting _) queue s t q e =
      subst (Proceeds s) (some_eq e) (Quiet-Proceeds s s (Quiet-refl k s))

  Quiet-result : (s u t : MessagePassingServer) → Quiet k s u → some u ≡ some t → Proceeds s t
  Quiet-result s u t h e = subst (Proceeds s) (some_eq e) (Quiet-Proceeds s u h)

  handle-Proceeds :
      (max_misses : ℕ) (event : Event) (s t : MessagePassingServer)
      → handle max_misses event s ≡ some t
      → Proceeds s t
  unfolding handle connect_callback request_exit
  handle-Proceeds max_misses (connected pid) s t e = Quiet-result s _ t (Quiet-refl k s) e
  handle-Proceeds max_misses (disconnected pid) s t e =
      Quiet-result s _ t (disconnect_callback-Quiet k pid s) e
  handle-Proceeds max_misses (connect_requested too_small) s t e =
      Quiet-result s _ t (begin_connect_request-Quiet k too_small s) e
  handle-Proceeds max_misses (session_made pid connection) s t e =
      Quiet-result s _ t (emplace_session-Quiet k pid connection s) e
  handle-Proceeds max_misses (acquire_response pid connection) s t e =
      Quiet-result s _ t (on_acquire_response-Quiet k connection pid s) e
  handle-Proceeds max_misses (acquire_request pid result deadline) s t e =
      Quiet-result s _ t (notify_acquire_request-Quiet k pid result deadline s) e
  handle-Proceeds max_misses exit_requested s t e = Quiet-result s _ t (Quiet-refl k s) e
  handle-Proceeds max_misses (woke now closed order) s t e =
      Quiet-result s _ t (wake_waiting-Quiet k s.worker max_misses now closed order s) e
  handle-Proceeds max_misses took s t e = took_proceeds (either s.workers_exit e)
    where
      took_proceeds :
          (some s ≡ some t) ⊎ (take_next s.worker s.work_queue s ≡ some t) → Proceeds s t
      took_proceeds (inl f) = Quiet-result s s t (Quiet-refl k s) f
      took_proceeds (inr f) = take_next-Proceeds s.worker s.work_queue s t refl f
  handle-Proceeds max_misses left_queue s t e =
      Quiet-result s _ t (leave_queue-Quiet k s.worker s.work_queue s) e
  handle-Proceeds max_misses (tick_returned requeue) s t e =
      Quiet-Proceeds s t (return_tick-Quiet k s.worker requeue s t e)

  run_events-Proceeds :
      (max_misses : ℕ) (events : List Event) (s t : MessagePassingServer)
      → run_events max_misses events s ≡ some t
      → Proceeds s t
  unfolding run_events
  run_events-Proceeds max_misses [] s t e = Quiet-result s s t (Quiet-refl k s) e
  run_events-Proceeds max_misses (event ∷ events) s t e =
      elim (Option-cases (handle max_misses event s)) [
        | inl f ↦ absurd (none_ne_some (rw f at e))
        | inr (u, f) ↦
            Proceeds-trans s u t (handle-Proceeds max_misses event s u f)
              (run_events-Proceeds max_misses events u t (rw f at e))
      ]

  -- A session that is in the queue is ticked: once the worker has begun more ticks than there were
  -- sessions before it in the queue, it has begun one of this session, whatever the callbacks, the
  -- timer and the sessions did meanwhile.
  pub queued_is_ticked :
      (max_misses : ℕ) (events : List Event) (s : MessagePassingServer) {t : MessagePassingServer}
      → run_events max_misses events s ≡ some t
      → 0 < count k s.work_queue
      → rank k s.work_queue + begun s.calls < begun t.calls
      → begun_of k s.calls < begun_of k t.calls
  queued_is_ticked max_misses events s {t} e h lt =
      turn ((run_events-Proceeds max_misses events s t e).1 h)
    where
      turn : Owed s t → begun_of k s.calls < begun_of k t.calls
      turn (inl l) = l
      turn (inr (x, y, z)) = absurd (omega arith)
