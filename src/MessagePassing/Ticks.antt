-- ===== src/MessagePassing/Ticks.antt =====
-- The end of a tick, and any sequence of events from the construction of the server on.
use logging.Prelude.{
  ℕ, ◌≡◌, refl, ap, ◌∙◌, inl, inr, Bool, true, false, Option, none, some, List, [], ◌∷◌, arith,
  ◌==◌, if◌then◌else◌, Option-cases,
}
use logging.MessagePassing.Server.{MessagePassingServer, expediting}
use logging.MessagePassing.Worker.{after_tick, end_expedited_tick}
use logging.MessagePassing.Consistency.{
  count, is_at, is_last_at, is_told, is_drained, all_drained, IsConsistent,
}
use logging.MessagePassing.Events.{==-distinct}
use logging.MessagePassing.Server.{Position, new_message_passing_server, waiting, working, ticking}
use logging.MessagePassing.Worker.{
  end_tick, Event, take_next, return_tick, handle, run_events, connected, disconnected,
  connect_requested, session_made, acquire_response, acquire_request, exit_requested, woke, took,
  left_queue, tick_returned,
}
use logging.MessagePassing.Consistency.{Agree}
use logging.MessagePassing.Events.{
  connect_callback-IsConsistent, disconnect_callback-IsConsistent,
  begin_connect_request-IsConsistent, request_exit-IsConsistent, emplace_session-IsConsistent,
  on_acquire_response-IsConsistent, notify_acquire_request-IsConsistent, wake_waiting-IsConsistent,
  leave_queue-IsConsistent,
}
use logging.MessagePassing.Endings.{end_expedited_tick-IsConsistent, after_tick-IsConsistent}
use logging.MessagePassing.Taking.{==_refl, Succeeds, take_session-IsConsistent}

alone_at :
    (pid : ℕ) (s : MessagePassingServer) {position : Position}
    → s.worker ≡ position
    → ((k : ℕ) → is_at k position ≡ (pid == k))
    → (k : ℕ) → (pid ≡ k → ⊥)
    → is_at k s.worker ≡ false
alone_at pid s e at k n = ap (is_at k) e ∙ (at k ∙ ==-distinct n)

end_tick-IsConsistent :
    (pid : ℕ) (closed_by_peer requeue : Bool) (s : MessagePassingServer)
    → s.worker ≡ ticking pid closed_by_peer
    → IsConsistent s
    → Succeeds (end_tick pid closed_by_peer requeue s)
unfolding end_tick
end_tick-IsConsistent pid closed_by_peer requeue s e c =
    elim (Option-cases (s.pid_session_map pid)) [
      | inl f ↦ absurd (no_session (rw f at (c.agree pid)))
      | inr (w, f) ↦ (
        after_tick pid closed_by_peer requeue w s,
        rw (f, end_tick) refl,
        after_tick-IsConsistent pid s c at (alone_at pid s e (λ k. refl)) w closed_by_peer requeue f
            (ap (is_last_at pid) e ∙ ground (arith, ==_refl pid)),
      )
    ]
  where
    at : is_at pid s.worker ≡ true
    at = ap (is_at pid) e ∙ ==_refl pid

    no_session :
        Agree none
          (count pid s.work_queue)
          (is_at pid s.worker)
          (is_last_at pid s.worker)
          (is_told pid s.calls)
          (is_drained pid s.calls)
        → ⊥
    no_session h = cc (h.1, at)

return_tick-IsConsistent :
    (position : Position) (requeue : Bool) (s : MessagePassingServer)
    → s.worker ≡ position
    → IsConsistent s
    → Succeeds (return_tick position requeue s)
unfolding return_tick
return_tick-IsConsistent waiting requeue s e c = (s, refl, c)
return_tick-IsConsistent working requeue s e c = (s, refl, c)
return_tick-IsConsistent (ticking pid closed_by_peer) requeue s e c =
    end_tick-IsConsistent pid closed_by_peer requeue s e c
return_tick-IsConsistent (expediting pid) requeue s e c = (
  end_expedited_tick pid requeue s,
  refl,
  end_expedited_tick-IsConsistent pid s c (ap (is_at pid) e ∙ ==_refl pid)
      (alone_at pid s e (λ k. refl)) requeue (ap (is_last_at pid) e ∙ ==_refl pid) e,
)

take_next-IsConsistent :
    (position : Position) (queue : List ℕ) (s : MessagePassingServer)
    → s.worker ≡ position
    → s.work_queue ≡ queue
    → IsConsistent s
    → Succeeds (take_next position queue s)
unfolding take_next
take_next-IsConsistent working (pid ∷ pids) s e q c = take_session-IsConsistent pid pids s e q c
take_next-IsConsistent working [] s e q c = (s, refl, c)
take_next-IsConsistent waiting queue s e q c = (s, refl, c)
take_next-IsConsistent (ticking _ _) queue s e q c = (s, refl, c)
take_next-IsConsistent (expediting _) queue s e q c = (s, refl, c)

Succeeds-if :
    (b : Bool) {o p : Option MessagePassingServer}
    → Succeeds o
    → Succeeds p
    → Succeeds (if b then o else p)
Succeeds-if true h k = h
Succeeds-if false h k = k

module _ (max_misses : ℕ) where
  pub handle-IsConsistent :
      (event : Event) (s : MessagePassingServer)
      → IsConsistent s
      → Succeeds (handle max_misses event s)
  unfolding handle
  handle-IsConsistent (connected pid) s c = (_, refl, connect_callback-IsConsistent s c pid)
  handle-IsConsistent (disconnected pid) s c = (_, refl, disconnect_callback-IsConsistent s c pid)
  handle-IsConsistent (connect_requested too_small) s c =
      (_, refl, begin_connect_request-IsConsistent s c too_small)
  handle-IsConsistent (session_made pid connection) s c =
      (_, refl, emplace_session-IsConsistent s c pid connection)
  handle-IsConsistent (acquire_response pid connection) s c =
      (_, refl, on_acquire_response-IsConsistent s c connection pid)
  handle-IsConsistent (acquire_request pid result deadline) s c =
      (_, refl, notify_acquire_request-IsConsistent s c pid result deadline)
  handle-IsConsistent exit_requested s c = (_, refl, request_exit-IsConsistent s c)
  handle-IsConsistent (woke now closed order) s c =
      (_, refl, wake_waiting-IsConsistent max_misses now closed order s.worker s refl c)
  handle-IsConsistent took s c =
      Succeeds-if s.workers_exit (s, refl, c)
        (take_next-IsConsistent s.worker s.work_queue s refl refl c)
  handle-IsConsistent left_queue s c =
      (_, refl, leave_queue-IsConsistent s.worker s.work_queue s refl c)
  handle-IsConsistent (tick_returned requeue) s c =
      return_tick-IsConsistent s.worker requeue s refl c

  pub run_events-IsConsistent :
      (events : List Event) (s : MessagePassingServer)
      → IsConsistent s
      → Succeeds (run_events max_misses events s)
  unfolding run_events
  run_events-IsConsistent [] s c = (s, refl, c)
  run_events-IsConsistent (event ∷ events) s c =
      let (t, e, d) = handle-IsConsistent event s c in
      let (u, f, g) = run_events-IsConsistent events t d in (u, rw e f, g)

  new_message_passing_server-IsConsistent :
      (now : ℕ) → IsConsistent (new_message_passing_server now)
  unfolding new_message_passing_server is_told is_drained all_drained
  new_message_passing_server-IsConsistent now = record {
    agree = λ k. (refl, refl, λ e. cc);
    ends = refl;
  }

  -- Whatever the callbacks, the destructor and the worker do in whatever order, the worker finds every
  -- session that it takes from the queue and every session whose tick returns, and it destroys a
  -- session only after that was told that its peer is gone and its last tick, which came after that,
  -- returned without asking to be repeated. What remains when the worker has ended, the destructor
  -- destroys as it is.
  pub run_events-all_drained :
      (now : ℕ) (events : List Event)
      → (t : MessagePassingServer) × (run_events max_misses events (new_message_passing_server now)
          ≡ some t)
        × (all_drained t.calls ≡ true)
  run_events-all_drained now events =
      let (t, e, c) =
        run_events-IsConsistent events (new_message_passing_server now)
          (new_message_passing_server-IsConsistent now) in
      (t, e, c.ends)
