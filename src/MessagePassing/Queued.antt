-- ===== src/MessagePassing/Queued.antt =====
-- What the events of the server do to the place of a session in the queue: all but taking a session leave
-- it where it is.
use logging.Prelude.{
  ℕ, ◌+◌, ◌≤◌, ◌<◌, ◌≡◌, refl, subst, ◌⊎◌, inl, inr, Bool, true, false, Option, none, some, List,
  [], ◌∷◌, ◌++◌, arith, leb, ◌==◌, if◌then◌else◌, Option-cases,
}
use logging.Channel.State.{set_at}
use logging.MessagePassing.Session.{
  SessionWrapper, new_wrapper, Enqueued, enqueue_tick_while_locked, check_session, NotifyResult,
}
use logging.MessagePassing.Server.{
  SessionCall, MessagePassingServer, put_session, with_session, log_call, disconnect_wrapper,
  disconnect_callback, begin_connect_request, emplace_session, on_acquire_response,
  notify_acquire_request, created, began, notified_closed, ticked, answered, destroyed,
}
use logging.MessagePassing.Worker.{check_sessions}
use logging.MessagePassing.Consistency.{count, count-append}
use logging.MessagePassing.Server.{Position, waiting, working, ticking, expediting}
use logging.MessagePassing.Worker.{
  check_timeout, wake_up, extract_session, reset_session, finish_session, after_tick, end_tick,
  end_expedited_tick, return_tick, leave_queue, wake_waiting,
}

-- The number of entries before the first of the session.
abbrev pub rank : ℕ → List ℕ → ℕ
rank k [] = 0
rank k (x ∷ xs) = if x == k then 0 else 1 + rank k xs

-- How many ticks have begun, of all sessions and of one.
unfoldable pub begun : List SessionCall → ℕ
begun [] = 0
begun (began pid ∷ calls) = 1 + begun calls
begun (created pid ∷ calls) = begun calls
begun (notified_closed pid ∷ calls) = begun calls
begun (ticked pid again ∷ calls) = begun calls
begun (answered pid ∷ calls) = begun calls
begun (destroyed pid ∷ calls) = begun calls

unfoldable pub begun_of : ℕ → List SessionCall → ℕ
begun_of k [] = 0
begun_of k (began pid ∷ calls) = (if pid == k then 1 else 0) + begun_of k calls
begun_of k (created pid ∷ calls) = begun_of k calls
begun_of k (notified_closed pid ∷ calls) = begun_of k calls
begun_of k (ticked pid again ∷ calls) = begun_of k calls
begun_of k (answered pid ∷ calls) = begun_of k calls
begun_of k (destroyed pid ∷ calls) = begun_of k calls

-- No tick begins, and the queue only grows at its end.
abbrev pub Quiet : ℕ → MessagePassingServer → MessagePassingServer → Type 0
Quiet k s t =
    (count k s.work_queue ≤ count k t.work_queue)
    × (0 < count k s.work_queue → rank k t.work_queue ≡ rank k s.work_queue)
    × (begun t.calls ≡ begun s.calls)
    × (begun_of k t.calls ≡ begun_of k s.calls)

rank-append : (k p : ℕ) (q : List ℕ) → 0 < count k q → rank k (q ++ p ∷ []) ≡ rank k q
rank-append k p [] h = absurd (omega arith)
rank-append k p (x ∷ q) h = ground (arith, rank-append k p q)

pub some_eq : {s t : MessagePassingServer} → some s ≡ some t → s ≡ t
some_eq e = cc

pub either :
    (b : Bool) {o p : Option MessagePassingServer} {t : MessagePassingServer}
    → (if b then o else p) ≡ some t
    → (o ≡ some t) ⊎ (p ≡ some t)
either true e = inl e
either false e = inr e

pub none_ne_some : {t : MessagePassingServer} → none ≡ some t → ⊥
none_ne_some e = cc

module _ (k : ℕ) where
  Quiet-trans : (s t u : MessagePassingServer) → Quiet k s t → Quiet k t u → Quiet k s u
  Quiet-trans s t u h g = ground arith

  Quiet-if :
      (b : Bool) (s t u : MessagePassingServer)
      → Quiet k s t
      → Quiet k s u
      → Quiet k s (if b then t else u)
  Quiet-if true s t u h g = h
  Quiet-if false s t u h g = g

  put_session-Quiet :
      (pid : ℕ) (e : Enqueued) (s : MessagePassingServer) → Quiet k s (put_session pid e s)
  unfolding put_session
  put_session-Quiet pid e s =
      ground (arith, count-append k pid s.work_queue, rank-append k pid s.work_queue)

  with_session-Quiet :
      (pid : ℕ) (f : SessionWrapper → Enqueued) (s : MessagePassingServer)
      → Quiet k s (with_session pid f s)
  unfolding with_session
  with_session-Quiet pid f s = elim (Option-cases (s.pid_session_map pid)) [
    | inl e ↦ rw (e, with_session) (omega arith, λ h. refl, refl, refl)
    | inr (w, e) ↦ rw (e, with_session) (put_session-Quiet pid (f w) s)
  ]

  pub disconnect_callback-Quiet :
      (pid : ℕ) (s : MessagePassingServer) → Quiet k s (disconnect_callback pid s)
  unfolding disconnect_callback
  disconnect_callback-Quiet pid s =
      with_session-Quiet pid disconnect_wrapper
        (record s { disconnected_pids = set_at pid true s.disconnected_pids })

  pub begin_connect_request-Quiet :
      (too_small : Bool) (s : MessagePassingServer)
      → Quiet k s (begin_connect_request too_small s).0
  unfolding begin_connect_request
  begin_connect_request-Quiet too_small s = ground arith

  pub emplace_session-Quiet :
      (pid connection : ℕ) (s : MessagePassingServer) → Quiet k s (emplace_session pid connection s)
  unfolding emplace_session put_session log_call enqueue_tick_while_locked new_wrapper begun
      begun_of
  emplace_session-Quiet pid connection s =
      ground (arith, count-append k pid s.work_queue, rank-append k pid s.work_queue)

  pub on_acquire_response-Quiet :
      (connection pid : ℕ) (s : MessagePassingServer)
      → Quiet k s (on_acquire_response connection pid s)
  unfolding on_acquire_response put_session log_call begun begun_of
  on_acquire_response-Quiet connection pid s =
      ground (arith, count-append k pid s.work_queue, rank-append k pid s.work_queue)

  pub notify_acquire_request-Quiet :
      (pid : ℕ) (result : NotifyResult) (deadline : ℕ) (s : MessagePassingServer)
      → Quiet k s (notify_acquire_request pid result deadline s).0
  unfolding notify_acquire_request put_session
  notify_acquire_request-Quiet pid result deadline s =
      ground (arith, count-append k pid s.work_queue, rank-append k pid s.work_queue)

  check_sessions-Quiet :
      (max_misses now : ℕ) (closed : ℕ → Bool) (pids : List ℕ) (s : MessagePassingServer)
      → Quiet k s (check_sessions max_misses now closed pids s)
  unfolding check_sessions
  check_sessions-Quiet max_misses now closed [] s = (omega arith, λ h. refl, refl, refl)
  check_sessions-Quiet max_misses now closed (pid ∷ pids) s =
      let t = with_session pid (check_session max_misses now (closed pid)) s in
      Quiet-trans s t (check_sessions max_misses now closed pids t)
        (with_session-Quiet pid (check_session max_misses now (closed pid)) s)
        (check_sessions-Quiet max_misses now closed pids t)

  pub Quiet-refl : (s : MessagePassingServer) → Quiet k s s
  Quiet-refl s = (omega arith, λ h. refl, refl, refl)

  check_timeout-Quiet : (now : ℕ) (s : MessagePassingServer) → Quiet k s (check_timeout now s)
  unfolding check_timeout
  check_timeout-Quiet now s = ground arith

  pub wake_waiting-Quiet :
      (position : Position) (max_misses now : ℕ) (closed : ℕ → Bool) (order : List ℕ)
      (s : MessagePassingServer)
      → Quiet k s (wake_waiting position max_misses now closed order s)
  unfolding wake_waiting wake_up
  wake_waiting-Quiet waiting max_misses now closed order s =
      let t = record (check_timeout now s) { worker = working; t1 = now + 100 } in
      Quiet-if s.workers_exit s s _ (Quiet-refl s) (
        Quiet-if (leb s.t1 now) s _ _
          (Quiet-trans s t (check_sessions max_misses now closed order t)
            (check_timeout-Quiet now s) (check_sessions-Quiet max_misses now closed order t))
          (check_timeout-Quiet now s))
  wake_waiting-Quiet working max_misses now closed order s = Quiet-refl s
  wake_waiting-Quiet (ticking _ _) max_misses now closed order s = Quiet-refl s
  wake_waiting-Quiet (expediting _) max_misses now closed order s = Quiet-refl s

  pub leave_queue-Quiet :
      (position : Position) (queue : List ℕ) (s : MessagePassingServer)
      → Quiet k s (leave_queue position queue s)
  unfolding leave_queue
  leave_queue-Quiet working [] s = Quiet-refl s
  leave_queue-Quiet working (pid ∷ pids) s = Quiet-refl s
  leave_queue-Quiet waiting queue s = Quiet-refl s
  leave_queue-Quiet (ticking _ _) queue s = Quiet-refl s
  leave_queue-Quiet (expediting _) queue s = Quiet-refl s

  after_tick-Quiet :
      (pid : ℕ) (closed_by_peer requeue : Bool) (w : SessionWrapper) (s : MessagePassingServer)
      → Quiet k s (after_tick pid closed_by_peer requeue w s)
  unfolding after_tick finish_session reset_session put_session extract_session begun begun_of
  after_tick-Quiet pid closed_by_peer requeue w s =
      ground (arith, count-append k pid s.work_queue, rank-append k pid s.work_queue)

  end_expedited_tick-Quiet :
      (pid : ℕ) (requeue : Bool) (s : MessagePassingServer)
      → Quiet k s (end_expedited_tick pid requeue s)
  unfolding end_expedited_tick extract_session begun begun_of
  end_expedited_tick-Quiet pid requeue s = ground arith

  end_tick-Quiet :
      (pid : ℕ) (closed_by_peer requeue : Bool) (s t : MessagePassingServer)
      → end_tick pid closed_by_peer requeue s ≡ some t
      → Quiet k s t
  unfolding end_tick
  end_tick-Quiet pid closed_by_peer requeue s t e = elim (Option-cases (s.pid_session_map pid)) [
    | inl f ↦ absurd (none_ne_some (rw (f, end_tick) at e))
    | inr (w, f) ↦
        subst (Quiet k s) (some_eq (rw (f, end_tick) at e))
          (after_tick-Quiet pid closed_by_peer requeue w s)
  ]

  pub return_tick-Quiet :
      (position : Position) (requeue : Bool) (s t : MessagePassingServer)
      → return_tick position requeue s ≡ some t
      → Quiet k s t
  unfolding return_tick
  return_tick-Quiet waiting requeue s t e = subst (Quiet k s) (some_eq e) (Quiet-refl s)
  return_tick-Quiet working requeue s t e = subst (Quiet k s) (some_eq e) (Quiet-refl s)
  return_tick-Quiet (expediting pid) requeue s t e =
      subst (Quiet k s) (some_eq e) (end_expedited_tick-Quiet pid requeue s)
  return_tick-Quiet (ticking pid closed_by_peer) requeue s t e =
      end_tick-Quiet pid closed_by_peer requeue s t e
