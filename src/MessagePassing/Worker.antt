-- ===== src/MessagePassing/Worker.antt =====
-- message_passing_server.cpp, RunWorkerThread: the worker thread, in the parts between which it gives
-- the mutex up, and any sequence of them with the callbacks of the library.
use logging.Prelude.{
  ℕ, ◌+◌, Bool, true, false, not, Option, none, some, List, [], ◌∷◌, leb, if◌then◌else◌,
}
use logging.Channel.State.{set_at, ◌>>=◌}
use logging.MessagePassing.Session.{
  SessionWrapper, set_running_while_locked, get_reset_closed_by_peer, reset_running_while_locked,
  check_session, NotifyResult,
}
use logging.MessagePassing.Server.{
  Position, MessagePassingServer, put_session, with_session, connect_callback, disconnect_callback,
  begin_connect_request, emplace_session, on_acquire_response, notify_acquire_request, request_exit,
  began, notified_closed, ticked, destroyed, waiting, working, ticking, expediting,
}

unfoldable pub check_sessions :
    ℕ → ℕ → (ℕ → Bool) → List ℕ → MessagePassingServer → MessagePassingServer
unfolding with_session
check_sessions max_misses now source_closed [] s = s
check_sessions max_misses now source_closed (pid ∷ pids) s =
    check_sessions max_misses now source_closed pids
      (with_session pid (check_session max_misses now (source_closed pid)) s)

unfoldable pub check_timeout : ℕ → MessagePassingServer → MessagePassingServer
check_timeout now s = elim s.connection_timeout [
  | none ↦ s
  | some timeout ↦
      if leb timeout now then record s { connection_timeout = none; stop_requested = true } else s
]

-- From the end of `wait_until` to the loop over the queue. `order` is the order in which the map gives
-- its process identifiers.
unfoldable pub wake_up : ℕ → ℕ → (ℕ → Bool) → List ℕ → MessagePassingServer → MessagePassingServer
unfolding check_timeout
wake_up max_misses now source_closed order s =
    let checked = record (check_timeout now s) { worker = working } in
    let late =
      check_sessions max_misses now source_closed order (record checked { t1 = now + 100 }) in
    if s.workers_exit then s else if leb s.t1 now then late else checked

-- A session that was taken from the queue.
unfoldable pub begin_tick :
    ℕ → List ℕ → SessionWrapper → MessagePassingServer → MessagePassingServer
unfolding set_running_while_locked get_reset_closed_by_peer
begin_tick pid pids w s =
    let (w', closed_by_peer) = get_reset_closed_by_peer (set_running_while_locked w) in
    let calls = began pid ∷ s.calls in
    record s {
      pid_session_map = set_at pid (some w') s.pid_session_map;
      work_queue = pids;
      worker = ticking pid closed_by_peer;
      calls = if closed_by_peer then notified_closed pid ∷ calls else calls;
    }

-- `none` is the exception of `pid_session_map_.at(pid)`.
unfoldable pub take_session : ℕ → List ℕ → MessagePassingServer → Option MessagePassingServer
unfolding begin_tick
take_session pid pids s = elim (s.pid_session_map pid) [
  | none ↦ none
  | some w ↦ some (begin_tick pid pids w s)
]

unfoldable pub extract_session : ℕ → MessagePassingServer → MessagePassingServer
extract_session pid s = record s {
  pid_session_map = set_at pid none s.pid_session_map;
  worker = working;
  calls = destroyed pid ∷ s.calls;
}

-- The end of a tick for a session that is not forced to finish.
unfoldable pub reset_session :
    ℕ → Bool → SessionWrapper → MessagePassingServer → MessagePassingServer
unfolding reset_running_while_locked put_session extract_session
reset_session pid requeue w s =
    let (w', again) = reset_running_while_locked requeue w in
    if again
    then record (put_session pid (w', true) s) { worker = working }
    else if w.to_delete
    then extract_session pid s
    else record (put_session pid (w', false) s) { worker = working }

-- The same for a session that is forced to finish.
unfoldable pub finish_session : ℕ → Bool → Bool → MessagePassingServer → MessagePassingServer
unfolding extract_session
finish_session pid closed_by_peer requeue s =
    if not closed_by_peer
    then record s { worker = expediting pid; calls = notified_closed pid ∷ s.calls }
    else if requeue
    then record s { worker = expediting pid }
    else extract_session pid s

-- `Tick` has returned `requeue`, and the mutex is taken again.
unfoldable pub after_tick :
    ℕ → Bool → Bool → SessionWrapper → MessagePassingServer → MessagePassingServer
unfolding finish_session reset_session
after_tick pid closed_by_peer requeue w s =
    let t = record s { calls = ticked pid requeue ∷ s.calls } in
    if w.to_force_finish
    then finish_session pid closed_by_peer requeue t
    else reset_session pid requeue w t

-- `none` is a wrapper that is gone.
unfoldable pub end_tick : ℕ → Bool → Bool → MessagePassingServer → Option MessagePassingServer
unfolding after_tick
end_tick pid closed_by_peer requeue s = elim (s.pid_session_map pid) [
  | none ↦ none
  | some w ↦ some (after_tick pid closed_by_peer requeue w s)
]

-- A round of the loop that ticks a session until it returns false.
unfoldable pub end_expedited_tick : ℕ → Bool → MessagePassingServer → MessagePassingServer
unfolding extract_session
end_expedited_tick pid requeue s =
    let t = record s { calls = ticked pid requeue ∷ s.calls } in
    if requeue then t else extract_session pid t

-- What happens to the server: the callbacks, the destructor, and the worker, whose events are `woke`,
-- with the time, and what `IsSourceClosed` answers, `took`, `left_queue` and `tick_returned`.
pub data Event : Type 0 where
  connected : ℕ → Event
  disconnected : ℕ → Event
  connect_requested : Bool → Event
  session_made : ℕ → ℕ → Event
  acquire_response : ℕ → ℕ → Event
  acquire_request : ℕ → NotifyResult → ℕ → Event
  exit_requested : Event
  woke : ℕ → (ℕ → Bool) → List ℕ → Event
  took : Event
  left_queue : Event
  tick_returned : Bool → Event

unfoldable pub take_next : Position → List ℕ → MessagePassingServer → Option MessagePassingServer
take_next working (pid ∷ pids) s = take_session pid pids s
take_next working [] s = some s
take_next waiting pids s = some s
take_next (ticking _ _) pids s = some s
take_next (expediting _) pids s = some s

unfoldable pub return_tick : Position → Bool → MessagePassingServer → Option MessagePassingServer
return_tick (ticking pid closed_by_peer) requeue s = end_tick pid closed_by_peer requeue s
return_tick (expediting pid) requeue s = some (end_expedited_tick pid requeue s)
return_tick waiting requeue s = some s
return_tick working requeue s = some s

unfoldable pub leave_queue : Position → List ℕ → MessagePassingServer → MessagePassingServer
leave_queue working [] s = record s { worker = waiting }
leave_queue working (pid ∷ pids) s = s
leave_queue waiting pids s = s
leave_queue (ticking _ _) pids s = s
leave_queue (expediting _) pids s = s

unfoldable pub wake_waiting :
    Position → ℕ → ℕ → (ℕ → Bool) → List ℕ → MessagePassingServer → MessagePassingServer
wake_waiting waiting max_misses now closed order s = wake_up max_misses now closed order s
wake_waiting working max_misses now closed order s = s
wake_waiting (ticking _ _) max_misses now closed order s = s
wake_waiting (expediting _) max_misses now closed order s = s

module _ (max_misses : ℕ) where
  -- An event of the worker that is not possible where it stands leaves the server as it is.
  unfoldable pub handle : Event → MessagePassingServer → Option MessagePassingServer
  handle (connected pid) s = some (connect_callback pid s)
  handle (disconnected pid) s = some (disconnect_callback pid s)
  handle (connect_requested too_small) s = some (begin_connect_request too_small s).0
  handle (session_made pid connection) s = some (emplace_session pid connection s)
  handle (acquire_response pid connection) s = some (on_acquire_response connection pid s)
  handle (acquire_request pid result deadline) s =
      some (notify_acquire_request pid result deadline s).0
  handle exit_requested s = some (request_exit s)
  handle (woke now closed order) s = some (wake_waiting s.worker max_misses now closed order s)
  handle took s = if s.workers_exit then some s else take_next s.worker s.work_queue s
  handle left_queue s = some (leave_queue s.worker s.work_queue s)
  handle (tick_returned requeue) s = return_tick s.worker requeue s

  unfoldable pub run_events : List Event → MessagePassingServer → Option MessagePassingServer
  run_events [] s = some s
  run_events (e ∷ es) s = handle e s >>= run_events es
