-- ===== src/MessagePassing/Session.antt =====
-- message_passing_server.h and .cpp, SessionWrapper: what the server notes of the session of one
-- process. `enqueue_tick(pid)` is a call of the server, so a function that may make it returns
-- whether it does.
use logging.Prelude.{
  ℕ, Bool, true, false, not, ◌&&◌, ◌||◌, Option, none, some, leb, if◌then◌else◌, add32,
}

-- A point in time and a pointer to a connection are numbers.
pub record SessionWrapper : Type 0 where
  pub connection : Option ℕ
  pub acquire_in_flight : Bool
  pub acquire_deadline : Option ℕ
  pub acquire_miss_count : ℕ
  pub enqueued : Bool
  pub running : Bool
  pub to_delete : Bool
  pub closed_by_peer : Bool
  pub to_force_finish : Bool

unfoldable pub new_wrapper : SessionWrapper
new_wrapper = record {
  connection = none;
  acquire_in_flight = false;
  acquire_deadline = none;
  acquire_miss_count = 0;
  enqueued = false;
  running = false;
  to_delete = false;
  closed_by_peer = false;
  to_force_finish = false;
}

-- The wrapper after the call, and whether `enqueue_tick` was called.
abbrev pub Enqueued : Type 0
Enqueued = SessionWrapper × Bool

unfoldable pub enqueue_for_delete_while_locked : Bool → SessionWrapper → Enqueued
enqueue_for_delete_while_locked by_peer w =
    if not w.running && not w.enqueued
    then (record w { to_delete = true; closed_by_peer = by_peer; enqueued = true }, true)
    else (record w { to_delete = true; closed_by_peer = by_peer }, false)

unfoldable pub set_running_while_locked : SessionWrapper → SessionWrapper
set_running_while_locked w = record w { enqueued = false; running = true }

unfoldable pub get_reset_closed_by_peer : SessionWrapper → SessionWrapper × Bool
get_reset_closed_by_peer w = (record w { closed_by_peer = false }, w.closed_by_peer)

-- Returns `enqueued`.
unfoldable pub reset_running_while_locked : Bool → SessionWrapper → SessionWrapper × Bool
reset_running_while_locked requeue w =
    if requeue || w.closed_by_peer
    then (record w { running = false; enqueued = true }, true)
    else (record w { running = false }, w.enqueued)

unfoldable pub enqueue_tick_while_locked : SessionWrapper → Enqueued
enqueue_tick_while_locked w =
    if not w.enqueued && not w.to_delete
    then (record w { enqueued = true }, not w.running)
    else (w, false)

abbrev has_passed : ℕ → Option ℕ → Bool
has_passed now none = false
has_passed now (some deadline) = leb deadline now

-- The body of the periodic loop of the worker for one session. `source_closed` is what
-- `IsSourceClosed` answers.
unfoldable pub check_session : ℕ → ℕ → Bool → SessionWrapper → Enqueued
unfolding enqueue_for_delete_while_locked enqueue_tick_while_locked
check_session max_misses now source_closed w =
    let missed = record w {
      acquire_in_flight = false;
      acquire_miss_count = add32 w.acquire_miss_count 1;
      acquire_deadline = none;
    } in
    if source_closed
    then enqueue_for_delete_while_locked true w
    else if w.acquire_in_flight && has_passed now w.acquire_deadline
    then if leb max_misses missed.acquire_miss_count
      then enqueue_for_delete_while_locked true missed
      else enqueue_tick_while_locked missed
    else enqueue_tick_while_locked w

-- The part of `OnAcquireResponse` that concerns the wrapper.
unfoldable pub acquire_answered : SessionWrapper → Enqueued
unfolding enqueue_tick_while_locked
acquire_answered w =
    enqueue_tick_while_locked
      (record w { acquire_in_flight = false; acquire_deadline = none; acquire_miss_count = 0 })

-- What `Notify` of a connection answers.
pub data NotifyResult : Type 0 where
  sent : NotifyResult
  buffers_exhausted : NotifyResult
  failed : NotifyResult

-- The part of `NotifyAcquireRequest` behind the call of `Notify`.
unfoldable pub notified : NotifyResult → ℕ → SessionWrapper → Enqueued
unfolding enqueue_for_delete_while_locked
notified sent deadline w =
    (record w { acquire_in_flight = true; acquire_deadline = some deadline }, false)
notified buffers_exhausted deadline w = (w, false)
notified failed deadline w = enqueue_for_delete_while_locked true w
