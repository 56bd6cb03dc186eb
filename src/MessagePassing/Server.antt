-- ===== src/MessagePassing/Server.antt =====
-- message_passing_server.cpp: the state of MessagePassingServer, and what the callbacks of the message
-- passing library do to it with the mutex held. `pid_session_map_` is a function from process
-- identifiers, and `disconnected_pids_` a test of them.
use logging.Prelude.{
  ℕ, ◌+◌, Bool, true, false, ◌||◌, Option, none, some, List, [], ◌∷◌, ◌++◌, ◌==◌, if◌then◌else◌,
}
use logging.Channel.State.{set_at}
use logging.MessagePassing.Session.{
  SessionWrapper, new_wrapper, Enqueued, enqueue_for_delete_while_locked, enqueue_tick_while_locked,
  acquire_answered, NotifyResult, notified,
}

-- A call of a session, or the begin and end of its life, the latest first in a list of them. A tick is
-- entered when it returns, with whether it asks to be repeated.
pub data SessionCall : Type 0 where
  created : ℕ → SessionCall
  began : ℕ → SessionCall
  notified_closed : ℕ → SessionCall
  ticked : ℕ → Bool → SessionCall
  answered : ℕ → SessionCall
  destroyed : ℕ → SessionCall

-- Where the worker thread is: it waits on its condition, it goes through the queue, it ticks a session
-- (having reset whether the peer closed it), or it ticks one until it is done.
pub data Position : Type 0 where
  waiting : Position
  working : Position
  ticking : ℕ → Bool → Position
  expediting : ℕ → Position

pub record MessagePassingServer : Type 0 where
  pub pid_session_map : ℕ → Option SessionWrapper
  pub disconnected_pids : ℕ → Bool
  pub work_queue : List ℕ
  pub workers_exit : Bool
  pub stop_requested : Bool
  pub connection_timeout : Option ℕ
  pub t1 : ℕ
  pub worker : Position
  pub calls : List SessionCall

unfoldable pub new_message_passing_server : ℕ → MessagePassingServer
new_message_passing_server now = record {
  pid_session_map = λ pid. none;
  disconnected_pids = λ pid. false;
  work_queue = [];
  workers_exit = false;
  stop_requested = false;
  connection_timeout = none;
  t1 = now + 100;
  worker = waiting;
  calls = [];
}

-- The wrapper of a session is changed, and `EnqueueTickWhileLocked` of the server is called or not.
unfoldable pub put_session : ℕ → Enqueued → MessagePassingServer → MessagePassingServer
put_session pid (w, enqueue) s = record s {
  pid_session_map = set_at pid (some w) s.pid_session_map;
  work_queue = if enqueue then s.work_queue ++ pid ∷ [] else s.work_queue;
}

-- An operation on the session of a process, if it has one.
unfoldable pub with_session :
    ℕ → (SessionWrapper → Enqueued) → MessagePassingServer → MessagePassingServer
unfolding put_session
with_session pid f s = elim (s.pid_session_map pid) [ none ↦ s | some w ↦ put_session pid (f w) s ]

unfoldable pub log_call : SessionCall → MessagePassingServer → MessagePassingServer
log_call call s = record s { calls = call ∷ s.calls }

unfoldable pub connect_callback : ℕ → MessagePassingServer → MessagePassingServer
connect_callback client_pid s = record s {
  disconnected_pids = set_at client_pid false s.disconnected_pids;
}

unfoldable pub disconnect_wrapper : SessionWrapper → Enqueued
unfolding enqueue_for_delete_while_locked
disconnect_wrapper w =
    enqueue_for_delete_while_locked true (record w { connection = none; to_force_finish = true })

unfoldable pub disconnect_callback : ℕ → MessagePassingServer → MessagePassingServer
unfolding with_session
disconnect_callback client_pid s =
    with_session client_pid disconnect_wrapper
      (record s { disconnected_pids = set_at client_pid true s.disconnected_pids })

-- `OnConnectRequest` until the factory is called, and whether it is called. `too_small` is whether the
-- message is smaller than a `ConnectMessageFromClient`.
unfoldable pub begin_connect_request : Bool → MessagePassingServer → MessagePassingServer × Bool
begin_connect_request too_small s =
    if too_small || s.stop_requested
    then (record s { stop_requested = false }, false)
    else (s, true)

-- `OnConnectRequest` after the factory made a session, with the mutex taken again.
unfoldable pub emplace_session : ℕ → ℕ → MessagePassingServer → MessagePassingServer
unfolding put_session log_call enqueue_tick_while_locked new_wrapper
emplace_session pid connection s =
    if s.disconnected_pids pid then s else elim (s.pid_session_map pid) [
      | some w ↦ s
      | none ↦ log_call (created pid) (
          put_session pid
            (enqueue_tick_while_locked (record new_wrapper { connection = some connection })) s)
    ]

-- Nothing happens when the session has another connection.
unfoldable pub on_acquire_response : ℕ → ℕ → MessagePassingServer → MessagePassingServer
unfolding put_session log_call
on_acquire_response connection pid s = elim (s.pid_session_map pid) [
  | none ↦ s
  | some w ↦ elim w.connection [
    | none ↦ s
    | some c ↦
        if c == connection
        then log_call (answered pid) (put_session pid (acquire_answered w) s)
        else s
  ]
]

-- `deadline` is the time of the call with the deadline of the configuration added. The result is that
-- of `AcquireRequest` of a `SessionHandle`.
unfoldable pub notify_acquire_request :
    ℕ → NotifyResult → ℕ → MessagePassingServer → MessagePassingServer × Bool
unfolding put_session
notify_acquire_request pid result deadline s =
    if s.workers_exit then (s, false) else elim (s.pid_session_map pid) [
      | none ↦ (s, false)
      | some w ↦ elim w.connection [
        | none ↦ (s, false)
        | some c ↦
            if w.acquire_in_flight
            then (s, true)
            else (put_session pid (notified result deadline w) s, true)
      ]
    ]

-- The destructor of the server, until it waits for the worker. It then destroys the sessions that
-- remain in the map, told or not; nothing happens after that, so `clear_sessions` is no event.
unfoldable pub request_exit : MessagePassingServer → MessagePassingServer
request_exit s = record s { stop_requested = true; workers_exit = true }

-- The end of the destructor, `pid_session_map_.clear()`.
unfoldable clear_sessions : MessagePassingServer → MessagePassingServer
clear_sessions s = record s { pid_session_map = λ pid. none }
