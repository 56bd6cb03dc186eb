-- ===== src/MessageClient/Client.antt =====
-- data_router_message_client_impl.cpp: DatarouterMessageClientImpl, whose connect thread, callbacks and
-- Shutdown are events in any order. What the message passing library and `unlink` answer is an argument.
-- No mutex guards `unlinked_shared_memory_file_`, so the test of it, its setting and the call of `unlink`
-- are three steps, of the connect thread or of a callback. The library calls one callback at a time.
use logging.Prelude.{
  ℕ, Bool, true, false, not, ◌&&◌, ◌||◌, Option, none, some, List, [], ◌∷◌, ◌==◌, if◌then◌else◌,
  length, get_or,
}
use logging.MessageClient.FileNames.{ConnectMessageFromClient}
use logging.SharedMemory.Writer.{SharedData, read_acquire}

-- The states of a connection that the client tells apart.
pub data SenderState : Type 0 where
  ready : SenderState
  stopped : SenderState
  in_between : SenderState

pub data ClientMessage : Type 0 where
  connect : ConnectMessageFromClient → ClientMessage
  acquire_response : ℕ → ClientMessage

pub data ReportedError : Type 0 where
  failed_to_create_message_passing_client : ReportedError
  shutdown_during_initialization : ReportedError
  failed_to_send_message_to_datarouter : ReportedError
  unlink_shared_memory_error : ReportedError

-- A call of `Send`, of `unlink` and of `ReportInitializationError`.
pub data ClientCall : Type 0 where
  sent : ClientMessage → ClientCall
  unlinked : ClientCall
  reported : ReportedError → ClientCall

-- Where a thread is in `UnlinkSharedMemoryFile`.
pub data UnlinkStage : Type 0 where
  testing : UnlinkStage
  setting : UnlinkStage
  removing : UnlinkStage

-- What a callback does behind `UnlinkSharedMemoryFile`.
pub data Continuation : Type 0 where
  then_stop : Continuation
  then_answer : Continuation

pub data CallbackTask : Type 0 where
  no_callback : CallbackTask
  unlinking : UnlinkStage → Continuation → CallbackTask

-- Where the connect thread is.
pub data ConnectTask : Type 0 where
  not_started : ConnectTask
  connecting : ConnectTask
  waiting_for_sender : ConnectTask
  woken : ConnectTask
  checked : ConnectTask
  connect_unlinking : UnlinkStage → ConnectTask
  finished : ConnectTask

-- The calls are in `calls`, the last one first.
pub record MessageClient : Type 0 where
  pub first_message_received : Bool
  pub unlinked_shared_memory_file : Bool
  pub stop_requested : Bool
  pub has_sender : Bool
  pub sender_state : Option SenderState
  pub connect_task : ConnectTask
  pub callback_task : CallbackTask
  pub shut_down : Bool
  pub shared_data : SharedData
  pub calls : List ClientCall

-- What is answered to `CreateClient`, `Send` and `unlink`.
pub record Answers : Type 0 where
  pub can_create : Bool
  pub can_send : Bool
  pub can_unlink : Bool

unfoldable pub new_message_client : SharedData → MessageClient
new_message_client shared_data = record {
  first_message_received = false;
  unlinked_shared_memory_file = false;
  stop_requested = false;
  has_sender = false;
  sender_state = none;
  connect_task = not_started;
  callback_task = no_callback;
  shut_down = false;
  shared_data = shared_data;
  calls = [];
}

abbrev report : ReportedError → MessageClient → MessageClient
report error c = record c { calls = reported error ∷ c.calls }

abbrev is_ready : Option SenderState → Bool
is_ready (some ready) = true
is_ready (some stopped) = false
is_ready (some in_between) = false
is_ready none = false

-- The client after a step of `UnlinkSharedMemoryFile`, and the next one, unless it returns.
unfoldable pub unlink_shared_memory_file :
    UnlinkStage → Answers → MessageClient → MessageClient × Option UnlinkStage
unlink_shared_memory_file testing answers c =
    (c, if c.unlinked_shared_memory_file then none else some setting)
unlink_shared_memory_file setting answers c =
    (record c { unlinked_shared_memory_file = true }, some removing)
unlink_shared_memory_file removing answers c =
    let calls = unlinked ∷ c.calls in
    (
      record c {
        calls = if answers.can_unlink then calls else reported unlink_shared_memory_error ∷ calls;
      },
      none,
    )

-- `RequestInternalShutdown` in the connect thread, which ends it, and in a callback.
abbrev pub shut_down_in_connect : MessageClient → MessageClient
shut_down_in_connect c = record c { connect_task = connect_unlinking testing }

abbrev pub shut_down_in_callback : MessageClient → MessageClient
shut_down_in_callback c = record c { callback_task = unlinking testing then_stop }

-- Nothing is sent without a sender, and that is no error. The result is whether
-- `RequestInternalShutdown` is called, which the caller goes on with.
unfoldable pub send_message : Answers → ClientMessage → MessageClient → MessageClient × Bool
send_message answers message c =
    let t = record c { calls = sent message ∷ c.calls } in
    if c.has_sender
    then if answers.can_send
      then (t, false)
      else (report failed_to_send_message_to_datarouter t, true)
    else (c, false)

-- `ConnectToDatarouter` with `CreateSender`, until it waits.
unfoldable pub connect_to_datarouter : Answers → MessageClient → MessageClient
connect_to_datarouter answers c =
    if answers.can_create
    then record c { has_sender = true; connect_task = waiting_for_sender }
    else shut_down_in_connect (report failed_to_create_message_passing_client c)

-- The condition of the wait.
unfoldable pub end_wait : MessageClient → MessageClient
end_wait c =
    if is_ready c.sender_state || c.stop_requested then record c { connect_task = woken } else c

-- The two tests behind the wait.
unfoldable pub check_sender : MessageClient → MessageClient
check_sender c =
    if c.stop_requested || not (is_ready c.sender_state)
    then shut_down_in_connect c
    else record c { connect_task = checked }

unfoldable pub check_exit_request_and_send_connect_message :
    Answers → ConnectMessageFromClient → MessageClient → MessageClient
unfolding send_message
check_exit_request_and_send_connect_message answers message c =
    let t = record c { connect_task = finished } in
    let (u, failed) = send_message answers (connect message) t in
    if c.stop_requested
    then report shutdown_during_initialization t
    else if failed
    then shut_down_in_connect u
    else u

-- A step of `RequestInternalShutdown` in the connect thread.
unfoldable pub connect_unlink_step : UnlinkStage → Answers → MessageClient → MessageClient
unfolding unlink_shared_memory_file
connect_unlink_step stage answers c =
    let (t, next) = unlink_shared_memory_file stage answers c in
    elim next [
      | none ↦ record t { stop_requested = true; connect_task = finished }
      | some stage' ↦ record t { connect_task = connect_unlinking stage' }
    ]

-- A step of the connect thread.
unfoldable pub connect_step :
    ConnectTask → Answers → ConnectMessageFromClient → MessageClient → MessageClient
connect_step not_started answers message c = c
connect_step connecting answers message c = connect_to_datarouter answers c
connect_step waiting_for_sender answers message c = end_wait c
connect_step woken answers message c = check_sender c
connect_step checked answers message c =
    check_exit_request_and_send_connect_message answers message c
connect_step (connect_unlinking stage) answers message c = connect_unlink_step stage answers c
connect_step finished answers message c = c

-- `Run`, which must be called only once.
unfoldable pub run : ConnectTask → MessageClient → MessageClient
run not_started c = record c { connect_task = connecting }
run connecting c = c
run waiting_for_sender c = c
run woken c = c
run checked c = c
run (connect_unlinking stage) c = c
run finished c = c

unfoldable pub state_callback : SenderState → MessageClient → MessageClient
state_callback stopped c = shut_down_in_callback (record c { sender_state = some stopped })
state_callback ready c = record c { sender_state = some ready }
state_callback in_between c = record c { sender_state = some in_between }

-- `OnAcquireRequest` behind `HandleFirstMessageReceived`.
unfoldable pub answer_acquire_request : Answers → MessageClient → MessageClient
unfolding send_message
answer_acquire_request answers c =
    let (shared_data, acquired_buffer) = read_acquire c.shared_data in
    let t = record c { shared_data = shared_data; callback_task = no_callback } in
    let (u, failed) = send_message answers (acquire_response acquired_buffer) t in
    if failed then shut_down_in_callback u else u

-- The first message: the file is unlinked before the request is answered.
unfoldable pub handle_first_message_received : MessageClient → MessageClient
handle_first_message_received c = record c {
  first_message_received = true;
  callback_task = unlinking testing then_answer;
}

unfoldable pub on_acquire_request : Answers → MessageClient → MessageClient
unfolding handle_first_message_received answer_acquire_request
on_acquire_request answers c =
    if c.first_message_received
    then answer_acquire_request answers c
    else handle_first_message_received c

-- An acquire request is the byte 1.
unfoldable pub on_notify : List ℕ → Answers → MessageClient → MessageClient
unfolding on_acquire_request
on_notify message answers c =
    if length message == 1 && get_or message 0 0 == 1 then on_acquire_request answers c else c

unfoldable pub continue_callback : Continuation → Answers → MessageClient → MessageClient
unfolding answer_acquire_request
continue_callback then_stop answers c = record c {
  stop_requested = true;
  callback_task = no_callback;
}
continue_callback then_answer answers c = answer_acquire_request answers c

-- A step of a callback that is in `UnlinkSharedMemoryFile`.
unfoldable pub callback_step : CallbackTask → Answers → MessageClient → MessageClient
unfolding unlink_shared_memory_file continue_callback
callback_step no_callback answers c = c
callback_step (unlinking stage continuation) answers c =
    let (t, next) = unlink_shared_memory_file stage answers c in
    elim next [
      | none ↦ continue_callback continuation answers t
      | some stage' ↦ record t { callback_task = unlinking stage' continuation }
    ]

-- A callback begins when none is running.
abbrev pub when_idle : CallbackTask → MessageClient → MessageClient → MessageClient
when_idle no_callback called c = called
when_idle (unlinking stage continuation) called c = c

abbrev pub has_ended : ConnectTask → Bool
has_ended not_started = true
has_ended connecting = false
has_ended waiting_for_sender = false
has_ended woken = false
has_ended checked = false
has_ended (connect_unlinking stage) = false
has_ended finished = true

-- `Shutdown` until it waits for the connect thread.
unfoldable pub request_stop : MessageClient → MessageClient
request_stop c = record c { stop_requested = true }

-- The end of `Shutdown`: the sender is destroyed, and no other thread is left.
unfoldable pub end_shutdown : Answers → MessageClient → MessageClient
end_shutdown answers c =
    let calls = unlinked ∷ c.calls in
    let t = record c { has_sender = false; shut_down = true } in
    if c.unlinked_shared_memory_file then t else record t {
      unlinked_shared_memory_file = true;
      calls = if answers.can_unlink then calls else reported unlink_shared_memory_error ∷ calls;
    }

-- `Shutdown` comes to its end when the connect thread has ended; the destruction of the sender waits
-- for a callback.
unfoldable pub finish_shutdown : Answers → MessageClient → MessageClient
finish_shutdown answers c =
    if has_ended c.connect_task then when_idle c.callback_task (end_shutdown answers c) c else c

pub data ClientEvent : Type 0 where
  run_called : ClientEvent
  connect_stepped : Answers → ConnectMessageFromClient → ClientEvent
  state_changed : SenderState → ClientEvent
  message_received : List ℕ → Answers → ClientEvent
  callback_stepped : Answers → ClientEvent
  stop_called : ClientEvent
  shutdown_resumed : Answers → ClientEvent

unfoldable pub client_event : ClientEvent → MessageClient → MessageClient
client_event run_called c = run c.connect_task c
client_event (connect_stepped answers message) c = connect_step c.connect_task answers message c
client_event (state_changed state) c = when_idle c.callback_task (state_callback state c) c
client_event (message_received message answers) c =
    when_idle c.callback_task (on_notify message answers c) c
client_event (callback_stepped answers) c = callback_step c.callback_task answers c
client_event stop_called c = request_stop c
client_event (shutdown_resumed answers) c = finish_shutdown answers c

unfoldable pub client_events : List ClientEvent → MessageClient → MessageClient
client_events [] c = c
client_events (e ∷ es) c = client_events es (client_event e c)
