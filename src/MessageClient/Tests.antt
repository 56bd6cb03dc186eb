-- ===== src/MessageClient/Tests.antt =====
-- The theorems at a client that connects, answers a request and shuts down.
use logging.Prelude.{
  ◌+◌, ◌≤◌, ltb, ◌≡◌, refl, true, false, not, ◌||◌, List, [], ◌∷◌, length, take, replicate,
}
use logging.Queue.Concurrent.{fresh_block}
use logging.SharedMemory.Writer.{SharedData}
use logging.MessageClient.FileNames.{
  ConnectMessageFromClient, prepare_file_name, connect_message, resolve_shared_memory_file_name,
  resolve-prepared,
}
use logging.MessageClient.Client.{
  Answers, ready, run_called, connect_stepped, state_changed, message_received, callback_stepped,
  callback_step, connect_unlink_step, end_shutdown, stop_called, shutdown_resumed, ClientEvent,
  client_event, finish_shutdown, request_stop, on_notify, connect_step, state_callback, run,
  connect_to_datarouter, end_wait, check_sender, check_exit_request_and_send_connect_message,
  client_events, new_message_client,
}
use logging.MessageClient.Tasks.{
  callback_removing, callback_will_remove, connect_removing, connect_will_remove, connects,
  has_answered, unlinks,
}
use logging.MessageClient.Unlinking.{unlinked_in_time}

resolve-prepared_example :
    let file_name = prepare_file_name true (97 ∷ 98 ∷ 99 ∷ 49 ∷ 50 ∷ 51 ∷ []) (65 ∷ 80 ∷ []) 1042 in
    resolve_shared_memory_file_name (connect_message (take 4 (65 ∷ 80 ∷ [])) 1042 true file_name)
    ≡ file_name
resolve-prepared_example =
    resolve-prepared (take 4) true (97 ∷ 98 ∷ 99 ∷ 49 ∷ 50 ∷ 51 ∷ []) (65 ∷ 80 ∷ []) 1042 refl refl

abbrev yes : Answers
yes = record { can_create = true; can_send = true; can_unlink = true }

abbrev client_memory : SharedData
client_memory = record {
  control_block = record {
    control_block_even = fresh_block (replicate 64 0);
    control_block_odd = fresh_block (replicate 64 0);
    switch_count = 1;
  };
  number_of_drops_buffer_full = 0;
  size_of_drops_buffer_full = 0;
  number_of_drops_invalid_size = 0;
  number_of_drops_type_registration_failed = 0;
  writer_detached = false;
}

abbrev connect_of_app : ConnectMessageFromClient
connect_of_app = record {
  app_id = 65 ∷ 80 ∷ [];
  uid = 7;
  use_dynamic_identifier = false;
  random_part = replicate 6 0;
}

abbrev client_life : List ClientEvent
client_life =
    run_called
    ∷ connect_stepped yes connect_of_app
    ∷ state_changed ready
    ∷ connect_stepped yes connect_of_app
    ∷ connect_stepped yes connect_of_app
    ∷ connect_stepped yes connect_of_app
    ∷ message_received (1 ∷ []) yes
    ∷ callback_stepped yes
    ∷ callback_stepped yes
    ∷ callback_stepped yes
    ∷ stop_called
    ∷ shutdown_resumed yes
    ∷ []

unlinked_in_time_example :
    let c = client_events client_life (new_message_client client_memory) in
    (unlinks c.calls + connect_will_remove c.connect_task + callback_will_remove c.callback_task
      ≤ 2)
    × ((not (has_answered c.calls)
          || ltb 0 (
              unlinks c.calls
              + connect_removing c.connect_task
              + callback_removing c.callback_task))
        ≡ true)
    × ((not c.shut_down || ltb 0 (unlinks c.calls)) ≡ true)
    × (connects c.calls ≤ 1)
unlinked_in_time_example = unlinked_in_time client_memory client_life

-- It does connect, unlink and answer, in this order.
client_life_calls :
    let c = client_events client_life (new_message_client client_memory) in
    (unlinks c.calls ≡ 1) × (connects c.calls ≡ 1) × (length c.calls ≡ 3)
unfolding client_events client_event finish_shutdown end_shutdown request_stop on_notify
    connect_step state_callback run new_message_client connect_to_datarouter end_wait check_sender
    check_exit_request_and_send_connect_message callback_step
client_life_calls = (refl, refl, refl)

abbrev no_send : Answers
no_send = record yes { can_send = false }

-- The connect message cannot be sent while the first request is received.
abbrev two_threads : List ClientEvent
two_threads =
    run_called
    ∷ connect_stepped yes connect_of_app
    ∷ state_changed ready
    ∷ connect_stepped yes connect_of_app
    ∷ connect_stepped yes connect_of_app
    ∷ connect_stepped no_send connect_of_app
    ∷ message_received (1 ∷ []) yes
    ∷ connect_stepped yes connect_of_app
    ∷ callback_stepped yes
    ∷ connect_stepped yes connect_of_app
    ∷ callback_stepped yes
    ∷ connect_stepped yes connect_of_app
    ∷ callback_stepped yes
    ∷ []

-- Both threads find the flag unset, and the file is unlinked twice.
unlinked_twice : unlinks (client_events two_threads (new_message_client client_memory)).calls ≡ 2
unfolding client_events client_event on_notify connect_step connect_unlink_step state_callback run
    new_message_client connect_to_datarouter end_wait check_sender
    check_exit_request_and_send_connect_message callback_step
unlinked_twice = refl
