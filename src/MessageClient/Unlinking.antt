-- ===== src/MessageClient/Unlinking.antt =====
-- The client removes the name of its shared memory, although two threads may come to it at once.
use logging.Prelude.{
  ◌+◌, ◌≤◌, ◌≡◌, refl, true, not, ◌||◌, List, [], ◌∷◌, arith, ltb, Bool-cases, inl, inr,
}
use logging.MessageClient.Client.{
  ConnectTask, MessageClient, Answers, new_message_client, when_idle, request_stop, end_shutdown,
  finish_shutdown, has_ended, ClientEvent, client_event, client_events, not_started, connecting,
  waiting_for_sender, woken, checked, connect_unlinking, finished, no_callback, run_called,
  connect_stepped, state_changed, message_received, callback_stepped, stop_called, shutdown_resumed,
}
use logging.SharedMemory.Writer.{SharedData}
use logging.MessageClient.Tasks.{
  unlinks, connects, has_answered, connect_removing, callback_removing, connect_will_remove,
  callback_will_remove, may_have_sent-le,
}
use logging.MessageClient.Steps.{
  IsOrderly, IsOrderly-split, connect_step-IsOrderly, run-IsOrderly, callback_step-IsOrderly,
  when_idle-IsOrderly, state_callback-IsOrderly, on_notify-IsOrderly,
}

ended_lem :
    (task : ConnectTask)
    → has_ended task ≡ true
    → (connect_will_remove task ≡ 0) × (connect_removing task ≡ 0)
ended_lem not_started e = (refl, refl)
ended_lem connecting e = (refl, refl)
ended_lem waiting_for_sender e = (refl, refl)
ended_lem woken e = (refl, refl)
ended_lem checked e = (refl, refl)
ended_lem (connect_unlinking stage) e = cc
ended_lem finished e = (refl, refl)

end_shutdown-IsOrderly :
    (answers : Answers) (c : MessageClient)
    → has_ended c.connect_task ≡ true
    → c.callback_task ≡ no_callback
    → IsOrderly c
    → IsOrderly (end_shutdown answers c)
unfolding end_shutdown
end_shutdown-IsOrderly answers c e f h =
    let h' = rw f at h in
    let (no_will, no_removing) = ended_lem c.connect_task e in
    IsOrderly-split c.unlinked_shared_memory_file _ _
      (λ g. rw (f) (ground (arith, h', g, no_will, no_removing)))
      λ g. elim (Bool-cases answers.can_unlink) [
        | inl k ↦ rw (f, k) (ground (arith, h', g, no_will, no_removing))
        | inr k ↦ rw (f, k) (ground (arith, h', g, no_will, no_removing))
      ]

finish_shutdown-IsOrderly :
    (answers : Answers) (c : MessageClient) → IsOrderly c → IsOrderly (finish_shutdown answers c)
unfolding finish_shutdown
finish_shutdown-IsOrderly answers c h =
    IsOrderly-split (has_ended c.connect_task)
      (when_idle c.callback_task (end_shutdown answers c) c) c
      (λ e.
        when_idle-IsOrderly c.callback_task (end_shutdown answers c) c
          (λ f. end_shutdown-IsOrderly answers c e f h) h)
      (λ e. h)

client_event-IsOrderly :
    (e : ClientEvent) (c : MessageClient) → IsOrderly c → IsOrderly (client_event e c)
unfolding client_event request_stop
client_event-IsOrderly run_called c h = run-IsOrderly c.connect_task c refl h
client_event-IsOrderly (connect_stepped answers message) c h =
    connect_step-IsOrderly c.connect_task answers message c refl h
client_event-IsOrderly (state_changed state) c h =
    when_idle-IsOrderly c.callback_task _ c (λ e. state_callback-IsOrderly state c e h) h
client_event-IsOrderly (message_received message answers) c h =
    when_idle-IsOrderly c.callback_task _ c (λ e. on_notify-IsOrderly message answers c e h) h
client_event-IsOrderly (callback_stepped answers) c h =
    callback_step-IsOrderly c.callback_task answers c refl h
client_event-IsOrderly stop_called c h = h
client_event-IsOrderly (shutdown_resumed answers) c h = finish_shutdown-IsOrderly answers c h

client_events-IsOrderly :
    (es : List ClientEvent) (c : MessageClient) → IsOrderly c → IsOrderly (client_events es c)
unfolding client_events
client_events-IsOrderly [] c h = h
client_events-IsOrderly (e ∷ es) c h =
    client_events-IsOrderly es (client_event e c) (client_event-IsOrderly e c h)

-- In any order of the steps of the connect thread, the callbacks and the shutdown, where the test
-- of the flag, its setting and the call of `unlink` are steps of their own: the client unlinks its
-- file at most twice, the calls included that a thread which found the flag unset is about to make;
-- once a request was answered, the file has been unlinked or a thread that has set the flag is
-- about to do so; when Shutdown has ended, it has been unlinked; and the client sends at most one
-- connect message. The library calls one callback at a time.
pub unlinked_in_time :
    (shared_data : SharedData) (es : List ClientEvent)
    → let c = client_events es (new_message_client shared_data) in
      (unlinks c.calls + connect_will_remove c.connect_task + callback_will_remove c.callback_task
        ≤ 2)
      × ((not (has_answered c.calls)
            || ltb 0 (
                unlinks c.calls
                + connect_removing c.connect_task
                + callback_removing c.callback_task))
          ≡ true)
      × ((not c.shut_down || ltb 0 (unlinks c.calls)) ≡ true)
      × (connects c.calls ≤ 1)
unfolding new_message_client
unlinked_in_time shared_data es =
    let c = client_events es (new_message_client shared_data) in
    let (at_most, _, flagged, sent_once, answered, _, shut) =
      client_events-IsOrderly es (new_message_client shared_data)
        (omega arith, omega arith, omega arith, omega arith, refl, refl, refl) in
    (
      at_most,
      ground (arith, flagged, answered),
      shut,
      omega (arith, sent_once, may_have_sent-le c.connect_task),
    )
