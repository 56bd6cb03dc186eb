-- ===== src/MessageClient/Steps.antt =====
-- The steps of the connect thread and of the callbacks keep the calls, the flags and the tasks of the
-- client in order.
use logging.Prelude.{
  ℕ, ◌+◌, ◌≤◌, ◌≡◌, refl, Bool, true, false, not, ◌||◌, none, some, List, ◌∷◌, arith, ltb,
  if◌then◌else◌, Bool-cases, inl, inr,
}
use logging.MessageClient.FileNames.{ConnectMessageFromClient}
use logging.MessageClient.Client.{
  SenderState, ClientCall, ConnectTask, CallbackTask, UnlinkStage, Continuation, MessageClient,
  Answers, unlink_shared_memory_file, send_message, connect_to_datarouter, end_wait, check_sender,
  check_exit_request_and_send_connect_message, connect_unlink_step, connect_step, run,
  state_callback, answer_acquire_request, handle_first_message_received, on_acquire_request,
  on_notify, continue_callback, callback_step, when_idle, unlink_shared_memory_error,
  shut_down_in_connect, ready, stopped, in_between, unlinked, reported, not_started, connecting,
  waiting_for_sender, woken, checked, connect_unlinking, finished, testing, setting, removing,
  then_stop, then_answer, no_callback, unlinking,
}
use logging.MessageClient.Tasks.{
  unlinks, connects, has_answered, connect_removing, callback_removing, connect_will_remove,
  callback_will_remove, may_have_sent, will_answer,
}

-- The calls so far fit the flags and the tasks of the client.
abbrev pub Orderly : List ClientCall → Bool → Bool → Bool → ConnectTask → CallbackTask → Type 0
Orderly calls flag first shut task callback =
    (unlinks calls + connect_will_remove task + callback_will_remove callback ≤ 2)
    × (unlinks calls + connect_removing task + callback_removing callback ≤ (if flag then 2 else 0))
    × ((if flag then 1 else 0) ≤ unlinks calls + connect_removing task + callback_removing callback)
    × (connects calls ≤ may_have_sent task)
    × ((not (has_answered calls) || flag) ≡ true)
    × ((not first || (flag || will_answer callback)) ≡ true)
    × ((not shut || ltb 0 (unlinks calls)) ≡ true)

abbrev pub IsOrderly : MessageClient → Type 0
IsOrderly c =
    Orderly c.calls c.unlinked_shared_memory_file c.first_message_received c.shut_down
      c.connect_task c.callback_task

pub IsOrderly-if :
    (b : Bool) (c d : MessageClient) → IsOrderly c → IsOrderly d → IsOrderly (if b then c else d)
IsOrderly-if true c d h k = h
IsOrderly-if false c d h k = k

pub IsOrderly-split :
    (b : Bool) (c d : MessageClient)
    → (b ≡ true → IsOrderly c)
    → (b ≡ false → IsOrderly d)
    → IsOrderly (if b then c else d)
IsOrderly-split true c d h k = h refl
IsOrderly-split false c d h k = k refl

pub connect_unlink_step-IsOrderly :
    (stage : UnlinkStage) (answers : Answers) (c : MessageClient)
    → c.connect_task ≡ connect_unlinking stage
    → IsOrderly c
    → IsOrderly (connect_unlink_step stage answers c)
unfolding connect_unlink_step unlink_shared_memory_file
connect_unlink_step-IsOrderly testing answers c e h =
    let h' = rw e at h in
    elim (Bool-cases c.unlinked_shared_memory_file) [
      | inl f ↦ rw f (rw f at h')
      | inr f ↦ rw f (ground (arith, h'))
    ]
connect_unlink_step-IsOrderly setting answers c e h = let h' = rw e at h in ground (arith, h')
connect_unlink_step-IsOrderly removing answers c e h =
    let h' = rw e at h in
    elim (Bool-cases answers.can_unlink) [
      | inl f ↦ rw f (ground (arith, h'))
      | inr f ↦ rw f (ground (arith, h'))
    ]

pub connect_step-IsOrderly :
    (task : ConnectTask) (answers : Answers) (message : ConnectMessageFromClient)
    (c : MessageClient)
    → c.connect_task ≡ task
    → IsOrderly c
    → IsOrderly (connect_step task answers message c)
unfolding connect_step connect_to_datarouter end_wait check_sender
    check_exit_request_and_send_connect_message send_message
connect_step-IsOrderly not_started answers message c e h = h
connect_step-IsOrderly connecting answers message c e h =
    let h' = rw e at h in
    elim (Bool-cases answers.can_create) [ inl f ↦ rw f h' | inr f ↦ rw f (ground (arith, h')) ]
connect_step-IsOrderly waiting_for_sender answers message c e h =
    IsOrderly-if _ (record c { connect_task = woken }) c (rw e at h) h
connect_step-IsOrderly woken answers message c e h =
    let h' = rw e at h in
    IsOrderly-if _ (shut_down_in_connect c) (record c { connect_task = checked })
      (ground (arith, h')) h'
connect_step-IsOrderly checked answers message c e h =
    let h' = rw e at h in
    elim (Bool-cases c.stop_requested) [
      | inl f ↦ rw f (ground (arith, h'))
      | inr f ↦ elim (Bool-cases c.has_sender) [
        | inl g ↦ elim (Bool-cases answers.can_send) [
          | inl k ↦ rw (f, g, k) (ground (arith, h'))
          | inr k ↦ rw (f, g, k) (ground (arith, h'))
        ]
        | inr g ↦ rw (f, g) (ground (arith, h'))
      ]
    ]
connect_step-IsOrderly (connect_unlinking stage) answers message c e h =
    connect_unlink_step-IsOrderly stage answers c e h
connect_step-IsOrderly finished answers message c e h = h

pub run-IsOrderly :
    (task : ConnectTask) (c : MessageClient)
    → c.connect_task ≡ task
    → IsOrderly c
    → IsOrderly (run task c)
unfolding run
run-IsOrderly not_started c e h = rw e at h
run-IsOrderly connecting c e h = h
run-IsOrderly waiting_for_sender c e h = h
run-IsOrderly woken c e h = h
run-IsOrderly checked c e h = h
run-IsOrderly (connect_unlinking stage) c e h = h
run-IsOrderly finished c e h = h

-- An answer, once the flag is set.
pub answer_acquire_request-IsOrderly :
    (answers : Answers) (c : MessageClient)
    → c.unlinked_shared_memory_file ≡ true
    → IsOrderly (record c { callback_task = no_callback })
    → IsOrderly (answer_acquire_request answers c)
unfolding answer_acquire_request send_message
answer_acquire_request-IsOrderly answers c e h =
    let h' = rw e at h in
    elim (Bool-cases c.has_sender) [
      | inl g ↦ elim (Bool-cases answers.can_send) [
        | inl k ↦ rw (e, g, k) (ground (arith, h'))
        | inr k ↦ rw (e, g, k) (ground (arith, h'))
      ]
      | inr g ↦ rw (e, g) h'
    ]

-- A callback has returned from `UnlinkSharedMemoryFile`.
pub continue_callback-IsOrderly :
    (continuation : Continuation) (answers : Answers) (c : MessageClient)
    → c.unlinked_shared_memory_file ≡ true
    → IsOrderly (record c { callback_task = no_callback })
    → IsOrderly (continue_callback continuation answers c)
unfolding continue_callback
continue_callback-IsOrderly then_stop answers c e h = h
continue_callback-IsOrderly then_answer answers c e h =
    answer_acquire_request-IsOrderly answers c e h

pub tested-IsOrderly :
    (b : Bool) (continuation : Continuation) (answers : Answers) (c : MessageClient)
    → (b ≡ true → IsOrderly (continue_callback continuation answers c))
    → (b ≡ false → IsOrderly (record c { callback_task = unlinking setting continuation }))
    → IsOrderly (elim (if b then none else some setting) [
      | none ↦ continue_callback continuation answers c
      | some stage ↦ record c { callback_task = unlinking stage continuation }
    ])
tested-IsOrderly true continuation answers c h k = h refl
tested-IsOrderly false continuation answers c h k = k refl

pub callback_step-IsOrderly :
    (callback : CallbackTask) (answers : Answers) (c : MessageClient)
    → c.callback_task ≡ callback
    → IsOrderly c
    → IsOrderly (callback_step callback answers c)
unfolding callback_step unlink_shared_memory_file
callback_step-IsOrderly no_callback answers c e h = h
callback_step-IsOrderly (unlinking testing continuation) answers c e h =
    let h' = rw e at h in
    tested-IsOrderly c.unlinked_shared_memory_file continuation answers c
      (λ f. continue_callback-IsOrderly continuation answers c f (ground (arith, h', f)))
      (λ f. ground (arith, h', f))
callback_step-IsOrderly (unlinking setting continuation) answers c e h =
    let h' = rw e at h in ground (arith, h')
callback_step-IsOrderly (unlinking removing continuation) answers c e h =
    let h' = rw e at h in
    let f : c.unlinked_shared_memory_file ≡ true = ground (arith, h') in
    let t = record c {
      calls =
          if answers.can_unlink
          then unlinked ∷ c.calls
          else reported unlink_shared_memory_error ∷ unlinked ∷ c.calls;
    } in
    continue_callback-IsOrderly continuation answers t f (elim (Bool-cases answers.can_unlink) [
      | inl g ↦ rw g (ground (arith, h', f))
      | inr g ↦ rw g (ground (arith, h', f))
    ])

pub when_idle-IsOrderly :
    (callback : CallbackTask) (called c : MessageClient)
    → (callback ≡ no_callback → IsOrderly called)
    → IsOrderly c
    → IsOrderly (when_idle callback called c)
when_idle-IsOrderly no_callback called c f h = f refl
when_idle-IsOrderly (unlinking stage continuation) called c f h = h

pub state_callback-IsOrderly :
    (state : SenderState) (c : MessageClient)
    → c.callback_task ≡ no_callback
    → IsOrderly c
    → IsOrderly (state_callback state c)
unfolding state_callback
state_callback-IsOrderly ready c e h = h
state_callback-IsOrderly stopped c e h = let h' = rw e at h in ground (arith, h')
state_callback-IsOrderly in_between c e h = h

pub on_notify-IsOrderly :
    (message : List ℕ) (answers : Answers) (c : MessageClient)
    → c.callback_task ≡ no_callback
    → IsOrderly c
    → IsOrderly (on_notify message answers c)
unfolding on_notify on_acquire_request handle_first_message_received
on_notify-IsOrderly message answers c e h =
    let h' = rw e at h in
    IsOrderly-if _ (on_acquire_request answers c) c
      (IsOrderly-split c.first_message_received (answer_acquire_request answers c)
        (handle_first_message_received c)
        (λ f. answer_acquire_request-IsOrderly answers c (ground (arith, h', f)) h')
        (λ f. ground (arith, h')))
      h
