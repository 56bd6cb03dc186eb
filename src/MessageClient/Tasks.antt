-- ===== src/MessageClient/Tasks.antt =====
-- What the calls of the client and the places of its threads say of the name of the shared memory.
use logging.Prelude.{ℕ, ◌+◌, ◌≤◌, Bool, true, false, List, [], ◌∷◌, arith}
use logging.MessageClient.Client.{
  ClientCall, ConnectTask, CallbackTask, UnlinkStage, connect, acquire_response, sent, unlinked,
  reported, not_started, connecting, waiting_for_sender, woken, checked, connect_unlinking,
  finished, testing, setting, removing, then_stop, then_answer, no_callback, unlinking,
}

-- How often the file was unlinked and a connect message sent, and whether a request was answered.
abbrev pub unlinks : List ClientCall → ℕ
unlinks [] = 0
unlinks (sent message ∷ calls) = unlinks calls
unlinks (unlinked ∷ calls) = 1 + unlinks calls
unlinks (reported error ∷ calls) = unlinks calls

abbrev pub connects : List ClientCall → ℕ
connects [] = 0
connects (sent (connect message) ∷ calls) = 1 + connects calls
connects (sent (acquire_response acquired_buffer) ∷ calls) = connects calls
connects (unlinked ∷ calls) = connects calls
connects (reported error ∷ calls) = connects calls

abbrev pub has_answered : List ClientCall → Bool
has_answered [] = false
has_answered (sent (connect message) ∷ calls) = has_answered calls
has_answered (sent (acquire_response acquired_buffer) ∷ calls) = true
has_answered (unlinked ∷ calls) = has_answered calls
has_answered (reported error ∷ calls) = has_answered calls

-- The thread has set the flag and is about to call `unlink`.
abbrev pub is_removing : UnlinkStage → ℕ
is_removing testing = 0
is_removing setting = 0
is_removing removing = 1

abbrev pub connect_removing : ConnectTask → ℕ
connect_removing not_started = 0
connect_removing connecting = 0
connect_removing waiting_for_sender = 0
connect_removing woken = 0
connect_removing checked = 0
connect_removing (connect_unlinking stage) = is_removing stage
connect_removing finished = 0

abbrev pub callback_removing : CallbackTask → ℕ
callback_removing no_callback = 0
callback_removing (unlinking stage continuation) = is_removing stage

-- The thread has found the flag unset, and will call `unlink`.
abbrev pub will_remove : UnlinkStage → ℕ
will_remove testing = 0
will_remove setting = 1
will_remove removing = 1

abbrev pub connect_will_remove : ConnectTask → ℕ
connect_will_remove not_started = 0
connect_will_remove connecting = 0
connect_will_remove waiting_for_sender = 0
connect_will_remove woken = 0
connect_will_remove checked = 0
connect_will_remove (connect_unlinking stage) = will_remove stage
connect_will_remove finished = 0

abbrev pub callback_will_remove : CallbackTask → ℕ
callback_will_remove no_callback = 0
callback_will_remove (unlinking stage continuation) = will_remove stage

-- The connect thread has come to sending its message, or given up.
abbrev pub may_have_sent : ConnectTask → ℕ
may_have_sent not_started = 0
may_have_sent connecting = 0
may_have_sent waiting_for_sender = 0
may_have_sent woken = 0
may_have_sent checked = 0
may_have_sent (connect_unlinking stage) = 1
may_have_sent finished = 1

pub may_have_sent-le : (task : ConnectTask) → may_have_sent task ≤ 1
may_have_sent-le not_started = omega arith
may_have_sent-le connecting = omega arith
may_have_sent-le waiting_for_sender = omega arith
may_have_sent-le woken = omega arith
may_have_sent-le checked = omega arith
may_have_sent-le (connect_unlinking stage) = omega arith
may_have_sent-le finished = omega arith

abbrev pub will_answer : CallbackTask → Bool
will_answer no_callback = false
will_answer (unlinking stage then_stop) = false
will_answer (unlinking stage then_answer) = true
