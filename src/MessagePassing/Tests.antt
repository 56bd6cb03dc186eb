-- ===== src/MessagePassing/Tests.antt =====
-- The theorems at two sessions, of the processes 7 and 8.
use logging.Prelude.{◌<◌, ◌≡◌, refl, true, false, Option, none, some, List, [], ◌∷◌, arith}
use logging.MessagePassing.Session.{acquire_answered}
use logging.MessagePassing.Server.{
  MessagePassingServer, new_message_passing_server, disconnect_callback, emplace_session,
  on_acquire_response, created, began, notified_closed, ticked, answered, destroyed,
}
use logging.MessagePassing.Worker.{
  check_sessions, wake_up, take_session, end_tick, end_expedited_tick, Event, take_next,
  return_tick, wake_waiting, handle, run_events, disconnected, acquire_response, woke, took,
  tick_returned,
}
use logging.MessagePassing.Consistency.{all_drained}
use logging.MessagePassing.Ticks.{run_events-all_drained}
use logging.MessagePassing.Progress.{queued_is_ticked}
use logging.MessagePassing.Server.{disconnect_wrapper}
use logging.MessagePassing.Queued.{begun, begun_of}

abbrev two_sessions : MessagePassingServer
two_sessions = emplace_session 8 2 (emplace_session 7 1 (new_message_passing_server 0))

-- The worker ticks the first; meanwhile its client disconnects, and the second is taken.
abbrev some_events : List Event
some_events =
    woke 5 (λ pid. false) []
    ∷ took
    ∷ disconnected 7
    ∷ acquire_response 8 2
    ∷ tick_returned false
    ∷ tick_returned false
    ∷ took
    ∷ []

abbrev value : Option MessagePassingServer → MessagePassingServer
value none = two_sessions
value (some s) = s

queued_is_ticked_example :
    begun_of 8 two_sessions.calls < begun_of 8 (value (run_events 3 some_events two_sessions)).calls
unfolding run_events handle wake_waiting take_next return_tick disconnect_callback emplace_session
    on_acquire_response acquire_answered new_message_passing_server begun begun_of take_session
    wake_up check_sessions end_tick end_expedited_tick disconnect_wrapper
queued_is_ticked_example =
    queued_is_ticked 8 3 some_events two_sessions
      {t = value (run_events 3 some_events two_sessions)} refl (omega arith) (omega arith)

run_events-all_drained_example :
    (t : MessagePassingServer) × (run_events 3 some_events (new_message_passing_server 0) ≡ some t)
    × (all_drained t.calls ≡ true)
run_events-all_drained_example = run_events-all_drained 3 0 some_events

-- The first session has been told, ticked once more and destroyed.
some_events_calls :
    (value (run_events 3 some_events two_sessions)).calls
    ≡ began 8
      ∷ destroyed 7
      ∷ ticked 7 false
      ∷ notified_closed 7
      ∷ ticked 7 false
      ∷ answered 8
      ∷ began 7
      ∷ created 8
      ∷ created 7
      ∷ []
unfolding run_events handle wake_waiting take_next return_tick disconnect_callback emplace_session
    on_acquire_response acquire_answered new_message_passing_server take_session wake_up
    check_sessions end_tick end_expedited_tick disconnect_wrapper
some_events_calls = refl
