-- ===== src/MessagePassing/Events.antt =====
-- Each event keeps the server consistent: whatever the callbacks and the worker do in whatever order,
-- the worker finds the sessions that it takes from the queue and those that it ticks.
use logging.Prelude.{
  ℕ, ◌+◌, ◌≡◌, refl, sym, ap, subst, ◌∙◌, inl, inr, Bool, true, false, ◌||◌, Option, none, some,
  List, [], ◌∷◌, arith, ℕ_discrete, leb, ◌==◌, if◌then◌else◌, Bool-cases, Option-cases,
}
use logging.Channel.State.{set_at}
use logging.MessagePassing.Session.{new_wrapper, enqueue_tick_while_locked}
use logging.MessagePassing.Server.{
  Position, MessagePassingServer, put_session, log_call, connect_callback, disconnect_wrapper,
  disconnect_callback, begin_connect_request, request_exit, created, waiting, working, ticking,
  expediting,
}
use logging.MessagePassing.Consistency.{
  set_at_same, is_at, is_last_at, is_told, is_drained, all_drained, AgreeAt, IsConsistent,
  disconnect_wrapper-Keeps, count-append, set_at_other, Agree-same, with_session-agree,
  with_session-calls,
}
use logging.MessagePassing.Session.{check_session, NotifyResult}
use logging.MessagePassing.Server.{
  with_session, emplace_session, on_acquire_response, notify_acquire_request,
}
use logging.MessagePassing.Worker.{check_sessions}
use logging.MessagePassing.Consistency.{check_session-Keeps}
use logging.MessagePassing.Session.{SessionWrapper, acquire_answered, notified}
use logging.MessagePassing.Consistency.{acquire_answered-Keeps, notified-Keeps, put_session-agree}
use logging.MessagePassing.Worker.{check_timeout, wake_up, leave_queue, wake_waiting}

module _ (s : MessagePassingServer) (c : IsConsistent s) where
  pub connect_callback-IsConsistent : (pid : ℕ) → IsConsistent (connect_callback pid s)
  unfolding connect_callback
  connect_callback-IsConsistent pid = record { agree = c.agree; ends = c.ends }

  pub disconnect_callback-IsConsistent : (pid : ℕ) → IsConsistent (disconnect_callback pid s)
  unfolding disconnect_callback
  disconnect_callback-IsConsistent pid =
      let t = record s { disconnected_pids = set_at pid true s.disconnected_pids } in
      record {
        agree = with_session-agree pid disconnect_wrapper t disconnect_wrapper-Keeps c.agree;
        ends = ap all_drained (with_session-calls pid disconnect_wrapper t) ∙ c.ends;
      }

  pub begin_connect_request-IsConsistent :
      (too_small : Bool) → IsConsistent (begin_connect_request too_small s).0
  unfolding begin_connect_request
  begin_connect_request-IsConsistent too_small = elim (Bool-cases (too_small || s.stop_requested)) [
    | inl e ↦ rw e (record { agree = c.agree; ends = c.ends })
    | inr e ↦ rw e c
  ]

  pub request_exit-IsConsistent : IsConsistent (request_exit s)
  unfolding request_exit
  request_exit-IsConsistent = record { agree = c.agree; ends = c.ends }

pub is_last_at-is_at : (k : ℕ) (p : Position) → is_at k p ≡ false → is_last_at k p ≡ false
is_last_at-is_at k waiting e = refl
is_last_at-is_at k working e = refl
is_last_at-is_at k (ticking pid b) e = ground arith
is_last_at-is_at k (expediting pid) e = e

pub ==-distinct : {i k : ℕ} → (i ≡ k → ⊥) → (i == k) ≡ false
==-distinct {i} {k} n = elim (Bool-cases (i == k)) [ inl e ↦ absurd (n (ground arith)) | inr e ↦ e ]

pub IsConsistent-if :
    (b : Bool) {s t : MessagePassingServer}
    → IsConsistent s
    → IsConsistent t
    → IsConsistent (if b then s else t)
IsConsistent-if true c d = c
IsConsistent-if false c d = d

IsConsistent-if_first :
    (b : Bool) (p q : MessagePassingServer × Bool)
    → IsConsistent p.0
    → IsConsistent q.0
    → IsConsistent (if b then p else q).0
IsConsistent-if_first true p q c d = c
IsConsistent-if_first false p q c d = d

-- A session that is new is in the queue, once.
created-agree :
    (k pid connection : ℕ) (s : MessagePassingServer)
    → s.pid_session_map pid ≡ none
    → ((j : ℕ) → AgreeAt j s)
    → AgreeAt k (
        log_call (created pid) (
          put_session pid
            (enqueue_tick_while_locked (record new_wrapper { connection = some connection }))
            s))
unfolding log_call put_session enqueue_tick_while_locked new_wrapper is_told is_drained
created-agree k pid connection s e h = elim (ℕ_discrete pid k) [
  | yes same ↦ subst (λ j. AgreeAt j made) same own
  | no n ↦
      Agree-same (set_at_other pid k _ s.pid_session_map n)
        (ground (arith, count-append k pid s.work_queue)) refl refl (rw (==-distinct n) refl)
        (rw (==-distinct n) refl) (h k)
]
  where
    made : MessagePassingServer
    made = log_call (created pid) (
        put_session pid
          (enqueue_tick_while_locked (record new_wrapper { connection = some connection })) s)

    wrapper : SessionWrapper
    wrapper = (enqueue_tick_while_locked (record new_wrapper { connection = some connection })).0

    own : AgreeAt pid made
    own = ground (
      arith,
      rw e at (h pid),
      set_at_same {A = Option SessionWrapper} pid (some wrapper) s.pid_session_map,
      count-append pid pid s.work_queue,
      is_last_at-is_at pid s.worker,
    )

module _ (s : MessagePassingServer) (c : IsConsistent s) where
  pub emplace_session-IsConsistent :
      (pid connection : ℕ) → IsConsistent (emplace_session pid connection s)
  unfolding emplace_session all_drained
  emplace_session-IsConsistent pid connection = elim (Bool-cases (s.disconnected_pids pid)) [
    | inl e ↦ rw e c
    | inr e ↦ elim (Option-cases (s.pid_session_map pid)) [
      | inr (w, f) ↦ rw (e, f, emplace_session) c
      | inl f ↦
          rw (e, f, emplace_session)
            (record { agree = λ k. created-agree k pid connection s f c.agree; ends = c.ends })
    ]
  ]

  pub on_acquire_response-IsConsistent :
      (connection pid : ℕ) → IsConsistent (on_acquire_response connection pid s)
  unfolding on_acquire_response put_session log_call is_told is_drained all_drained
  on_acquire_response-IsConsistent connection pid = elim (Option-cases (s.pid_session_map pid)) [
    | inl e ↦ rw (e, on_acquire_response) c
    | inr (w, e) ↦ elim (Option-cases w.connection) [
      | inl f ↦ rw (e, on_acquire_response) (rw f c)
      | inr (d, f) ↦
          rw (e, on_acquire_response)
            (rw f (
              IsConsistent-if (d == connection)
                (record {
                  agree =
                      put_session-agree pid w s e acquire_answered acquire_answered-Keeps c.agree;
                  ends = c.ends;
                })
                c))
    ]
  ]

  pub notify_acquire_request-IsConsistent :
      (pid : ℕ) (result : NotifyResult) (deadline : ℕ)
      → IsConsistent (notify_acquire_request pid result deadline s).0
  unfolding notify_acquire_request put_session
  notify_acquire_request-IsConsistent pid result deadline =
      IsConsistent-if_first s.workers_exit _ _ c (elim (Option-cases (s.pid_session_map pid)) [
        | inl e ↦ rw (e, notify_acquire_request) c
        | inr (w, e) ↦ elim (Option-cases w.connection) [
          | inl f ↦ rw (e, notify_acquire_request) (rw f c)
          | inr (d, f) ↦
              rw (e, notify_acquire_request)
                (rw f (
                  IsConsistent-if_first w.acquire_in_flight _ _ c (record {
                    agree =
                        put_session-agree pid w s e (notified result deadline)
                          (notified-Keeps result deadline) c.agree;
                    ends = c.ends;
                  })))
        ]
      ])

check_sessions-IsConsistent :
    (max_misses now : ℕ) (closed : ℕ → Bool) (pids : List ℕ) (s : MessagePassingServer)
    → IsConsistent s
    → IsConsistent (check_sessions max_misses now closed pids s)
unfolding check_sessions
check_sessions-IsConsistent max_misses now closed [] s c = c
check_sessions-IsConsistent max_misses now closed (pid ∷ pids) s c =
    let f = check_session max_misses now (closed pid) in
    check_sessions-IsConsistent max_misses now closed pids (with_session pid f s) (record {
      agree = with_session-agree pid f s (check_session-Keeps max_misses now (closed pid)) c.agree;
      ends = ap all_drained (with_session-calls pid f s) ∙ c.ends;
    })

module _ (max_misses now : ℕ) (closed : ℕ → Bool) (order : List ℕ) where
  check_timeout-IsConsistent :
      (s : MessagePassingServer) → IsConsistent s → IsConsistent (check_timeout now s)
  unfolding check_timeout
  check_timeout-IsConsistent s c = elim (Option-cases s.connection_timeout) [
    | inl e ↦ rw (e, check_timeout) c
    | inr (t, e) ↦
        rw (e, check_timeout)
          (IsConsistent-if (leb t now) (record { agree = c.agree; ends = c.ends }) c)
  ]

  check_timeout-worker : (s : MessagePassingServer) → (check_timeout now s).worker ≡ s.worker
  unfolding check_timeout
  check_timeout-worker s = ground arith

  wake_up-IsConsistent :
      (s : MessagePassingServer)
      → s.worker ≡ waiting
      → IsConsistent s
      → IsConsistent (wake_up max_misses now closed order s)
  unfolding wake_up
  wake_up-IsConsistent s e c =
      let d = check_timeout-IsConsistent s c in
      let t = check_timeout now s in
      let working_agree : (k : ℕ) → AgreeAt k (record t { worker = working }) = λ k.
        Agree-same refl refl (ap (is_at k) (sym (check_timeout-worker s ∙ e)))
          (ap (is_last_at k) (sym (check_timeout-worker s ∙ e))) refl refl (d.agree k) in
      IsConsistent-if s.workers_exit c (
        IsConsistent-if (leb s.t1 now)
          (check_sessions-IsConsistent max_misses now closed order
            (record t { worker = working; t1 = now + 100 })
            (record { agree = working_agree; ends = d.ends }))
          (record { agree = working_agree; ends = d.ends }))

  pub wake_waiting-IsConsistent :
      (position : Position) (s : MessagePassingServer)
      → s.worker ≡ position
      → IsConsistent s
      → IsConsistent (wake_waiting position max_misses now closed order s)
  unfolding wake_waiting
  wake_waiting-IsConsistent waiting s e c = wake_up-IsConsistent s e c
  wake_waiting-IsConsistent working s e c = c
  wake_waiting-IsConsistent (ticking _ _) s e c = c
  wake_waiting-IsConsistent (expediting _) s e c = c

pub leave_queue-IsConsistent :
    (position : Position) (queue : List ℕ) (s : MessagePassingServer)
    → s.worker ≡ position
    → IsConsistent s
    → IsConsistent (leave_queue position queue s)
unfolding leave_queue
leave_queue-IsConsistent working [] s e c = record {
  agree = λ k.
      Agree-same refl refl (ap (is_at k) (sym e)) (ap (is_last_at k) (sym e)) refl refl (c.agree k);
  ends = c.ends;
}
leave_queue-IsConsistent working (pid ∷ pids) s e c = c
leave_queue-IsConsistent waiting queue s e c = c
leave_queue-IsConsistent (ticking _ _) queue s e c = c
leave_queue-IsConsistent (expediting _) queue s e c = c
