-- ===== src/MessagePassing/Endings.antt =====
-- The end of a tick keeps server, queue and sessions consistent.
use logging.Prelude.{
  ℕ, ◌≡◌, refl, sym, subst, Bool, true, false, Option, none, some, ◌∷◌, arith, if◌then◌else◌,
}
use logging.MessagePassing.Session.{SessionWrapper, reset_running_while_locked}
use logging.MessagePassing.Server.{
  MessagePassingServer, put_session, notified_closed, ticked, expediting,
}
use logging.MessagePassing.Worker.{
  extract_session, reset_session, finish_session, after_tick, end_expedited_tick,
}
use logging.MessagePassing.Consistency.{
  count, is_at, is_last_at, is_told, is_drained, all_drained, IsConsistent,
}
use logging.MessagePassing.Events.{==-distinct, IsConsistent-if}
use logging.MessagePassing.Rounds.{
  own-Agree, goes_on-IsConsistent, ends-IsConsistent, stays-IsConsistent,
}
use logging.MessagePassing.Consistency.{Agree, Agree-same}
use logging.MessagePassing.Taking.{==_refl, deleted-Agree, requeued-Agree, rested-Agree}

IsConsistent-split :
    (b : Bool) {s t : MessagePassingServer}
    → (b ≡ true → IsConsistent s)
    → (b ≡ false → IsConsistent t)
    → IsConsistent (if b then s else t)
IsConsistent-split true f g = f refl
IsConsistent-split false f g = g refl

told_of :
    (o : Option SessionWrapper) (n : ℕ) (at last told drained : Bool)
    → Agree o n at last told drained
    → last ≡ true
    → told ≡ true
told_of none n at last told drained h = h.2
told_of (some w) n at last told drained h = h.5

not_requeued :
    (w : SessionWrapper) (requeue : Bool)
    → (reset_running_while_locked requeue w).1 ≡ false
    → requeue ≡ false
unfolding reset_running_while_locked
not_requeued w requeue e = ground arith

-- A session that is being ticked has no entry in the queue.
none_of :
    (o : Option SessionWrapper) (n : ℕ) (last told drained : Bool)
    → Agree o n true last told drained
    → n ≡ 0
none_of none n last told drained h = h.0
none_of (some w) n last told drained h = ground arith

module _ (pid : ℕ) (s : MessagePassingServer) (c : IsConsistent s) (at : is_at pid s.worker ≡ true)
    (alone : (k : ℕ) → (pid ≡ k → ⊥) → is_at k s.worker ≡ false) where
  abbrev after : Bool → MessagePassingServer
  after requeue = record s { calls = ticked pid requeue ∷ s.calls }

  reset_session-IsConsistent :
      (w : SessionWrapper) (requeue : Bool)
      → s.pid_session_map pid ≡ some w
      → IsConsistent (reset_session pid requeue w (after requeue))
  unfolding reset_session put_session extract_session
  reset_session-IsConsistent w requeue f =
      let h = own-Agree pid s c at alone f in
      let n = count pid s.work_queue in
      let last = is_last_at pid s.worker in
      let told = is_told pid s.calls in
      let drained = is_drained pid s.calls in
      let w' = (reset_running_while_locked requeue w).0 in
      IsConsistent-split (reset_running_while_locked requeue w).1
        (λ e.
          goes_on-IsConsistent pid s c at alone w' true requeue
            (requeued-Agree w n last told drained requeue h e))
        λ e.
          IsConsistent-split w.to_delete
            (λ d.
              let (none_queued, was_told) = deleted-Agree w n last told drained requeue h e d in
              ends-IsConsistent pid s c at alone requeue (not_requeued w requeue e) none_queued
                was_told)
            λ d.
              goes_on-IsConsistent pid s c at alone w' false requeue
                (rested-Agree w n last told drained requeue h e d)

  -- A session that was told, by the worker or by a call.
  told_last : is_last_at pid s.worker ≡ true → is_told pid s.calls ≡ true
  told_last = told_of (s.pid_session_map pid) _ _ _ _ _ (c.agree pid)

  stays_ticked-IsConsistent :
      (requeue : Bool)
      → is_last_at pid s.worker ≡ true
      → IsConsistent (record (after requeue) { worker = expediting pid })
  unfolding is_told is_drained all_drained
  stays_ticked-IsConsistent requeue e =
      stays-IsConsistent pid s c at alone (ticked pid requeue ∷ s.calls) (told_last e) (λ k n. refl)
        (λ k n. ground (arith, ==-distinct n)) c.ends

  extract_session-IsConsistent :
      is_last_at pid s.worker ≡ true → IsConsistent (extract_session pid (after false))
  unfolding extract_session
  extract_session-IsConsistent e =
      ends-IsConsistent pid s c at alone false refl
        (none_of (s.pid_session_map pid) _ _ _ _
          (Agree-same refl refl (sym at) refl refl refl (c.agree pid)))
        (told_last e)

  finish_session-IsConsistent :
      (closed_by_peer requeue : Bool)
      → is_last_at pid s.worker ≡ closed_by_peer
      → IsConsistent (finish_session pid closed_by_peer requeue (after requeue))
  unfolding finish_session is_told is_drained all_drained
  finish_session-IsConsistent false requeue e =
      stays-IsConsistent pid s c at alone (notified_closed pid ∷ ticked pid requeue ∷ s.calls)
        (ground (arith, ==_refl pid)) (λ k n. ground (arith, ==-distinct n))
        (λ k n. ground (arith, ==-distinct n)) c.ends
  finish_session-IsConsistent true true e = stays_ticked-IsConsistent true e
  finish_session-IsConsistent true false e = extract_session-IsConsistent e

  pub end_expedited_tick-IsConsistent :
      (requeue : Bool)
      → is_last_at pid s.worker ≡ true
      → s.worker ≡ expediting pid
      → IsConsistent (end_expedited_tick pid requeue s)
  unfolding end_expedited_tick
  end_expedited_tick-IsConsistent true e f =
      subst
        (λ position.
          IsConsistent (record s { worker = position; calls = ticked pid true ∷ s.calls }))
        (sym f) (stays_ticked-IsConsistent true e)
  end_expedited_tick-IsConsistent false e f = extract_session-IsConsistent e

  pub after_tick-IsConsistent :
      (w : SessionWrapper) (closed_by_peer requeue : Bool)
      → s.pid_session_map pid ≡ some w
      → is_last_at pid s.worker ≡ closed_by_peer
      → IsConsistent (after_tick pid closed_by_peer requeue w s)
  unfolding after_tick
  after_tick-IsConsistent w closed_by_peer requeue f last =
      IsConsistent-if w.to_force_finish (finish_session-IsConsistent closed_by_peer requeue last)
        (reset_session-IsConsistent w requeue f)
