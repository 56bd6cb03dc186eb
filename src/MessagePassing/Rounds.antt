-- ===== src/MessagePassing/Rounds.antt =====
-- The server after a tick of a session, which goes on or is destroyed.
use logging.Prelude.{
  ℕ, ◌+◌, ◌≡◌, refl, sym, ◌∙◌, Bool, true, false, not, ◌&&◌, Option, none, some, List, [], ◌∷◌,
  ◌++◌, arith, if◌then◌else◌,
}
use logging.MessagePassing.Session.{SessionWrapper}
use logging.MessagePassing.Server.{SessionCall, MessagePassingServer, working}
use logging.MessagePassing.Consistency.{
  count, is_at, is_last_at, is_told, is_drained, all_drained, Agree, IsConsistent, Agree-same,
}
use logging.MessagePassing.Consistency.{set_at_other}
use logging.MessagePassing.Events.{==-distinct}
use logging.Channel.State.{set_at}
use logging.MessagePassing.Server.{ticked, destroyed, expediting}
use logging.MessagePassing.Consistency.{count_pushed, set_at_same}
use logging.MessagePassing.Events.{is_last_at-is_at}
use logging.MessagePassing.Taking.{OthersSame, settle, ==_refl, stays-Agree}

abbrev pub left_by_tick :
    ℕ
    → Option SessionWrapper
    → Bool
    → List SessionCall
    → MessagePassingServer
    → MessagePassingServer
left_by_tick pid o pushed calls s = record s {
  pid_session_map = set_at pid o s.pid_session_map;
  work_queue = if pushed then s.work_queue ++ pid ∷ [] else s.work_queue;
  worker = working;
  calls = calls;
}

-- The worker stands at a session that it has ticked once more.
module _ (pid : ℕ) (s : MessagePassingServer) (c : IsConsistent s) (at : is_at pid s.worker ≡ true)
    (alone : (k : ℕ) → (pid ≡ k → ⊥) → is_at k s.worker ≡ false) where
  not_last : (k : ℕ) → (pid ≡ k → ⊥) → false ≡ is_last_at k s.worker
  not_last k n = sym (is_last_at-is_at k s.worker (alone k n))

  pub own-Agree :
      {w : SessionWrapper}
      → s.pid_session_map pid ≡ some w
      → Agree
          (some w)
          (count pid s.work_queue)
          true
          (is_last_at pid s.worker)
          (is_told pid s.calls)
          (is_drained pid s.calls)
  own-Agree f = Agree-same (sym f) refl (sym at) refl refl refl (c.agree pid)

  left_by_tick-others :
      (o : Option SessionWrapper) (pushed : Bool) (calls : List SessionCall)
      → ((k : ℕ) → (pid ≡ k → ⊥) → is_told k calls ≡ is_told k s.calls)
      → ((k : ℕ) → (pid ≡ k → ⊥) → is_drained k calls ≡ is_drained k s.calls)
      → OthersSame pid s (left_by_tick pid o pushed calls s)
  left_by_tick-others o pushed calls told drained k n = (
    set_at_other {A = Option SessionWrapper} pid k o s.pid_session_map n,
    ground (arith, count_pushed k pid pushed s.work_queue, ==-distinct n),
    sym (alone k n),
    not_last k n,
    told k n,
    drained k n,
  )

  -- The session goes on, in the queue or not.
  pub goes_on-IsConsistent :
      (w : SessionWrapper) (pushed requeue : Bool)
      → Agree
          (some w)
          (count pid s.work_queue + (if pushed then 1 else 0))
          false
          false
          (is_told pid s.calls)
          (not requeue && is_told pid s.calls)
      → IsConsistent (left_by_tick pid (some w) pushed (ticked pid requeue ∷ s.calls) s)
  unfolding is_told is_drained all_drained
  goes_on-IsConsistent w pushed requeue h = record {
    agree =
        settle pid s (left_by_tick pid (some w) pushed (ticked pid requeue ∷ s.calls) s)
          (left_by_tick-others (some w) pushed (ticked pid requeue ∷ s.calls) (λ k n. refl)
            (λ k n. ground (arith, ==-distinct n)))
          (Agree-same (set_at_same {A = Option SessionWrapper} pid (some w) s.pid_session_map)
            (ground (arith, count_pushed pid pid pushed s.work_queue)) refl refl refl
            (ground (arith, ==_refl pid)) h)
          c.agree;
    ends = c.ends;
  }

  -- The session ends, told and drained.
  pub ends-IsConsistent :
      (requeue : Bool)
      → requeue ≡ false
      → count pid s.work_queue ≡ 0
      → is_told pid s.calls ≡ true
      → IsConsistent (left_by_tick pid none false (destroyed pid ∷ ticked pid requeue ∷ s.calls) s)
  unfolding is_told is_drained all_drained
  ends-IsConsistent requeue over none_queued told = record {
    agree =
        settle pid s (left_by_tick pid none false (destroyed pid ∷ ticked pid requeue ∷ s.calls) s)
          (left_by_tick-others none false (destroyed pid ∷ ticked pid requeue ∷ s.calls)
            (λ k n. refl) (λ k n. ground (arith, ==-distinct n)))
          (Agree-same (set_at_same {A = Option SessionWrapper} pid none s.pid_session_map)
            none_queued refl refl refl refl (refl, refl, λ e. cc))
          c.agree;
    ends = ground (arith, ==_refl pid, c.ends);
  }

  -- The session is ticked again, told that its peer is gone.
  pub stays-IsConsistent :
      (calls : List SessionCall)
      → is_told pid calls ≡ true
      → ((k : ℕ) → (pid ≡ k → ⊥) → is_told k calls ≡ is_told k s.calls)
      → ((k : ℕ) → (pid ≡ k → ⊥) → is_drained k calls ≡ is_drained k s.calls)
      → all_drained calls ≡ true
      → IsConsistent (record s { worker = expediting pid; calls = calls })
  stays-IsConsistent calls told others_told others_drained ends = record {
    agree =
        settle pid s (record s { worker = expediting pid; calls = calls })
          (λ k n. (
            refl,
            refl,
            ==-distinct n ∙ sym (alone k n),
            ==-distinct n ∙ not_last k n,
            others_told k n,
            others_drained k n,
          ))
          (Agree-same refl refl (==_refl pid) (==_refl pid) told refl (
            stays-Agree (s.pid_session_map pid) (count pid s.work_queue) (is_last_at pid s.worker)
              (is_told pid s.calls) (is_drained pid s.calls) (is_drained pid calls)
              (Agree-same refl refl (sym at) refl refl refl (c.agree pid))))
          c.agree;
    ends = ends;
  }
