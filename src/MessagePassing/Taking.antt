-- ===== src/MessagePassing/Taking.antt =====
-- A session that the worker takes from the queue, and what becomes of its wrapper.
use logging.Prelude.{
  ℕ, ◌+◌, ◌≡◌, refl, sym, ap, subst, ◌∙◌, inl, inr, Bool, true, false, not, ◌&&◌, Option, none,
  some, List, ◌∷◌, arith, ℕ_discrete, ◌==◌, if◌then◌else◌, Option-cases,
}
use logging.MessagePassing.Session.{
  SessionWrapper, set_running_while_locked, get_reset_closed_by_peer, reset_running_while_locked,
}
use logging.MessagePassing.Server.{MessagePassingServer, working}
use logging.MessagePassing.Worker.{take_session}
use logging.MessagePassing.Consistency.{
  count, is_at, is_last_at, is_told, is_drained, all_drained, Agree, AgreeAt, IsConsistent,
  Agree-same,
}
use logging.MessagePassing.Worker.{begin_tick}
use logging.MessagePassing.Consistency.{set_at_other}
use logging.MessagePassing.Events.{==-distinct}
use logging.MessagePassing.Consistency.{set_at_same}

-- The worker goes on with the session of `pid` only: all others stay as they were.
abbrev pub OthersSame : ℕ → MessagePassingServer → MessagePassingServer → Type 0
OthersSame pid s t =
    (k : ℕ)
    → (pid ≡ k → ⊥)
    → (t.pid_session_map k ≡ s.pid_session_map k)
      × (count k t.work_queue ≡ count k s.work_queue)
      × (is_at k t.worker ≡ is_at k s.worker)
      × (is_last_at k t.worker ≡ is_last_at k s.worker)
      × (is_told k t.calls ≡ is_told k s.calls)
      × (is_drained k t.calls ≡ is_drained k s.calls)

pub settle :
    (pid : ℕ) (s t : MessagePassingServer)
    → OthersSame pid s t
    → AgreeAt pid t
    → ((k : ℕ) → AgreeAt k s)
    → (k : ℕ) → AgreeAt k t
settle pid s t same own h k = elim (ℕ_discrete pid k) [
  | yes e ↦ subst (λ j. AgreeAt j t) e own
  | no n ↦ let (a, b, c, d, e, f) = same k n in Agree-same a b c d e f (h k)
]

abbrev pub Succeeds : Option MessagePassingServer → Type 0
Succeeds o = (t : MessagePassingServer) × (o ≡ some t) × IsConsistent t

-- A session that is taken, and what a tick makes of it, on the wrapper alone.
taken-Agree :
    (w : SessionWrapper) (n : ℕ) (last told drained : Bool)
    → Agree (some w) (1 + n) false last told drained
    → let (w', closed) = get_reset_closed_by_peer (set_running_while_locked w) in
      Agree (some w') n true closed (if closed then true else told) drained
unfolding get_reset_closed_by_peer set_running_while_locked
taken-Agree w n last told drained h = ground arith

pub requeued-Agree :
    (w : SessionWrapper) (n : ℕ) (last told drained requeue : Bool)
    → Agree (some w) n true last told drained
    → (reset_running_while_locked requeue w).1 ≡ true
    → Agree
        (some (reset_running_while_locked requeue w).0)
        (n + 1)
        false
        false
        told
        (not requeue && told)
unfolding reset_running_while_locked
requeued-Agree w n last told drained requeue h e = ground arith

pub rested-Agree :
    (w : SessionWrapper) (n : ℕ) (last told drained requeue : Bool)
    → Agree (some w) n true last told drained
    → (reset_running_while_locked requeue w).1 ≡ false
    → w.to_delete ≡ false
    → Agree
        (some (reset_running_while_locked requeue w).0)
        (n + 0)
        false
        false
        told
        (not requeue && told)
unfolding reset_running_while_locked
rested-Agree w n last told drained requeue h e f = ground arith

pub deleted-Agree :
    (w : SessionWrapper) (n : ℕ) (last told drained requeue : Bool)
    → Agree (some w) n true last told drained
    → (reset_running_while_locked requeue w).1 ≡ false
    → w.to_delete ≡ true
    → (n ≡ 0) × (told ≡ true)
unfolding reset_running_while_locked
deleted-Agree w n last told drained requeue h e f = ground arith

pub ==_refl : (k : ℕ) → (k == k) ≡ true
==_refl k = ground arith

pub stays-Agree :
    (o : Option SessionWrapper) (n : ℕ) (last told drained drained' : Bool)
    → Agree o n true last told drained
    → Agree o n true true true drained'
stays-Agree none n last told drained drained' h = cc
stays-Agree (some w) n last told drained drained' h = ground arith

count_self : (k : ℕ) (xs : List ℕ) → count k (k ∷ xs) ≡ 1 + count k xs
count_self k xs = ground arith

begin_tick-agree :
    (pid : ℕ) (pids : List ℕ) (w : SessionWrapper) (s : MessagePassingServer)
    → s.worker ≡ working
    → s.work_queue ≡ pid ∷ pids
    → s.pid_session_map pid ≡ some w
    → ((k : ℕ) → AgreeAt k s)
    → (k : ℕ) → AgreeAt k (begin_tick pid pids w s)
unfolding begin_tick is_told is_drained
begin_tick-agree pid pids w s e q f h =
    settle pid s (begin_tick pid pids w s)
      (λ k n. (
        set_at_other {A = Option SessionWrapper} pid k _ s.pid_session_map n,
        ground (arith, ap (count k) q, ==-distinct n),
        ==-distinct n ∙ ap (is_at k) (sym e),
        ground (arith, ap (is_last_at k) e, ==-distinct n),
        ground (arith, ==-distinct n),
        ground (arith, ==-distinct n),
      ))
      (Agree-same (set_at_same {A = Option SessionWrapper} pid _ s.pid_session_map) refl
        (==_refl pid) (ground (arith, ==_refl pid)) (ground (arith, ==_refl pid)) (ground arith)
        (taken-Agree w (count pid pids) (is_last_at pid s.worker) (is_told pid s.calls)
          (is_drained pid s.calls)
          (Agree-same (sym f) (sym (ap (count pid) q ∙ count_self pid pids))
            (ap (is_at pid) (sym e)) refl refl refl (h pid))))
      h

pub take_session-IsConsistent :
    (pid : ℕ) (pids : List ℕ) (s : MessagePassingServer)
    → s.worker ≡ working
    → s.work_queue ≡ pid ∷ pids
    → IsConsistent s
    → Succeeds (take_session pid pids s)
unfolding take_session begin_tick all_drained
take_session-IsConsistent pid pids s e q c = elim (Option-cases (s.pid_session_map pid)) [
  | inl f ↦ absurd (ground (arith, c.agree pid, count_self pid pids, ap (count pid) q))
  | inr (w, f) ↦ (
    begin_tick pid pids w s,
    rw (f, take_session) refl,
    record { agree = begin_tick-agree pid pids w s e q f c.agree; ends = ground (arith, c.ends) },
  )
]

-- What a tick leaves of a session that goes on or ends.
