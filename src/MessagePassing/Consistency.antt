-- ===== src/MessagePassing/Consistency.antt =====
-- What always holds between the sessions, the queue and the worker, whatever happens in whatever
-- order: the worker finds every session that it takes, and ends none that is unfinished.
use logging.Prelude.{
  ℕ, ◌+◌, ◌≡◌, refl, sym, subst, inl, inr, Bool, true, false, not, ◌&&◌, Option, none, some, List,
  [], ◌∷◌, ◌++◌, arith, ℕ_discrete, ◌==◌, if◌then◌else◌, Option-cases,
}
use logging.MessagePassing.Session.{
  SessionWrapper, Enqueued, enqueue_for_delete_while_locked, enqueue_tick_while_locked,
  check_session, acquire_answered, NotifyResult, notified, sent, buffers_exhausted, failed,
}
use logging.MessagePassing.Server.{
  with_session, SessionCall, Position, MessagePassingServer, put_session, disconnect_wrapper,
  created, began, notified_closed, ticked, answered, destroyed, waiting, working, ticking,
  expediting,
}
use logging.Channel.State.{set_at}

abbrev pub count : ℕ → List ℕ → ℕ
count k [] = 0
count k (x ∷ xs) = (if x == k then 1 else 0) + count k xs

-- The session is being ticked.
abbrev pub is_at : ℕ → Position → Bool
is_at k waiting = false
is_at k working = false
is_at k (ticking pid closed_by_peer) = pid == k
is_at k (expediting pid) = pid == k

-- The session is being ticked, and was told before that its peer is gone.
abbrev pub is_last_at : ℕ → Position → Bool
is_last_at k waiting = false
is_last_at k working = false
is_last_at k (ticking pid closed_by_peer) = (pid == k) && closed_by_peer
is_last_at k (expediting pid) = pid == k

-- Since it was created, the session was told that its peer is gone.
unfoldable pub is_told : ℕ → List SessionCall → Bool
is_told k [] = false
is_told k (created pid ∷ calls) = if pid == k then false else is_told k calls
is_told k (notified_closed pid ∷ calls) = if pid == k then true else is_told k calls
is_told k (began pid ∷ calls) = is_told k calls
is_told k (ticked pid again ∷ calls) = is_told k calls
is_told k (answered pid ∷ calls) = is_told k calls
is_told k (destroyed pid ∷ calls) = is_told k calls

-- Since it was created, the session was told so, and its last tick came after that and did not ask to
-- be repeated.
unfoldable pub is_drained : ℕ → List SessionCall → Bool
unfolding is_told
is_drained k [] = false
is_drained k (created pid ∷ calls) = if pid == k then false else is_drained k calls
is_drained k (ticked pid again ∷ calls) =
    if pid == k then not again && is_told k calls else is_drained k calls
is_drained k (notified_closed pid ∷ calls) = is_drained k calls
is_drained k (began pid ∷ calls) = is_drained k calls
is_drained k (answered pid ∷ calls) = is_drained k calls
is_drained k (destroyed pid ∷ calls) = is_drained k calls

-- Every session that was destroyed had been drained.
unfoldable pub all_drained : List SessionCall → Bool
all_drained [] = true
all_drained (destroyed pid ∷ calls) = is_drained pid calls && all_drained calls
all_drained (created pid ∷ calls) = all_drained calls
all_drained (ticked pid again ∷ calls) = all_drained calls
all_drained (notified_closed pid ∷ calls) = all_drained calls
all_drained (began pid ∷ calls) = all_drained calls
all_drained (answered pid ∷ calls) = all_drained calls

-- How a session, the number of its entries in the queue, and what is known of it by the worker and by
-- the calls agree.
abbrev pub Agree : Option SessionWrapper → ℕ → Bool → Bool → Bool → Bool → Type 0
Agree none n at last told drained = (n ≡ 0) × (at ≡ false) × (last ≡ true → told ≡ true)
Agree (some w) n at last told drained =
    (n ≡ (if w.enqueued && not w.running then 1 else 0))
    × (w.running ≡ at)
    × (w.to_force_finish ≡ true → w.to_delete ≡ true)
    × (w.to_delete ≡ true → w.closed_by_peer ≡ false → told ≡ true)
    × (drained ≡ true → told ≡ true)
    × (last ≡ true → told ≡ true)

abbrev pub AgreeAt : ℕ → MessagePassingServer → Type 0
AgreeAt k s =
    Agree (s.pid_session_map k) (count k s.work_queue) (is_at k s.worker) (is_last_at k s.worker)
      (is_told k s.calls) (is_drained k s.calls)

pub record IsConsistent (s : MessagePassingServer) : Type 0 where
  pub agree : (k : ℕ) → AgreeAt k s
  pub ends : all_drained s.calls ≡ true

-- An operation on a wrapper that keeps it in agreement with the rest, with the entry that it adds.
abbrev pub Keeps : (SessionWrapper → Enqueued) → Type 0
Keeps f =
    (w : SessionWrapper) (n : ℕ) (at last told drained : Bool)
    → Agree (some w) n at last told drained
    → Agree (some (f w).0) (n + (if (f w).1 then 1 else 0)) at last told drained

pub enqueue_for_delete-Keeps : Keeps (enqueue_for_delete_while_locked true)
unfolding enqueue_for_delete_while_locked
enqueue_for_delete-Keeps w n at last told drained h = ground arith

pub enqueue_tick-Keeps : Keeps enqueue_tick_while_locked
unfolding enqueue_tick_while_locked
enqueue_tick-Keeps w n at last told drained h = ground arith

pub disconnect_wrapper-Keeps : Keeps disconnect_wrapper
unfolding disconnect_wrapper
disconnect_wrapper-Keeps w n at last told drained h = ground arith

pub acquire_answered-Keeps : Keeps acquire_answered
unfolding acquire_answered
acquire_answered-Keeps w n at last told drained h = ground arith

pub notified-Keeps : (result : NotifyResult) (deadline : ℕ) → Keeps (notified result deadline)
unfolding notified
notified-Keeps sent deadline w n at last told drained h = ground arith
notified-Keeps buffers_exhausted deadline w n at last told drained h = ground arith
notified-Keeps failed deadline w n at last told drained h = ground arith

pub check_session-Keeps :
    (max_misses now : ℕ) (closed : Bool) → Keeps (check_session max_misses now closed)
unfolding check_session
check_session-Keeps max_misses now true w n at last told drained h =
    enqueue_for_delete-Keeps w n at last told drained h
check_session-Keeps max_misses now false w n at last told drained h = ground arith

pub count-append :
    (k p : ℕ) (q : List ℕ) → count k (q ++ p ∷ []) ≡ count k q + (if p == k then 1 else 0)
count-append k p [] = ground arith
count-append k p (x ∷ q) = ground (arith, count-append k p q)

pub count_pushed :
    (k p : ℕ) (b : Bool) (q : List ℕ)
    → count k (if b then q ++ p ∷ [] else q)
      ≡ count k q + (if p == k then (if b then 1 else 0) else 0)
count_pushed k p b q = ground (arith, count-append k p q)

pub set_at_same : {A : Type 0} (p : ℕ) (v : A) (f : ℕ → A) → set_at p v f p ≡ v
set_at_same p v f = ground arith

pub set_at_other : {A : Type 0} (p k : ℕ) (v : A) (f : ℕ → A) → (p ≡ k → ⊥) → set_at p v f k ≡ f k
set_at_other p k v f n = ground arith

-- Equal in all that matters.
pub Agree-same :
    {o o' : Option SessionWrapper} {n n' : ℕ} {at at' last last' told told' d d' : Bool}
    → o' ≡ o
    → n' ≡ n
    → at' ≡ at
    → last' ≡ last
    → told' ≡ told
    → d' ≡ d
    → Agree o n at last told d
    → Agree o' n' at' last' told' d'
Agree-same e f g i j k h = rw (e, f, g, i, j, k) h

Agree-eq :
    {o o' : Option SessionWrapper} {n n' : ℕ} (at last told drained : Bool)
    → o' ≡ o
    → n' ≡ n
    → Agree o n at last told drained
    → Agree o' n' at last told drained
Agree-eq at last told drained e f h = rw (e, f) h

pub put_session-agree :
    (p : ℕ) (w : SessionWrapper) (s : MessagePassingServer)
    → s.pid_session_map p ≡ some w
    → (f : SessionWrapper → Enqueued) → Keeps f
    → ((k : ℕ) → AgreeAt k s)
    → (k : ℕ) → AgreeAt k (put_session p (f w) s)
unfolding put_session
put_session-agree p w s found f keeps h k = elim (ℕ_discrete p k) [
  | yes same ↦ subst (λ j. AgreeAt j (put_session p (f w) s)) same own
  | no n ↦
      Agree-eq _ _ _ _ (set_at_other p k (some (f w).0) s.pid_session_map n)
        (ground (arith, count_pushed k p (f w).1 s.work_queue)) (h k)
]
  where
    own : AgreeAt p (put_session p (f w) s)
    own =
        Agree-eq _ _ _ _ (set_at_same p (some (f w).0) s.pid_session_map)
          (ground (arith, count_pushed p p (f w).1 s.work_queue))
          (keeps w (count p s.work_queue) (is_at p s.worker) (is_last_at p s.worker)
            (is_told p s.calls) (is_drained p s.calls) (rw found at (h p)))

with_session-none :
    (p : ℕ) (f : SessionWrapper → Enqueued) (s : MessagePassingServer)
    → s.pid_session_map p ≡ none
    → with_session p f s ≡ s
unfolding with_session
with_session-none p f s e = rw (e, with_session) refl

with_session-some :
    (p : ℕ) (f : SessionWrapper → Enqueued) (s : MessagePassingServer) {w : SessionWrapper}
    → s.pid_session_map p ≡ some w
    → with_session p f s ≡ put_session p (f w) s
unfolding with_session
with_session-some p f s e = rw (e, with_session) refl

pub with_session-agree :
    (p : ℕ) (f : SessionWrapper → Enqueued) (s : MessagePassingServer)
    → Keeps f
    → ((k : ℕ) → AgreeAt k s)
    → (k : ℕ) → AgreeAt k (with_session p f s)
with_session-agree p f s keeps h k = elim (Option-cases (s.pid_session_map p)) [
  | inl e ↦ subst (AgreeAt k) (sym (with_session-none p f s e)) (h k)
  | inr (w, e) ↦
      subst (AgreeAt k) (sym (with_session-some p f s e)) (put_session-agree p w s e f keeps h k)
]

pub with_session-calls :
    (p : ℕ) (f : SessionWrapper → Enqueued) (s : MessagePassingServer)
    → (with_session p f s).calls ≡ s.calls
unfolding with_session put_session
with_session-calls p f s = ground arith
