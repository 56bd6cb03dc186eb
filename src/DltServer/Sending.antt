-- ===== src/DltServer/Sending.antt =====
-- dlt_log_server.cpp, SendNonVerbose, SendVerbose and SendFtVerbose: the channels that are chosen for
-- a message take it into their buffers, each with its own socket. The channels are numbered as in
-- `channels_`; an index that is chosen is in range (Delivery).
use logging.Prelude.{
  ℕ, ◌+◌, ◌<◌, ◌≡◌, refl, sym, subst, ◌∙◌, inl, inr, true, false, Option, none, some, List, [], ◌∷◌,
  arith, ℕ_discrete, ◌==◌, if◌then◌else◌, Bool-cases,
}
use logging.DltServer.Filtering.{occurs, Ascending, filter_and_call-Ascending}
use logging.DltServer.Routing.{filter_and_call, send_ft_verbose}
use logging.DltServer.Server.{DltLogServer}
use logging.DltServer.Ids.{DltidT}
use logging.Channel.State.{Channel, Call, set_at, ◌>>=◌}
use logging.Channel.Headers.{LogEntry}
use logging.Channel.Delivery.{Operation, operate, perform, IsPlausible, operate-perform}
use logging.Channel.Delivery.Operation.{non_verbose, verbose, file_transfer}
use logging.Channel.Specification.{IsReady, stream_of}

-- The arguments of the three functions. A descriptor is its level, its two identifiers and the
-- identifier of the message.
pub data Message : Type 0 where
  nv_message : ℕ → DltidT → DltidT → ℕ → ℕ → List ℕ → Message
  verbose_message : ℕ → LogEntry → Message
  ft_message : ℕ → LogEntry → Message

-- What the function `sender` calls on a channel.
unfoldable pub sender : Message → Operation
sender (nv_message log_level app_id ctx_id msgid tmsp data_) =
    non_verbose log_level msgid tmsp data_
sender (verbose_message tmsp entry) = verbose tmsp entry
sender (ft_message tmsp entry) = file_transfer tmsp entry

unfoldable pub receivers : {Double : Type 0} → DltLogServer Double → Message → List ℕ
receivers s (nv_message log_level app_id ctx_id msgid tmsp data_) =
    filter_and_call s app_id ctx_id log_level
receivers s (verbose_message tmsp entry) =
    filter_and_call s entry.app_id entry.ctx_id entry.log_level
receivers s (ft_message tmsp entry) = send_ft_verbose s entry.app_id entry.ctx_id entry.log_level

==_refl : (i : ℕ) → (i == i) ≡ true
==_refl i = ground arith

==-distinct : {i k : ℕ} → (i ≡ k → ⊥) → (i == k) ≡ false
==-distinct {i} {k} n = elim (Bool-cases (i == k)) [ inl e ↦ absurd (n (ground arith)) | inr e ↦ e ]

before_not_there : (k b : ℕ) (is : List ℕ) → Ascending b is → k < b → occurs k is ≡ false
before_not_there k b [] a h = refl
before_not_there k b (i ∷ is) (le, a) h =
    ground (arith, before_not_there k (i + 1) is a (omega arith))

receivers-Ascending :
    {Double : Type 0} (s : DltLogServer Double) (m : Message) → Ascending 0 (receivers s m)
unfolding receivers send_ft_verbose
receivers-Ascending s (nv_message log_level app_id ctx_id msgid tmsp data_) =
    filter_and_call-Ascending s app_id ctx_id log_level
receivers-Ascending s (verbose_message tmsp entry) =
    filter_and_call-Ascending s entry.app_id entry.ctx_id entry.log_level
receivers-Ascending s (ft_message tmsp entry) =
    coredump_or s.coredump_channel _
      (filter_and_call-Ascending s entry.app_id entry.ctx_id entry.log_level)
  where
    coredump_or :
        (o : Option ℕ) (is : List ℕ)
        → Ascending 0 is
        → Ascending 0 (elim o [ some i ↦ i ∷ [] | none ↦ is ])
    coredump_or none is a = a
    coredump_or (some i) is a = (omega arith, tt)

abbrev pub AreReady : (ℕ → Channel) → Type 0
AreReady cs = (k : ℕ) → IsReady (cs k)

-- The streams of the channels in the list have performed the operation, the others have not.
abbrev pub HavePerformed : Operation → List ℕ → (ℕ → Channel) → (ℕ → Channel) → Type 0
HavePerformed op is cs ds =
    (k : ℕ)
    → stream_of (ds k) ≡ (if occurs k is then perform op (stream_of (cs k)) else stream_of (cs k))

module _ (sockets : ℕ → List Call → Option (List ℕ)) where
  unfoldable pub call_each : Operation → List ℕ → (ℕ → Channel) → Option (ℕ → Channel)
  call_each op [] cs = some cs
  call_each op (i ∷ is) cs = operate (sockets i) op (cs i) >>= λ c. call_each op is (set_at i c cs)

  unfoldable pub send_to_channels :
      {Double : Type 0} → DltLogServer Double → Message → (ℕ → Channel) → Option (ℕ → Channel)
  send_to_channels s m cs = call_each (sender m) (receivers s m) cs

  AreReady-set_at :
      (i : ℕ) (c : Channel) (cs : ℕ → Channel) → IsReady c → AreReady cs → AreReady (set_at i c cs)
  AreReady-set_at i c cs rc r k = elim (Bool-cases (k == i)) [
    | inl e ↦ rw e rc
    | inr e ↦ rw e (r k)
  ]

  HavePerformed-cons :
      (op : Operation) (i : ℕ) (is : List ℕ) (c : Channel) (cs ds : ℕ → Channel)
      → Ascending (i + 1) is
      → stream_of c ≡ perform op (stream_of (cs i))
      → HavePerformed op is (set_at i c cs) ds
      → HavePerformed op (i ∷ is) cs ds
  HavePerformed-cons op i is c cs ds a e h k = elim (ℕ_discrete i k) [
    | yes q ↦
        subst
          (λ j.
            stream_of (ds j)
            ≡ (if occurs j (i ∷ is) then perform op (stream_of (cs j)) else stream_of (cs j)))
          q at_i
    | no n ↦ elsewhere n
  ]
    where
      at_i :
          stream_of (ds i)
          ≡ (if occurs i (i ∷ is) then perform op (stream_of (cs i)) else stream_of (cs i))
      at_i =
          rw (==_refl i)
            (rw (before_not_there i (i + 1) is a (omega arith), ==_refl i) at (h i) ∙ e)

      elsewhere :
          (i ≡ k → ⊥)
          → stream_of (ds k)
            ≡ (if occurs k (i ∷ is) then perform op (stream_of (cs k)) else stream_of (cs k))
      elsewhere n = rw (==-distinct n) (rw (==-distinct (λ q. n (sym q))) at (h k))

  call_each-perform :
      (op : Operation) (b : ℕ) (is : List ℕ) (cs : ℕ → Channel)
      → IsPlausible op
      → Ascending b is
      → AreReady cs
      → (ds : ℕ → Channel) × (call_each op is cs ≡ some ds)
        × AreReady ds
        × HavePerformed op is cs ds
  unfolding call_each
  call_each-perform op b [] cs p a r = (cs, refl, r, λ k. refl)
  call_each-perform op b (i ∷ is) cs p (le, a) r =
      let (c, e, ready, stream) = operate-perform (sockets i) op (cs i) p (r i) in
      let (ds, e', ready', streams) =
        call_each-perform op (i + 1) is (set_at i c cs) p a (AreReady-set_at i c cs ready r) in
      (ds, rw e e', ready', HavePerformed-cons op i is c cs ds a stream streams)

  -- A message goes to each channel that the server chooses for it exactly once, and to no other:
  -- whatever the sockets answer, the streams of those channels change as the operation of the
  -- message says, all others stay as they were, and every channel keeps its indices in range.
  pub send_to_channels-perform :
      {Double : Type 0} (s : DltLogServer Double) (m : Message) (cs : ℕ → Channel)
      → IsPlausible (sender m)
      → AreReady cs
      → (ds : ℕ → Channel) × (send_to_channels s m cs ≡ some ds)
        × AreReady ds
        × HavePerformed (sender m) (receivers s m) cs ds
  unfolding send_to_channels
  send_to_channels-perform s m cs p r =
      call_each-perform (sender m) 0 (receivers s m) cs p (receivers-Ascending s m) r
