-- ===== src/Channel/Interleaving.antt =====
-- The operations of a channel with the file transfer thread beside them: `SendFtVerbose` takes its
-- counter before it has the lock, so other operations can run between its two steps. The increment of
-- the counter is one step.
use logging.Prelude.{
  ℕ, ◌+◌, ◌%◌, ◌≡◌, refl, sym, ap, subst, ◌∙◌, Option, none, some, List, [], ◌∷◌, ◌++◌, append-nil,
  append_assoc, length,
}
use logging.DltFormat.Payload.{concat}
use logging.DltServer.Ids.{DltidT}
use logging.Channel.Headers.{LogEntry}
use logging.Channel.State.{◌>>=◌, map_option, Channel, Call, initial_channel}
use logging.Channel.Output.{begin_ft_verbose, end_ft_verbose, flush}
use logging.Channel.Packets.{close-current}
use logging.Channel.Specification.{all_datagrams, close, stream_of, IsReady, Stream}
use logging.Channel.Delivery.{
  Operation, operate, perform, IsPlausible, IsReady-counted, end_ft_verbose_lem, operate-perform,
  send_now, file_transfer_packet,
}
use logging.Channel.Sequences.{
  alone_bytes, bytes_of, close-IsExtended, IsExtended, next_counter, packet_of, perform-IsExtended,
  stream_bytes, unextended,
}
use logging.Channel.Guarantees.{
  concat-close, flush_lem, initial_channel-IsReady, stream_of-initial_channel,
}

-- The size of its data and the packet of a `SendFtVerbose` that waits for the lock. There is one
-- thread for file transfers.
abbrev pub Pending : Type 0
Pending = Option (ℕ × List ℕ)

pub data ChannelStep : Type 0 where
  operated : Operation → ChannelStep
  ft_begun : ℕ → LogEntry → ChannelStep
  ft_ended : ChannelStep

abbrev pub ArePlausibleSteps : List ChannelStep → Type 0
ArePlausibleSteps [] = Unit
ArePlausibleSteps (operated op ∷ steps) = IsPlausible op × ArePlausibleSteps steps
ArePlausibleSteps (ft_begun tmsp entry ∷ steps) = ArePlausibleSteps steps
ArePlausibleSteps (ft_ended ∷ steps) = ArePlausibleSteps steps

-- The packets in the order in which their operations have the lock, each with the counter that was
-- next when it took one. A step of the file transfer that is not possible does nothing.
unfoldable pub packets_of_steps : DltidT → ℕ → ℕ → Pending → List ChannelStep → List ℕ
packets_of_steps ecu threshold mcnt pending [] = []
packets_of_steps ecu threshold mcnt pending (operated op ∷ steps) =
    let packet = packet_of ecu threshold mcnt op in
    bytes_of packet ++ packets_of_steps ecu threshold (next_counter mcnt packet) pending steps
packets_of_steps ecu threshold mcnt none (ft_begun tmsp entry ∷ steps) =
    packets_of_steps ecu threshold ((mcnt + 1) % 256)
      (some (length entry.payload, file_transfer_packet tmsp entry ecu mcnt)) steps
packets_of_steps ecu threshold mcnt (some p) (ft_begun tmsp entry ∷ steps) =
    packets_of_steps ecu threshold mcnt (some p) steps
packets_of_steps ecu threshold mcnt none (ft_ended ∷ steps) =
    packets_of_steps ecu threshold mcnt none steps
packets_of_steps ecu threshold mcnt (some (data_size, packet)) (ft_ended ∷ steps) =
    packet ++ packets_of_steps ecu threshold mcnt none steps

send_now-bytes :
    (packet : List ℕ) (st : Stream)
    → stream_bytes (send_now packet (close st)) ≡ stream_bytes st ++ packet
unfolding stream_bytes
send_now-bytes packet st =
    alone_bytes packet (stream_bytes st) (close st) (close-current st)
      (close-IsExtended st (unextended st)).bytes

module _ (socket : List Call → Option (List ℕ)) where
  unfoldable pub channel_step : ChannelStep → Pending → Channel → Option (Channel × Pending)
  channel_step (operated op) pending s = map_option (λ t. (t, pending)) (operate socket op s)
  channel_step (ft_begun tmsp entry) none s =
      let (t, packet) = begin_ft_verbose tmsp entry s in
      some (t, some (length entry.payload, packet))
  channel_step (ft_begun tmsp entry) (some p) s = some (s, some p)
  channel_step ft_ended none s = some (s, none)
  channel_step ft_ended (some (data_size, packet)) s =
      map_option (λ t. (t, none)) (end_ft_verbose socket data_size packet s)

  unfoldable pub run_steps : List ChannelStep → Pending → Channel → Option (Channel × Pending)
  run_steps [] pending s = some (s, pending)
  run_steps (step ∷ steps) pending s = channel_step step pending s >>= λ r. run_steps steps r.1 r.0

  -- The steps return, and add those bytes to the stream.
  Adds : List ChannelStep → Pending → Channel → Type 0
  Adds steps pending s =
      (t : Channel) × (left : Pending) × (run_steps steps pending s ≡ some (t, left))
      × IsReady t
      × (stream_bytes (stream_of t)
          ≡ stream_bytes (stream_of s)
            ++ packets_of_steps (stream_of s).ecu (stream_of s).threshold (stream_of s).next_mcnt
                pending steps)

  operated-Adds :
      (op : Operation) (steps : List ChannelStep) (pending : Pending) (s t : Channel)
      → operate socket op s ≡ some t
      → stream_of t ≡ perform op (stream_of s)
      → Adds steps pending t
      → Adds (operated op ∷ steps) pending s
  unfolding run_steps channel_step packets_of_steps Adds
  operated-Adds op steps pending s t e stream (u, left, f, ready, bytes) =
      let x =
        subst (IsExtended (stream_of s) _) (sym stream) (perform-IsExtended op (stream_of s)) in
      (
        u,
        left,
        rw e f,
        ready,
        bytes
            ∙ rw (x.bytes, x.counter, x.same_ecu, x.same_threshold)
                (append_assoc (stream_bytes (stream_of s)) _ _),
      )

  ft_begun-Adds :
      (tmsp : ℕ) (entry : LogEntry) (steps : List ChannelStep) (s : Channel)
      → (let (t, packet) = begin_ft_verbose tmsp entry s in
          Adds steps (some (length entry.payload, packet)) t)
      → Adds (ft_begun tmsp entry ∷ steps) none s
  unfolding run_steps channel_step packets_of_steps Adds begin_ft_verbose stream_of
      file_transfer_packet stream_bytes
  ft_begun-Adds tmsp entry steps s (u, left, f, ready, bytes) = (u, left, f, ready, bytes)

  ft_ended-Adds :
      (data_size : ℕ) (packet : List ℕ) (steps : List ChannelStep) (s t : Channel)
      → end_ft_verbose socket data_size packet s ≡ some t
      → stream_of t ≡ send_now packet (close (stream_of s))
      → Adds steps none t
      → Adds (ft_ended ∷ steps) (some (data_size, packet)) s
  unfolding run_steps channel_step packets_of_steps Adds
  ft_ended-Adds data_size packet steps s t e stream (u, left, f, ready, bytes) =
      let x = close-IsExtended (stream_of s) (unextended (stream_of s)) in
      (
        u,
        left,
        rw e f,
        ready,
        bytes
            ∙ rw
                (
                  stream,
                  send_now-bytes packet (stream_of s),
                  x.counter,
                  x.same_ecu,
                  x.same_threshold,
                )
                (append_assoc (stream_bytes (stream_of s)) packet _),
      )

  run_steps-Adds :
      (steps : List ChannelStep) (pending : Pending) (s : Channel)
      → ArePlausibleSteps steps
      → IsReady s
      → Adds steps pending s
  unfolding run_steps channel_step packets_of_steps Adds begin_ft_verbose
  run_steps-Adds [] pending s p r = (s, pending, refl, r, sym (append-nil _))
  run_steps-Adds (operated op ∷ steps) pending s (p, ps) r =
      let (t, e, ready, stream) = operate-perform socket op s p r in
      operated-Adds op steps pending s t e stream (run_steps-Adds steps pending t ps ready)
  run_steps-Adds (ft_begun tmsp entry ∷ steps) none s p r =
      let (t, packet) = begin_ft_verbose tmsp entry s in
      ft_begun-Adds tmsp entry steps s (
        run_steps-Adds steps (some (length entry.payload, packet)) t p
          (IsReady-counted socket s _ _ _ _ _ _ r))
  run_steps-Adds (ft_begun tmsp entry ∷ steps) (some q) s p r = run_steps-Adds steps (some q) s p r
  run_steps-Adds (ft_ended ∷ steps) none s p r = run_steps-Adds steps none s p r
  run_steps-Adds (ft_ended ∷ steps) (some (data_size, packet)) s p r =
      let (t, e, ready, stream) = end_ft_verbose_lem socket data_size packet s r in
      ft_ended-Adds data_size packet steps s t e stream (run_steps-Adds steps none t p ready)

  -- After any operations and steps of the file transfer thread, and a flush, the datagrams that went
  -- to the socket are, one after the other, exactly the packets of the messages that the threshold
  -- lets through and of the file transfer messages that got the lock, in the order in which they had
  -- the lock. Each has the counter that was next when it took one, which a file transfer message does
  -- in a step of its own before it has the lock. At most one waits for the lock at a time.
  pub run_steps-packets_of :
      (ecu : DltidT) (threshold : ℕ) (steps : List ChannelStep)
      → ArePlausibleSteps steps
      → (t : Channel) × (left : Pending) × (run_steps steps none (initial_channel ecu threshold)
          ≡ some (t, left))
        × (u : Channel) × (flush socket t ≡ some u)
        × (concat (all_datagrams u.calls) ≡ packets_of_steps ecu threshold 0 none steps)
  unfolding Adds stream_bytes concat
  run_steps-packets_of ecu threshold steps p =
      let (t, left, e, ready, bytes) =
        run_steps-Adds steps none (initial_channel ecu threshold) p
          (initial_channel-IsReady ecu threshold) in
      let (u, f, sent) = flush_lem socket t ready in
      (
        t,
        left,
        e,
        u,
        f,
        ap concat sent
            ∙ (concat-close (stream_of t)
                ∙ (rw (stream_of-initial_channel ecu threshold) at bytes)),
      )
