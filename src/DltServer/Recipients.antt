-- ===== src/DltServer/Recipients.antt =====
-- dlt_log_server.cpp, SendNonVerbose, SendVerbose and SendFtVerbose: which channels get a message, and
-- what each of them makes of it, without the functions that choose and call.
use logging.Prelude.{
  ℕ, ◌<◌, ◌≡◌, refl, ◌∙◌, Bool, true, false, ◌&&◌, Option, none, some, List, [], ◌∷◌, arith, ltb,
  ◌==◌, if◌then◌else◌, length, u32_mod,
}
use logging.DltServer.Ids.{DltidT}
use logging.DltServer.Server.{DltLogServer, mask_none}
use logging.DltServer.Routing.{
  assigned_to_channels, filter_and_call, is_accepted_by_filtering, send_ft_verbose,
}
use logging.DltServer.Filtering.{filter_and_call-occurs, occurs}
use logging.DltServer.Sending.{
  AreReady, ft_message, Message, nv_message, receivers, send_to_channels, send_to_channels-perform,
  sender, verbose_message,
}
use logging.Channel.Headers.{construct_non_verbose_packet}
use logging.Channel.State.{Call, Channel}
use logging.Channel.Delivery.{file_transfer_packet, IsPlausible, perform, whole_verbose_packet}
use logging.Channel.Specification.{accept, close, send_alone, Stream, stream_of}

-- A message is for channel `k` if the filters accept it and the channel is one that the server has and
-- that is assigned to it, or the default channel when none is assigned.
abbrev pub is_routed : {Double : Type 0} → DltLogServer Double → DltidT → DltidT → ℕ → ℕ → Bool
is_routed s app_id ctx_id log_level k =
    is_accepted_by_filtering s app_id ctx_id log_level
    && (if mask_none (assigned_to_channels s app_id ctx_id)
        then s.default_channel == k
        else ltb k (length s.channels) && assigned_to_channels s app_id ctx_id k)

-- With a channel for core dumps, file transfers are for that channel alone, accepted or not.
abbrev pub is_recipient : {Double : Type 0} → DltLogServer Double → Message → ℕ → Bool
is_recipient s (nv_message log_level app_id ctx_id msgid tmsp data_) k =
    is_routed s app_id ctx_id log_level k
is_recipient s (verbose_message tmsp entry) k =
    is_routed s entry.app_id entry.ctx_id entry.log_level k
is_recipient s (ft_message tmsp entry) k = elim s.coredump_channel [
  | some i ↦ i == k
  | none ↦ is_routed s entry.app_id entry.ctx_id entry.log_level k
]

-- What a channel makes of it: a packet with its next counter, which joins the buffered ones unless the
-- level is above the channel's threshold, or, for a file transfer, leaves behind them at once.
abbrev pub received : Message → Stream → Stream
received (nv_message log_level app_id ctx_id msgid tmsp data_) st =
    if ltb st.threshold log_level
    then st
    else accept false (λ m. construct_non_verbose_packet data_ msgid st.ecu m tmsp) st
received (verbose_message tmsp entry) st =
    if ltb st.threshold entry.log_level
    then st
    else accept true (whole_verbose_packet tmsp entry st.ecu) st
received (ft_message tmsp entry) st =
    send_alone (file_transfer_packet tmsp entry st.ecu st.next_mcnt) (close st)

-- The payload of a verbose message fits the 32-bit arithmetic of `SendVerbose`.
abbrev pub HasPayloadSize : Message → Type 0
HasPayloadSize (nv_message log_level app_id ctx_id msgid tmsp data_) = Unit
HasPayloadSize (verbose_message tmsp entry) = length entry.payload < u32_mod
HasPayloadSize (ft_message tmsp entry) = Unit

sender-IsPlausible : (m : Message) → HasPayloadSize m → IsPlausible (sender m)
unfolding sender
sender-IsPlausible (nv_message log_level app_id ctx_id msgid tmsp data_) h = tt
sender-IsPlausible (verbose_message tmsp entry) h = h
sender-IsPlausible (ft_message tmsp entry) h = tt

perform-sender : (m : Message) (st : Stream) → perform (sender m) st ≡ received m st
unfolding sender perform
perform-sender (nv_message log_level app_id ctx_id msgid tmsp data_) st = refl
perform-sender (verbose_message tmsp entry) st = refl
perform-sender (ft_message tmsp entry) st = refl

coredump-occurs :
    (o : Option ℕ) (is : List ℕ) (k : ℕ) {b : Bool}
    → occurs k is ≡ b
    → occurs k (elim o [ some i ↦ i ∷ [] | none ↦ is ])
      ≡ elim o as (λ x. Bool) [ some i ↦ i == k | none ↦ b ]
coredump-occurs none is k e = e
coredump-occurs (some i) is k e = ground arith

receivers-is_recipient :
    {Double : Type 0} (s : DltLogServer Double) (m : Message) (k : ℕ)
    → occurs k (receivers s m) ≡ is_recipient s m k
unfolding receivers send_ft_verbose
receivers-is_recipient s (nv_message log_level app_id ctx_id msgid tmsp data_) k =
    filter_and_call-occurs s app_id ctx_id log_level k
receivers-is_recipient s (verbose_message tmsp entry) k =
    filter_and_call-occurs s entry.app_id entry.ctx_id entry.log_level k
receivers-is_recipient s (ft_message tmsp entry) k =
    coredump-occurs s.coredump_channel (filter_and_call s entry.app_id entry.ctx_id entry.log_level)
      k (filter_and_call-occurs s entry.app_id entry.ctx_id entry.log_level k)

module _ (sockets : ℕ → List Call → Option (List ℕ)) where
  -- Whatever the sockets answer, a message goes exactly once to each channel that it is for and to no
  -- other. A non-verbose or verbose message is for a channel exactly if the filters accept it and the
  -- channel is assigned to it, or is the default channel and none is assigned; a file transfer is for
  -- the channel for core dumps, if there is one, and else as a verbose message. Each of those channels
  -- makes of it what its kind asks for, the streams of the others stay as they were, and every channel
  -- keeps its indices in range. Verbose payloads are shorter than 4 GiB.
  pub send_to_channels-received :
      {Double : Type 0} (s : DltLogServer Double) (m : Message) (cs : ℕ → Channel)
      → HasPayloadSize m
      → AreReady cs
      → (ds : ℕ → Channel) × (send_to_channels sockets s m cs ≡ some ds)
        × AreReady ds
        × ((k : ℕ)
            → stream_of (ds k)
              ≡ (if is_recipient s m k then received m (stream_of (cs k)) else stream_of (cs k)))
  send_to_channels-received s m cs p r =
      let (ds, e, ready, streams) =
        send_to_channels-perform sockets s m cs (sender-IsPlausible m p) r in
      (
        ds,
        e,
        ready,
        λ k.
            streams k ∙ rw (receivers-is_recipient s m k, perform-sender m (stream_of (cs k))) refl,
      )
