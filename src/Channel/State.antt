-- ===== src/Channel/State.antt =====
-- The state of `DltLogChannel` (dlt_log_channel.h) with its statistics.
-- A `Channel` is what `mutex_` protects, with the threshold.
use logging.Prelude.{
  ℕ, zero, suc, ◌+◌, ◌-◌, Bool, false, Option, none, some, List, [], ◌∷◌, ◌++◌, ◌==◌, if◌then◌else◌,
  ==_iff, take, replicate, add64,
}
use logging.DltServer.Ids.{DltidT}
use logging.DltServer.Maps.{Key, find_entry, assign, value_or}
use logging.DltServer.Config.{string_key}

pub record DltLogChannelStatistics : Type 0 where
  pub stats_msgcnt : ℕ
  pub stats_totalsize : ℕ
  pub send_failures_count : ℕ
  pub send_errno_count : List (List ℕ × ℕ)

abbrev pub no_statistics : DltLogChannelStatistics
no_statistics = record {
  stats_msgcnt = 0;
  stats_totalsize = 0;
  send_failures_count = 0;
  send_errno_count = [];
}

-- A datagram is its bytes; one call of `sendmmsg` or `sendmsg` hands over a list of them.
abbrev pub Call : Type 0
Call = List (List ℕ)

-- The members of `DltLogChannel` that its operations use. A `std::array` is a function from its
-- indices; `iov_len` holds the sizes in `io_vec_`, whose bases are the buffers of the same index.
-- `calls` is what went to the socket, the first call first.
pub record Channel : Type 0 where
  pub ecu : DltidT
  pub channel_threshold : ℕ
  pub mcnt : ℕ
  pub count_verbose_messages_in_buffer : ℕ
  pub count_nonverbose_messages_in_buffer : ℕ
  pub vector_index : ℕ
  pub prebuf_data : ℕ → List ℕ
  pub iov_len : ℕ → ℕ
  pub prebuf_size : ℕ
  pub prebuf_is_verbose : Bool
  pub verbose : DltLogChannelStatistics
  pub non_verbose : DltLogChannelStatistics
  pub message_id_data_stats : List (ℕ × ℕ)
  pub calls : List Call

abbrev pub udp_max_payload : ℕ
udp_max_payload = 1500 - (20 + 8)

abbrev pub vector_count : ℕ
vector_count = 4

unfoldable pub initial_channel : DltidT → ℕ → Channel
initial_channel ecu threshold = record {
  ecu = ecu;
  channel_threshold = threshold;
  mcnt = 0;
  count_verbose_messages_in_buffer = 0;
  count_nonverbose_messages_in_buffer = 0;
  vector_index = 0;
  prebuf_data = λ i. replicate udp_max_payload 0;
  iov_len = λ i. 0;
  prebuf_size = 0;
  prebuf_is_verbose = false;
  verbose = no_statistics;
  non_verbose = no_statistics;
  message_id_data_stats = [];
  calls = [];
}

-- `a.at(i) = v` inside the array
abbrev pub set_at {ℓ} : {A : Type ℓ} → ℕ → A → (ℕ → A) → ℕ → A
set_at i v a j = if j == i then v else a j

abbrev pub map_option {ℓ} : {A B : Type ℓ} → (A → B) → Option A → Option B
map_option f none = none
map_option f (some a) = some (f a)

infixl 5 ◌>>=◌
abbrev pub ◌>>=◌ {ℓ} : {A B : Type ℓ} → Option A → (A → Option B) → Option B
none >>= f = none
some a >>= f = f a

-- The datagrams of the first `n` entries of `mmsg_hdr_array_`.
unfoldable pub mmsg_span : ℕ → (ℕ → List ℕ) → (ℕ → ℕ) → Call
mmsg_span zero buffers sizes = []
mmsg_span (suc n) buffers sizes = mmsg_span n buffers sizes ++ (take (sizes n) (buffers n) ∷ [])

instance abbrev pub number_key : Key ℕ
number_key = record { same = ◌==◌; same_iff = ==_iff }

-- `++send_failures_count; ++send_errno_count[error]`
unfoldable pub count_failure : List ℕ → DltLogChannelStatistics → DltLogChannelStatistics
count_failure error s = record s {
  send_failures_count = add64 s.send_failures_count 1;
  send_errno_count =
      assign error (add64 (value_or (find_entry error s.send_errno_count) 0) 1) s.send_errno_count;
}

unfoldable pub count_message : ℕ → DltLogChannelStatistics → DltLogChannelStatistics
count_message size s = record s {
  stats_msgcnt = add64 s.stats_msgcnt 1;
  stats_totalsize = add64 s.stats_totalsize size;
}
