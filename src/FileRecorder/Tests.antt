-- ===== src/FileRecorder/Tests.antt =====
-- The theorems at two messages of one slot, with a header buffer that takes what fits.
use logging.Prelude.{ℕ, ◌+◌, ◌-◌, ◌≤◌, ◌≡◌, ap, List, [], ◌∷◌, ◌++◌, arith, length, take, take_all}
use logging.Channel.Headers.{LogEntry}
use logging.DltServer.Ids.{DltidT}
use logging.FileRecorder.MessageBuilder.{SvpTime, DltMessageBuilder, make_builder}
use logging.FileRecorder.Messages.{Message, packets, write_messages, write_messages-packets}
use logging.FileRecorder.Reading.{AreStorable, read_file, all_stored, read_file-packets}

abbrev ecu : DltidT
ecu = record { byte0 = 69; byte1 = 67; byte2 = 85; byte3 = 49 }

abbrev entry : List ℕ → LogEntry
entry bytes = record { app_id = ecu; ctx_id = ecu; payload = bytes; num_of_args = 1; log_level = 4 }

abbrev now : SvpTime
now = record { timestamp = 1000; sec = 77; ms = 5 }

abbrev two_messages : List Message
two_messages =
    record { slot = 3; entry = entry (1 ∷ 2 ∷ []); time = now }
    ∷ record { slot = 3; entry = entry (9 ∷ []); time = now }
    ∷ []

abbrev no_entries : ℕ → LogEntry
no_entries slot = entry []

abbrev bounded_put : List ℕ → List ℕ → List ℕ
bounded_put held bytes = held ++ take (512 - length held) bytes

bounded_put_room :
    (held bytes : List ℕ)
    → length held + length bytes ≤ 512
    → bounded_put held bytes ≡ held ++ bytes
bounded_put_room held bytes h =
    ap (λ b. held ++ b) (take_all (512 - length held) bytes (omega arith))

abbrev builder : ℕ → DltMessageBuilder
builder count = record (make_builder ecu) { message_count = count }

write_messages-packets_example :
    ((write_messages bounded_put two_messages no_entries (builder 255)).1
      ≡ packets ecu 255 two_messages)
    × ((write_messages bounded_put two_messages no_entries (builder 255)).0 ≡ builder 1)
write_messages-packets_example =
    write_messages-packets bounded_put bounded_put_room ecu 255 two_messages no_entries
      (omega arith)

two_messages-AreStorable : AreStorable two_messages
two_messages-AreStorable = (
  record {
    payload_bound = omega arith;
    level_bound = omega arith;
    timestamp_bound = omega arith;
    sec_bound = omega arith;
  },
  (
    record {
      payload_bound = omega arith;
      level_bound = omega arith;
      timestamp_bound = omega arith;
      sec_bound = omega arith;
    },
    tt,
  ),
)

read_file-packets_example :
    read_file 2 (packets ecu 255 two_messages) ≡ all_stored ecu 255 two_messages
read_file-packets_example = read_file-packets ecu 255 two_messages two_messages-AreStorable
