-- ===== src/OutBuffer.antt =====
-- roo_transport/link/internal/out_buffer.h and out_buffer.cpp: a fragment of outbound data.
pub mod Write
use roo_transport.Prelude.{
  ℕ, ◌+◌, ◌-◌, ◌%◌, ◌^◌, Bool, true, false, ltb, leb, Option, some, List, [], ◌++◌, length, take,
  if◌then◌else◌, check, ◌>>◌,
}
use roo_transport.Seq.{SeqNum}
use roo_transport.Protocol.{PacketType, format_packet_header, set_packet_header_type_fin}
use roo_transport.Backoff.{retry_backoff_micros}

-- `header` is the number that the first two bytes of `payload_` hold, most significant byte first;
-- `payload` is the bytes behind them that `size_` counts (the rest are never read). Times are
-- microseconds, and `Uptime::Start()` is 0. `final_` is written once and read by nothing.
pub record OutBuffer : Type 0 where
  pub header : ℕ
  pub payload : List ℕ
  pub acked : Bool
  pub flushed : Bool
  pub finished : Bool
  pub expiration : ℕ
  pub send_counter : ℕ

unfoldable pub new_out_buffer : OutBuffer
new_out_buffer = record {
  header = 0;
  payload = [];
  acked = false;
  flushed = false;
  finished = false;
  expiration = 0;
  send_counter = 0;
}

unfoldable pub init : SeqNum → Bool → OutBuffer
init seq control_bit = record {
  header = format_packet_header seq PacketType.data_packet control_bit;
  payload = [];
  acked = false;
  flushed = false;
  finished = false;
  expiration = 0;
  send_counter = 0;
}

-- `248 - size_` as a 32-bit size_t.
abbrev pub room : OutBuffer → ℕ
room b = (248 + 2 ^ 32 - length b.payload) % 2 ^ 32

-- `write(buf, count)`, with the number of bytes taken; `none` is the failed CHECK.
unfoldable pub write : OutBuffer → List ℕ → Option (ℕ × OutBuffer)
write b bytes = if b.finished then some (0, b) else do
  check (ltb 0 (room b))
  (if leb (room b) (length bytes)
      then some (
        room b,
        record b {
          payload = b.payload ++ take (room b) bytes;
          flushed = true;
          finished = true;
          expiration = 0;
        },
      )
      else some (length bytes, record b { payload = b.payload ++ bytes }))

unfoldable pub flush : OutBuffer → OutBuffer
flush b = record b { flushed = true }

unfoldable pub finish : OutBuffer → OutBuffer
finish b = record b { flushed = true; finished = true; expiration = 0 }

unfoldable pub mark_final : OutBuffer → OutBuffer
mark_final b = record b { header = set_packet_header_type_fin b.header }

unfoldable pub ack : OutBuffer → OutBuffer
ack b = record b { acked = true }

-- The random number generator: its largest number, and the number drawn now.
pub record Random : Type 0 where
  pub random_max : ℕ
  pub draw : ℕ

-- `markSent(now)`; `Backoff` is `RetryBackoffMicros` from 5000 us up to 200000 us.
unfoldable pub mark_sent : OutBuffer → ℕ → Random → OutBuffer
mark_sent b now rand =
    let count = (if ltb b.send_counter 255 then b.send_counter + 1 else b.send_counter) in
    record b {
      send_counter = count;
      expiration = now + retry_backoff_micros rand.random_max 5000 200000 count rand.draw;
    }

-- `rush()`
unfoldable pub rush : OutBuffer → Option OutBuffer
rush b = do check (ltb 0 b.send_counter); some (record b { expiration = 0 })
