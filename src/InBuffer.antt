-- ===== src/InBuffer.antt =====
-- roo_transport/link/internal/in_buffer.h: a fragment of received data.
use roo_transport.Prelude.{ℕ, ◌%◌, leb, Option, some, List, [], length, take, check, ◌>>◌}

pub data ContentType : Type 0 where
  unset content fin : ContentType

-- `payload` is the part of `payload_` that `size_` counts.
pub record InBuffer : Type 0 where
  pub type : ContentType
  pub payload : List ℕ

unfoldable pub clear : InBuffer
clear = record { type = ContentType.unset; payload = [] }

-- `set(type, payload, size)`, the size cut to a uint8_t.
unfoldable pub set_content : ContentType → List ℕ → Option InBuffer
set_content type payload = do
  check (leb (length payload % 256) 248)
  some (record { type = type; payload = take (length payload % 256) payload })

abbrev pub size : InBuffer → ℕ
size b = length b.payload
