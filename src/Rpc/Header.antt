-- ===== src/Rpc/Header.antt =====
-- roo_transport/rpc/internal/header.h and header.cpp: the header of a request or a response.
pub mod Laws
use roo_transport.Prelude.{
  ℕ, ◌+◌, ◌/◌, ◌%◌, ◌^◌, ◌≤◌, ◌<◌, ◌≡◌, Bool, true, false, ◌==◌, leb, not, ◌&&◌, if◌then◌else◌,
  check, Option, none, some, List, [], ◌++◌, length, ◌>>=◌, ◌>>◌,
}
use roo_transport.Rpc.{RpcStatus, status_ok}

-- What the code uses of roo_io's data/write.h and data/read.h over a stretch of memory. A read gives
-- the value and what follows it, or `none`, which leaves the iterator in an error state for good.
pub record StreamIo : Type 0 where
  pub write_u8 : ℕ → List ℕ
  pub write_be_u24 : ℕ → List ℕ
  pub write_var_u64 : ℕ → List ℕ
  pub read_u8 : List ℕ → Option (ℕ × List ℕ)
  pub read_be_u24 : List ℕ → Option (ℕ × List ℕ)
  pub read_var_u32 : List ℕ → Option (ℕ × List ℕ)
  pub length_u8 : (v : ℕ) → length (write_u8 v) ≡ 1
  pub length_u24 : (v : ℕ) → length (write_be_u24 v) ≡ 3
  -- Seven bits in a byte.
  pub length_var : (v : ℕ) → v < 2 ^ 32 → length (write_var_u64 v) ≤ 5
  pub read_back_u8 :
      (v : ℕ) (rest : List ℕ) → v < 2 ^ 8 → read_u8 (write_u8 v ++ rest) ≡ some (v, rest)
  pub read_back_u24 :
      (v : ℕ) (rest : List ℕ) → v < 2 ^ 24 → read_be_u24 (write_be_u24 v ++ rest) ≡ some (v, rest)
  pub read_back_var :
      (v : ℕ) (rest : List ℕ) → v < 2 ^ 32 → read_var_u32 (write_var_u64 v ++ rest) ≡ some (v, rest)

pub data MessageType : Type 0 where
  unset request response : MessageType

-- The members of the union stand side by side: a header reads only those that its type names.
pub record RpcHeader : Type 0 where
  pub type : MessageType
  pub first_message : Bool
  pub last_message : Bool
  pub has_timeout : Bool
  pub stream_id : ℕ
  pub function_id : ℕ
  pub timeout_ms : ℕ
  pub status : RpcStatus

-- `kMaxSerializedSize`
abbrev pub max_serialized_size : ℕ
max_serialized_size = 32

-- `RpcHeader()`
abbrev pub new_header : RpcHeader
new_header = record {
  type = MessageType.unset;
  first_message = false;
  last_message = false;
  has_timeout = false;
  stream_id = 0;
  function_id = 0;
  timeout_ms = 0;
  status = status_ok;
}

abbrev pub is_request : RpcHeader → Bool
is_request h = elim h.type [ MessageType.request ↦ true | _ ↦ false ]

abbrev pub is_response : RpcHeader → Bool
is_response h = elim h.type [ MessageType.response ↦ true | _ ↦ false ]

-- `NewUnaryRequest` without and with a timeout.
unfoldable pub new_unary_request : ℕ → ℕ → RpcHeader
new_unary_request function_id stream_id = record new_header {
  type = MessageType.request;
  first_message = true;
  last_message = true;
  has_timeout = false;
  stream_id = stream_id;
  function_id = function_id;
  timeout_ms = 0;
}

unfoldable pub new_unary_request_timeout : ℕ → ℕ → ℕ → RpcHeader
new_unary_request_timeout function_id stream_id timeout_ms = record new_header {
  type = MessageType.request;
  first_message = true;
  last_message = true;
  has_timeout = true;
  stream_id = stream_id;
  function_id = function_id;
  timeout_ms = timeout_ms;
}

unfoldable pub new_unary_response : ℕ → RpcStatus → RpcHeader
new_unary_response stream_id status = record new_header {
  type = MessageType.response;
  first_message = true;
  last_message = true;
  has_timeout = false;
  stream_id = stream_id;
  status = status;
}

-- The accessors whose CHECK names the type.
unfoldable pub get_function_id : RpcHeader → Option ℕ
get_function_id h = do check (is_request h && h.first_message); some h.function_id

unfoldable pub get_timeout_ms : RpcHeader → Option ℕ
get_timeout_ms h = do check (is_request h && h.first_message && h.has_timeout); some h.timeout_ms

unfoldable pub response_status : RpcHeader → Option RpcStatus
response_status h = do check (is_response h && h.last_message); some h.status

-- The flags share no bit, so `|` is `+`.
unfoldable pub header_mask : RpcHeader → ℕ
header_mask h =
    (if is_request h then 1 else 0)
    + (if h.first_message then 2 else 0)
    + (if h.last_message then 4 else 0)
    + (if h.has_timeout then 8 else 0)

module _ (io : StreamIo) where
  -- `serialize(buffer, buffer_size)`: what is written. The CHECK fails if it does not fit.
  unfoldable pub serialize : RpcHeader → ℕ → Option (List ℕ)
  serialize h buffer_size =
      let start = io.write_u8 (header_mask h) ++ io.write_be_u24 h.stream_id in
      let bytes =
        if is_request h && h.first_message
        then start
          ++ io.write_var_u64 h.function_id
          ++ (if h.has_timeout then io.write_var_u64 h.timeout_ms else [])
        else if is_response h && h.last_message
        then start ++ io.write_u8 (h.status % 256)
        else start in
      do check (leb (length bytes) buffer_size); some bytes

  -- `deserialize(buffer, buffer_size)` into a new header: the header and what follows it in the
  -- buffer; `none` is the result 0, after which no caller looks at the header.
  unfoldable pub deserialize : List ℕ → Option (RpcHeader × List ℕ)
  deserialize buffer = do
    (mask, b1) ← io.read_u8 buffer
    check (mask / 16 % 16 == 0)
    (stream_id, b2) ← io.read_be_u24 b1
    let first = not (mask / 2 % 2 == 0)
    let last = not (mask / 4 % 2 == 0)
    let timed = not (mask / 8 % 2 == 0)
    let is_req = not (mask % 2 == 0)
    let h : RpcHeader = record new_header {
      type = if is_req then MessageType.request else MessageType.response;
      first_message = first;
      last_message = last;
      has_timeout = timed;
      stream_id = stream_id;
    }
    elim (is_req && first) [
      | true ↦ do
        (function_id, b3) ← io.read_var_u32 b2
        elim timed [
          | true ↦ do
            (timeout_ms, b4) ← io.read_var_u32 b3
            some (record h { function_id = function_id; timeout_ms = timeout_ms }, b4)
          | false ↦ some (record h { function_id = function_id; timeout_ms = 0 }, b3)
        ]
      | false ↦ elim (not is_req && last) [
        | true ↦ do (status, b3) ← io.read_u8 b2; some (record h { status = status }, b3)
        | false ↦ some (h, b2)
      ]
    ]
