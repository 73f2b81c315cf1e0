-- ===== src/Rpc.antt =====
-- roo_transport/rpc: remote procedure calls over messaging.
pub mod Header
pub mod Server
pub mod Client
pub mod EndToEnd
pub mod Serialization
use roo_transport.Prelude.{ℕ}

-- `RpcStatus`: an enumeration, into which the header casts any byte.
abbrev pub RpcStatus : Type 0
RpcStatus = ℕ

-- `kOk`, `kInvalidArgument`, `kDeadlineExceeded`, `kUnimplemented` and `kUnavailable`.
abbrev pub status_ok : RpcStatus
status_ok = 0

abbrev pub invalid_argument : RpcStatus
invalid_argument = 3

abbrev pub deadline_exceeded : RpcStatus
deadline_exceeded = 4

abbrev pub unimplemented : RpcStatus
unimplemented = 12

abbrev pub unavailable : RpcStatus
unavailable = 14
