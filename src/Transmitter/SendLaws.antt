-- ===== src/Transmitter/SendLaws.antt =====
-- `getBufferToSend` and `flush` of roo_transport/link/internal/transmitter.cpp between writes.
use roo_transport.Prelude.{◌≡◌}
use roo_transport.Ring
use roo_transport.OutBuffer
use roo_transport.OutBuffer.{OutBuffer}
use roo_transport.Transmitter.{Transmitter}
use roo_transport.Transmitter.Queue.{Inv, outgoing}

-- The bytes that wait are the same, and the invariant holds.
abbrev pub Keeps : Transmitter → Transmitter → Type 0
Keeps t t' = Inv t' × (outgoing t' ≡ outgoing t)
