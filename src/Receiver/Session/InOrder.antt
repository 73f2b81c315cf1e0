-- ===== src/Receiver/Session/InOrder.antt =====
-- The receiver as its user sees it: a byte stream.
use roo_transport.InBuffer.{InBuffer}
use roo_transport.Receiver.{Receiver}
use roo_transport.Receiver.Session.{Session}
