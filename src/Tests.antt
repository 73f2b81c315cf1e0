-- ===== src/Tests.antt =====
-- Theorems applied at concrete inputs, and runs of the definitions.
mod ReceiverTests
mod SessionTests
mod RingTests
mod TransmitterTests
mod ConcreteIo
mod ConcreteStream
mod RpcTests
mod SerializationTests
mod ChannelTests
mod MuxTests
mod PacketTests
