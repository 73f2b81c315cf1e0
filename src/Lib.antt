-- ===== src/Lib.antt =====
-- A verification of the transport protocol of roo_transport: a reliable, ordered, bidirectional
-- byte stream over a lossy packet link, and the services built on it.
--
-- The program and its model. A link cuts outgoing bytes into packets of at most 250 bytes with a
-- 16-bit header, keeps them in a window until the peer acknowledges them, retransmits them with
-- growing delays, and puts the packets of the peer back in order. A file models the C++ file it
-- names; an operation keeps its name in snake case.
--   Prelude          shared notation, Boolean tests, lists and options over the native numbers
--   Seq              roo_transport/link/internal/seq_num.h
--   Ring             roo_transport/link/internal/ring_buffer.h, link/link_buffer_size.h
--   Protocol         roo_transport/link/internal/protocol.h
--   Backoff          roo_transport/link/internal/retry_backoff.h
--   OutBuffer        roo_transport/link/internal/out_buffer.h and out_buffer.cpp
--   Transmitter      roo_transport/link/internal/transmitter.h and transmitter.cpp
--   InBuffer         roo_transport/link/internal/in_buffer.h
--   Receiver         roo_transport/link/internal/receiver.h and receiver.cpp
--   Guarded          roo_transport/link/internal/thread_safe/thread_safe_transmitter.* and
--                    thread_safe_receiver.*: the two halves under a mutex, with a stream check
--   Channel          roo_transport/link/internal/thread_safe/channel.*: connection and handshake,
--                    dispatch of received packets, the sender's rounds
--   Mux              roo_transport/messaging/mux_messaging.*
--   Table            the maps that the RPC classes keep
--   LinkMessaging    roo_transport/link/link_messaging.*: message framing, the receive loop
--   Packets          roo_transport/packets/over_stream: frames with a hash, over a byte stream
--   Rpc              roo_transport/rpc: Header, Server, Client (files of the same names, and
--                    internal), Serialization, and EndToEnd, which joins them
--   Io               the byte stores and loads of the roo_io library, which is not part of the
--                    repository: a record of functions and the laws they keep
-- A channel owns a transmitter and a receiver: received packets go to one of them by their type,
-- and each round of the sender asks both for packets. Applications reach the halves through
-- Guarded. LinkMessaging cuts the stream of a channel into messages; Mux shares the messages among
-- channels; Rpc sends its headers and payloads as messages. Packets carries the packets of a channel
-- over a serial line. Receiver.Session puts the receiver into a connection: a relation of steps, one
-- for each packet that arrives, each read, and each other call that changes the receiver and does not
-- end the connection. Rpc.Server.Once and Rpc.Client.Once do the same for the
-- critical sections of the threads of a server and a client. All paths are relative to the repository's src/. Tests holds runs at concrete inputs.
--
-- Conventions. An object is a record of its fields, a method a function from the record to the
-- results and the new record. Machine integers are natural numbers with the wrap written out (% 2
-- ^ w). A CHECK that fails, and only that or fuel that runs out, is `none`. A DCHECK is only in
-- debug builds and is left out, but for `may_set_fin` of Protocol. A size_t has 32 bits. Locks, time and
-- random numbers are not part of the state: a call is atomic, the clock and the random draw are
-- arguments.
--
-- Fuel. `read_loop` frees a slot in each round but the last, so one more than the used slots is
-- enough; `unack_loop` moves over a used slot in each round, `write_loop` takes a byte in each
-- round but the last, `pop_acked` pops a slot in each round and one more may be appended,
-- `rush_loop` walks over used slots, and `drain` pops one in each round. The theorems on these
-- loops, except `drain`, have a result of the call in their conclusion, so they show that the
-- fuel is enough. The same holds of `receive_loop`, where a round takes four bytes or ends the loop,
-- `process_loop`, where it takes a byte, and `expire_all`, where it takes a pending call.
--
-- Not modelled. The links and streams over a channel, which wrap its calls; the typed adapters of
-- rpc/server.h and rpc/client.h, templates over the application's types; the serializers of the
-- signed and 64-bit integers, which have the shape of those of the unsigned ones; and the wait for
-- outgoing data, a flag under a condition variable. The platform files under
-- roo_transport/link/arduino, esp_idf and pico, threads and condition variables, which only
-- schedule the modelled calls; examples, benchmarks and build files.
pub mod Prelude
pub mod Seq
pub mod Ring
pub mod Protocol
pub mod Backoff
pub mod OutBuffer
pub mod Transmitter
pub mod Io
mod Tests
pub mod InBuffer
pub mod Receiver
pub mod Guarded
pub mod Channel
pub mod Mux
pub mod Table
pub mod LinkMessaging
pub mod Packets
pub mod Rpc
