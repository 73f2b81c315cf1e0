-- ===== src/Transmitter/Send.antt =====
-- `getBufferToSend` and `send` of roo_transport/link/internal/transmitter.cpp.
use roo_transport.Prelude.{
  ℕ, zero, suc, ◌+◌, ◌-◌, ◌%◌, ◌^◌, true, false, ltb, ◌==◌, ◌||◌, ◌&&◌, not, min, Option, none,
  some, if◌then◌else◌,
}
use roo_transport.Seq.{SeqNum, seq_lt, seq_ge, seq_add}
use roo_transport.Ring
use roo_transport.OutBuffer
use roo_transport.OutBuffer.{OutBuffer, Random}
use roo_transport.Transmitter.{Transmitter, State, get_out_buffer, put_out_buffer}

-- The clock of roo_time: the present time, and `Uptime::Max()`.
pub record Clock : Type 0 where
  pub now : ℕ
  pub latest : ℕ

-- `(to_send, min_send_time)`
abbrev pub Candidate : Type 0
Candidate = SeqNum × ℕ

-- The loop that looks for the earliest finished buffer, from `pos` on, with at most `fuel` rounds.
unfoldable pub scan : ℕ → Transmitter → SeqNum → Candidate → Candidate
unfolding get_out_buffer
scan zero t pos best = best
scan (suc fuel) t pos (to_send, time) = elim (seq_lt pos t.ring.end && seq_lt pos t.recv_himark) [
  | false ↦ (to_send, time)
  | true ↦
      let b = get_out_buffer t pos in
      elim b.acked [
        | true ↦ scan fuel t (seq_add pos 1) (to_send, time)
        | false ↦ elim b.flushed [
          | false ↦ (to_send, time)
          | true ↦ elim (not b.finished || b.expiration == 0) [
            | true ↦ (pos, 0)
            | false ↦
                scan fuel t (seq_add pos 1)
                  (if ltb b.expiration time then (pos, b.expiration) else (to_send, time))
          ]
        ]
      ]
]

-- `if (!buf.finished()) buf.finish();`
unfoldable pub finished_buffer : OutBuffer → OutBuffer
finished_buffer b = if b.finished then b else OutBuffer.finish b

-- The first part: the next buffer in the sequence, if it was never sent.
unfoldable pub fast_path : Transmitter → Option OutBuffer
unfolding get_out_buffer finished_buffer
fast_path t =
    if Ring.contains t.ring t.next_to_send
    then (let b = get_out_buffer t t.next_to_send in
        if not b.acked && b.flushed && (finished_buffer b).send_counter == 0
        then some (finished_buffer b)
        else none)
    else none

-- What the first part does to the next buffer where it does not send it.
unfoldable pub fast_path_finish : Transmitter → Transmitter
unfolding get_out_buffer put_out_buffer finished_buffer
fast_path_finish t =
    if Ring.contains t.ring t.next_to_send
    then (let b = get_out_buffer t t.next_to_send in
        if not b.acked && b.flushed then put_out_buffer t t.next_to_send (finished_buffer b) else t)
    else t

-- Marks the buffer at `pos` as sent, and moves `next_to_send_` behind it.
unfoldable pub emit : Transmitter → SeqNum → OutBuffer → ℕ → Random → OutBuffer × Transmitter
unfolding put_out_buffer
emit t pos b now rand =
    let sent = OutBuffer.mark_sent b now rand in
    (
      sent,
      record (put_out_buffer t pos sent) {
        next_to_send = seq_add pos 1;
        packets_sent = (t.packets_sent + 1) % 2 ^ 32;
      },
    )

-- The auto-flush: a lone buffer that is still open is closed, and sent.
unfoldable pub auto_flush : Transmitter → Option SeqNum
unfolding get_out_buffer
auto_flush t =
    if not (Ring.slots_used t.ring == 1) || seq_ge t.ring.begin t.recv_himark
    then none
    else if (get_out_buffer t t.ring.begin).finished
    then none
    else some t.ring.begin

-- What the second part settles on: nothing, a time to wait for, or a position to send.
unfoldable pub choose : Transmitter → ℕ → Option Candidate
unfolding scan auto_flush
choose t latest =
    let best = scan (Ring.slots_used t.ring) t t.ring.begin (t.ring.end, latest) in
    if Ring.contains t.ring best.0
    then some best
    else elim (auto_flush t) [ none ↦ none | some pos ↦ some (pos, 0) ]

unfoldable pub slow_path : Transmitter → ℕ → Clock → Random → Option OutBuffer × ℕ × Transmitter
unfolding choose emit get_out_buffer finished_buffer
slow_path t next_send_micros clock rand = elim (choose t clock.latest) [
  | none ↦ (none, next_send_micros, t)
  | some (pos, time) ↦
      if ltb clock.now time
      then (none, min next_send_micros (time - clock.now), t)
      else (let (b, u) = emit t pos (finished_buffer (get_out_buffer t pos)) clock.now rand in
          (some b, 0, u))
]

-- `getBufferToSend(next_send_micros)`: the buffer, the new `next_send_micros` and the new state.
unfoldable pub get_buffer_to_send :
    Transmitter → ℕ → Clock → Random → Option OutBuffer × ℕ × Transmitter
unfolding fast_path fast_path_finish emit slow_path
get_buffer_to_send t next_send_micros clock rand = elim t.state [
  | State.connected ↦ elim (fast_path t) [
    | some b ↦ let (sent, u) = emit t t.next_to_send b clock.now rand in (some sent, 0, u)
    | none ↦ slow_path (fast_path_finish t) next_send_micros clock rand
  ]
  | _ ↦ (none, next_send_micros, t)
]
