-- ===== src/Rpc/Header/Laws.antt =====
-- A header reads back as it was written.
use roo_transport.Prelude.{
  ℕ, ◌%◌, ◌^◌, ◌≤◌, ◌<◌, ◌≡◌, refl, ap, ◌∙◌, le→leb, some, List, [], ◌++◌, length, length-append,
  append_assoc, append-nil, arith,
}
use roo_transport.Rpc.{RpcStatus}
use roo_transport.Rpc.Header.{
  StreamIo, RpcHeader, new_unary_request, new_unary_request_timeout, new_unary_response,
  header_mask, serialize, deserialize, max_serialized_size,
}

-- Written into a buffer of the largest size, and read back with a payload behind it.
abbrev pub ReadsBack : StreamIo → RpcHeader → Type 0
ReadsBack io h =
    (bytes : List ℕ) × (serialize io h max_serialized_size ≡ some bytes)
    × (0 < length bytes)
    × ((payload : List ℕ) → deserialize io (bytes ++ payload) ≡ some (h, payload))

module _ (io : StreamIo) where
  request_back :
      (function_id stream_id : ℕ)
      → function_id < 2 ^ 32
      → stream_id < 2 ^ 24
      → ReadsBack io (new_unary_request function_id stream_id)
  unfolding serialize deserialize new_unary_request header_mask
  request_back f s hf hs = (
    _,
    rw (le→leb (length (io.write_u8 7 ++ io.write_be_u24 s ++ io.write_var_u64 f ++ [])) 32 size)
        refl,
    nonempty,
    λ payload.
        ap (λ b. deserialize io b) (shape payload)
        ∙ rw
            (
              io.read_back_u8 7 (io.write_be_u24 s ++ (io.write_var_u64 f ++ payload))
                  (omega arith),
              io.read_back_u24 s (io.write_var_u64 f ++ payload) hs,
              io.read_back_var f payload hf,
            )
            refl,
  )
    where
      size : length (io.write_u8 7 ++ io.write_be_u24 s ++ io.write_var_u64 f ++ []) ≤ 32
      size = omega (
        arith,
        length-append (io.write_u8 7 ++ io.write_be_u24 s ++ io.write_var_u64 f) [],
        length-append (io.write_u8 7 ++ io.write_be_u24 s) (io.write_var_u64 f),
        length-append (io.write_u8 7) (io.write_be_u24 s),
        io.length_u8 7,
        io.length_u24 s,
        io.length_var f hf,
      )

      nonempty : 0 < length (io.write_u8 7 ++ io.write_be_u24 s ++ io.write_var_u64 f ++ [])
      nonempty = omega (
        arith,
        length-append (io.write_u8 7 ++ io.write_be_u24 s ++ io.write_var_u64 f) [],
        length-append (io.write_u8 7 ++ io.write_be_u24 s) (io.write_var_u64 f),
        length-append (io.write_u8 7) (io.write_be_u24 s),
        io.length_u8 7,
        io.length_u24 s,
        io.length_var f hf,
      )

      shape :
          (payload : List ℕ)
          → io.write_u8 7 ++ io.write_be_u24 s ++ io.write_var_u64 f ++ [] ++ payload
            ≡ io.write_u8 7 ++ (io.write_be_u24 s ++ (io.write_var_u64 f ++ payload))
      shape payload =
          rw
            (
              append-nil (io.write_u8 7 ++ io.write_be_u24 s ++ io.write_var_u64 f),
              append_assoc (io.write_u8 7 ++ io.write_be_u24 s) (io.write_var_u64 f) payload,
              append_assoc (io.write_u8 7) (io.write_be_u24 s) (io.write_var_u64 f ++ payload),
            )
            refl

  timeout_back :
      (function_id stream_id timeout_ms : ℕ)
      → function_id < 2 ^ 32
      → stream_id < 2 ^ 24
      → timeout_ms < 2 ^ 32
      → ReadsBack io (new_unary_request_timeout function_id stream_id timeout_ms)
  unfolding serialize deserialize new_unary_request_timeout header_mask
  timeout_back f s t hf hs ht = (
    _,
    rw
        (le→leb
          (length (io.write_u8 15 ++ io.write_be_u24 s ++ io.write_var_u64 f ++ io.write_var_u64 t))
          32 size)
        refl,
    nonempty,
    λ payload.
        ap (λ b. deserialize io b) (shape payload)
        ∙ rw
            (
              io.read_back_u8 15
                  (io.write_be_u24 s ++ (io.write_var_u64 f ++ (io.write_var_u64 t ++ payload)))
                  (omega arith),
              io.read_back_u24 s (io.write_var_u64 f ++ (io.write_var_u64 t ++ payload)) hs,
              io.read_back_var f (io.write_var_u64 t ++ payload) hf,
              io.read_back_var t payload ht,
            )
            refl,
  )
    where
      size :
          length (io.write_u8 15 ++ io.write_be_u24 s ++ io.write_var_u64 f ++ io.write_var_u64 t)
          ≤ 32
      size = omega (
        arith,
        length-append (io.write_u8 15 ++ io.write_be_u24 s ++ io.write_var_u64 f)
            (io.write_var_u64 t),
        length-append (io.write_u8 15 ++ io.write_be_u24 s) (io.write_var_u64 f),
        length-append (io.write_u8 15) (io.write_be_u24 s),
        io.length_u8 15,
        io.length_u24 s,
        io.length_var f hf,
        io.length_var t ht,
      )

      nonempty :
          0
          < length (io.write_u8 15 ++ io.write_be_u24 s ++ io.write_var_u64 f ++ io.write_var_u64 t)
      nonempty = omega (
        arith,
        length-append (io.write_u8 15 ++ io.write_be_u24 s ++ io.write_var_u64 f)
            (io.write_var_u64 t),
        length-append (io.write_u8 15 ++ io.write_be_u24 s) (io.write_var_u64 f),
        length-append (io.write_u8 15) (io.write_be_u24 s),
        io.length_u8 15,
        io.length_u24 s,
        io.length_var f hf,
        io.length_var t ht,
      )

      shape :
          (payload : List ℕ)
          → io.write_u8 15
              ++ io.write_be_u24 s
              ++ io.write_var_u64 f
              ++ io.write_var_u64 t
              ++ payload
            ≡ io.write_u8 15
              ++ (io.write_be_u24 s ++ (io.write_var_u64 f ++ (io.write_var_u64 t ++ payload)))
      shape payload =
          rw
            (
              append_assoc (io.write_u8 15 ++ io.write_be_u24 s ++ io.write_var_u64 f)
                  (io.write_var_u64 t) payload,
              append_assoc (io.write_u8 15 ++ io.write_be_u24 s) (io.write_var_u64 f)
                  (io.write_var_u64 t ++ payload),
              append_assoc (io.write_u8 15) (io.write_be_u24 s)
                  (io.write_var_u64 f ++ (io.write_var_u64 t ++ payload)),
            )
            refl

  response_back :
      (stream_id : ℕ) (status : RpcStatus)
      → stream_id < 2 ^ 24
      → status < 2 ^ 8
      → ReadsBack io (new_unary_response stream_id status)
  unfolding serialize deserialize new_unary_response header_mask
  response_back s st hs hst =
      let st_eq : st % 256 ≡ st = omega arith in
      (
        io.write_u8 6 ++ io.write_be_u24 s ++ io.write_u8 st,
        rw (st_eq, le→leb (length (io.write_u8 6 ++ io.write_be_u24 s ++ io.write_u8 st)) 32 size)
            refl,
        nonempty,
        λ payload.
            ap (λ b. deserialize io b) (shape payload)
            ∙ rw
                (
                  io.read_back_u8 6 (io.write_be_u24 s ++ (io.write_u8 st ++ payload))
                      (omega arith),
                  io.read_back_u24 s (io.write_u8 st ++ payload) hs,
                  io.read_back_u8 st payload hst,
                )
                refl,
      )
    where
      size : length (io.write_u8 6 ++ io.write_be_u24 s ++ io.write_u8 st) ≤ 32
      size = omega (
        arith,
        length-append (io.write_u8 6 ++ io.write_be_u24 s) (io.write_u8 st),
        length-append (io.write_u8 6) (io.write_be_u24 s),
        io.length_u8 6,
        io.length_u24 s,
        io.length_u8 st,
      )

      nonempty : 0 < length (io.write_u8 6 ++ io.write_be_u24 s ++ io.write_u8 st)
      nonempty = omega (
        arith,
        length-append (io.write_u8 6 ++ io.write_be_u24 s) (io.write_u8 st),
        length-append (io.write_u8 6) (io.write_be_u24 s),
        io.length_u8 6,
        io.length_u24 s,
        io.length_u8 st,
      )

      shape :
          (payload : List ℕ)
          → io.write_u8 6 ++ io.write_be_u24 s ++ io.write_u8 st ++ payload
            ≡ io.write_u8 6 ++ (io.write_be_u24 s ++ (io.write_u8 st ++ payload))
      shape payload =
          rw
            (
              append_assoc (io.write_u8 6 ++ io.write_be_u24 s) (io.write_u8 st) payload,
              append_assoc (io.write_u8 6) (io.write_be_u24 s) (io.write_u8 st ++ payload),
            )
            refl

  -- Every header that the code writes fits a buffer of the largest size, and reads back as it was
  -- written, with the payload behind it left over: a request with and without a timeout, and a
  -- response. The function and the timeout have 32 bits, the stream 24, and the status 8.
  pub header_round_trip :
      (function_id stream_id timeout_ms : ℕ) (status : RpcStatus)
      → function_id < 2 ^ 32
      → stream_id < 2 ^ 24
      → timeout_ms < 2 ^ 32
      → status < 2 ^ 8
      → ReadsBack io (new_unary_request function_id stream_id)
        × ReadsBack io (new_unary_request_timeout function_id stream_id timeout_ms)
        × ReadsBack io (new_unary_response stream_id status)
  header_round_trip f s t st hf hs ht hst =
      (request_back f s hf hs, timeout_back f s t hf hs ht, response_back s st hs hst)
