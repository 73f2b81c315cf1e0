-- ===== src/Tests/MuxTests.antt =====
-- A table of channels at concrete inputs.
use roo_transport.Prelude.{ℕ, ◌≡◌, ◌≢◌, refl, some, List, [], ◌∷◌, ◌++◌, arith}
use roo_transport.Mux.{Receivers, find, register_channel, new_header, received}
use roo_transport.Mux.Laws.{register_channel-received}

abbrev one_channel : Receivers ℕ
one_channel = (3, 30) ∷ []

register_channel-received_example :
    (rs' : Receivers ℕ) × (register_channel one_channel 4 40 ≡ some rs')
    × (received rs' (new_header 4 (1 ∷ []) ++ (2 ∷ [])) ≡ some (40, 1 ∷ 2 ∷ []))
    × ((k : ℕ) (message : List ℕ)
        → k ≢ 4
        → received rs' (k ∷ message) ≡ received one_channel (k ∷ message))
unfolding find
register_channel-received_example =
    register_channel-received one_channel 4 40 (1 ∷ []) (2 ∷ []) (omega arith) refl
