-- ===== src/Mux.antt =====
-- roo_transport/messaging/mux_messaging.h and mux_messaging.cpp: several channels over one messaging
-- connection. The underlying messaging is a parameter of what uses it: here it is the value that is
-- handed to its `send`, and what its receiver is given.
pub mod Laws
use roo_transport.Prelude.{
  ℕ, ◌%◌, Bool, true, false, ◌==◌, Option, none, some, List, [], ◌∷◌, ◌++◌, if◌then◌else◌,
}

-- The receivers by the identifier of their channel; `A` is a receiver.
abbrev pub Receivers : Type 0 → Type 0
Receivers A = List (ℕ × A)

-- `receivers_.find(channel_id)`
unfoldable pub find : {A : Type 0} → Receivers A → ℕ → Option A
find [] id = none
find ((k, a) ∷ rest) id = if k == id then some a else find rest id

-- `registerChannel`: the CHECK fails if the identifier is taken.
unfoldable pub register_channel : {A : Type 0} → Receivers A → ℕ → A → Option (Receivers A)
register_channel rs id a = elim (find rs id) [ none ↦ some ((id, a) ∷ rs) | some b ↦ none ]

unfoldable pub erase : {A : Type 0} → Receivers A → ℕ → Receivers A
erase [] id = []
erase ((k, a) ∷ rest) id = if k == id then rest else (k, a) ∷ erase rest id

-- `unregisterChannel`: the CHECK fails if there is no such channel.
unfoldable pub unregister_channel : {A : Type 0} → Receivers A → ℕ → Option (Receivers A)
unregister_channel rs id = elim (find rs id) [ none ↦ none | some b ↦ some (erase rs id) ]

-- `Channel::send` and `Channel::sendContinuation`: the header and the payload that go to the
-- underlying messaging. The identifier is one byte.
unfoldable pub new_header : ℕ → List ℕ → List ℕ
new_header id header = id % 256 ∷ header

-- `Dispatcher::received`: the receiver that gets the message, and the rest of the message; `none`
-- if it is too short or the channel is unknown. The message is the header and the payload.
unfoldable pub received : {A : Type 0} → Receivers A → List ℕ → Option (A × List ℕ)
received rs [] = none
received rs (id ∷ rest) = elim (find rs id) [ none ↦ none | some a ↦ some (a, rest) ]
