-- ===== src/Server/Reassembly.antt =====
-- Server.cpp: `PacketConstruct`, which puts the packets together again from the bytes as they come.
pub mod Frames
use isegye_idol_game_server.Common.{
  ℕ, zero, suc, ◌+◌, ◌-◌, ◌*◌, Option, none, some, List, [], ◌∷◌, ◌++◌, length, ltb, leb, ◌==◌,
  ◌||◌, if◌then◌else◌,
}

abbrev pub max_packet_size : ℕ
max_packet_size = 1300

abbrev pub take {ℓ} : {A : Type ℓ} → ℕ → List A → List A
take zero xs = []
take (suc n) [] = []
take (suc n) (x ∷ xs) = x ∷ take n xs

abbrev pub drop {ℓ} : {A : Type ℓ} → ℕ → List A → List A
drop zero xs = xs
drop (suc n) [] = []
drop (suc n) (x ∷ xs) = drop n xs

-- `reinterpret_cast<uint16_t*>(p)[0]`: the first two bytes, the low one first. Where fewer have come,
-- the source reads what happens to stand behind them.
abbrev pub header : List ℕ → Option ℕ
header [] = none
header (a ∷ []) = none
header (a ∷ b ∷ bytes) = some (a + 256 * b)

-- What the loop comes to: the packets handed to `ProcessPacket` in their order and the bytes kept for
-- the next call; a read or a write out of bounds; or the fuel is used up.
pub data Constructed : Type 0 where
  kept : List (List ℕ) → List ℕ → Constructed
  out_of_bounds out_of_fuel : Constructed

abbrev pub packet_before : List ℕ → Constructed → Constructed
packet_before packet (kept packets buf) = kept (packet ∷ packets) buf
packet_before packet out_of_bounds = out_of_bounds
packet_before packet out_of_fuel = out_of_fuel

-- One turn of the loop, once the size of the packet is known; `next` is the rest of the loop. A size
-- below what is kept would copy a negative number of bytes.
unfoldable pub construct_packet : ℕ → List ℕ → List ℕ → (List ℕ → Constructed) → Constructed
construct_packet packet_size buf rest next =
    let missing = packet_size - length buf in
    let packet = buf ++ take missing rest in
    if ltb (length buf + length rest) packet_size
    then (if ltb max_packet_size (length buf + length rest)
        then out_of_bounds
        else kept [] (buf ++ rest))
    else (if ltb packet_size (length buf) || ltb max_packet_size packet_size
        then out_of_bounds
        else packet_before packet (next (drop missing rest)))

abbrev pub size_or_header : ℕ → List ℕ → Option ℕ
size_or_header zero rest = header rest
size_or_header (suc n) rest = some (suc n)

-- `while (restByte > 0)`: `packet_size` is 0 where no packet has been begun.
unfoldable pub construct_loop : ℕ → ℕ → List ℕ → List ℕ → Constructed
unfolding construct_packet
construct_loop fuel packet_size buf [] = kept [] buf
construct_loop zero packet_size buf (x ∷ rest) = out_of_fuel
construct_loop (suc fuel) packet_size buf (x ∷ rest) =
    elim (size_or_header packet_size (x ∷ rest)) [
      | none ↦ out_of_bounds
      | some size ↦ construct_packet size buf (x ∷ rest) (λ rest'. construct_loop fuel 0 [] rest')
    ]

-- `Server::PacketConstruct`: the bytes kept before, and the bytes that have come.
unfoldable pub packet_construct : ℕ → List ℕ → List ℕ → Constructed
unfolding construct_loop
packet_construct fuel [] bytes = construct_loop fuel 0 [] bytes
packet_construct fuel (x ∷ buf) bytes = elim (header (x ∷ buf)) [
  | none ↦ out_of_bounds
  | some size ↦ construct_loop fuel size (x ∷ buf) bytes
]
