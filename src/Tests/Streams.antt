-- ===== src/Tests/Streams.antt =====
-- The properties of `PacketConstruct` on two packets that come in pieces.
use isegye_idol_game_server.Common.{◌≡◌, refl, inr, [], ◌∷◌, arith}
use isegye_idol_game_server.Server.Reassembly.{packet_construct, kept, out_of_fuel}
use isegye_idol_game_server.Server.Reassembly.Frames.{
  packet_construct-frames, packet_construct-stuck,
}

-- The header of the first packet has come; the rest of it, the second packet and the header of a third
-- follow.
packet_construct-frames_example :
    packet_construct 7 (4 ∷ 0 ∷ []) (9 ∷ 1 ∷ 3 ∷ 0 ∷ 7 ∷ 5 ∷ 0 ∷ [])
    ≡ kept ((4 ∷ 0 ∷ 9 ∷ 1 ∷ []) ∷ (3 ∷ 0 ∷ 7 ∷ []) ∷ []) (5 ∷ 0 ∷ [])
packet_construct-frames_example =
    packet_construct-frames 7 (4 ∷ 0 ∷ []) (9 ∷ 1 ∷ 3 ∷ 0 ∷ 7 ∷ 5 ∷ 0 ∷ [])
      ((4 ∷ 0 ∷ 9 ∷ 1 ∷ []) ∷ (3 ∷ 0 ∷ 7 ∷ []) ∷ []) (5 ∷ 0 ∷ [])
      ((refl, omega arith, omega arith), ((refl, omega arith, omega arith), tt))
      (inr (4, refl, omega arith, omega arith)) (inr (5, refl, omega arith, omega arith)) refl
      (omega arith)

packet_construct-stuck_example : packet_construct 1000 [] (0 ∷ 0 ∷ 3 ∷ []) ≡ out_of_fuel
packet_construct-stuck_example = packet_construct-stuck 1000 (0 ∷ 0 ∷ 3 ∷ []) refl
