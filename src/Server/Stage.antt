-- ===== src/Server/Stage.antt =====
-- Server.cpp: what the cases of `ProcessPacket` share: the room of a client, its stage, and the answer
-- with the client's inventory.
use isegye_idol_game_server.Common.{ℕ, Bool, true, false, Option, none, some}
use isegye_idol_game_server.Client.{Client}
use isegye_idol_game_server.Packet.{inventory_info_packet}
use isegye_idol_game_server.World.{
  World, RoomStatusType, choice_character, ready_stage, update, send_packet_in_all_room_clients,
}

-- The world after a request; `none` is a read or a write out of bounds.
abbrev pub Outcome : Type 0
Outcome = Option World

abbrev pub is_ready_stage : RoomStatusType → Bool
is_ready_stage ready_stage = true
is_ready_stage _ = false

abbrev pub is_choice_stage : RoomStatusType → Bool
is_choice_stage choice_character = true
is_choice_stage _ = false

-- `room == nullptr` returns at once.
abbrev pub with_room : Option ℕ → World → (ℕ → Outcome) → Outcome
with_room none w f = some w
with_room (some r) w f = f r

-- The inventory of the client `id`, to all of the room of the client `network_id`.
unfoldable pub send_inventory : ℕ → ℕ → World → World
send_inventory network_id id w =
    send_packet_in_all_room_clients network_id (inventory_info_packet (w.clients id)) w

unfoldable pub put_client : ℕ → Client → World → World
put_client id c w = record w { clients = update w.clients id c }

-- The client `id` is changed, where that stays within bounds, and its room is told.
abbrev pub changed : ℕ → ℕ → ℕ → World → Option Client → Outcome
changed network_id id changing w none = none
changed network_id id changing w (some c) =
    some (send_inventory network_id id (put_client changing c w))
