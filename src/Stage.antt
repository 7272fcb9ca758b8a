-- ===== src/Stage.antt =====
-- Server/Server/Room.cpp: what the stages of a room share. A stage runs in the room's own thread. The
-- other threads act while it sleeps, and before the test that ends the thread after the default items:
-- `others` is what they do to the server at the `n`th of these moments; what they do between two of them
-- counts to the next one.
pub mod Bout
pub mod Creep
pub mod Fight
pub mod Prepare
pub mod Battle
pub mod Monsters
pub mod Ready
pub mod Progress
pub mod Marked
pub mod Freed
pub mod Settled
pub mod Carries
pub mod Hurt
pub mod Listed
pub mod Noted
pub mod Turns
pub mod Safety
pub mod Upkeep
pub mod Arming
pub mod Fought
pub mod Prepared
pub mod Staged
use isegye_idol_game_server.Common.{
  ℕ, ◌+◌, Bool, true, false, not, ◌||◌, Option, none, some, List, [], ◌∷◌, ◌++◌, ltb, ◌==◌,
  if◌then◌else◌,
}
use isegye_idol_game_server.Types.{pos, max_user}
use isegye_idol_game_server.Packet.{Packet, notification, NotificationType}
use isegye_idol_game_server.World.{
  World, Room, RoomStatusType, modify_room, send_packet_to_all_clients,
}
use isegye_idol_game_server.Server.Connections.{disconnect}

-- What the other threads do.
abbrev pub Others : Type 0
Others = ℕ → World → World

-- What the loops of a stage carry on: the server, the packets written to the memory stream, the players
-- to disconnect, the count of the items used, and whether a null pointer was followed, an array left or
-- a number divided by zero.
pub record Scene : Type 0 where
  pub world : World
  pub stream : List Packet
  pub leaving : List ℕ
  pub effect_item_count : ℕ
  pub fault : Bool

abbrev pub on_world : (World → World) → Scene → Scene
on_world f s = record s { world = f s.world }

-- `Sleep`
unfoldable pub sleep : Others → World → World
sleep others w = record (others w.clock w) { clock = w.clock + 1 }

-- The other threads act while this one does not sleep.
abbrev pub interrupted : Others → World → World
interrupted others w = sleep others w

-- `memoryStream.Write`
unfoldable pub write : List Packet → Scene → Scene
write packets s = record s { stream = s.stream ++ packets }

-- `room.SendPacketToAllClients(memoryStream...)`; the next block has a stream of its own.
unfoldable pub send_stream : ℕ → Scene → Scene
unfolding send_packet_to_all_clients
send_stream r s = record s { world = send_packet_to_all_clients r s.stream s.world; stream = [] }

-- The test that ends a stage: the room still runs, for the players with which it was opened.
unfoldable pub goes_on : ℕ → ℕ → World → Bool
goes_on r open_count w =
    not (
      not (w.rooms r).is_run
      || ltb (w.rooms r).size 2
      || not ((w.rooms r).open_count == open_count))

unfoldable pub set_status : ℕ → RoomStatusType → World → World
unfolding modify_room
set_status r status w = modify_room r (λ room. record room { cur_room_status_type = status }) w

abbrev pub ended : Scene → Option World → Scene
ended s none = record s { fault = true }
ended s (some w) = record s { world = w }

-- `Server::Disconnect(networkID, false)` for each of them, which reads `sClients[networkID]`.
unfoldable pub disconnect_all : List ℕ → Scene → Scene
disconnect_all [] s = s
disconnect_all (i ∷ ids) s =
    disconnect_all ids
      (if ltb i max_user then ended s (disconnect i false s.world) else record s { fault = true })

abbrev pub insert : ℕ → List ℕ → List ℕ
insert i [] = i ∷ []
insert i (x ∷ xs) =
    let rest = x ∷ insert i xs in if ltb i x then i ∷ x ∷ xs else (if i == x then x ∷ xs else rest)

-- `sort` and `unique`: in rising order, each once.
unfoldable pub unique : List ℕ → List ℕ
unique [] = []
unique (i ∷ ids) = insert i (unique ids)

abbrev farewells : List ℕ → List Packet
farewells [] = []
farewells (i ∷ ids) = notification (pos i) NotificationType.disconnect_server ∷ farewells ids

abbrev pub is_empty {ℓ} : {A : Type ℓ} → List A → Bool
is_empty [] = true
is_empty (x ∷ xs) = false

-- The end of each block of a stage: the players without life are told and disconnected, once each.
unfoldable pub send_off : Others → ℕ → Scene → Scene
unfolding unique write send_stream sleep disconnect_all
send_off others r s =
    let ids = unique s.leaving in
    let s' = write (farewells ids) (record s { leaving = [] }) in
    let s'' = if is_empty s'.stream then s' else on_world (sleep others) (send_stream r s') in
    disconnect_all ids s''
