-- ===== src/World.antt =====
-- The state that the threads of the server share: `Server::sClients`, the rooms of `RoomManager`, the
-- generator of random numbers and what has been sent. The code runs here one call after the other.
pub mod Safe
use isegye_idol_game_server.Common.{
  ℕ, Bool, true, false, ◌&&◌, Option, none, some, List, [], ◌∷◌, ◌==◌, if◌then◌else◌,
}
pub use isegye_idol_game_server.Types.{Random, InRange}
use isegye_idol_game_server.Types.{ℤ}
use isegye_idol_game_server.Client.{Client}
use isegye_idol_game_server.Packet.{Packet}
use isegye_idol_game_server.Matching.{BattleInfo}
use isegye_idol_game_server.Queue.{ServerQueue}

-- `ERoomStatusType`
pub data RoomStatusType : Type 0 where
  choice_character cut_scene_stage ready_stage battle_stage creep_stage : RoomStatusType

-- `class Room`, but for `mItemQueues`, which nothing uses. `Client*` is the index of the client; of the
-- battle manager there are the players between two calls, when no one is matched.
pub record Room : Type 0 where
  pub clients : List ℕ
  pub size : ℕ
  pub number : ℕ
  pub battle_manager : List BattleInfo
  pub battle_opponents : List ℤ
  pub is_run : Bool
  pub is_finish_choice_character : Bool
  pub open_count : ℕ
  pub round : ℕ
  pub cur_room_status_type : RoomStatusType
  pub creep_round : ℕ
  pub is_finish_thread : Bool

-- One call of `WSASend`: the client's index and the packets of the buffer.
pub record Message : Type 0 where
  pub receiver : ℕ
  pub packets : List Packet

-- `clients` and `rooms` are the arrays `Server::sClients`, of `max_user` clients, and that of the room
-- manager, by index: who reads them by a number that nothing vouches for tests it first (`at_client` of
-- Server, `look_up`, `are_numbered` and `disconnect_all` of Stage), and past the end there is no client.
-- `draws` counts the numbers drawn so far and `clock` the moments at which other threads acted; `sent`
-- has the newest message first.
pub record World : Type 0 where
  pub clients : ℕ → Client
  pub rooms : ℕ → Room
  pub queue : ServerQueue
  pub draws : ℕ
  pub clock : ℕ
  pub sent : List Message

abbrev pub update {ℓ} : {A : Type ℓ} → (ℕ → A) → ℕ → A → ℕ → A
update f i v j = if i == j then v else f j

unfoldable pub modify_client : ℕ → (Client → Client) → World → World
modify_client i f w = record w { clients = update w.clients i (f (w.clients i)) }

unfoldable pub modify_room : ℕ → (Room → Room) → World → World
modify_room r f w = record w { rooms = update w.rooms r (f (w.rooms r)) }

abbrev pub deliver : List ℕ → List Packet → List Message → List Message
deliver [] packets sent = sent
deliver (c ∷ cs) packets sent =
    deliver cs packets (record { receiver = c; packets = packets } ∷ sent)

-- `Room::SendPacketToAllClients`
unfoldable pub send_packet_to_all_clients : ℕ → List Packet → World → World
send_packet_to_all_clients r packets w = record w {
  sent = deliver (w.rooms r).clients packets w.sent;
}

-- `Client::SendPacketInAllRoomClients`
unfoldable pub send_packet_in_all_room_clients : ℕ → Packet → World → World
unfolding send_packet_to_all_clients
send_packet_in_all_room_clients i packet w = elim (w.clients i).room [
  | none ↦ w
  | some r ↦ send_packet_to_all_clients r (packet ∷ []) w
]

abbrev pub is_some {ℓ} : {A : Type ℓ} → Option A → Bool
is_some none = false
is_some (some a) = true

abbrev is_number : Option ℕ → ℕ → Bool
is_number none n = false
is_number (some m) n = m == n

-- `Room::IsValidClientInThisRoom`
unfoldable pub is_valid_client_in_this_room : World → ℕ → Option ℕ → Bool
is_valid_client_in_this_room w r none = false
is_valid_client_in_this_room w r (some i) =
    is_some (w.clients i).socket
    && is_number (w.clients i).room r
    && (w.clients i).room_open_count == (w.rooms r).open_count
