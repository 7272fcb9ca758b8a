-- ===== src/Room.antt =====
-- Server/Server/Room.h and Room.cpp: who is in a room; RoomManager.h and RoomManager.cpp: which room is
-- free. The stages of a room stand in the child modules.
use isegye_idol_game_server.Common.{
  ℕ, zero, suc, ◌+◌, ◌-◌, Bool, true, false, not, ◌&&◌, ◌||◌, Option, none, some, List, [], ◌∷◌,
  ◌++◌, map, length, ltb, ◌==◌, if◌then◌else◌, ◌>>=◌,
}
use isegye_idol_game_server.Types.{max_room_player, max_room_count, pos}
use isegye_idol_game_server.Client.{Client}
use isegye_idol_game_server.Packet.{Packet, notification, NotificationType}
use isegye_idol_game_server.Matching
use isegye_idol_game_server.Matching.{BattleInfo, Matched, set_clients, get_battle_opponent}
use isegye_idol_game_server.World.{
  World, Room, Random, choice_character, modify_client, modify_room, deliver,
  send_packet_to_all_clients,
}

-- `Room::Room`, with the number that `RoomManager::RoomManager` gives.
abbrev pub new_room : ℕ → Room
new_room number = record {
  clients = [];
  size = 0;
  number = number;
  battle_manager = [];
  battle_opponents = [];
  is_run = false;
  is_finish_choice_character = false;
  open_count = 0;
  round = 0;
  cur_room_status_type = choice_character;
  creep_round = 0;
  is_finish_thread = true;
}

-- `Room::Init`
unfoldable pub init_room : Room → Room
init_room r = record r {
  clients = [];
  size = 0;
  is_run = false;
  is_finish_choice_character = false;
  round = 0;
  cur_room_status_type = choice_character;
  creep_round = 0;
}

-- `Client::SetRoom`
unfoldable pub set_room : ℕ → ℕ → Client → Client
set_room r open_count c = record c { room = some r; room_open_count = open_count }

-- The loop of `AddClients`.
unfoldable pub seat : ℕ → List ℕ → World → World
unfolding modify_client modify_room set_room
seat r [] w = w
seat r (i ∷ clients) w =
    let w' =
      modify_room r (λ room. record room { clients = room.clients ++ i ∷ []; size = room.size + 1 })
        w in
    seat r clients (modify_client i (set_room r (w'.rooms r).open_count) w')

abbrev right_of : World → ℕ → ℕ × ℕ
right_of w i = ((w.clients i).network_id, (w.clients i).first_attack_state)

-- `Room::AddClients`; `none` where the battle manager reads past the clients.
unfoldable pub add_clients : ℕ → List ℕ → World → Option World
unfolding seat modify_room
add_clients r clients w = if (w.rooms r).size == max_room_player then some w else do
  let w' = seat r clients w
  infos ← set_clients (map (right_of w') clients)
  some (modify_room r (λ room. record room { battle_manager = infos }) w')

unfoldable pub contains : ℕ → List ℕ → Bool
contains i [] = false
contains i (x ∷ xs) = x == i || contains i xs

-- The first occurrence goes.
unfoldable pub without : ℕ → List ℕ → List ℕ
without i [] = []
without i (x ∷ xs) = let rest = without i xs in if x == i then xs else x ∷ rest

unfoldable pub init_if_empty : Room → Room
unfolding init_room
init_if_empty r = if r.size == 0 then init_room r else r

-- `Room::RemoveClient`, of the client `i` with that number.
unfoldable pub remove_room_client : ℕ → ℕ → Room → Room
unfolding contains without init_if_empty
remove_room_client i network_id r = init_if_empty (
    if contains i r.clients
    then record r {
      clients = without i r.clients;
      battle_manager = Matching.remove_client network_id r.battle_manager;
      size = r.size - 1;
    }
    else r)

unfoldable pub others : ℕ → List ℕ → List ℕ
others i [] = []
others i (x ∷ xs) = let rest = others i xs in if x == i then rest else x ∷ rest

-- `Room::SendPacketToAnotherClients`
unfoldable pub send_packet_to_another_clients : ℕ → ℕ → List Packet → World → World
unfolding others
send_packet_to_another_clients r i packets w = record w {
  sent = deliver (others i (w.rooms r).clients) packets w.sent;
}

-- `Client::SendPacketInAnotherRoomClients`
unfoldable pub send_packet_in_another_room_clients : ℕ → Packet → World → World
unfolding send_packet_to_another_clients
send_packet_in_another_room_clients i packet w = elim (w.clients i).room [
  | none ↦ w
  | some r ↦ send_packet_to_another_clients r i (packet ∷ []) w
]

-- The list of opponents and the players, where there are some.
matched : ℕ → World → Matched → Option World
unfolding modify_room
matched r w none = none
matched r w (some (opponents, infos)) =
    some (
      modify_room r (λ room. record room { battle_opponents = opponents; battle_manager = infos })
        w)

-- `Room::ApplyRandomBattleOpponent`. There is at most one draw for each player; the next number is
-- counted from there.
unfoldable pub apply_random_battle_opponent :
    (List BattleInfo → List BattleInfo) → Random → ℕ → World → Option World
unfolding matched
apply_random_battle_opponent shuffle random r w =
    if ltb (w.rooms r).size 2
    then some w
    else matched r (record w { draws = w.draws + length (w.rooms r).battle_manager })
        (get_battle_opponent shuffle random w.draws (w.rooms r).battle_manager)

unfoldable pub ready_count : World → List ℕ → ℕ
ready_count w [] = 0
ready_count w (i ∷ clients) =
    (if (w.clients i).is_choice_character then 1 else 0) + ready_count w clients

-- `Room::TrySendEnterInGame`
unfoldable pub try_send_enter_in_game : ℕ → World → World
unfolding ready_count modify_room
try_send_enter_in_game r w =
    if ltb (length (w.rooms r).clients) 2
    then w
    else (if ready_count w (w.rooms r).clients == length (w.rooms r).clients
          && not (w.rooms r).is_finish_choice_character
        then modify_room r (λ room. record room { is_finish_choice_character = true })
            (send_packet_to_all_clients r
              (notification (pos 0) NotificationType.choice_all_character ∷ []) w)
        else w)

-- The loop of `GetUnUsedRoom` over `n` rooms from number `r` on; `none` where none is free.
unfoldable pub find_un_used_room : ℕ → ℕ → World → Option ℕ
find_un_used_room zero r w = none
find_un_used_room (suc n) r w =
    let rest = find_un_used_room n (r + 1) w in
    if not (w.rooms r).is_run && (w.rooms r).is_finish_thread then some r else rest

abbrev opened : Option ℕ → World → World × ℕ
opened none w = (
  modify_room (max_room_count - 1) (λ room. record room { open_count = room.open_count + 1 }) w,
  max_room_count - 1,
)
opened (some r) w =
    (modify_room r (λ room. record room { is_run = true; open_count = room.open_count + 1 }) w, r)

-- `RoomManager::GetUnUsedRoom`: the first free room; where none is free the last one, whoever plays
-- in it.
unfoldable pub get_un_used_room : World → World × ℕ
unfolding find_un_used_room modify_room
get_un_used_room w = opened (find_un_used_room max_room_count 0 w) w
