-- ===== src/Client.antt =====
-- Server/Server/Client.h and Client.cpp: one connected player. The socket buffers, the mutex and the
-- log are left out; the inventory, the draws and the queue of a battle stand in the child modules.
pub mod Inventory
pub mod Draws
pub mod ActiveQueue
use isegye_idol_game_server.Common.{
  ℕ, ◌+◌, ◌-◌, ◌*◌, Bool, false, true, Option, none, List, [], ◌∷◌, ltb, if◌then◌else◌, map,
}
use isegye_idol_game_server.Types.{
  SocketStatus, free, CharacterType, no_character, Item, new_item, set_empty_item,
  max_character_max_hp, max_avatar_max_hp, ItemTicketType, normal, advanced, top, supreme,
}

-- `class Client`. `mRoomPtr` is the number of the room; `INVALID_SOCKET` and null are `none`. The
-- times are in milliseconds.
pub record Client : Type 0 where
  pub socket : Option ℕ
  pub network_id : ℕ
  pub prev_size : ℕ
  pub hp : ℕ
  pub avatar_max_hp : ℕ
  pub avatar_hp : ℕ
  pub avatar_defensive : ℕ
  pub is_alive : Bool
  pub status : SocketStatus
  pub character_type : CharacterType
  pub room : Option ℕ
  pub using_items : List Item
  pub un_using_items : List Item
  pub first_attack_state : ℕ
  pub is_choice_character : Bool
  pub last_connect_check_packet_time : ℕ
  pub normal_item_ticket_count : ℕ
  pub advanced_item_ticket_count : ℕ
  pub top_item_ticket_count : ℕ
  pub supreme_item_ticket_count : ℕ
  pub room_open_count : ℕ

-- A slot of `mUsingItems`, with its share of the order of activation.
abbrev using_slot : ℕ → ℕ → Item
using_slot slot percent = record (new_item slot) { active_percent = percent }

abbrev pub new_using_items : List Item
unfolding new_item
new_using_items =
    using_slot 0 45
    ∷ using_slot 1 45
    ∷ using_slot 2 33
    ∷ using_slot 3 33
    ∷ using_slot 4 23
    ∷ using_slot 5 23
    ∷ []

abbrev pub new_un_using_items : List Item
unfolding new_item
new_un_using_items = map new_item (6 ∷ 7 ∷ 8 ∷ 9 ∷ 10 ∷ 11 ∷ 12 ∷ 13 ∷ 14 ∷ 15 ∷ [])

-- `Client::Client`, and the number that `Server::Start` gives.
unfoldable pub new_client : ℕ → Client
new_client network_id = record {
  socket = none;
  network_id = network_id;
  prev_size = 0;
  hp = max_character_max_hp;
  avatar_max_hp = max_avatar_max_hp;
  avatar_hp = max_avatar_max_hp;
  avatar_defensive = 0;
  is_alive = false;
  status = free;
  character_type = no_character;
  room = none;
  using_items = new_using_items;
  un_using_items = new_un_using_items;
  first_attack_state = 0;
  is_choice_character = false;
  last_connect_check_packet_time = 0;
  normal_item_ticket_count = 0;
  advanced_item_ticket_count = 0;
  top_item_ticket_count = 0;
  supreme_item_ticket_count = 0;
  room_open_count = 0;
}

-- `Client::Init`, but for the call of `Room::RemoveClient`, which changes the room.
unfoldable pub init_client : Client → Client
unfolding set_empty_item
init_client c = record c {
  socket = none;
  prev_size = 0;
  hp = max_character_max_hp;
  avatar_max_hp = max_avatar_max_hp;
  avatar_hp = max_avatar_max_hp;
  avatar_defensive = 0;
  is_alive = false;
  status = free;
  character_type = no_character;
  room = none;
  using_items = map set_empty_item c.using_items;
  un_using_items = map set_empty_item c.un_using_items;
  first_attack_state = 0;
  is_choice_character = false;
  normal_item_ticket_count = 0;
  advanced_item_ticket_count = 0;
  top_item_ticket_count = 0;
  supreme_item_ticket_count = 0;
  room_open_count = 0;
}

-- `Client::ToDamage`: not below 0.
unfoldable pub to_damage_client : ℕ → Client → Client
to_damage_client n c = record c { hp = c.hp - n }

-- `Client::IsValidConnect`: heard of in the last thirty seconds.
unfoldable pub is_valid_connect : ℕ → Client → Bool
is_valid_connect now c =
    if ltb (c.last_connect_check_packet_time + 30 * 1000) now then false else true

-- `Get...ItemTicketCount` and `Set...ItemTicketCount`
unfoldable pub ticket_count : ItemTicketType → Client → ℕ
ticket_count normal c = c.normal_item_ticket_count
ticket_count advanced c = c.advanced_item_ticket_count
ticket_count top c = c.top_item_ticket_count
ticket_count supreme c = c.supreme_item_ticket_count

unfoldable pub set_ticket_count : ItemTicketType → ℕ → Client → Client
set_ticket_count normal n c = record c { normal_item_ticket_count = n }
set_ticket_count advanced n c = record c { advanced_item_ticket_count = n }
set_ticket_count top n c = record c { top_item_ticket_count = n }
set_ticket_count supreme n c = record c { supreme_item_ticket_count = n }
