-- ===== src/Tests/Inputs.antt =====
-- The inputs: three players of Client.h, two states of the server, and two generators that keep their
-- bounds.
use isegye_idol_game_server.Common.{
  ℕ, ◌≡◌, ◌≢◌, refl, true, false, some, List, [], ◌∷◌, arith, ltb, ltb→lt, all-get_elem?,
  Bool-cases, inl, inr, ◌-◌,
}
use isegye_idol_game_server.Types.{Item, active, woowakgood, normal, top}
use isegye_idol_game_server.Client.{Client, ticket_count}
use isegye_idol_game_server.Client.Inventory.{get_item}
use isegye_idol_game_server.Client.Inventory.Slots.{IsInventory}
use isegye_idol_game_server.Client.Inventory.Valid.{IsValid, checked-IsValid}
use isegye_idol_game_server.Client.ActiveQueue.Order.{HasShares}
use isegye_idol_game_server.Client.ActiveQueue.{get_item_active_queue}
use isegye_idol_game_server.Queue.{new_queue}
use isegye_idol_game_server.World.{World, Room, Random, InRange, RoomStatusType, battle_stage}
use isegye_idol_game_server.Server.Safety.{AllValid}
use isegye_idol_game_server.Server.Spending.{IsFull}
use isegye_idol_game_server.World.Safe.{IsSafeWorld}
use isegye_idol_game_server.Queue.Waiting.{new_queue-IsQueue}
use isegye_idol_game_server.Avatar.{BattleAvatar}
use isegye_idol_game_server.Avatar.Setup.{set_avatar}
use isegye_idol_game_server.Items.Battle.{IsArmed}
use isegye_idol_game_server.Stage.{Scene}
use isegye_idol_game_server.Stage.Prepare.{new_scene, put_on}
use isegye_idol_game_server.Stage.Battle.{queue_items}
use isegye_idol_game_server.Stage.Safety.{IsEquipped}
use isegye_idol_game_server.Stage.Arming.{
  put_on-IsEquipped, set_active_queue-IsEquipped, queue_items-IsArmed,
}

abbrev pub lowest_draws : Random
lowest_draws n lo hi = lo

pub lowest_draws-InRange : InRange lowest_draws
lowest_draws-InRange n lo hi h = (omega arith, h)

abbrev pub highest_draws : Random
highest_draws n lo hi = hi

pub highest_draws-InRange : InRange highest_draws
highest_draws-InRange n lo hi h = (h, omega arith)

abbrev pub place : ℕ → ℕ → ℕ → ℕ → Item
place slot percent type upgrade = record {
  type = type;
  active_percent = percent;
  upgrade = upgrade;
  slot = slot;
}

-- A player in room 0 with those items, and three tickets.
abbrev pub with_items : List Item → List Item → Client
with_items using_items un_using_items = record {
  socket = some 7;
  network_id = 0;
  prev_size = 0;
  hp = 100;
  avatar_max_hp = 100;
  avatar_hp = 100;
  avatar_defensive = 0;
  is_alive = true;
  status = active;
  character_type = woowakgood;
  room = some 0;
  using_items = using_items;
  un_using_items = un_using_items;
  first_attack_state = 0;
  is_choice_character = true;
  last_connect_check_packet_time = 0;
  normal_item_ticket_count = 2;
  advanced_item_ticket_count = 0;
  top_item_ticket_count = 1;
  supreme_item_ticket_count = 0;
  room_open_count = 1;
}

-- Six items in use, two of a kind among five in store.
abbrev pub player : Client
player =
    with_items
      (place 0 45 1 0
        ∷ place 1 45 24 1
        ∷ place 2 33 27 2
        ∷ place 3 33 29 0
        ∷ place 4 23 32 1
        ∷ place 5 23 0 0
        ∷ [])
      (place 6 0 24 1
        ∷ place 7 0 5 0
        ∷ place 8 0 5 0
        ∷ place 9 0 6 0
        ∷ place 10 0 0 0
        ∷ place 11 0 0 0
        ∷ place 12 0 0 0
        ∷ place 13 0 0 0
        ∷ place 14 0 0 0
        ∷ place 15 0 8 0
        ∷ [])

-- Nothing in use.
abbrev pub idle_player : Client
idle_player =
    with_items
      (place 0 45 0 0
        ∷ place 1 45 0 0
        ∷ place 2 33 0 0
        ∷ place 3 33 0 0
        ∷ place 4 23 0 0
        ∷ place 5 23 0 0
        ∷ [])
      (place 6 0 24 1
        ∷ place 7 0 5 0
        ∷ place 8 0 5 0
        ∷ place 9 0 6 0
        ∷ place 10 0 0 0
        ∷ place 11 0 0 0
        ∷ place 12 0 0 0
        ∷ place 13 0 0 0
        ∷ place 14 0 0 0
        ∷ place 15 0 8 0
        ∷ [])

-- No place left.
abbrev pub full_player : Client
full_player =
    with_items
      (place 0 45 1 0
        ∷ place 1 45 1 0
        ∷ place 2 33 1 0
        ∷ place 3 33 1 0
        ∷ place 4 23 1 0
        ∷ place 5 23 1 0
        ∷ [])
      (place 6 0 1 0
        ∷ place 7 0 1 0
        ∷ place 8 0 1 0
        ∷ place 9 0 1 0
        ∷ place 10 0 1 0
        ∷ place 11 0 1 0
        ∷ place 12 0 1 0
        ∷ place 13 0 1 0
        ∷ place 14 0 1 0
        ∷ place 15 0 1 0
        ∷ [])

pub player-IsInventory : IsInventory player
player-IsInventory = record { six_in_use = refl; ten_in_store = refl }

pub idle_player-IsInventory : IsInventory idle_player
idle_player-IsInventory = record { six_in_use = refl; ten_in_store = refl }

pub full_player-IsInventory : IsInventory full_player
full_player-IsInventory = record { six_in_use = refl; ten_in_store = refl }

pub player-IsValid : IsValid player
player-IsValid = checked-IsValid player player-IsInventory refl refl

pub full_player-IsValid : IsValid full_player
full_player-IsValid = checked-IsValid full_player full_player-IsInventory refl refl

abbrev pub room : RoomStatusType → Room
room status = record {
  clients = 0 ∷ 1 ∷ [];
  size = 2;
  number = 0;
  battle_manager = [];
  battle_opponents = [];
  is_run = true;
  is_finish_choice_character = true;
  open_count = 1;
  round = 3;
  cur_room_status_type = status;
  creep_round = 0;
  is_finish_thread = false;
}

abbrev pub server : Client → RoomStatusType → World
server c status = record {
  clients = λ i. c;
  rooms = λ r. room status;
  queue = new_queue;
  draws = 0;
  clock = 0;
  sent = [];
}

pub player-AllValid : (status : RoomStatusType) → AllValid (server player status)
player-AllValid status i = player-IsValid

pub full_player-AllValid : (status : RoomStatusType) → AllValid (server full_player status)
full_player-AllValid status i = full_player-IsValid

pub player-HasShares : HasShares player.using_items
player-HasShares j i e =
    ltb→lt _ _ (all-get_elem? (λ (x : Item). ltb 0 x.active_percent) player.using_items j refl e)

pub player-has_tickets : ticket_count normal player ≢ 0
unfolding ticket_count
player-has_tickets = omega arith

pub full_player-has_tickets : ticket_count top full_player ≢ 0
unfolding ticket_count
full_player-has_tickets = omega arith

not_empty : (n : ℕ) → ltb 0 n ≡ true → n ≢ 0
not_empty n h = ground arith

pub full_player-IsFull : IsFull full_player
unfolding get_item
full_player-IsFull m x e = elim (Bool-cases (ltb m 6)) [
  | inl h ↦
      not_empty _
        (all-get_elem? (λ (y : Item). ltb 0 y.type) full_player.using_items m refl (rw h at e))
  | inr h ↦ not_empty _ (
      all-get_elem? (λ (y : Item). ltb 0 y.type) full_player.un_using_items (m - 6) refl
        (rw h at e))
]

-- The avatar of the player with its items on, with an order for the next cycle.
abbrev pub fresh : BattleAvatar
fresh = set_avatar 0 player 0 0 false 3

abbrev pub scene : Scene
scene = new_scene (server player battle_stage)

abbrev pub dressed : BattleAvatar
dressed = (put_on lowest_draws fresh scene).0

abbrev pub fighter : BattleAvatar
fighter = (queue_items lowest_draws dressed scene).0

dressed-IsEquipped : IsEquipped dressed
dressed-IsEquipped =
    (put_on-IsEquipped lowest_draws 0 player 0 0 false 3 scene player-IsValid (omega arith)).0

pub fighter-IsEquipped : IsEquipped fighter
unfolding queue_items put_on set_avatar
fighter-IsEquipped =
    set_active_queue-IsEquipped (get_item_active_queue lowest_draws 0 player) dressed
      dressed-IsEquipped

pub server-IsSafeWorld : IsSafeWorld (server player battle_stage)
server-IsSafeWorld = record {
  waiting = [];
  queued = new_queue-IsQueue;
  present = λ i. ((player-IsInventory.six_in_use, player-HasShares), omega arith);
}

pub fighter-IsArmed : IsArmed fighter
fighter-IsArmed =
    queue_items-IsArmed lowest_draws lowest_draws-InRange dressed scene dressed-IsEquipped
      server-IsSafeWorld
