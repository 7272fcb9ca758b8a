-- ===== src/Avatar/Setup.antt =====
-- BattleAvatar.cpp: the constructor, `SetAvatar`, `SetActiveQueue` and `GetRandomCopyItem`.
use isegye_idol_game_server.Common.{
  ℕ, ◌+◌, ◌-◌, ◌*◌, Bool, false, ◌||◌, Option, none, some, List, [], ◌∷◌, min, get_elem?, length,
  ◌==◌, if◌then◌else◌, map,
}
use isegye_idol_game_server.Types.{fillet, Item, new_item}
use isegye_idol_game_server.Client.{Client}
use isegye_idol_game_server.Client.Inventory.{SlotInfo}
use isegye_idol_game_server.Types.{Random}
use isegye_idol_game_server.Avatar.{BattleAvatar}

abbrev pub identity_queue : List ℕ
identity_queue = 0 ∷ 1 ∷ 2 ∷ 3 ∷ 4 ∷ 5 ∷ []

-- `BattleAvatar::BattleAvatar`
unfoldable pub new_avatar : BattleAvatar
unfolding new_item
new_avatar = record {
  client = none;
  room = none;
  network_id = 0;
  max_hp = 0;
  hp = 0;
  defensive = 0;
  offense_power = 0;
  addition_defensive = 0;
  weakening = 0;
  bleeding = 0;
  reduced_healing = 0;
  using_item = map new_item identity_queue;
  active_queue = identity_queue;
  is_ghost = false;
  is_finish = false;
  is_counter_attack = false;
  counter_attack_damage = 0;
  is_counter_heal = false;
  counter_heal = 0;
  hamburger_type = fillet;
  is_effect_heal = false;
  effect_heal = 0;
  is_install_bomb = false;
  install_bomb_damage = 0;
  effect_item_count = 0;
  use_key_cap_count = 0;
  can_defend_negative_effect = false;
  is_ignore_next_damage = false;
  is_character_damage = false;
  first_attack_state = 0;
}

-- `BattleAvatar::SetAvatar(client, room, networkID, isGhost, round)` writes every field.
unfoldable pub set_avatar : ℕ → Client → ℕ → ℕ → Bool → ℕ → BattleAvatar
set_avatar index client room network_id is_ghost round = record {
  client = some index;
  room = some room;
  network_id = network_id;
  max_hp = 50 + 10 * min 5 round;
  hp = 50 + 10 * min 5 round;
  defensive = 0;
  offense_power = 0;
  addition_defensive = 0;
  weakening = 0;
  bleeding = 0;
  reduced_healing = 0;
  using_item = client.using_items;
  active_queue = identity_queue;
  is_ghost = is_ghost;
  is_finish = false;
  is_counter_attack = false;
  counter_attack_damage = 0;
  is_counter_heal = false;
  counter_heal = 0;
  hamburger_type = fillet;
  is_effect_heal = false;
  effect_heal = 0;
  is_install_bomb = false;
  install_bomb_damage = 0;
  effect_item_count = 0;
  use_key_cap_count = 0;
  can_defend_negative_effect = false;
  is_ignore_next_damage = false;
  is_character_damage = false;
  first_attack_state = client.first_attack_state;
}

-- `BattleAvatar::SetActiveQueue`
unfoldable pub set_active_queue : List SlotInfo → BattleAvatar → BattleAvatar
set_active_queue queue a = record a { active_queue = map (λ (s : SlotInfo). s.index) queue }

-- The items that the doctor's tool may copy: no hamburger, no tool, no empty place.
unfoldable pub valid_copies : List Item → List Item
valid_copies [] = []
valid_copies (i ∷ items) =
    let rest = valid_copies items in
    if i.type == 7 || i.type == 16 || i.type == 0 then rest else i ∷ rest

unfoldable pub doctor_tool : Item
unfolding new_item
doctor_tool = record (new_item 0) { type = 16 }

unfoldable pub copy_at : List Item → ℕ → Option Item
copy_at [] n = some doctor_tool
copy_at (i ∷ items) n = get_elem? (i ∷ items) n

-- `BattleAvatar::GetRandomCopyItem`, as the `draws`th number drawn makes it: an item of the avatar, or
-- the tool itself where there is none to copy.
unfoldable pub get_random_copy_item : Random → ℕ → BattleAvatar → Option Item
unfolding valid_copies copy_at
get_random_copy_item random draws a =
    let valid = valid_copies a.using_item in copy_at valid (random draws 0 (length valid - 1))
