-- ===== src/Packet.antt =====
-- Server/Server/PacketStruct.h: the packets that the modelled code sends, by their fields. The size
-- and the type byte of the header follow from the constructor. A field narrower than the value that
-- the source puts there keeps its width: `% 256` for `uint8_t`.
use isegye_idol_game_server.Common.{ℕ, Bool, List, ◌%◌, map}
use isegye_idol_game_server.Types.{Item, CharacterType, ItemTicketType, HamburgerType, CreepType, ℤ}
use isegye_idol_game_server.Client.{Client}

-- `ENotificationType`
pub data NotificationType : Type 0 where
  connect_server choice_character choice_all_character disconnect_server connect_check :
      NotificationType
  enter_ready_stage enter_cut_scene_stage finish_cut_scene_stage : NotificationType
  enter_battle_stage enter_creep_stage finish_choice_character_time : NotificationType
  init_battle_slot use_normal_item_ticket use_advanced_item_ticket : NotificationType
  use_top_item_ticket use_supreme_item_ticket : NotificationType
  set_default_using_item effect_creep_item : NotificationType

-- `SlotItemInfo`
pub record SlotItemInfo : Type 0 where
  pub type : ℕ
  pub upgrade : ℕ

-- `sc_BattleAvatarInfoPacket`
pub record AvatarInfo : Type 0 where
  pub network_id : ℤ
  pub player_hp : ℕ
  pub max_hp : ℕ
  pub hp : ℕ
  pub first_attack_state : ℕ
  pub offense_power : ℕ
  pub defensive : ℕ
  pub addition_defensive : ℕ
  pub weakening : ℕ
  pub bleeding : ℕ
  pub reduced_healing : ℕ
  pub is_effect_heal : Bool
  pub effect_heal : ℕ
  pub is_install_bomb : Bool
  pub install_bomb_damage : ℕ
  pub is_ignore_next_damage : Bool
  pub can_defend_negative_effect : Bool
  pub is_counter_attack : Bool
  pub counter_attack_damage : ℕ
  pub is_counter_heal : Bool
  pub counter_heal : ℕ

-- `sc_ConnectRoomPacket` has the numbers of the players only, without their names.
pub data Packet : Type 0 where
  connect_room : List ℕ → Packet
  change_character : ℕ → CharacterType → Packet
  use_emoticon : ℕ → ℕ → Packet
  notification : ℤ → NotificationType → Packet
  update_character_info : ℕ → ℕ → ℕ → List SlotItemInfo → List SlotItemInfo → Packet
  set_ready_time set_choice_character_time : ℕ → Packet
  set_item_ticket : ℕ → ItemTicketType → ℕ → Packet
  active_item : ℤ → ℕ → Packet
  fade_in fade_out : ℕ → Packet
  battle_opponents : List ℤ → Packet
  set_hamburger_type : ℤ → ℕ → HamburgerType → Packet
  magic_stick_info : ℕ → Bool → Packet
  doctor_tool_info : ℤ → ℕ → ℕ → ℕ → Packet
  creep_stage_info : CreepType → Packet
  battle_avatar_info : AvatarInfo → Packet
  inventory_info : ℕ → List SlotItemInfo → List SlotItemInfo → Packet
  matching_info : ℕ → ℕ → Packet
  battle_time_info : ℕ → Packet

abbrev slot_info : Item → SlotItemInfo
slot_info i = record { type = i.type; upgrade = i.upgrade }

-- `sc_InventoryInfoPacket(client)`
unfoldable pub inventory_info_packet : Client → Packet
inventory_info_packet c =
    inventory_info c.network_id (map slot_info c.using_items) (map slot_info c.un_using_items)

-- `sc_SetItemTicketPacket(networkID, type, count)`: the count is a `uint8_t`.
unfoldable pub set_item_ticket_packet : ℕ → ItemTicketType → ℕ → Packet
set_item_ticket_packet network_id type count = set_item_ticket network_id type (count % 256)

-- `sc_UpdateCharacterInfoPacket(client)`: the lives are `int16_t`.
unfoldable pub update_character_info_packet : Client → Packet
update_character_info_packet c =
    update_character_info c.network_id (c.hp % 65536) (c.avatar_hp % 65536)
      (map slot_info c.using_items) (map slot_info c.un_using_items)
