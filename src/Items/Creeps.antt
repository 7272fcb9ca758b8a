-- ===== src/Items/Creeps.antt =====
-- Server/Server/Items.h: the items 38 to 45, which only creeps use.
-- One function to a class of the macro `ITEM`: its `Active`, for the upgrades 0, 1 and 2.
pub mod Keeps
use isegye_idol_game_server.Common.{
  ℕ, zero, suc, ◌+◌, ◌-◌, ◌*◌, ◌/◌, ◌^◌, Bool, true, false, if◌then◌else◌, ltb, ◌==◌,
}
use isegye_idol_game_server.Types.{HamburgerType, fillet, guinness, white_garlic, rice, normal}
use isegye_idol_game_server.Client.{Client, ticket_count, set_ticket_count}
use isegye_idol_game_server.Packet.{magic_stick_info, set_item_ticket_packet}
use isegye_idol_game_server.World.{World, Random, modify_client, send_packet_in_all_room_clients}
use isegye_idol_game_server.Avatar.{
  BattleAvatar, to_defensive, to_offense_power, to_addition_defensive, to_weakening, to_bleeding,
  to_reduced_healing, to_heal, clear, to_just_damage, set_counter_attack, set_counter_heal,
  set_effect_heal, set_install_bomb, use_key_cap, set_defend_negative_effect, set_offense_power,
  set_weakening, set_ignore_next_damage, set_max_hp, set_first_attack_state,
}
use isegye_idol_game_server.Duel.{
  Duel, Step, ◌⨾◌, skip, on_me, on_opponent, on_world, hit, pierce, go_wrong, times, switch_upgrade,
  with_client, draw, is_valid_battle_avatar_in_room,
}

-- `Item038`: the student's anger, of a creep.
unfoldable pub item038 : ℕ → Step
item038 upgrade = switch_upgrade upgrade (hit 1) (hit 1) (hit 1)

-- `Item039`: the soldier's anger, of a creep.
unfoldable pub item039 : ℕ → Step
item039 upgrade = switch_upgrade upgrade (hit 2) (hit 2) (hit 2)

-- `Item040`: the beggar's anger, of a creep.
unfoldable pub item040 : ℕ → Step
item040 upgrade = switch_upgrade upgrade (hit 3) (hit 3) (hit 3)

-- `Item041`: the charge, of a creep.
unfoldable pub item041 : ℕ → Step
item041 upgrade =
    switch_upgrade upgrade (hit 2 ⨾ on_me (to_heal 3)) (hit 2 ⨾ on_me (to_heal 3))
      (hit 2 ⨾ on_me (to_heal 3))

-- `Item042`: yes, of a creep.
unfoldable pub item042 : ℕ → Step
item042 upgrade = switch_upgrade upgrade (hit 10) (hit 10) (hit 10)

-- `Item043`: no, of a creep.
unfoldable pub item043 : ℕ → Step
item043 upgrade =
    switch_upgrade upgrade (on_me (to_defensive 8)) (on_me (to_defensive 8))
      (on_me (to_defensive 8))

-- `Item044`: the press, of a creep.
unfoldable pub item044 : ℕ → Step
item044 upgrade = switch_upgrade upgrade (hit 20) (hit 20) (hit 20)

-- `pow(2, n - 1)` as an `int`; at 0 it is a half, rounded down.
doubled : ℕ → ℕ
doubled zero = 0
doubled (suc zero) = 1
doubled (suc (suc n)) = 2 ^ (suc n)

-- `Item045`: the last creep, twice as strong with each item of the cycle.
unfoldable pub item045 : ℕ → Step
unfolding doubled
item045 upgrade =
    switch_upgrade upgrade (λ d. hit (doubled d.me.effect_item_count) d)
      (λ d. hit (doubled d.me.effect_item_count) d) (λ d. hit (doubled d.me.effect_item_count) d)
