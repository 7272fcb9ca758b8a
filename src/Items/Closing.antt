-- ===== src/Items/Closing.antt =====
-- Server/Server/Items.h: the items 30 to 37.
-- One function to a class of the macro `ITEM`: its `Active`, for the upgrades 0, 1 and 2.
pub mod Keeps
use isegye_idol_game_server.Common.{
  ℕ, zero, suc, ◌+◌, ◌-◌, ◌*◌, ◌/◌, ◌^◌, Bool, true, false, if◌then◌else◌, ltb, ◌==◌,
}
use isegye_idol_game_server.Types.{HamburgerType, fillet, guinness, white_garlic, rice, normal}
use isegye_idol_game_server.Client.{Client, ticket_count, set_ticket_count}
use isegye_idol_game_server.Packet.{magic_stick_info, set_item_ticket_packet}
use isegye_idol_game_server.World.{World, Random, modify_client, send_packet_in_all_room_clients}
use isegye_idol_game_server.Avatar.{
  BattleAvatar, to_defensive, to_offense_power, to_addition_defensive, to_weakening, to_bleeding,
  to_reduced_healing, to_heal, clear, to_just_damage, set_counter_attack, set_counter_heal,
  set_effect_heal, set_install_bomb, use_key_cap, set_defend_negative_effect, set_offense_power,
  set_weakening, set_ignore_next_damage, set_max_hp, set_first_attack_state,
}
use isegye_idol_game_server.Duel.{
  Duel, Step, ◌⨾◌, skip, on_me, on_opponent, on_world, hit, pierce, go_wrong, times, switch_upgrade,
  with_client, draw, is_valid_battle_avatar_in_room,
}

-- `Item030`: the broom.
unfoldable pub item030 : ℕ → Step
item030 upgrade =
    switch_upgrade upgrade (on_me (set_ignore_next_damage true))
      (on_me (set_ignore_next_damage true)) (on_me (set_ignore_next_damage true))

-- `Item031`: the rifle, past the defence.
unfoldable pub item031 : ℕ → Step
item031 upgrade = switch_upgrade upgrade (pierce 6) (pierce 9) (pierce 13)

-- `Item032`: the toothbrush, which heals a part of the life lost.
-- The products with 0.25f, 0.4f and 0.5f, taken as an `int`, are a quarter, two fifths and a half,
-- rounded down: for the lives of a battle the float is exact enough.
unfoldable pub item032 : ℕ → Step
item032 upgrade =
    switch_upgrade upgrade (λ d. on_me (to_heal ((d.me.max_hp - d.me.hp) / 4)) d)
      (λ d. on_me (to_heal ((d.me.max_hp - d.me.hp) * 2 / 5)) d)
      (λ d. on_me (to_heal ((d.me.max_hp - d.me.hp) / 2)) d)

-- `Item033`: the cutlet.
unfoldable pub item033 : ℕ → Step
item033 upgrade = switch_upgrade upgrade (on_me (to_heal 3)) (on_me (to_heal 5)) (on_me (to_heal 7))

-- `Item034`: the key cap, which strikes once for each use of it in the battle.
unfoldable pub item034 : ℕ → Step
item034 upgrade =
    switch_upgrade upgrade (on_me use_key_cap ⨾ (λ d. times d.me.use_key_cap_count (hit 3) d))
      (on_me use_key_cap ⨾ (λ d. times d.me.use_key_cap_count (hit 4) d))
      (on_me use_key_cap ⨾ (λ d. times d.me.use_key_cap_count (hit 6) d))

-- `Item035`: the scrap iron.
unfoldable pub item035 : ℕ → Step
item035 upgrade =
    switch_upgrade upgrade (on_me (to_defensive 5)) (on_me (to_defensive 9))
      (on_me (to_defensive 13))

-- `Item036`: the explorer's belt, stronger from the fourth item of the cycle on.
unfoldable pub item036 : ℕ → Step
item036 upgrade =
    switch_upgrade upgrade
      (λ d. on_me (to_defensive (if ltb d.me.effect_item_count 4 then 4 else 7)) d)
      (λ d. on_me (to_defensive (if ltb d.me.effect_item_count 4 then 4 else 9)) d)
      (λ d. on_me (to_defensive (if ltb d.me.effect_item_count 4 then 4 else 11)) d)

-- `Item037`: the cape, which takes one negative effect.
unfoldable pub item037 : ℕ → Step
item037 upgrade =
    switch_upgrade upgrade (on_me (set_defend_negative_effect true))
      (on_me (set_defend_negative_effect true)) (on_me (set_defend_negative_effect true))
