-- ===== src/Items/Trading.antt =====
-- Server/Server/Items.h: the items 10 to 19.
-- One function to a class of the macro `ITEM`: its `Active`, for the upgrades 0, 1 and 2.
pub mod Keeps
use isegye_idol_game_server.Common.{
  ℕ, zero, suc, ◌+◌, ◌-◌, ◌*◌, ◌/◌, ◌^◌, Bool, true, false, if◌then◌else◌, ltb, ◌==◌,
}
use isegye_idol_game_server.Types.{HamburgerType, fillet, guinness, white_garlic, rice, normal}
use isegye_idol_game_server.Client.{Client, ticket_count, set_ticket_count}
use isegye_idol_game_server.Packet.{magic_stick_info, set_item_ticket_packet}
use isegye_idol_game_server.World.{World, Random, modify_client, send_packet_in_all_room_clients}
use isegye_idol_game_server.Avatar.{
  BattleAvatar, to_defensive, to_offense_power, to_addition_defensive, to_weakening, to_bleeding,
  to_reduced_healing, to_heal, clear, to_just_damage, set_counter_attack, set_counter_heal,
  set_effect_heal, set_install_bomb, use_key_cap, set_defend_negative_effect, set_offense_power,
  set_weakening, set_ignore_next_damage, set_max_hp, set_first_attack_state,
}
use isegye_idol_game_server.Duel.{
  Duel, Step, ◌⨾◌, skip, on_me, on_opponent, on_world, hit, pierce, go_wrong, times, switch_upgrade,
  with_client, draw, is_valid_battle_avatar_in_room,
}

-- `Item010`: the nun's dress, which heals once when attacked.
unfoldable pub item010 : ℕ → Step
item010 upgrade =
    switch_upgrade upgrade (on_me (to_defensive 4) ⨾ on_me (set_counter_heal 6))
      (on_me (to_defensive 4) ⨾ on_me (set_counter_heal 8))
      (on_me (to_defensive 4) ⨾ on_me (set_counter_heal 11))

-- `Item011`: the large ribbon.
unfoldable pub item011 : ℕ → Step
item011 upgrade =
    switch_upgrade upgrade (on_me (to_addition_defensive 2)) (on_me (to_addition_defensive 4))
      (on_me (to_addition_defensive 6))

-- `Item012`: the cream bun, which heals with every item used.
unfoldable pub item012 : ℕ → Step
item012 upgrade =
    switch_upgrade upgrade (on_me (set_effect_heal 1)) (on_me (set_effect_heal 3))
      (on_me (set_effect_heal 4))

-- `Item013`: the bomb, which goes off at the end of the cycle.
unfoldable pub item013 : ℕ → Step
item013 upgrade =
    switch_upgrade upgrade (on_opponent (set_install_bomb 15)) (on_opponent (set_install_bomb 20))
      (on_opponent (set_install_bomb 30))

-- `Item014`: life for defence.
unfoldable pub item014 : ℕ → Step
item014 upgrade =
    switch_upgrade upgrade (on_me (to_just_damage 3) ⨾ on_me (to_defensive (3 * 3)))
      (on_me (to_just_damage 4) ⨾ on_me (to_defensive (3 * 4)))
      (on_me (to_just_damage 5) ⨾ on_me (to_defensive (3 * 5)))

-- `Item015`: the diamond sword, which strikes once for each item used in the cycle.
unfoldable pub item015 : ℕ → Step
item015 upgrade =
    switch_upgrade upgrade (λ d. times d.me.effect_item_count (hit 10) d)
      (λ d. times d.me.effect_item_count (hit 20) d) (λ d. times d.me.effect_item_count (hit 30) d)

-- `Item016`: the doctor's tool, where it could copy nothing.
unfoldable pub item016 : ℕ → Step
item016 upgrade = switch_upgrade upgrade (hit 5) (hit 5) (hit 5)

-- The tickets of the four kinds. `sumTicket * 0.5f`, taken as an `int`, is the half rounded down.
sum_ticket : Client → ℕ
sum_ticket c =
    c.normal_item_ticket_count + c.advanced_item_ticket_count + c.top_item_ticket_count
    + c.supreme_item_ticket_count

-- `Item017`: the hair curler, which strikes with the owner's tickets.
unfoldable pub item017 : ℕ → Step
unfolding sum_ticket
item017 upgrade =
    switch_upgrade upgrade (with_client λ i d. hit (sum_ticket (d.world.clients i) / 2) d)
      (with_client λ i d. hit (sum_ticket (d.world.clients i)) d)
      (with_client λ i d. hit (sum_ticket (d.world.clients i) * 2) d)

-- `Item018`: the clown's pistol, twice as strong against defence.
unfoldable pub item018 : ℕ → Step
item018 upgrade =
    switch_upgrade upgrade (λ d. hit (10 * (if d.opponent.defensive == 0 then 1 else 2)) d)
      (λ d. hit (15 * (if d.opponent.defensive == 0 then 1 else 2)) d)
      (λ d. hit (20 * (if d.opponent.defensive == 0 then 1 else 2)) d)

-- `Item019`: the stun gun.
unfoldable pub item019 : ℕ → Step
item019 upgrade =
    switch_upgrade upgrade (on_opponent (to_weakening 1) ⨾ hit 6)
      (on_opponent (to_weakening 1) ⨾ hit 9) (on_opponent (to_weakening 1) ⨾ hit 13)
