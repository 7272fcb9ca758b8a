-- ===== src/Items/Turning.antt =====
-- Server/Server/Items.h: the items 20 to 29.
-- One function to a class of the macro `ITEM`: its `Active`, for the upgrades 0, 1 and 2.
pub mod Keeps
pub mod Overflow
use isegye_idol_game_server.Common.{
  ℕ, zero, suc, ◌+◌, ◌-◌, ◌*◌, ◌/◌, ◌^◌, Bool, true, false, if◌then◌else◌, ltb, ◌==◌,
}
use isegye_idol_game_server.Types.{HamburgerType, fillet, guinness, white_garlic, rice, normal}
use isegye_idol_game_server.Client.{Client, ticket_count, set_ticket_count}
use isegye_idol_game_server.Packet.{magic_stick_info, set_item_ticket_packet}
use isegye_idol_game_server.World.{World, Random, modify_client, send_packet_in_all_room_clients}
use isegye_idol_game_server.Avatar.{
  BattleAvatar, to_defensive, to_offense_power, to_addition_defensive, to_weakening, to_bleeding,
  to_reduced_healing, to_heal, clear, to_just_damage, set_counter_attack, set_counter_heal,
  set_effect_heal, set_install_bomb, use_key_cap, set_defend_negative_effect, set_offense_power,
  set_weakening, set_ignore_next_damage, set_max_hp, set_first_attack_state,
}
use isegye_idol_game_server.Duel.{
  Duel, Step, ◌⨾◌, skip, on_me, on_opponent, on_world, hit, pierce, go_wrong, times, switch_upgrade,
  with_client, draw, is_valid_battle_avatar_in_room,
}

-- `Item020`: the bad drops.
unfoldable pub item020 : ℕ → Step
item020 upgrade =
    switch_upgrade upgrade (on_opponent (to_weakening 2))
      (on_opponent (to_weakening 3) ⨾ on_me (to_weakening 1))
      (on_opponent (to_weakening 4) ⨾ on_me (to_weakening 2))

-- The room is told of the first number drawn. With the upgrades 1 and 2 a second one decides.
tell : ℕ → Step
tell number = with_client λ i. on_world (λ w.
    send_packet_in_all_room_clients i (magic_stick_info (w.clients i).network_id (number == 1)) w)

-- `Item021`: the magic stick, which strikes or heals.
unfoldable pub item021 : Random → ℕ → Step
unfolding tell
item021 random upgrade =
    switch_upgrade upgrade
      (draw random 0 1 λ n. tell n ⨾ (if n == 1 then hit 6 else on_me (to_heal 7)))
      (draw random 0 1
        λ n. tell n ⨾ draw random 0 1 λ m. if m == 0 then hit 9 else on_me (to_heal 10))
      (draw random 0 1
        λ n. tell n ⨾ draw random 0 1 λ m. if m == 0 then hit 13 else on_me (to_heal 14))

-- `Item022`: the noble's crescent, which makes bleed.
unfoldable pub item022 : ℕ → Step
item022 upgrade =
    switch_upgrade upgrade (on_opponent (to_bleeding 2) ⨾ hit 3)
      (on_opponent (to_bleeding 2) ⨾ hit 6) (on_opponent (to_bleeding 2) ⨾ hit 11)

-- `Item023`: the USB stick.
unfoldable pub item023 : ℕ → Step
item023 upgrade =
    switch_upgrade upgrade (on_opponent (set_offense_power 0) ⨾ on_me (set_weakening 0))
      (on_opponent (set_offense_power 0) ⨾ on_me (set_weakening 0))
      (on_opponent (set_offense_power 0) ⨾ on_me (set_weakening 0))

-- The source divides by a fifth of the opponent's life without a test.
crowbar : ℕ → Step
crowbar n d =
    let percent_hp = d.opponent.max_hp / 5 in
    if percent_hp == 0
    then go_wrong d
    else hit (n + (d.opponent.max_hp - d.opponent.hp) / percent_hp) d

-- `Item024`: the crowbar, stronger for each fifth of life that the opponent has lost.
unfoldable pub item024 : ℕ → Step
unfolding crowbar
item024 upgrade = switch_upgrade upgrade (crowbar 7) (crowbar 11) (crowbar 15)

-- `Item025`: the dentures, stronger from the fourth item of the cycle on.
unfoldable pub item025 : ℕ → Step
item025 upgrade =
    switch_upgrade upgrade
      (λ d. on_me (to_offense_power (if ltb d.me.effect_item_count 4 then 3 else 5)) d)
      (λ d. on_me (to_offense_power (if ltb d.me.effect_item_count 4 then 4 else 6)) d)
      (λ d. on_me (to_offense_power (if ltb d.me.effect_item_count 4 then 5 else 7)) d)

-- `Item026`: the wizard's staff.
unfoldable pub item026 : ℕ → Step
item026 upgrade =
    switch_upgrade upgrade (hit 10 ⨾ on_opponent (to_reduced_healing 2))
      (hit 10 ⨾ on_opponent (to_reduced_healing 4)) (hit 10 ⨾ on_opponent (to_reduced_healing 6))

-- `Item027`: the bow tie, which doubles the defence.
unfoldable pub item027 : ℕ → Step
item027 upgrade =
    switch_upgrade upgrade (on_me (to_defensive 3) ⨾ (λ d. on_me (to_defensive d.me.defensive) d))
      (on_me (to_defensive 5) ⨾ (λ d. on_me (to_defensive d.me.defensive) d))
      (on_me (to_defensive 10) ⨾ (λ d. on_me (to_defensive d.me.defensive) d))

-- `Item028`: the katana.
unfoldable pub item028 : ℕ → Step
item028 upgrade =
    switch_upgrade upgrade (on_opponent (to_bleeding 2) ⨾ hit 6)
      (on_opponent (to_bleeding 3) ⨾ hit 6) (on_opponent (to_bleeding 5) ⨾ hit 6)

-- A ticket more, if the owner is still in the room, and the room is told.
one_ticket : Step
one_ticket d =
    if is_valid_battle_avatar_in_room d.world d.me
    then with_client
        (λ i.
          on_world (modify_client i λ c. set_ticket_count normal (ticket_count normal c + 1) c)
          ⨾ on_world (λ w.
            send_packet_in_all_room_clients i
              (set_item_ticket_packet (w.clients i).network_id normal
                (ticket_count normal (w.clients i)))
              w))
        d
    else d

-- `Item029`: the licence, which gives a ticket to its owner.
unfoldable pub item029 : Random → ℕ → Step
unfolding one_ticket
item029 random upgrade =
    switch_upgrade upgrade (draw random 0 99 λ n. if ltb n 30 then one_ticket else skip)
      (draw random 0 99 λ n. if ltb n 50 then one_ticket else skip) (one_ticket)
