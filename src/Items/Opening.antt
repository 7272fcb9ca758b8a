-- ===== src/Items/Opening.antt =====
-- Server/Server/Items.h: the items 0 to 9.
-- One function to a class of the macro `ITEM`: its `Active`, for the upgrades 0, 1 and 2.
pub mod Keeps
use isegye_idol_game_server.Common.{
  ℕ, zero, suc, ◌+◌, ◌-◌, ◌*◌, ◌/◌, ◌^◌, Bool, true, false, if◌then◌else◌, ltb, ◌==◌,
}
use isegye_idol_game_server.Types.{HamburgerType, fillet, guinness, white_garlic, rice, normal}
use isegye_idol_game_server.Client.{Client, ticket_count, set_ticket_count}
use isegye_idol_game_server.Packet.{magic_stick_info, set_item_ticket_packet}
use isegye_idol_game_server.World.{World, Random, modify_client, send_packet_in_all_room_clients}
use isegye_idol_game_server.Avatar.{
  BattleAvatar, to_defensive, to_offense_power, to_addition_defensive, to_weakening, to_bleeding,
  to_reduced_healing, to_heal, clear, to_just_damage, set_counter_attack, set_counter_heal,
  set_effect_heal, set_install_bomb, use_key_cap, set_defend_negative_effect, set_offense_power,
  set_weakening, set_ignore_next_damage, set_max_hp, set_first_attack_state,
}
use isegye_idol_game_server.Duel.{
  Duel, Step, ◌⨾◌, skip, on_me, on_opponent, on_world, hit, pierce, go_wrong, times, switch_upgrade,
  with_client, draw, is_valid_battle_avatar_in_room,
}

-- `ItemEmpty`: the empty place.
unfoldable pub item_empty : ℕ → Step
item_empty upgrade = switch_upgrade upgrade skip skip skip

-- `Item001`: the old whip.
unfoldable pub item001 : ℕ → Step
item001 upgrade = switch_upgrade upgrade (hit 5) (hit 8) (hit 12)

-- `Item002`: the tea.
unfoldable pub item002 : ℕ → Step
item002 upgrade =
    switch_upgrade upgrade (on_me (to_defensive 3)) (on_me (to_defensive 5))
      (on_me (to_defensive 7))

-- `Item003`: the shark mask.
unfoldable pub item003 : ℕ → Step
item003 upgrade =
    switch_upgrade upgrade (on_opponent (to_weakening 1)) (on_opponent (to_weakening 2))
      (on_opponent (to_weakening 3))

-- `Item004`: the name plate, which strikes twice.
unfoldable pub item004 : ℕ → Step
item004 upgrade = switch_upgrade upgrade (hit 3 ⨾ hit 3) (hit 4 ⨾ hit 4) (hit 6 ⨾ hit 6)

-- `Item005`: the pruning axe, which strikes with the owner's defence.
unfoldable pub item005 : ℕ → Step
item005 upgrade =
    switch_upgrade upgrade (λ d. hit (5 + d.me.defensive * 3) d)
      (λ d. hit (5 + d.me.defensive * 4) d) (λ d. hit (5 + d.me.defensive * 6) d)

-- `Item006`: the ginseng stick.
unfoldable pub item006 : ℕ → Step
item006 upgrade = switch_upgrade upgrade (on_me clear) (on_me clear) (on_me clear)

-- The four kinds of hamburger.
burger : HamburgerType → ℕ → ℕ → ℕ → ℕ → Step
burger fillet weaken damage heal defend = on_opponent (to_weakening weaken)
burger guinness weaken damage heal defend = hit damage
burger white_garlic weaken damage heal defend = on_me (to_heal heal)
burger rice weaken damage heal defend = on_me (to_defensive defend)

-- `Item007`: the hamburger.
unfoldable pub item007 : ℕ → Step
unfolding burger
item007 upgrade =
    switch_upgrade upgrade (λ d. burger d.me.hamburger_type 2 7 4 4 d)
      (λ d. burger d.me.hamburger_type 3 9 6 6 d) (λ d. burger d.me.hamburger_type 4 12 9 9 d)

-- `Item008`: the glasses.
unfoldable pub item008 : ℕ → Step
item008 upgrade =
    switch_upgrade upgrade (on_me (to_offense_power 2)) (on_me (to_offense_power 3))
      (on_me (to_offense_power 5))

-- `Item009`: the maid's dress, which strikes back once.
unfoldable pub item009 : ℕ → Step
item009 upgrade =
    switch_upgrade upgrade (on_me (to_defensive 4) ⨾ on_me (set_counter_attack 5))
      (on_me (to_defensive 4) ⨾ on_me (set_counter_attack 7))
      (on_me (to_defensive 4) ⨾ on_me (set_counter_attack 10))
