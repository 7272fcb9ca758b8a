-- ===== src/Tests/Avatars.antt =====
-- The properties of one avatar and of its answer to an attack.
use isegye_idol_game_server.Common.{
  ℕ, suc, ◌<◌, ◌+◌, ◌-◌, ◌≤◌, ◌≡◌, ◌^◌, refl, ◌⊎◌, Bool, true, false, some, [], ◌∷◌, arith,
}
use isegye_idol_game_server.Types.{fillet}
use isegye_idol_game_server.World.{ready_stage}
use isegye_idol_game_server.Avatar.{BattleAvatar, to_damage, to_piercing_damage}
use isegye_idol_game_server.Avatar.Sound.{IsSound}
use isegye_idol_game_server.Avatar.Damage.{
  dealt, to_damage_paid, to_piercing_damage-to_damage, ignore_next_damage_once,
}
use isegye_idol_game_server.Duel.{Duel, effect_counter, to_damage_character, times}
use isegye_idol_game_server.Duel.Once.{
  effect_counter-effect_counter, effect_counter-IsSound, to_damage_character_once,
}
use isegye_idol_game_server.Items.Turning.{item027}
use isegye_idol_game_server.Items.Turning.Overflow.{item027-overflow}
use isegye_idol_game_server.Tests.Inputs.{player, server}

-- An avatar of player 0 with a broom, a cape, or neither, that strikes back and carries a bomb.
abbrev avatar : Bool → Bool → BattleAvatar
avatar broom cape = record {
  client = some 0;
  room = some 0;
  network_id = 0;
  max_hp = 80;
  hp = 30;
  defensive = 6;
  offense_power = 2;
  addition_defensive = 1;
  weakening = 1;
  bleeding = 3;
  reduced_healing = 0;
  using_item = player.using_items;
  active_queue = 0 ∷ 1 ∷ 2 ∷ 3 ∷ 4 ∷ 5 ∷ [];
  is_ghost = false;
  is_finish = false;
  is_counter_attack = true;
  counter_attack_damage = 5;
  is_counter_heal = true;
  counter_heal = 4;
  hamburger_type = fillet;
  is_effect_heal = false;
  effect_heal = 0;
  is_install_bomb = true;
  install_bomb_damage = 9;
  effect_item_count = 0;
  use_key_cap_count = 0;
  can_defend_negative_effect = cape;
  is_ignore_next_damage = broom;
  is_character_damage = false;
  first_attack_state = 0;
}

abbrev plain : BattleAvatar
plain = avatar false false

abbrev duel : Duel
duel = record { world = server player ready_stage; me = plain; opponent = plain; fault = false }

plain-IsSound : IsSound plain
plain-IsSound = record {
  within = omega arith;
  counter_flagged = λ h. cc;
  counter_heal_flagged = λ h. cc;
  effect_heal_flagged = λ h. refl;
  bomb_flagged = λ h. cc;
}

to_damage_paid_example :
    ((to_damage 10 plain plain).hp + (to_damage 10 plain plain).defensive ≡ 30 + 6 - dealt 10 plain)
    × (((to_damage 10 plain plain).hp ≡ 30) ⊎ ((to_damage 10 plain plain).defensive ≡ 0))
to_damage_paid_example = to_damage_paid 10 plain plain refl

to_piercing_damage-to_damage_example :
    ((to_piercing_damage 10 plain plain).hp ≤ (to_damage 10 plain plain).hp)
    × ((to_piercing_damage 10 plain plain).defensive ≡ 6)
to_piercing_damage-to_damage_example = to_piercing_damage-to_damage 10 plain plain

abbrev behind_broom : BattleAvatar
behind_broom = to_damage 10 plain (avatar true false)

ignore_next_damage_once_example :
    (behind_broom.hp ≡ 30)
    × (behind_broom.defensive ≡ 6)
    × ((to_damage 8 plain behind_broom).hp + (to_damage 8 plain behind_broom).defensive
        ≡ 30 + 6 - dealt 8 plain)
ignore_next_damage_once_example = ignore_next_damage_once 10 8 plain (avatar true false) refl

effect_counter-effect_counter_example : effect_counter (effect_counter duel) ≡ effect_counter duel
effect_counter-effect_counter_example = effect_counter-effect_counter duel

effect_counter-IsSound_example :
    IsSound (effect_counter duel).me × IsSound (effect_counter duel).opponent
effect_counter-IsSound_example = effect_counter-IsSound duel plain-IsSound plain-IsSound

to_damage_character_once_example :
    to_damage_character 4 true (to_damage_character 4 true (server player ready_stage, plain))
    ≡ to_damage_character 4 true (server player ready_stage, plain)
to_damage_character_once_example = to_damage_character_once 4 true (server player ready_stage) plain

item027-overflow_example :
    (k : ℕ) × (k < 27)
    × ((j : ℕ) → j ≤ k → (times j (item027 2) duel).me.defensive < 2 ^ 31)
    × (2 ^ 31 ≤ (times (suc k) (item027 2) duel).me.defensive)
item027-overflow_example = item027-overflow duel (omega arith)
