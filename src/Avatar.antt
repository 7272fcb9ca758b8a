-- ===== src/Avatar.antt =====
-- Server/Server/BattleAvatar.h and BattleAvatar.cpp: the fighter of one battle. A method returns the
-- new avatar. Every `int` of the class is kept at 0 or above by the source's own `max(0, ..)`, so it
-- is a natural number here, and `max(0, a - b)` is the subtraction of ℕ, which stops at 0. The
-- numbers are not bounded: a sum past 2 ^ 31 - 1 is undefined behaviour in the source.
pub mod Sound
pub mod Setup
pub mod Damage
use isegye_idol_game_server.Common.{
  ℕ, ◌+◌, ◌-◌, ◌*◌, ◌≤◌, ◌≡◌, Bool, true, false, Option, none, List, [], ◌∷◌, min, set, get_or,
  if◌then◌else◌,
}
use isegye_idol_game_server.Types.{HamburgerType, fillet, Item, new_item, max_using_item_count}

-- `class BattleAvatar`. `mClient` is the index of the client in `Server::sClients`, `mRoom` the number
-- of the room; null is `none`.
pub record BattleAvatar : Type 0 where
  pub client : Option ℕ
  pub room : Option ℕ
  pub network_id : ℕ
  pub max_hp : ℕ
  pub hp : ℕ
  pub defensive : ℕ
  pub offense_power : ℕ
  pub addition_defensive : ℕ
  pub weakening : ℕ
  pub bleeding : ℕ
  pub reduced_healing : ℕ
  pub using_item : List Item
  pub active_queue : List ℕ
  pub is_ghost : Bool
  pub is_finish : Bool
  pub is_counter_attack : Bool
  pub counter_attack_damage : ℕ
  pub is_counter_heal : Bool
  pub counter_heal : ℕ
  pub hamburger_type : HamburgerType
  pub is_effect_heal : Bool
  pub effect_heal : ℕ
  pub is_install_bomb : Bool
  pub install_bomb_damage : ℕ
  pub effect_item_count : ℕ
  pub use_key_cap_count : ℕ
  pub can_defend_negative_effect : Bool
  pub is_ignore_next_damage : Bool
  pub is_character_damage : Bool
  pub first_attack_state : ℕ

unfoldable pub to_defensive : ℕ → BattleAvatar → BattleAvatar
to_defensive n a = record a { defensive = a.defensive + n + a.addition_defensive }

unfoldable pub to_offense_power : ℕ → BattleAvatar → BattleAvatar
to_offense_power n a = record a { offense_power = a.offense_power + n }

unfoldable pub to_addition_defensive : ℕ → BattleAvatar → BattleAvatar
to_addition_defensive n a = record a { addition_defensive = a.addition_defensive + n }

-- The hero's cape takes one negative effect in place of the avatar.
unfoldable pub to_weakening : ℕ → BattleAvatar → BattleAvatar
to_weakening n a =
    if a.can_defend_negative_effect
    then record a { can_defend_negative_effect = false }
    else record a { weakening = a.weakening + n }

unfoldable pub to_bleeding : ℕ → BattleAvatar → BattleAvatar
to_bleeding n a =
    if a.can_defend_negative_effect
    then record a { can_defend_negative_effect = false }
    else record a { bleeding = a.bleeding + n }

unfoldable pub to_reduced_healing : ℕ → BattleAvatar → BattleAvatar
to_reduced_healing n a =
    if a.can_defend_negative_effect
    then record a { can_defend_negative_effect = false }
    else record a { reduced_healing = a.reduced_healing + n }

unfoldable pub to_heal : ℕ → BattleAvatar → BattleAvatar
to_heal n a = record a { hp = min a.max_hp (a.hp + (n - a.reduced_healing)) }

unfoldable pub set_finish : BattleAvatar → BattleAvatar
set_finish a = record a { is_finish = true }

-- `Clear`: removes the negative effects.
unfoldable pub clear : BattleAvatar → BattleAvatar
clear a = record a {
  bleeding = 0;
  weakening = 0;
  reduced_healing = 0;
  is_install_bomb = false;
  install_bomb_damage = 0;
}

unfoldable pub to_just_damage : ℕ → BattleAvatar → BattleAvatar
to_just_damage n a = record a { hp = a.hp - n }

unfoldable pub set_counter_attack : ℕ → BattleAvatar → BattleAvatar
set_counter_attack n a = record a {
  is_counter_attack = true;
  counter_attack_damage = a.counter_attack_damage + n;
}

unfoldable pub set_counter_heal : ℕ → BattleAvatar → BattleAvatar
set_counter_heal n a = record a { is_counter_heal = true; counter_heal = a.counter_heal + n }

unfoldable pub set_hamburger_type : HamburgerType → BattleAvatar → BattleAvatar
set_hamburger_type t a = record a { hamburger_type = t }

unfoldable pub to_just_heal : ℕ → BattleAvatar → BattleAvatar
to_just_heal n a = record a { hp = min a.max_hp (a.hp + n) }

unfoldable pub set_effect_heal : ℕ → BattleAvatar → BattleAvatar
set_effect_heal n a = record a { is_effect_heal = true; effect_heal = a.effect_heal + n }

unfoldable pub set_install_bomb : ℕ → BattleAvatar → BattleAvatar
set_install_bomb n a =
    if a.can_defend_negative_effect
    then record a { can_defend_negative_effect = false }
    else record a { is_install_bomb = true; install_bomb_damage = a.install_bomb_damage + n }

unfoldable pub use_key_cap : BattleAvatar → BattleAvatar
use_key_cap a = record a { use_key_cap_count = a.use_key_cap_count + 1 }

unfoldable pub set_defend_negative_effect : Bool → BattleAvatar → BattleAvatar
set_defend_negative_effect b a = record a { can_defend_negative_effect = b }

unfoldable pub set_offense_power : ℕ → BattleAvatar → BattleAvatar
set_offense_power n a = record a { offense_power = n }

unfoldable pub set_weakening : ℕ → BattleAvatar → BattleAvatar
set_weakening n a = record a { weakening = n }

unfoldable pub set_ignore_next_damage : Bool → BattleAvatar → BattleAvatar
set_ignore_next_damage b a = record a { is_ignore_next_damage = b }

unfoldable pub effect_bleeding : BattleAvatar → BattleAvatar
effect_bleeding a = record a { hp = a.hp - a.bleeding }

unfoldable pub set_max_hp : ℕ → BattleAvatar → BattleAvatar
set_max_hp n a = record a { max_hp = n; hp = n }

unfoldable pub set_first_attack_state : ℕ → BattleAvatar → BattleAvatar
set_first_attack_state n a = record a { first_attack_state = n }

unfoldable pub set_using_item : ℕ → Item → BattleAvatar → BattleAvatar
set_using_item i item a = record a { using_item = set a.using_item i item }

-- `ToDamage(damage, opponent)`: the attacker's power and weakening, then the defence, then the life.
unfoldable pub to_damage : ℕ → BattleAvatar → BattleAvatar → BattleAvatar
to_damage damage opponent a =
    let dealt = damage + opponent.offense_power - opponent.weakening in
    if a.is_ignore_next_damage
    then record a { is_ignore_next_damage = false }
    else record a { defensive = a.defensive - dealt; hp = a.hp - (dealt - a.defensive) }

-- `ToPiercingDamage`: past the defence.
unfoldable pub to_piercing_damage : ℕ → BattleAvatar → BattleAvatar → BattleAvatar
to_piercing_damage damage opponent a =
    let dealt = damage + opponent.offense_power - opponent.weakening in
    if a.is_ignore_next_damage
    then record a { is_ignore_next_damage = false }
    else record a { hp = a.hp - dealt }

-- `InitCycle`: what does not outlast the six items of a cycle.
unfoldable pub init_cycle : BattleAvatar → BattleAvatar
init_cycle a = record a {
  offense_power = 0;
  addition_defensive = 0;
  weakening = 0;
  bleeding = 0;
  reduced_healing = 0;
  is_counter_attack = false;
  counter_attack_damage = 0;
  is_counter_heal = false;
  counter_heal = 0;
  is_effect_heal = false;
  effect_heal = 0;
  is_install_bomb = false;
  install_bomb_damage = 0;
  effect_item_count = 0;
  can_defend_negative_effect = false;
  is_ignore_next_damage = false;
}

-- `EffectBomb`: the bomb goes off at the end of a cycle.
unfoldable pub effect_bomb : BattleAvatar → BattleAvatar
effect_bomb a =
    if a.is_ignore_next_damage then record a { is_ignore_next_damage = false } else record a {
      defensive = a.defensive - a.install_bomb_damage;
      hp = a.hp - (a.install_bomb_damage - a.defensive);
      install_bomb_damage = 0;
      is_install_bomb = false;
    }
