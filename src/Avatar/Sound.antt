-- ===== src/Avatar/Sound.antt =====
-- The invariant of BattleAvatar.h and BattleAvatar.cpp, and what the methods leave alone.
use isegye_idol_game_server.Common.{ℕ, ◌≤◌, ◌≡◌, Bool, false, arith}
use isegye_idol_game_server.Avatar.{
  BattleAvatar, to_defensive, to_offense_power, to_addition_defensive, to_weakening, to_bleeding,
  to_reduced_healing, to_heal, clear, to_just_damage, set_counter_attack, set_counter_heal,
  set_effect_heal, set_install_bomb, use_key_cap, set_defend_negative_effect, set_offense_power,
  set_weakening, set_ignore_next_damage, to_damage, to_piercing_damage,
}

-- The life does not pass its maximum, and an amount stands only beside its flag.
pub record IsSound (a : BattleAvatar) : Type 0 where
  pub within : a.hp ≤ a.max_hp
  pub counter_flagged : a.is_counter_attack ≡ false → a.counter_attack_damage ≡ 0
  pub counter_heal_flagged : a.is_counter_heal ≡ false → a.counter_heal ≡ 0
  pub effect_heal_flagged : a.is_effect_heal ≡ false → a.effect_heal ≡ 0
  pub bomb_flagged : a.is_install_bomb ≡ false → a.install_bomb_damage ≡ 0

-- What an effect of an item leaves alone.
pub record SameFighter (a b : BattleAvatar) : Type 0 where
  pub same_client : b.client ≡ a.client
  pub same_room : b.room ≡ a.room
  pub same_network_id : b.network_id ≡ a.network_id
  pub same_max_hp : b.max_hp ≡ a.max_hp
  pub same_using_item : b.using_item ≡ a.using_item
  pub same_active_queue : b.active_queue ≡ a.active_queue
  pub same_is_ghost : b.is_ghost ≡ a.is_ghost
  pub same_is_finish : b.is_finish ≡ a.is_finish
  pub same_is_character_damage : b.is_character_damage ≡ a.is_character_damage
  pub same_effect_item_count : b.effect_item_count ≡ a.effect_item_count
  pub same_first_attack_state : b.first_attack_state ≡ a.first_attack_state

pub record Touch (a b : BattleAvatar) : Type 0 where
  pub sound : IsSound a → IsSound b
  pub same : SameFighter a b

-- A method that keeps the invariant and the fighter, and one that does not heal it either.
abbrev pub Touches : (BattleAvatar → BattleAvatar) → Type 0
Touches f = (a : BattleAvatar) → Touch a (f a)

abbrev pub Hurts : (BattleAvatar → BattleAvatar) → Type 0
Hurts f = (a : BattleAvatar) → Touch a (f a) × ((f a).hp ≤ a.hp)

pub Touch-trans : (a b c : BattleAvatar) → Touch a b → Touch b c → Touch a c
Touch-trans a b c p q = ground arith

pub to_defensive-Touches : (n : ℕ) → Touches (to_defensive n)
unfolding to_defensive
to_defensive-Touches n a = ground arith

pub to_offense_power-Touches : (n : ℕ) → Touches (to_offense_power n)
unfolding to_offense_power
to_offense_power-Touches n a = ground arith

pub to_addition_defensive-Touches : (n : ℕ) → Touches (to_addition_defensive n)
unfolding to_addition_defensive
to_addition_defensive-Touches n a = ground arith

pub to_weakening-Hurts : (n : ℕ) → Hurts (to_weakening n)
unfolding to_weakening
to_weakening-Hurts n a = ground arith

pub to_weakening-Touches : (n : ℕ) → Touches (to_weakening n)
to_weakening-Touches n a = (to_weakening-Hurts n a).0

pub to_bleeding-Hurts : (n : ℕ) → Hurts (to_bleeding n)
unfolding to_bleeding
to_bleeding-Hurts n a = ground arith

pub to_reduced_healing-Hurts : (n : ℕ) → Hurts (to_reduced_healing n)
unfolding to_reduced_healing
to_reduced_healing-Hurts n a = ground arith

pub to_heal-Touches : (n : ℕ) → Touches (to_heal n)
unfolding to_heal
to_heal-Touches n a = ground arith

pub clear-Touches : Touches clear
unfolding clear
clear-Touches a = ground arith

pub to_just_damage-Touches : (n : ℕ) → Touches (to_just_damage n)
unfolding to_just_damage
to_just_damage-Touches n a = ground arith

pub set_counter_attack-Touches : (n : ℕ) → Touches (set_counter_attack n)
unfolding set_counter_attack
set_counter_attack-Touches n a = ground arith

pub set_counter_heal-Touches : (n : ℕ) → Touches (set_counter_heal n)
unfolding set_counter_heal
set_counter_heal-Touches n a = ground arith

pub set_effect_heal-Touches : (n : ℕ) → Touches (set_effect_heal n)
unfolding set_effect_heal
set_effect_heal-Touches n a = ground arith

pub set_install_bomb-Hurts : (n : ℕ) → Hurts (set_install_bomb n)
unfolding set_install_bomb
set_install_bomb-Hurts n a = ground arith

pub use_key_cap-Touches : Touches use_key_cap
unfolding use_key_cap
use_key_cap-Touches a = ground arith

pub set_defend_negative_effect-Touches : (b : Bool) → Touches (set_defend_negative_effect b)
unfolding set_defend_negative_effect
set_defend_negative_effect-Touches b a = ground arith

pub set_offense_power-Hurts : (n : ℕ) → Hurts (set_offense_power n)
unfolding set_offense_power
set_offense_power-Hurts n a = ground arith

pub set_weakening-Touches : (n : ℕ) → Touches (set_weakening n)
unfolding set_weakening
set_weakening-Touches n a = ground arith

pub set_ignore_next_damage-Touches : (b : Bool) → Touches (set_ignore_next_damage b)
unfolding set_ignore_next_damage
set_ignore_next_damage-Touches b a = ground arith

pub to_damage-Hurts : (n : ℕ) (attacker : BattleAvatar) → Hurts (to_damage n attacker)
unfolding to_damage
to_damage-Hurts n attacker a = ground arith

pub to_piercing_damage-Hurts :
    (n : ℕ) (attacker : BattleAvatar) → Hurts (to_piercing_damage n attacker)
unfolding to_piercing_damage
to_piercing_damage-Hurts n attacker a = ground arith

pub ruleset touches = (
  to_weakening-Touches, to_defensive-Touches, to_offense_power-Touches,
  to_addition_defensive-Touches, to_heal-Touches, clear-Touches, to_just_damage-Touches,
  set_counter_attack-Touches, set_counter_heal-Touches, set_effect_heal-Touches,
  use_key_cap-Touches, set_defend_negative_effect-Touches, set_weakening-Touches,
  set_ignore_next_damage-Touches,
)

pub ruleset hurts = (
  to_weakening-Hurts, to_bleeding-Hurts, to_reduced_healing-Hurts, set_install_bomb-Hurts,
  set_offense_power-Hurts, to_damage-Hurts, to_piercing_damage-Hurts,
)
