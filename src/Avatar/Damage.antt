-- ===== src/Avatar/Damage.antt =====
-- Who pays for an attack: BattleAvatar.cpp's `ToDamage` and `ToPiercingDamage`, and the single use of
-- the broom.
use isegye_idol_game_server.Common.{ℕ, ◌+◌, ◌-◌, ◌≤◌, ◌≡◌, true, false, arith, ◌⊎◌}
use isegye_idol_game_server.Avatar.{BattleAvatar, to_damage, to_piercing_damage}

-- What an attack of strength `n` comes to.
abbrev pub dealt : ℕ → BattleAvatar → ℕ
dealt n attacker = n + attacker.offense_power - attacker.weakening

-- Without the broom, an attack is paid from the defence and, for what is left, from the life: together
-- they lose just the damage, or all that they have, and the life loses nothing while there is defence.
pub to_damage_paid :
    (n : ℕ) (attacker a : BattleAvatar)
    → a.is_ignore_next_damage ≡ false
    → let b = to_damage n attacker a in
      (b.hp + b.defensive ≡ a.hp + a.defensive - dealt n attacker)
      × ((b.hp ≡ a.hp) ⊎ (b.defensive ≡ 0))
unfolding to_damage
to_damage_paid n attacker a h = ground arith

-- An attack past the defence takes at least as much life as the same attack against it, and leaves the
-- defence as it was.
pub to_piercing_damage-to_damage :
    (n : ℕ) (attacker a : BattleAvatar)
    → let p = to_piercing_damage n attacker a in
      (p.hp ≤ (to_damage n attacker a).hp) × (p.defensive ≡ a.defensive)
unfolding to_damage to_piercing_damage
to_piercing_damage-to_damage n attacker a = ground arith

-- The broom takes one attack of any kind and nothing more: neither life nor defence is lost to it, and
-- the next attack is paid in full.
pub ignore_next_damage_once :
    (n m : ℕ) (attacker a : BattleAvatar)
    → a.is_ignore_next_damage ≡ true
    → let b = to_damage n attacker a in
      (b.hp ≡ a.hp)
      × (b.defensive ≡ a.defensive)
      × ((to_damage m attacker b).hp + (to_damage m attacker b).defensive
          ≡ a.hp + a.defensive - dealt m attacker)
unfolding to_damage
ignore_next_damage_once n m attacker a h = ground arith
