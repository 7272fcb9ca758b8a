-- ===== src/Duel/Once.antt =====
-- BattleAvatar.cpp: `EffectCounter` and `ToDamageCharacter`, which take effect once.
use isegye_idol_game_server.Common.{ℕ, ◌≡◌, Bool, arith}
use isegye_idol_game_server.World.{World}
use isegye_idol_game_server.Avatar.{BattleAvatar, to_damage, to_heal}
use isegye_idol_game_server.Avatar.Sound.{IsSound}
use isegye_idol_game_server.Duel.{
  Duel, effect_counter, counter_attacks, counter_heals, to_damage_character,
}

-- Striking back and healing back use up what is stored for them: a second answer changes nothing.
pub effect_counter-effect_counter :
    (d : Duel) → effect_counter (effect_counter d) ≡ effect_counter d
unfolding effect_counter counter_attacks counter_heals to_damage to_heal
effect_counter-effect_counter d = ground arith

-- The answer to an attack keeps both avatars sound.
pub effect_counter-IsSound :
    (d : Duel)
    → IsSound d.me
    → IsSound d.opponent
    → IsSound (effect_counter d).me × IsSound (effect_counter d).opponent
unfolding effect_counter counter_attacks counter_heals to_damage to_heal
effect_counter-IsSound d s t = ground arith

-- However often the end of a battle is told to an avatar, its player is hurt at most once: told again,
-- it changes neither the player nor itself.
pub to_damage_character_once :
    (n : ℕ) (b : Bool) (w : World) (a : BattleAvatar)
    → let s = to_damage_character n b (w, a) in to_damage_character n b s ≡ s
unfolding to_damage_character
to_damage_character_once n b w a = ground arith
