-- ===== src/Stage/Hurt.antt =====
-- BattleAvatar.cpp: `ToDamageCharacter` keeps the server safe and the two avatars standing.
use isegye_idol_game_server.Common.{
  ℕ, ◌+◌, not, ◌&&◌, Bool, true, false, Option, none, some, if◌then◌else◌,
}
use isegye_idol_game_server.Types.{Random}
use isegye_idol_game_server.World.{World}
use isegye_idol_game_server.Avatar.{BattleAvatar}
use isegye_idol_game_server.Duel.{to_damage_character}
use isegye_idol_game_server.Duel.{hurt, alive, is_valid_battle_avatar_in_room}
use isegye_idol_game_server.World.Safe.{IsSafeWorld, modify_client-IsSafeWorld}
use isegye_idol_game_server.Client.{to_damage_client}
use isegye_idol_game_server.Items.{get_damage}
use isegye_idol_game_server.Stage.Bout.{points, hurt_both, round_damage}
use isegye_idol_game_server.Stage.Carries.{Stays, to_damage_character-Stays}

hurt-IsSafeWorld : (n : ℕ) (w : World) (o : Option ℕ) → IsSafeWorld w → IsSafeWorld (hurt n w o)
unfolding hurt to_damage_client
hurt-IsSafeWorld n w none s = s
hurt-IsSafeWorld n w (some i) s = modify_client-IsSafeWorld i (to_damage_client n) w (λ k. k) s

if-IsSafeWorld :
    (b : Bool) (s t : World × BattleAvatar)
    → IsSafeWorld s.0
    → IsSafeWorld t.0
    → IsSafeWorld (if b then s else t).0
if-IsSafeWorld true s t p q = p
if-IsSafeWorld false s t p q = q

pub to_damage_character-IsSafeWorld :
    (n : ℕ) (forced : Bool) (w : World) (a : BattleAvatar)
    → IsSafeWorld w
    → IsSafeWorld (to_damage_character n forced (w, a)).0
unfolding to_damage_character
to_damage_character-IsSafeWorld n forced w a s = if-IsSafeWorld a.is_ghost _ _ s (
    if-IsSafeWorld a.is_character_damage _ _ s (
      if-IsSafeWorld (not forced && alive a.hp) _ _ s (
        if-IsSafeWorld (not (is_valid_battle_avatar_in_room w a)) _ _ s
          (hurt-IsSafeWorld n w a.client s))))

pub hurt_both-IsSafeWorld :
    (random : Random) (r : ℕ) (w : World) (a b : BattleAvatar)
    → IsSafeWorld w
    → IsSafeWorld (hurt_both random r (w, a, b)).0
unfolding hurt_both
hurt_both-IsSafeWorld random r w a b s =
    let n = points (get_damage random b) + round_damage r w in
    let t = to_damage_character n false (w, a) in
    to_damage_character-IsSafeWorld (points (get_damage random t.1) + round_damage r t.0) false t.0
      b (to_damage_character-IsSafeWorld n false w a s)

pub hurt_both-Stays :
    (random : Random) (r : ℕ) (w : World) (a b : BattleAvatar)
    → let h = hurt_both random r (w, a, b) in Stays a h.1 × Stays b h.2
unfolding hurt_both
hurt_both-Stays random r w a b =
    let n = points (get_damage random b) + round_damage r w in
    let s = to_damage_character n false (w, a) in
    let m = points (get_damage random s.1) + round_damage r s.0 in
    (to_damage_character-Stays n false w a, to_damage_character-Stays m false s.0 b)
