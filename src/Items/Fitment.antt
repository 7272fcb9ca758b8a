-- ===== src/Items/Fitment.antt =====
-- Server/Server/Items.h: what an item does when the avatar puts it on, the last argument of `ITEM`.
use isegye_idol_game_server.Common.{ℕ, zero, suc, ◌+◌, ◌*◌}
use isegye_idol_game_server.Avatar.{BattleAvatar, set_max_hp, to_defensive, set_first_attack_state}

abbrev pub Passive : Type 0
Passive = ℕ → BattleAvatar → BattleAvatar

abbrev pub no_fitment : Passive
no_fitment upgrade a = a

unfoldable pub item006_fitment : Passive
unfolding set_max_hp
item006_fitment upgrade a = set_max_hp (a.max_hp + 5 + 5 * upgrade) a

unfoldable pub item007_fitment : Passive
unfolding to_defensive
item007_fitment upgrade = to_defensive (3 + 3 * upgrade)

unfoldable pub item015_fitment : Passive
unfolding set_first_attack_state
item015_fitment upgrade a = set_first_attack_state (a.first_attack_state + 2 + upgrade) a

unfoldable pub item016_fitment : Passive
unfolding set_max_hp
item016_fitment upgrade a = set_max_hp (a.max_hp + 5 + 5 * upgrade) a

unfoldable pub item023_fitment : Passive
unfolding set_first_attack_state
item023_fitment upgrade a = set_first_attack_state (a.first_attack_state + upgrade + 1) a

unfoldable pub item027_fitment : Passive
unfolding to_defensive
item027_fitment upgrade = to_defensive (5 + 5 * upgrade)

unfoldable pub item030_fitment : Passive
unfolding to_defensive
item030_fitment upgrade = to_defensive (3 + 3 * upgrade)

unfoldable pub item032_fitment : Passive
unfolding set_max_hp
item032_fitment zero a = set_max_hp (a.max_hp + 7) a
item032_fitment (suc zero) a = set_max_hp (a.max_hp + 12) a
item032_fitment (suc (suc zero)) a = set_max_hp (a.max_hp + 20) a
item032_fitment (suc (suc (suc upgrade))) a = a

unfoldable pub item036_fitment : Passive
unfolding set_max_hp
item036_fitment upgrade a = set_max_hp (a.max_hp + 5 + 5 * upgrade) a

unfoldable pub item037_fitment : Passive
unfolding to_defensive
item037_fitment upgrade = to_defensive (3 + 3 * upgrade)
