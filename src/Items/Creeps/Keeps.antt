-- ===== src/Items/Creeps/Keeps.antt =====
-- The items of this file keep both avatars sound and do not heal the opponent.
use isegye_idol_game_server.Common.{ℕ}
use isegye_idol_game_server.Avatar.Sound.{touches, hurts}
use isegye_idol_game_server.Duel.Fights.{Keeps, keeps}
use isegye_idol_game_server.Items.Creeps.{
  item038, item039, item040, item041, item042, item043, item044, item045,
}

pub item038-Keeps : (u : ℕ) → Keeps (item038 u)
unfolding item038
item038-Keeps u = search (keeps, touches, hurts)

pub item039-Keeps : (u : ℕ) → Keeps (item039 u)
unfolding item039
item039-Keeps u = search (keeps, touches, hurts)

pub item040-Keeps : (u : ℕ) → Keeps (item040 u)
unfolding item040
item040-Keeps u = search (keeps, touches, hurts)

pub item041-Keeps : (u : ℕ) → Keeps (item041 u)
unfolding item041
item041-Keeps u = search (keeps, touches, hurts)

pub item042-Keeps : (u : ℕ) → Keeps (item042 u)
unfolding item042
item042-Keeps u = search (keeps, touches, hurts)

pub item043-Keeps : (u : ℕ) → Keeps (item043 u)
unfolding item043
item043-Keeps u = search (keeps, touches, hurts)

pub item044-Keeps : (u : ℕ) → Keeps (item044 u)
unfolding item044
item044-Keeps u = search (keeps, touches, hurts)

pub item045-Keeps : (u : ℕ) → Keeps (item045 u)
unfolding item045
item045-Keeps u = search (keeps, touches, hurts)
