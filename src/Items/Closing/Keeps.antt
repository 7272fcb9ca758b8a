-- ===== src/Items/Closing/Keeps.antt =====
-- The items of this file keep both avatars sound and do not heal the opponent.
use isegye_idol_game_server.Common.{ℕ}
use isegye_idol_game_server.Avatar.Sound.{touches, hurts}
use isegye_idol_game_server.Duel.Fights.{Keeps, keeps}
use isegye_idol_game_server.Items.Closing.{
  item030, item031, item032, item033, item034, item035, item036, item037,
}

pub item030-Keeps : (u : ℕ) → Keeps (item030 u)
unfolding item030
item030-Keeps u = search (keeps, touches, hurts)

pub item031-Keeps : (u : ℕ) → Keeps (item031 u)
unfolding item031
item031-Keeps u = search (keeps, touches, hurts)

pub item032-Keeps : (u : ℕ) → Keeps (item032 u)
unfolding item032
item032-Keeps u = search (keeps, touches, hurts)

pub item033-Keeps : (u : ℕ) → Keeps (item033 u)
unfolding item033
item033-Keeps u = search (keeps, touches, hurts)

pub item034-Keeps : (u : ℕ) → Keeps (item034 u)
unfolding item034
item034-Keeps u = search (keeps, touches, hurts)

pub item035-Keeps : (u : ℕ) → Keeps (item035 u)
unfolding item035
item035-Keeps u = search (keeps, touches, hurts)

pub item036-Keeps : (u : ℕ) → Keeps (item036 u)
unfolding item036
item036-Keeps u = search (keeps, touches, hurts)

pub item037-Keeps : (u : ℕ) → Keeps (item037 u)
unfolding item037
item037-Keeps u = search (keeps, touches, hurts)
