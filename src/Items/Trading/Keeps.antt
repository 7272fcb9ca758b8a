-- ===== src/Items/Trading/Keeps.antt =====
-- The items of this file keep both avatars sound and do not heal the opponent.
use isegye_idol_game_server.Common.{ℕ}
use isegye_idol_game_server.Avatar.Sound.{touches, hurts}
use isegye_idol_game_server.Duel.Fights.{Keeps, keeps}
use isegye_idol_game_server.Items.Trading.{
  item010, item011, item012, item013, item014, item015, item016, item017, item018, item019,
}

pub item010-Keeps : (u : ℕ) → Keeps (item010 u)
unfolding item010
item010-Keeps u = search (keeps, touches, hurts)

pub item011-Keeps : (u : ℕ) → Keeps (item011 u)
unfolding item011
item011-Keeps u = search (keeps, touches, hurts)

pub item012-Keeps : (u : ℕ) → Keeps (item012 u)
unfolding item012
item012-Keeps u = search (keeps, touches, hurts)

pub item013-Keeps : (u : ℕ) → Keeps (item013 u)
unfolding item013
item013-Keeps u = search (keeps, touches, hurts)

pub item014-Keeps : (u : ℕ) → Keeps (item014 u)
unfolding item014
item014-Keeps u = search (keeps, touches, hurts)

pub item015-Keeps : (u : ℕ) → Keeps (item015 u)
unfolding item015
item015-Keeps u = search (keeps, touches, hurts)

pub item016-Keeps : (u : ℕ) → Keeps (item016 u)
unfolding item016
item016-Keeps u = search (keeps, touches, hurts)

pub item017-Keeps : (u : ℕ) → Keeps (item017 u)
unfolding item017
item017-Keeps u = search (keeps, touches, hurts)

pub item018-Keeps : (u : ℕ) → Keeps (item018 u)
unfolding item018
item018-Keeps u = search (keeps, touches, hurts)

pub item019-Keeps : (u : ℕ) → Keeps (item019 u)
unfolding item019
item019-Keeps u = search (keeps, touches, hurts)
