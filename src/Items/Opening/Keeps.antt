-- ===== src/Items/Opening/Keeps.antt =====
-- The items of this file keep both avatars sound and do not heal the opponent.
use isegye_idol_game_server.Common.{ℕ}
use isegye_idol_game_server.Types.{HamburgerType, fillet, guinness, white_garlic, rice}
use isegye_idol_game_server.Avatar.Sound.{touches, hurts}
use isegye_idol_game_server.Duel.Fights.{Keeps, keeps}
use isegye_idol_game_server.Items.Opening.{
  item_empty, item001, item002, item003, item004, item005, item006, item007, item008, item009,
  burger,
}

pub item_empty-Keeps : (u : ℕ) → Keeps (item_empty u)
unfolding item_empty
item_empty-Keeps u = search (keeps, touches, hurts)

pub item001-Keeps : (u : ℕ) → Keeps (item001 u)
unfolding item001
item001-Keeps u = search (keeps, touches, hurts)

pub item002-Keeps : (u : ℕ) → Keeps (item002 u)
unfolding item002
item002-Keeps u = search (keeps, touches, hurts)

pub item003-Keeps : (u : ℕ) → Keeps (item003 u)
unfolding item003
item003-Keeps u = search (keeps, touches, hurts)

pub item004-Keeps : (u : ℕ) → Keeps (item004 u)
unfolding item004
item004-Keeps u = search (keeps, touches, hurts)

pub item005-Keeps : (u : ℕ) → Keeps (item005 u)
unfolding item005
item005-Keeps u = search (keeps, touches, hurts)

pub item006-Keeps : (u : ℕ) → Keeps (item006 u)
unfolding item006
item006-Keeps u = search (keeps, touches, hurts)

burger-Keeps : (t : HamburgerType) (w h l f : ℕ) → Keeps (burger t w h l f)
unfolding burger
burger-Keeps fillet w h l f = search (keeps, hurts)
burger-Keeps guinness w h l f = search keeps
burger-Keeps white_garlic w h l f = search (keeps, touches)
burger-Keeps rice w h l f = search (keeps, touches)

pub item007-Keeps : (u : ℕ) → Keeps (item007 u)
unfolding item007
item007-Keeps u = search (keeps, touches, hurts, burger-Keeps)

pub item008-Keeps : (u : ℕ) → Keeps (item008 u)
unfolding item008
item008-Keeps u = search (keeps, touches, hurts)

pub item009-Keeps : (u : ℕ) → Keeps (item009 u)
unfolding item009
item009-Keeps u = search (keeps, touches, hurts)
