-- ===== src/Stage/Noted.antt =====
-- Room.cpp: the end of a fight notes none but the two players to be disconnected.
use isegye_idol_game_server.Common.{ℕ, List, ◌<◌, Bool, inl, inr}
use isegye_idol_game_server.Types.{max_user}
use isegye_idol_game_server.World.{World}
use isegye_idol_game_server.Avatar.{BattleAvatar}
use isegye_idol_game_server.Stage.Bout.{note_leaving}
use isegye_idol_game_server.Stage.Settled.{noted-leaving}
use isegye_idol_game_server.Stage.Carries.{AreNumbers, append-AreNumbers}

note_leaving-AreNumbers :
    (r : ℕ) (w : World) (a : BattleAvatar) (leaving : List ℕ) (fault : Bool)
    → AreNumbers leaving
    → a.network_id < max_user
    → AreNumbers (note_leaving r w a (leaving, fault)).0
unfolding note_leaving
note_leaving-AreNumbers r w a leaving fault v h = elim (noted-leaving r w a leaving fault) [
  | inl e ↦ rw e v
  | inr e ↦ rw e (append-AreNumbers leaving a.network_id v h)
]

pub both-AreNumbers :
    (r : ℕ) (w : World) (a b : BattleAvatar) (leaving : List ℕ) (fault : Bool)
    → AreNumbers leaving
    → a.network_id < max_user
    → b.network_id < max_user
    → AreNumbers (note_leaving r w b (note_leaving r w a (leaving, fault))).0
both-AreNumbers r w a b leaving fault v h k =
    let noted = note_leaving r w a (leaving, fault) in
    note_leaving-AreNumbers r w b noted.0 noted.1 (note_leaving-AreNumbers r w a leaving fault v h)
      k
