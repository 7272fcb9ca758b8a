-- ===== src/Stage/Freed.antt =====
-- Room.cpp and RoomManager.cpp: which rooms `ProgressThread` gives back.
use isegye_idol_game_server.Common.{ℕ, ◌≤◌, ◌≡◌, ◌≢◌, Bool, not, ◌&&◌, some, []}
use isegye_idol_game_server.Types.{max_room_count}
use isegye_idol_game_server.World.{World, Room}
use isegye_idol_game_server.Room.{find_un_used_room}
use isegye_idol_game_server.Stage.{Scene}
use isegye_idol_game_server.Stage.Marked.{Runs}
use isegye_idol_game_server.Stage.Progress.{Game, plays, leaves, stops}

-- A room that runs no thread any more and for nobody.
abbrev pub is_free_room : Room → Bool
is_free_room room = not room.is_run && room.is_finish_thread

-- A part of the game that never ends the thread where it stands.
data NoStop : Game → Type 0 where
  goes : {s : Scene} → NoStop (plays s)
  jumps : {s : Scene} → NoStop (leaves s)

-- How the thread of a room may stand after some rounds.
abbrev pub Ends : ℕ → Game → Type 0
Ends r (plays s) = Unit {0}
Ends r (leaves s) =
    ((s.world.rooms r).clients ≡ [])
    × ((m : ℕ) × (find_un_used_room max_room_count 0 s.world ≡ some m) × (m ≤ r))
Ends r (stops s) = find_un_used_room max_room_count 0 s.world ≢ some r

-- Where the thread ends on the spot, the mark still says that it runs.
data Marked (r : ℕ) : Game → Type 0 where
  on_stage : {s : Scene} → Marked r (plays s)
  gone : {s : Scene} → Marked r (leaves s)
  stuck : {s : Scene} → Runs r s.world → Marked r (stops s)
