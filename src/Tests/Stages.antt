-- ===== src/Tests/Stages.antt =====
-- The stages of a room at concrete inputs.
use isegye_idol_game_server.Common.{
  inl, ◌∷◌, List, ◌≡◌, Bool, true, false, refl, [], arith, ◌==◌, if◌then◌else◌,
}
use isegye_idol_game_server.World.{World, battle_stage, ready_stage, modify_room}
use isegye_idol_game_server.Avatar.{BattleAvatar}
use isegye_idol_game_server.Stage.{Others, set_status, sleep, goes_on, send_stream}
use isegye_idol_game_server.Stage.Bout.{Bout, settle}
use isegye_idol_game_server.Stage.Settled.{settle-settle}
use isegye_idol_game_server.Stage.Progress.{
  Game, stops, progress_thread, play, choose, after_choice, play_scene, hand_out, equip_all, equip,
}
use isegye_idol_game_server.Room.{try_send_enter_in_game}
use isegye_idol_game_server.Stage.Safety.{IsSafeScene}
use isegye_idol_game_server.Stage.Fight.{fight}
use isegye_idol_game_server.Stage.Battle.{battle_stage_of, battle_rules}
use isegye_idol_game_server.Stage.Upkeep.{KeepsServer}
use isegye_idol_game_server.Stage.Arming.{IsReadied}
use isegye_idol_game_server.Types.{pos}
use isegye_idol_game_server.World.Safe.{IsSafeWorld, same-IsSafeWorld}
use isegye_idol_game_server.Stage.Staged.{battle_stage_of-IsSafeScene}
use isegye_idol_game_server.Stage.Fought.{fight-IsSafeScene}
use isegye_idol_game_server.Tests.Inputs.{
  lowest_draws, lowest_draws-InRange, player, player-IsValid, server, room, scene, fighter,
  fighter-IsArmed, fighter-IsEquipped, server-IsSafeWorld,
}

-- One of two has no life left.
abbrev lost : Bout
lost = record {
  duel = record {
    world = server player battle_stage;
    me = fighter;
    opponent = record fighter { hp = 0 };
    fault = false;
  };
  stream = [];
  leaving = [];
}

settle-settle_example :
    (settle lowest_draws 0 (settle lowest_draws 0 lost)).duel ≡ (settle lowest_draws 0 lost).duel
settle-settle_example = settle-settle lowest_draws 0 lost

-- The players go while the default items are handed out, the seventh moment at which others act.
abbrev going : Others
going n w = if n == 6 then modify_room 0 (λ room. record room { is_run = false }) w else w

abbrev is_stopped : Game → Bool
is_stopped (stops s) = true
is_stopped _ = false

abbrev played : Game
played = progress_thread going (λ xs. xs) lowest_draws 0 2 (server player ready_stage)

-- The thread ends without `loopOut`.
played-stops : is_stopped played ≡ true
unfolding progress_thread play choose after_choice play_scene hand_out modify_room set_status sleep
    goes_on send_stream equip_all equip try_send_enter_in_game
played-stops = refl

fighter-IsReadied : IsReadied fighter
fighter-IsReadied = record { equipped = fighter-IsEquipped; armed_before = λ e. fighter-IsArmed }

-- Nobody else acts.
abbrev nobody : Others
nobody n w = w

nobody-KeepsServer : KeepsServer nobody
nobody-KeepsServer n w s = s

abbrev pair : List BattleAvatar
pair = fighter ∷ fighter ∷ []

fight-IsSafeScene_example :
    IsSafeScene (fight nobody (battle_rules nobody lowest_draws 0) 0 1 (pair, scene)).0
fight-IsSafeScene_example =
    fight-IsSafeScene nobody lowest_draws 0 1 lowest_draws-InRange nobody-KeepsServer pair scene
      (inl (fighter-IsReadied, fighter-IsReadied), tt) (refl, server-IsSafeWorld, tt)

-- Two players who are to meet.
abbrev meeting : World
meeting = record (server player ready_stage) {
  rooms = λ i. record (room ready_stage) { battle_opponents = pos 0 ∷ pos 1 ∷ [] };
}

meeting-IsSafeWorld : IsSafeWorld meeting
meeting-IsSafeWorld =
    same-IsSafeWorld (server player battle_stage) meeting refl (λ i. refl) (λ i. refl)
      server-IsSafeWorld

battle_stage_of-IsSafeScene_example : IsSafeScene (battle_stage_of nobody lowest_draws 0 meeting).0
battle_stage_of-IsSafeScene_example =
    battle_stage_of-IsSafeScene nobody lowest_draws 0 lowest_draws-InRange nobody-KeepsServer
      meeting (λ i. player-IsValid) (omega arith, omega arith, tt) meeting-IsSafeWorld
