-- ===== src/Tests/Waiting.antt =====
-- The queue of waiting players at concrete steps, and a player that goes.
use isegye_idol_game_server.Common.{refl, true, ◌≡◌, some, List, [], ◌∷◌}
use isegye_idol_game_server.World.{World, ready_stage}
use isegye_idol_game_server.Server.Connections.{disconnect}
use isegye_idol_game_server.Server.Leaving.{HasLeft, disconnect-HasLeft}
use isegye_idol_game_server.Tests.Inputs.{player, server}
use isegye_idol_game_server.Queue.{ServerQueue, new_queue}
use isegye_idol_game_server.Queue.Waiting.{IsQueue, new_queue-IsQueue}
use isegye_idol_game_server.Queue.Refines.{
  QueueStep, joins, leaves, fills, run, run_list, run-IsQueue,
}

-- Nine players come, the third goes and comes again, a room is filled, and the one left goes.
abbrev steps : List QueueStep
steps =
    joins 1
    ∷ joins 2
    ∷ joins 3
    ∷ joins 4
    ∷ joins 5
    ∷ joins 6
    ∷ joins 7
    ∷ joins 8
    ∷ joins 9
    ∷ leaves 3
    ∷ joins 3
    ∷ fills
    ∷ leaves 3
    ∷ []

run-IsQueue_example :
    (q : ServerQueue) × (run steps new_queue ≡ some ((run_list steps []).0, q))
    × IsQueue q (run_list steps []).1
run-IsQueue_example = run-IsQueue steps new_queue [] new_queue-IsQueue

-- A player in a room of two.
disconnect-HasLeft_example :
    (w : World) × (disconnect 1 true (server player ready_stage) ≡ some w)
    × HasLeft 1 (server player ready_stage) w []
disconnect-HasLeft_example =
    disconnect-HasLeft 1 true (server player ready_stage) [] new_queue-IsQueue (λ r. refl) refl
