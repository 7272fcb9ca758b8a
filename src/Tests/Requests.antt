-- ===== src/Tests/Requests.antt =====
-- The properties of Server.cpp's requests.
use isegye_idol_game_server.Common.{ℕ, ◌-◌, ◌≡◌, refl, some, arith}
use isegye_idol_game_server.Types.{normal, top}
use isegye_idol_game_server.Client.{ticket_count, set_ticket_count}
use isegye_idol_game_server.Client.Inventory.{get_item}
use isegye_idol_game_server.Client.Draws.Tickets.{MayGive}
use isegye_idol_game_server.Items.Tiers.{tier_of}
use isegye_idol_game_server.World.{World, ready_stage, battle_stage}
use isegye_idol_game_server.Server.{process_packet, cs_request_combination_item}
use isegye_idol_game_server.Server.Places.{request_upgrade_item}
use isegye_idol_game_server.Server.Tickets.{use_item_ticket}
use isegye_idol_game_server.Server.Stages.{clients_of, in_stage, request_combination_item-any_stage}
use isegye_idol_game_server.Server.Combination.{request_combination_item}
use isegye_idol_game_server.Server.Safety.{IsSafe}
use isegye_idol_game_server.Server.Safety.Requests.{process_packet-IsSafe}
use isegye_idol_game_server.Server.Upgrades.{IsUpgrade, request_upgrade_item-IsUpgrade}
use isegye_idol_game_server.Server.Spending.{IsPaid, use_item_ticket-IsPaid, use_item_ticket-full}
use isegye_idol_game_server.Tests.Inputs.{
  lowest_draws, lowest_draws-InRange, highest_draws, highest_draws-InRange, player, full_player,
  place, server, player-AllValid, full_player-AllValid, full_player-IsFull, player-has_tickets,
  full_player-has_tickets,
}

process_packet-IsSafe_example : IsSafe (
    process_packet lowest_draws 5 0
      (cs_request_combination_item 0 1 7 9)
      (server player ready_stage))
process_packet-IsSafe_example =
    process_packet-IsSafe lowest_draws 5 0 (cs_request_combination_item 0 1 7 9)
      (server player ready_stage) lowest_draws-InRange (omega arith)
      (omega arith, omega arith, omega arith, omega arith) (player-AllValid ready_stage)

request_upgrade_item-IsUpgrade_example :
    (w' : World) × (request_upgrade_item 0 0 1 6 (server player ready_stage) ≡ some w')
    × IsUpgrade 0 1 6 ready_stage (place 1 45 24 1) (place 6 0 24 1) (server player ready_stage) w'
unfolding get_item
request_upgrade_item-IsUpgrade_example =
    request_upgrade_item-IsUpgrade 0 0 1 6 0 (place 1 45 24 1) (place 6 0 24 1)
      (server player ready_stage) refl refl refl

use_item_ticket-IsPaid_example :
    (t : ℕ) × (tier : ℕ) × (w' : World) × (tier_of highest_draws t ≡ some tier)
    × MayGive normal 3 tier
    × (use_item_ticket highest_draws normal 0 (server player ready_stage) ≡ some w')
    × IsPaid normal 0 t (server player ready_stage) w'
use_item_ticket-IsPaid_example =
    use_item_ticket-IsPaid highest_draws normal 0 0 (server player ready_stage)
      highest_draws-InRange refl refl player-has_tickets

use_item_ticket-full_example :
    (w' : World) × (use_item_ticket highest_draws top 0 (server full_player ready_stage) ≡ some w')
    × (w'.clients 0 ≡ set_ticket_count top (ticket_count top full_player - 1) full_player)
use_item_ticket-full_example =
    use_item_ticket-full highest_draws top 0 0 (server full_player ready_stage)
      highest_draws-InRange (full_player-AllValid ready_stage) full_player-IsFull refl refl
      full_player-has_tickets

request_combination_item-any_stage_example :
    clients_of (request_combination_item lowest_draws 0 0 1 7 9 (server player battle_stage))
    ≡ clients_of (
        request_combination_item lowest_draws 0 0 1 7 9
          (in_stage ready_stage 0 (server player battle_stage)))
request_combination_item-any_stage_example =
    request_combination_item-any_stage lowest_draws 0 0 1 7 9 0 ready_stage
      (server player battle_stage)
