-- ===== src/Server.antt =====
-- Server/Server/Server.cpp: `ProcessPacket`, the requests of the clients. `network_id` is the client on
-- whose connection the packet came, `id` the one that the packet names; the source does not compare
-- them. An `id` is an `int32_t` of the packet, read as a natural number of 32 bits: a negative one is
-- past every client too.
pub mod Stage
pub mod Places
pub mod Tickets
pub mod Combination
pub mod Choice
pub mod Connections
pub mod Leaving
pub mod Safety
pub mod Upgrades
pub mod Spending
pub mod Reassembly
pub mod Stages
use isegye_idol_game_server.Common.{ℕ, none, some, ltb, if◌then◌else◌}
use isegye_idol_game_server.Types.{CharacterType, ItemTicketType, max_user}
use isegye_idol_game_server.World.{World, Random}
use isegye_idol_game_server.Server.Stage.{Outcome}
use isegye_idol_game_server.Server.Places.{change_item_slot, drop_item, request_upgrade_item}
use isegye_idol_game_server.Server.Tickets.{use_item_ticket}
use isegye_idol_game_server.Server.Combination.{request_combination_item}
use isegye_idol_game_server.Server.Choice.{
  request_change_character, request_use_emoticon, request_choice_character, connect_check,
}

-- The packets that a client may send, by their fields: `unexpected_notification` is one of those that
-- the server sends itself, which are only logged, `unknown_notification` one of no known type, and
-- `unexpected` any other packet, which is only logged.
pub data Request : Type 0 where
  cs_sc_change_character : ℕ → CharacterType → Request
  cs_sc_change_item_slot : ℕ → ℕ → ℕ → Request
  cs_sc_use_emoticon : ℕ → ℕ → Request
  cs_sc_choice_character : ℕ → Request
  cs_sc_connect_check : ℕ → Request
  cs_sc_use_item_ticket : ℕ → ItemTicketType → Request
  cs_sc_drop_item : ℕ → ℕ → Request
  cs_request_combination_item : ℕ → ℕ → ℕ → ℕ → Request
  cs_request_upgrade_item : ℕ → ℕ → ℕ → Request
  unexpected_notification : ℕ → Request
  unknown_notification : ℕ → Request
  unexpected : Request

-- `sClients[id]`, unchecked in the source: past the last client there is none.
unfoldable pub at_client : ℕ → (World → Outcome) → World → Outcome
at_client id f w = if ltb id max_user then f w else none

-- The notifications, all of which look up the client that they name first; an unknown one runs into
-- `assert(false)`.
unfoldable pub process_request : Random → ℕ → ℕ → Request → World → Outcome
unfolding at_client
process_request random now network_id (cs_sc_change_character id type) =
    at_client id (request_change_character network_id id type)
process_request random now network_id (cs_sc_change_item_slot id slot1 slot2) =
    at_client id (change_item_slot network_id id slot1 slot2)
process_request random now network_id (cs_sc_use_emoticon id emoticon_type) =
    request_use_emoticon network_id id emoticon_type
process_request random now network_id (cs_sc_choice_character id) =
    at_client id (request_choice_character id)
process_request random now network_id (cs_sc_connect_check id) = at_client id (connect_check now id)
process_request random now network_id (cs_sc_use_item_ticket id type) =
    at_client id (use_item_ticket random type id)
process_request random now network_id (cs_sc_drop_item id index) =
    at_client id (drop_item network_id id index)
process_request random now network_id (cs_request_combination_item id index1 index2 index3) =
    at_client id (request_combination_item random network_id id index1 index2 index3)
process_request random now network_id (cs_request_upgrade_item id slot1 slot2) =
    at_client id (request_upgrade_item network_id id slot1 slot2)
process_request random now network_id (unexpected_notification id) = at_client id (λ w. some w)
process_request random now network_id (unknown_notification id) = at_client id (λ w. none)
process_request random now network_id unexpected = λ w. some w

-- `Server::ProcessPacket`, but for `cs_startMatching`, for a connection that has a client:
-- `PacketConstruct` reads `sClients[networkID]` before.
unfoldable pub process_packet : Random → ℕ → ℕ → Request → World → Outcome
unfolding at_client process_request
process_packet random now network_id request =
    at_client network_id (process_request random now network_id request)
