-- ===== src/Server/Tickets.antt =====
-- Server.cpp: the four notifications `Use...ItemTicket`, which differ in the type of the ticket only.
use isegye_idol_game_server.Common.{ℕ, ◌-◌, none, some, [], ◌∷◌, ◌==◌, if◌then◌else◌}
use isegye_idol_game_server.Types.{empty_item, ItemTicketType}
use isegye_idol_game_server.Client.{Client, ticket_count, set_ticket_count}
use isegye_idol_game_server.Client.Inventory.{add_item}
use isegye_idol_game_server.Client.Draws.{Drawn, get_random_item_type_of}
use isegye_idol_game_server.Packet.{inventory_info_packet, set_item_ticket_packet}
use isegye_idol_game_server.World.{World, Random, send_packet_to_all_clients}
use isegye_idol_game_server.Server.Stage.{Outcome, is_ready_stage, with_room, put_client}

-- The client with the item, and then with a ticket less. Where `AddItem` found no place, the ticket is
-- taken all the same.
unfoldable pub pay_ticket : ItemTicketType → ℕ → Client → Client
pay_ticket type new_item_type c =
    let c' = (add_item new_item_type c).0 in set_ticket_count type (ticket_count type c' - 1) c'

-- One buffer with both packets.
unfoldable pub tell_ticket : ItemTicketType → ℕ → Client → Client → World → World
tell_ticket type room added c w =
    send_packet_to_all_clients room
      (inventory_info_packet added
        ∷ set_item_ticket_packet c.network_id type (ticket_count type c)
        ∷ [])
      w

unfoldable pub give_item : ItemTicketType → ℕ → ℕ → World → Drawn → Outcome
unfolding pay_ticket tell_ticket
give_item type id room w none = none
give_item type id room w (some (new_item_type, draws)) =
    let c = w.clients id in
    let c' = pay_ticket type new_item_type c in
    let w' = record w { draws = draws } in
    if new_item_type == empty_item
    then some w'
    else some (tell_ticket type room (add_item new_item_type c).0 c' (put_client id c' w'))

-- `UseNormalItemTicket`, `UseAdvancedItemTicket`, `UseTopItemTicket` and `UseSupremeItemTicket`
unfoldable pub use_item_ticket : Random → ItemTicketType → ℕ → World → Outcome
unfolding give_item
use_item_ticket random type id w = with_room (w.clients id).room w λ r.
    if is_ready_stage (w.rooms r).cur_room_status_type
    then give_item type id r w
        (get_random_item_type_of type random w.draws (w.rooms r).round (w.clients id))
    else some w
