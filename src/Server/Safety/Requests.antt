-- ===== src/Server/Safety/Requests.antt =====
-- Server.cpp: `ProcessPacket` on every request.
use isegye_idol_game_server.Common.{ℕ, ◌<◌, refl, some, true, lt→ltb}
use isegye_idol_game_server.Packet.{Packet}
use isegye_idol_game_server.Types.{CharacterType, max_user}
use isegye_idol_game_server.Client.{Client}
use isegye_idol_game_server.Client.Inventory.Slots.{get_item_total}
use isegye_idol_game_server.Client.Inventory.Valid.{IsValid, same_items-IsValid, swap_item-IsValid}
use isegye_idol_game_server.World.{
  World, Random, InRange, modify_client, send_packet_in_all_room_clients,
}
use isegye_idol_game_server.Server.{
  Request, cs_sc_change_character, cs_sc_change_item_slot, cs_sc_use_emoticon,
  cs_sc_choice_character, cs_sc_connect_check, cs_sc_use_item_ticket, cs_sc_drop_item,
  cs_request_combination_item, cs_request_upgrade_item, unexpected_notification,
  unknown_notification, unexpected, at_client, process_request, process_packet,
}
use isegye_idol_game_server.Server.Tickets.{use_item_ticket}
use isegye_idol_game_server.Server.Combination.{request_combination_item}
use isegye_idol_game_server.Server.Places.{change_item_slot, drop_item, request_upgrade_item}
use isegye_idol_game_server.Server.Choice.{
  request_change_character, request_use_emoticon, request_choice_character, connect_check,
}
use isegye_idol_game_server.Server.Stage.{Outcome, put_client}
use isegye_idol_game_server.Server.Safety.{
  AllValid, IsSafe, some-IsSafe, if-IsSafe, with_room-IsSafe, same_clients, put_client-AllValid,
  changed-IsSafe, send_inventory-AllValid, dropped-IsSafeClient, upgraded-IsSafeClient,
  send_packet_in_all_room_clients-clients,
}
use isegye_idol_game_server.Server.Safety.Tickets.{use_item_ticket-IsSafe}
use isegye_idol_game_server.Server.Safety.Combination.{request_combination_item-IsSafe}

-- The client that a request names is one of the server's, its indices are among the sixteen places, and
-- a notification is of a known type.
abbrev pub InBounds : Request → Type 0
InBounds (cs_sc_change_character id type) = id < max_user
InBounds (cs_sc_change_item_slot id slot1 slot2) = (id < max_user) × (slot1 < 16) × (slot2 < 16)
InBounds (cs_sc_choice_character id) = id < max_user
InBounds (cs_sc_connect_check id) = id < max_user
InBounds (cs_sc_use_item_ticket id type) = id < max_user
InBounds (cs_sc_drop_item id index) = (id < max_user) × (index < 16)
InBounds (cs_request_combination_item id index1 index2 index3) =
    (id < max_user) × (index1 < 16) × (index2 < 16) × (index3 < 16)
InBounds (cs_request_upgrade_item id slot1 slot2) = (id < max_user) × (slot1 < 16) × (slot2 < 16)
InBounds (unexpected_notification id) = id < max_user
InBounds (unknown_notification id) = ⊥
InBounds _ = Unit {0}

at_client-IsSafe :
    (id : ℕ) (f : World → Outcome) (w : World)
    → id < max_user
    → IsSafe (f w)
    → IsSafe (at_client id f w)
unfolding at_client
at_client-IsSafe id f w h s = rw (lt→ltb id max_user h) s

modify_client-AllValid :
    (id : ℕ) (f : Client → Client) (w : World)
    → IsValid (f (w.clients id))
    → AllValid w
    → AllValid (modify_client id f w)
unfolding modify_client put_client
modify_client-AllValid id f w h v = put_client-AllValid id (f (w.clients id)) w h v

sent-IsSafe :
    (i : ℕ) (p : Packet) (w : World)
    → AllValid w
    → IsSafe (some (send_packet_in_all_room_clients i p w))
sent-IsSafe i p w v =
    let w' = send_packet_in_all_room_clients i p w in
    some-IsSafe w' (same_clients w w' (send_packet_in_all_room_clients-clients i p w) v)

module _ (network_id id : ℕ) (w : World) (v : AllValid w) where
  change_item_slot-IsSafe :
      (i j : ℕ) → i < 16 → j < 16 → IsSafe (change_item_slot network_id id i j w)
  unfolding change_item_slot
  change_item_slot-IsSafe i j hi hj = with_room-IsSafe ((w.clients id).room) w _ v λ r.
      if-IsSafe _ _ _
        (changed-IsSafe network_id id network_id w _ v (swap_item-IsValid i j (v network_id) hi hj))
        (some-IsSafe _ (send_inventory-AllValid network_id id w v))

  drop_item-IsSafe : (i : ℕ) → i < 16 → IsSafe (drop_item network_id id i w)
  unfolding drop_item
  drop_item-IsSafe i hi = with_room-IsSafe ((w.clients id).room) w _ v λ r.
      let (x, p) = get_item_total i (v id).inventory hi in
      if-IsSafe _ _ _
        (changed-IsSafe network_id id id w _ v
          (rw p (dropped-IsSafeClient i (w.clients id) x (v id))))
        (some-IsSafe _ (send_inventory-AllValid network_id id w v))

  request_upgrade_item-IsSafe :
      (i j : ℕ) → i < 16 → j < 16 → IsSafe (request_upgrade_item network_id id i j w)
  unfolding request_upgrade_item
  request_upgrade_item-IsSafe i j hi hj = with_room-IsSafe ((w.clients id).room) w _ v λ r.
      let (x, p) = get_item_total i (v id).inventory hi in
      let (y, q) = get_item_total j (v id).inventory hj in
      if-IsSafe _ _ _
        (changed-IsSafe network_id id id w _ v
          (rw (p, q) (upgraded-IsSafeClient i j (w.clients id) x y (v id) ((v id).fair i x p))))
        (some-IsSafe _ (send_inventory-AllValid network_id id w v))

  request_change_character-IsSafe :
      (type : CharacterType) → IsSafe (request_change_character network_id id type w)
  unfolding request_change_character
  request_change_character-IsSafe type = with_room-IsSafe ((w.clients id).room) w _ v λ r.
      if-IsSafe _ _ _
        (with_room-IsSafe ((w.clients network_id).room) w _ v λ _. sent-IsSafe network_id _ _ (
          modify_client-AllValid network_id (λ c. record c { character_type = type }) w
            (same_items-IsValid (w.clients network_id) _ refl refl (v network_id)) v))
        (some-IsSafe w v)

  request_use_emoticon-IsSafe : (type : ℕ) → IsSafe (request_use_emoticon network_id id type w)
  unfolding request_use_emoticon
  request_use_emoticon-IsSafe type =
      with_room-IsSafe ((w.clients network_id).room) w _ v λ _. sent-IsSafe network_id _ w v

  request_choice_character-IsSafe : IsSafe (request_choice_character id w)
  unfolding request_choice_character
  request_choice_character-IsSafe = with_room-IsSafe ((w.clients id).room) w _ v λ r.
      if-IsSafe _ _ _
        (sent-IsSafe id _ _ (
          modify_client-AllValid id (λ c. record c { is_choice_character = true }) w
            (same_items-IsValid (w.clients id) _ refl refl (v id)) v))
        (some-IsSafe w v)

  connect_check-IsSafe : (now : ℕ) → IsSafe (connect_check now id w)
  unfolding connect_check
  connect_check-IsSafe now =
      some-IsSafe _
        (modify_client-AllValid id _ w (same_items-IsValid (w.clients id) _ refl refl (v id)) v)

process_request-IsSafe :
    (random : Random) (now network_id : ℕ) (request : Request) (w : World)
    → InRange random
    → InBounds request
    → AllValid w
    → IsSafe (process_request random now network_id request w)
unfolding process_request
process_request-IsSafe random now n (cs_sc_change_character id type) w r b v =
    at_client-IsSafe id (request_change_character n id type) w b
      (request_change_character-IsSafe n id w v type)
process_request-IsSafe random now n (cs_sc_change_item_slot id i j) w r (h, b, b') v =
    at_client-IsSafe id (change_item_slot n id i j) w h (change_item_slot-IsSafe n id w v i j b b')
process_request-IsSafe random now n (cs_sc_use_emoticon id type) w r b v =
    request_use_emoticon-IsSafe n id w v type
process_request-IsSafe random now n (cs_sc_choice_character id) w r b v =
    at_client-IsSafe id (request_choice_character id) w b (request_choice_character-IsSafe n id w v)
process_request-IsSafe random now n (cs_sc_connect_check id) w r b v =
    at_client-IsSafe id (connect_check now id) w b (connect_check-IsSafe n id w v now)
process_request-IsSafe random now n (cs_sc_use_item_ticket id type) w r b v =
    at_client-IsSafe id (use_item_ticket random type id) w b
      (use_item_ticket-IsSafe random type id w r v)
process_request-IsSafe random now n (cs_sc_drop_item id i) w r (h, b) v =
    at_client-IsSafe id (drop_item n id i) w h (drop_item-IsSafe n id w v i b)
process_request-IsSafe random now n (cs_request_combination_item id i j k) w r (h, a, b, c) v =
    at_client-IsSafe id (request_combination_item random n id i j k) w h
      (request_combination_item-IsSafe random n id i j k w r a b c v)
process_request-IsSafe random now n (cs_request_upgrade_item id i j) w r (h, b, b') v =
    at_client-IsSafe id (request_upgrade_item n id i j) w h
      (request_upgrade_item-IsSafe n id w v i j b b')
process_request-IsSafe random now n (unexpected_notification id) w r b v =
    at_client-IsSafe id (λ v. some v) w b (some-IsSafe w v)
process_request-IsSafe random now n (unknown_notification id) w r b v = elim b [ ]
process_request-IsSafe random now n unexpected w r b v = some-IsSafe w v

-- Whatever request of the modelled kinds comes, on the connection of any of the server's clients and in
-- whatever stage: if the client that it names is one of the server's, its indices are places of an
-- inventory, a notification is of a known type and the generator keeps its bounds, nothing is read or
-- written out of bounds and no assertion fails, and every client's inventory, valid before, is valid
-- afterwards: six and ten places, items of the table, upgrades of at most 2, and none on an empty place.
pub process_packet-IsSafe :
    (random : Random) (now network_id : ℕ) (request : Request) (w : World)
    → InRange random
    → network_id < max_user
    → InBounds request
    → AllValid w
    → IsSafe (process_packet random now network_id request w)
unfolding process_packet
process_packet-IsSafe random now network_id request w r h b v =
    at_client-IsSafe network_id (process_request random now network_id request) w h
      (process_request-IsSafe random now network_id request w r b v)
