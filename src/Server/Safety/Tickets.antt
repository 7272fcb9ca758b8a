-- ===== src/Server/Safety/Tickets.antt =====
-- Server.cpp: the use of a ticket keeps every inventory valid.
use mathlib.Core.Path.{subst}
use isegye_idol_game_server.Common.{
  ℕ, ◌<◌, ◌≡◌, ◌≢◌, refl, inl, inr, sym, some, arith, ◌==◌, Bool-cases, true, false,
}
use isegye_idol_game_server.Types.{ItemTicketType, normal, advanced, top, supreme}
use isegye_idol_game_server.Client.{Client, ticket_count, set_ticket_count}
use isegye_idol_game_server.Client.Inventory.{add_item}
use isegye_idol_game_server.Client.Inventory.Valid.{IsValid, same_items-IsValid, add_item-IsValid}
use isegye_idol_game_server.Client.Draws.{
  get_random_item_type_of, get_random_item_type_of_normal_item_ticket,
  get_random_item_type_of_advanced_item_ticket, get_random_item_type_of_top_item_ticket,
  get_random_item_type_of_supreme_item_ticket,
}
use isegye_idol_game_server.Client.Draws.Tickets.{get_random_item_type_of-DrawsTier}
use isegye_idol_game_server.Items.Tiers.{tier_of-lt}
use isegye_idol_game_server.World.{World, Random, InRange, send_packet_to_all_clients}
use isegye_idol_game_server.Server.Stage.{is_ready_stage}
use isegye_idol_game_server.Server.Tickets.{pay_ticket, give_item, tell_ticket, use_item_ticket}
use isegye_idol_game_server.Server.Safety.{
  AllValid, IsSafe, some-IsSafe, if-IsSafe, with_room-IsSafe, put_client-AllValid,
}

pub set_ticket_count-items :
    (type : ItemTicketType) (n : ℕ) (c : Client)
    → ((set_ticket_count type n c).using_items ≡ c.using_items)
      × ((set_ticket_count type n c).un_using_items ≡ c.un_using_items)
unfolding set_ticket_count
set_ticket_count-items type n c = ground arith

pay_ticket-IsValid :
    (type : ItemTicketType) (t : ℕ) (c : Client)
    → t < 46
    → IsValid c
    → IsValid (pay_ticket type t c)
unfolding pay_ticket
pay_ticket-IsValid type t c h v =
    let (p, q) = set_ticket_count-items type _ (add_item t c).0 in
    same_items-IsValid _ _ p q (add_item-IsValid t h v)

-- Without a ticket nothing is drawn.
pub no_ticket-nothing :
    (type : ItemTicketType) (random : Random) (draws round : ℕ) (c : Client)
    → ticket_count type c ≡ 0
    → get_random_item_type_of type random draws round c ≡ some (0, draws)
unfolding get_random_item_type_of get_random_item_type_of_normal_item_ticket
    get_random_item_type_of_advanced_item_ticket get_random_item_type_of_top_item_ticket
    get_random_item_type_of_supreme_item_ticket ticket_count
no_ticket-nothing normal random draws round c h = rw h refl
no_ticket-nothing advanced random draws round c h = rw h refl
no_ticket-nothing top random draws round c h = rw h refl
no_ticket-nothing supreme random draws round c h = rw h refl

zero_or : (n : ℕ) → (n == 0) ≡ true → n ≡ 0
zero_or n h = ground arith

not_zero : (n : ℕ) → (n == 0) ≡ false → n ≢ 0
not_zero n h = ground arith

-- A ticket draws an item of the table, or nothing.
pub drawn_type :
    (type : ItemTicketType) (random : Random) (draws round : ℕ) (c : Client)
    → InRange random
    → (t : ℕ) × (n : ℕ) × (get_random_item_type_of type random draws round c ≡ some (t, n))
      × (t < 46)
drawn_type type random draws round c r = elim (Bool-cases (ticket_count type c == 0)) [
  | inl e ↦ (0, draws, no_ticket-nothing type random draws round c (zero_or _ e), omega arith)
  | inr e ↦
      let (t, k, f, g, _, _) =
        get_random_item_type_of-DrawsTier type random draws round c r (not_zero _ e) in
      (t, _, f, tier_of-lt random t g)
]

tell_ticket-AllValid :
    (type : ItemTicketType) (r : ℕ) (c d : Client) (w : World)
    → AllValid w
    → AllValid (tell_ticket type r c d w)
unfolding tell_ticket send_packet_to_all_clients
tell_ticket-AllValid type r c d w v = v

give_item-IsSafe :
    (type : ItemTicketType) (id r : ℕ) (w : World) (t n : ℕ)
    → t < 46
    → AllValid w
    → IsSafe (give_item type id r w (some (t, n)))
unfolding give_item
give_item-IsSafe type id r w t n h v = if-IsSafe _ _ _ (some-IsSafe _ v) (
    some-IsSafe _ (
      tell_ticket-AllValid type r _ _ _
        (put_client-AllValid id _ _ (pay_ticket-IsValid type t (w.clients id) h (v id)) v)))

pub use_item_ticket-IsSafe :
    (random : Random) (type : ItemTicketType) (id : ℕ) (w : World)
    → InRange random
    → AllValid w
    → IsSafe (use_item_ticket random type id w)
unfolding use_item_ticket
use_item_ticket-IsSafe random type id w r v = with_room-IsSafe ((w.clients id).room) w _ v λ room.
    let (t, n, e, h) = drawn_type type random w.draws (w.rooms room).round (w.clients id) r in
    if-IsSafe (is_ready_stage (w.rooms room).cur_room_status_type) _ (some w)
      (subst (λ o. IsSafe (give_item type id room w o)) (sym e)
        (give_item-IsSafe type id room w t n h v))
      (some-IsSafe w v)
