-- ===== src/Server/Spending.antt =====
-- Server.cpp: what the use of a ticket costs and gives.
use isegye_idol_game_server.Common.{
  ℕ, ◌+◌, ◌-◌, ◌<◌, ◌≡◌, ◌≢◌, refl, inl, inr, Bool, true, false, Option, none, some, arith,
  if◌then◌else◌, ◌==◌, ap, ◌∙◌,
}
use mathlib.Core.Option.{some_inj}
use isegye_idol_game_server.Types.{Item, ItemTicketType}
use isegye_idol_game_server.Client.{Client, ticket_count, set_ticket_count}
use isegye_idol_game_server.Client.Inventory.{get_item, add_item}
use isegye_idol_game_server.Client.Inventory.Add.{Added, add_item-Added}
use isegye_idol_game_server.Client.Draws.Tickets.{
  MayGive, draws_of, get_random_item_type_of-DrawsTier,
}
use isegye_idol_game_server.Items.Tiers.{tier_of}
use isegye_idol_game_server.World.{World, Random, InRange, send_packet_to_all_clients}
use isegye_idol_game_server.Server.Stage.{Outcome, with_room, is_ready_stage, put_client}
use isegye_idol_game_server.Server.Tickets.{use_item_ticket, give_item, pay_ticket, tell_ticket}
use isegye_idol_game_server.Server.Safety.{AllValid}

add_item-ticket_count :
    (type : ItemTicketType) (t : ℕ) (c : Client)
    → ticket_count type (add_item t c).0 ≡ ticket_count type c
unfolding add_item ticket_count
add_item-ticket_count type t c = ground arith

pub entered :
    (o : Option ℕ) (w : World) (f : ℕ → Outcome) {r : ℕ} → o ≡ some r → with_room o w f ≡ f r
entered none w f e = cc
entered (some n) w f e = ap f (some_inj.0 e)

if_true : (b : Bool) (o p : Outcome) → b ≡ true → (if b then o else p) ≡ o
if_true true o p e = refl
if_true false o p e = cc

-- The client `id` after it paid a ticket for the item `t`.
abbrev pub IsPaid : ItemTicketType → ℕ → ℕ → World → World → Type 0
IsPaid type id t w w' =
    (w'.clients id
      ≡ set_ticket_count type (ticket_count type (w.clients id) - 1) (add_item t (w.clients id)).0)
    × ((j : ℕ) → id ≢ j → w'.clients j ≡ w.clients j)

other_id : (i j : ℕ) → i ≢ j → (i == j) ≡ false
other_id i j h = ground arith

same_id : (i : ℕ) → (i == i) ≡ true
same_id i = ground arith

not_empty : (t : ℕ) → 0 < t → (t == 0) ≡ false
not_empty t h = ground arith

pay_ticket_lem :
    (type : ItemTicketType) (t : ℕ) (c : Client)
    → pay_ticket type t c ≡ set_ticket_count type (ticket_count type c - 1) (add_item t c).0
unfolding pay_ticket
pay_ticket_lem type t c = rw (add_item-ticket_count type t c) refl

told-IsPaid :
    (type : ItemTicketType) (id r t : ℕ) (c d : Client) (w v : World)
    → v.clients ≡ w.clients
    → IsPaid type id t w
        (tell_ticket type r c d (put_client id (pay_ticket type t (w.clients id)) v))
unfolding tell_ticket put_client send_packet_to_all_clients
told-IsPaid type id r t c d w v e =
    (rw (same_id id) (pay_ticket_lem type t (w.clients id)), λ j n. rw (other_id id j n, e) refl)

give_item-IsPaid :
    (type : ItemTicketType) (id r t n : ℕ) (w : World)
    → 0 < t
    → (w' : World) × (give_item type id r w (some (t, n)) ≡ some w') × IsPaid type id t w w'
unfolding give_item
give_item-IsPaid type id r t n w h =
    rw (not_empty t h) (_, refl, told-IsPaid type id r t _ _ w (record w { draws = n }) refl)

-- In the ready stage, for a client that has a ticket of a type an item of a tier is drawn that the type
-- allows in the room's round; the client becomes what `AddItem` of it makes of it, which is the client as
-- it was where all places are taken, with one ticket of the type less; no other client changes. The
-- generator keeps its bounds.
pub use_item_ticket-IsPaid :
    (random : Random) (type : ItemTicketType) (id r : ℕ) (w : World)
    → InRange random
    → (w.clients id).room ≡ some r
    → is_ready_stage (w.rooms r).cur_room_status_type ≡ true
    → ticket_count type (w.clients id) ≢ 0
    → (t : ℕ) × (tier : ℕ) × (w' : World) × (tier_of random t ≡ some tier)
      × MayGive type (w.rooms r).round tier
      × (use_item_ticket random type id w ≡ some w')
      × IsPaid type id t w w'
unfolding use_item_ticket
use_item_ticket-IsPaid random type id r w range p e h =
    let (t, tier, f, g, pos, may) =
      get_random_item_type_of-DrawsTier type random w.draws (w.rooms r).round (w.clients id) range
        h in
    let (w', q, paid) = give_item-IsPaid type id r t (w.draws + draws_of type) w pos in
    (
      t,
      tier,
      w',
      g,
      may,
      entered (w.clients id).room w _ p ∙ if_true _ _ _ e ∙ ap (give_item type id r w) f ∙ q,
      paid,
    )

-- Every place is taken.
abbrev pub IsFull : Client → Type 0
IsFull c = (m : ℕ) (x : Item) → get_item m c ≡ some x → x.type ≢ 0

add_item-full : (t : ℕ) (c : Client) (r : Client × ℕ) → IsFull c → Added t c r → r.0 ≡ c
add_item-full t c r full (inl (x, p, z, _, _)) = absurd (full r.1 x p z)
add_item-full t c r full (inr (_, e, _)) = e

-- Where all sixteen places are taken, a ticket is spent for nothing: the client has one less, and the
-- items are as they were.
pub use_item_ticket-full :
    (random : Random) (type : ItemTicketType) (id r : ℕ) (w : World)
    → InRange random
    → AllValid w
    → IsFull (w.clients id)
    → (w.clients id).room ≡ some r
    → is_ready_stage (w.rooms r).cur_room_status_type ≡ true
    → ticket_count type (w.clients id) ≢ 0
    → (w' : World) × (use_item_ticket random type id w ≡ some w')
      × (w'.clients id
          ≡ set_ticket_count type (ticket_count type (w.clients id) - 1) (w.clients id))
use_item_ticket-full random type id r w range v full p e h =
    let (t, _, w', _, _, q, (paid, _)) = use_item_ticket-IsPaid random type id r w range p e h in
    (
      w',
      q,
      paid
          ∙ ap (set_ticket_count type (ticket_count type (w.clients id) - 1)) (
              add_item-full t (w.clients id) (add_item t (w.clients id)) full
                (add_item-Added t (v id).inventory)),
    )
