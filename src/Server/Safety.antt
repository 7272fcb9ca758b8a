-- ===== src/Server/Safety.antt =====
-- Server.cpp: a request leaves every client with a valid inventory and reads and writes within bounds.
pub mod Tickets
pub mod Combination
pub mod Requests
use isegye_idol_game_server.Common.{
  ℕ, ◌+◌, ◌<◌, ◌≡◌, ◌≢◌, refl, ◌∙◌, ap, sym, ◌⊎◌, inl, inr, Bool, true, false, Option, none, some,
  List, arith, ltb, leb, ◌==◌, if◌then◌else◌, Bool-cases, Option-cases, ==_iff, ◌||◌, not,
}
use isegye_idol_game_server.Types.{Item, ItemTicketType, set_empty_item}
use isegye_idol_game_server.Client.{Client, ticket_count, set_ticket_count}
use isegye_idol_game_server.Client.Inventory.{get_item, put_item, add_item}
use isegye_idol_game_server.Client.Inventory.Slots.{get_item_total}
use isegye_idol_game_server.Client.Inventory.Valid.{
  IsFair, IsValid, same_items-IsValid, put_item-IsValid, set_empty_item-IsFair, swap_item-IsValid,
  add_item-IsValid,
}
use isegye_idol_game_server.Packet.{Packet}
use isegye_idol_game_server.World.{
  World, Random, InRange, update, modify_client, send_packet_in_all_room_clients,
  send_packet_to_all_clients,
}
use isegye_idol_game_server.Server.Stage.{
  Outcome, with_room, send_inventory, put_client, changed, is_ready_stage,
}
use isegye_idol_game_server.Server.Places.{
  change_item_slot, drop_item, request_upgrade_item, dropped, upgraded, refuses_upgrade,
}

abbrev pub AllValid : World → Type 0
AllValid w = (i : ℕ) → IsValid (w.clients i)

-- Nothing is read or written out of bounds, and the invariant holds afterwards.
abbrev pub IsSafe : Outcome → Type 0
IsSafe o = (w : World) × (o ≡ some w) × AllValid w

abbrev pub IsSafeClient : Option Client → Type 0
IsSafeClient o = (c : Client) × (o ≡ some c) × IsValid c

pub some-IsSafe : (w : World) → AllValid w → IsSafe (some w)
some-IsSafe w v = (w, refl, v)

pub if-IsSafe : (b : Bool) (o p : Outcome) → IsSafe o → IsSafe p → IsSafe (if b then o else p)
if-IsSafe true o p s t = s
if-IsSafe false o p s t = t

pub with_room-IsSafe :
    (r : Option ℕ) (w : World) (f : ℕ → Outcome)
    → AllValid w
    → ((n : ℕ) → IsSafe (f n))
    → IsSafe (with_room r w f)
with_room-IsSafe none w f v s = (w, refl, v)
with_room-IsSafe (some n) w f v s = s n

pub same_clients : (w w' : World) → w'.clients ≡ w.clients → AllValid w → AllValid w'
same_clients w w' e v i = rw e (v i)

pub send_packet_in_all_room_clients-clients :
    (i : ℕ) (p : Packet) (w : World) → (send_packet_in_all_room_clients i p w).clients ≡ w.clients
unfolding send_packet_in_all_room_clients send_packet_to_all_clients
send_packet_in_all_room_clients-clients i p w = ground arith

pub send_inventory-clients : (n i : ℕ) (w : World) → (send_inventory n i w).clients ≡ w.clients
unfolding send_inventory
send_inventory-clients n i w = send_packet_in_all_room_clients-clients n _ w

pub put_client-AllValid :
    (i : ℕ) (c : Client) (w : World) → IsValid c → AllValid w → AllValid (put_client i c w)
unfolding put_client
put_client-AllValid i c w h v j = elim (Bool-cases (i == j)) [ inl e ↦ rw e h | inr e ↦ rw e (v j) ]

pub send_inventory-AllValid : (n i : ℕ) (w : World) → AllValid w → AllValid (send_inventory n i w)
send_inventory-AllValid n i w v =
    same_clients w (send_inventory n i w) (send_inventory-clients n i w) v

pub changed-IsSafe :
    (n i k : ℕ) (w : World) (o : Option Client)
    → AllValid w
    → IsSafeClient o
    → IsSafe (changed n i k w o)
changed-IsSafe n i k w o v (c, e, h) =
    rw e (_, refl, send_inventory-AllValid n i _ (put_client-AllValid k c w h v))

pub dropped-IsSafeClient :
    (index : ℕ) (c : Client) (x : Item) → IsValid c → IsSafeClient (dropped index c (some x))
unfolding dropped
dropped-IsSafeClient index c x v = elim (Bool-cases (x.type == 0)) [
  | inl e ↦ rw e (c, refl, v)
  | inr e ↦ rw e (_, refl, put_item-IsValid index _ (set_empty_item-IsFair x) v)
]

not_refused :
    (i j : ℕ) (x y : Item) → refuses_upgrade i j x y ≡ false → (x.upgrade < 2) × (x.type ≢ 0)
unfolding refuses_upgrade
not_refused i j x y h = ground arith

pub upgraded-IsSafeClient :
    (i j : ℕ) (c : Client) (x y : Item)
    → IsValid c
    → IsFair x
    → IsSafeClient (upgraded i j c (some x) (some y))
unfolding upgraded
upgraded-IsSafeClient i j c x y v f = elim (Bool-cases (refuses_upgrade i j x y)) [
  | inl e ↦ rw e (c, refl, v)
  | inr e ↦
      let (u, t) = not_refused i j x y e in
      rw e (
        _,
        refl,
        put_item-IsValid j _ (set_empty_item-IsFair y) (
            put_item-IsValid i _
              (record {
                listed = f.listed;
                upgradable = omega (arith, u);
                bare = λ z. absurd (t z);
              })
              v),
      )
]
