-- ===== src/World/Safe.antt =====
-- Server/Server: what the stages of a room need of the server, and the changes that keep it.
use isegye_idol_game_server.Common.{
  ℕ, zero, suc, ◌<◌, [], ◌∷◌, map, length-map, ◌≡◌, refl, ◌∙◌, List, length, ◌==◌, Bool-cases,
  Option-cases, inl, inr,
}
use mathlib.Core.Option.{some_inj}
use isegye_idol_game_server.Types.{Item, set_empty_item, max_user}
use isegye_idol_game_server.Client.{Client, init_client}
use isegye_idol_game_server.Client.ActiveQueue.Order.{HasShares}
use isegye_idol_game_server.Queue.Waiting.{IsQueue}
use isegye_idol_game_server.Packet.{Packet}
use isegye_idol_game_server.World.{
  World, update, modify_client, send_packet_to_all_clients, send_packet_in_all_room_clients,
}

-- The places in use are six, and each has a share of the order of a battle.
abbrev pub AreInUse : List Item → Type 0
AreInUse items = (length items ≡ 6) × HasShares items

-- A client has its places in use and its number, which is an index of `sClients`.
abbrev pub IsPresent : Client → Type 0
IsPresent c = AreInUse c.using_items × (c.network_id < max_user)

-- The queue is in order, and so are the places in use and the number of every client.
pub record IsSafeWorld (w : World) : Type 0 where
  pub waiting : List ℕ
  pub queued : IsQueue w.queue waiting
  pub present : (i : ℕ) → IsPresent (w.clients i)

-- Neither the queue nor the places in use nor the numbers change.
pub same-IsSafeWorld :
    (v w : World)
    → w.queue ≡ v.queue
    → ((i : ℕ) → (w.clients i).using_items ≡ (v.clients i).using_items)
    → ((i : ℕ) → (w.clients i).network_id ≡ (v.clients i).network_id)
    → IsSafeWorld v
    → IsSafeWorld w
same-IsSafeWorld v w e k m s = record {
  waiting = s.waiting;
  queued = rw e s.queued;
  present = λ i. (rw (k i) (s.present i).0, rw (m i) (s.present i).1);
}

updated :
    (i : ℕ) (f : Client → Client) (w : World)
    → (IsPresent (w.clients i) → IsPresent (f (w.clients i)))
    → (j : ℕ) → IsPresent (w.clients j)
    → IsPresent (w.clients i)
    → IsPresent (update w.clients i (f (w.clients i)) j)
updated i f w k j p q = elim (Bool-cases (i == j)) [ inl e ↦ rw e (k q) | inr e ↦ rw e p ]

pub modify_client-IsSafeWorld :
    (i : ℕ) (f : Client → Client) (w : World)
    → (IsPresent (w.clients i) → IsPresent (f (w.clients i)))
    → IsSafeWorld w
    → IsSafeWorld (modify_client i f w)
unfolding modify_client
modify_client-IsSafeWorld i f w k s = record {
  waiting = s.waiting;
  queued = s.queued;
  present = λ j. updated i f w k j (s.present j) (s.present i);
}

pub send_packet_to_all_clients-IsSafeWorld :
    (r : ℕ) (packets : List Packet) (w : World)
    → IsSafeWorld w
    → IsSafeWorld (send_packet_to_all_clients r packets w)
unfolding send_packet_to_all_clients
send_packet_to_all_clients-IsSafeWorld r packets w s = record {
  waiting = s.waiting;
  queued = s.queued;
  present = s.present;
}

pub send_packet_in_all_room_clients-IsSafeWorld :
    (i : ℕ) (packet : Packet) (w : World)
    → IsSafeWorld w
    → IsSafeWorld (send_packet_in_all_room_clients i packet w)
unfolding send_packet_in_all_room_clients
send_packet_in_all_room_clients-IsSafeWorld i packet w s = elim (Option-cases (w.clients i).room) [
  | inl e ↦ rw (send_packet_in_all_room_clients, e) s
  | inr (r, e) ↦
      rw (send_packet_in_all_room_clients, e) (send_packet_to_all_clients-IsSafeWorld r _ w s)
]

emptied-HasShares : (items : List Item) → HasShares items → HasShares (map set_empty_item items)
unfolding set_empty_item
emptied-HasShares [] h j i e = cc
emptied-HasShares (x ∷ items) h zero i e = rw (← some_inj.0 e) (h 0 x refl)
emptied-HasShares (x ∷ items) h (suc j) i e = emptied-HasShares items (λ k. h (suc k)) j i e

-- A client that is set back has its six places, which are empty, and its number.
pub init_client-IsPresent : (c : Client) → IsPresent c → IsPresent (init_client c)
unfolding init_client
init_client-IsPresent c ((six, shares), numbered) = (
  (length-map set_empty_item c.using_items ∙ six, emptied-HasShares c.using_items shares),
  numbered,
)
