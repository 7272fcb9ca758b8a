-- ===== src/Server/Stages.antt =====
-- Server.cpp: `cs_requestCombinationItem` in and outside the ready stage.
use isegye_idol_game_server.Common.{
  ℕ, ◌≡◌, refl, sym, ap, ◌∙◌, Bool, true, false, Option, none, some, arith, if◌then◌else◌, ◌==◌,
  ◌||◌,
}
use isegye_idol_game_server.Types.{Item}
use isegye_idol_game_server.Client.{Client}
use isegye_idol_game_server.Client.Inventory.{get_item}
use isegye_idol_game_server.Client.Draws.{Drawn}
use isegye_idol_game_server.Items.Tiers.{tier_of}
use isegye_idol_game_server.World.{
  World, Random, send_packet_in_all_room_clients, send_packet_to_all_clients, RoomStatusType,
  update,
}
use isegye_idol_game_server.Server.Stage.{
  Outcome, with_room, send_inventory, put_client, changed, is_ready_stage,
}
use isegye_idol_game_server.Server.Combination.{
  empty_place, place_new_item, combine_tiers, combine, request_combination_item,
}
use isegye_idol_game_server.Server.Safety.{send_inventory-clients}

-- The clients after a request.
abbrev pub clients_of : Outcome → Option (ℕ → Client)
clients_of none = none
clients_of (some w) = some w.clients

-- The same server with another stage of a room.
abbrev pub in_stage : RoomStatusType → ℕ → World → World
in_stage stage r w = record w {
  rooms = update w.rooms r (record (w.rooms r) { cur_room_status_type = stage });
}

module _ (n id : ℕ) (v w : World) (e : v.clients ≡ w.clients) where
  sent-clients :
      clients_of (some (send_inventory n id v)) ≡ clients_of (some (send_inventory n id w))
  sent-clients = ap some (send_inventory-clients n id v ∙ e ∙ sym (send_inventory-clients n id w))

  put_client-clients : (c : Client) → (put_client id c v).clients ≡ (put_client id c w).clients
  unfolding put_client
  put_client-clients c = ap (λ f. update f id c) e

changed-clients :
    (n id : ℕ) (v w : World) (o : Option Client)
    → v.clients ≡ w.clients
    → clients_of (changed n id id v o) ≡ clients_of (changed n id id w o)
changed-clients n id v w none e = refl
changed-clients n id v w (some c) e =
    sent-clients n id (put_client id c v) (put_client id c w) (put_client-clients n id v w e c)

place_new_item-clients :
    (n id : ℕ) (v w : World) (c : Client) (d : Drawn)
    → v.clients ≡ w.clients
    → clients_of (place_new_item n id v c d) ≡ clients_of (place_new_item n id w c d)
unfolding place_new_item
place_new_item-clients n id v w c none e = refl
place_new_item-clients n id v w c (some (t, d)) e =
    changed-clients n id (record v { draws = d }) (record w { draws = d }) _ e

combine_tiers-clients :
    (random : Random) (n id : ℕ) (v w : World) (c : Client) (a b d : ℕ) (i j k : Option ℕ)
    → v.clients ≡ w.clients
    → v.draws ≡ w.draws
    → clients_of (combine_tiers random n id c a b d i j k v)
      ≡ clients_of (combine_tiers random n id c a b d i j k w)
unfolding combine_tiers
combine_tiers-clients random n id v w c a b d (some i) (some j) (some k) e f =
    rw f (place_new_item-clients n id v w c _ e)
combine_tiers-clients random n id v w c a b d none j k e f = refl
combine_tiers-clients random n id v w c a b d (some i) none k e f = refl
combine_tiers-clients random n id v w c a b d (some i) (some j) none e f = refl

if-clients :
    (b : Bool) (o p o' p' : Outcome)
    → clients_of o ≡ clients_of o'
    → clients_of p ≡ clients_of p'
    → clients_of (if b then o else p) ≡ clients_of (if b then o' else p')
if-clients true o p o' p' e f = e
if-clients false o p o' p' e f = f

combine-clients :
    (random : Random) (n id i j k : ℕ) (x y z : Option Item) (v w : World)
    → v.clients ≡ w.clients
    → v.draws ≡ w.draws
    → clients_of (combine random n id i j k x y z v)
      ≡ clients_of (combine random n id i j k x y z w)
unfolding combine
combine-clients random n id i j k (some x) (some y) (some z) v w e f =
    let emptied =
      λ (clients : ℕ → Client). empty_place k (empty_place j (empty_place i (clients id))) in
    if-clients (x.type == 0 || y.type == 0 || z.type == 0) _ _ _ _ (sent-clients n id v w e) (
      ap
        (λ c. clients_of (
          combine_tiers random n id (emptied c) x.type y.type z.type (tier_of random x.type)
            (tier_of random y.type) (tier_of random z.type) v))
        e
      ∙ combine_tiers-clients random n id v w (emptied w.clients) x.type y.type z.type _ _ _ e f)
combine-clients random n id i j k none y z v w e f = refl
combine-clients random n id i j k (some x) none z v w e f = refl
combine-clients random n id i j k (some x) (some y) none v w e f = refl

send_inventory-draws : (n id : ℕ) (w : World) → (send_inventory n id w).draws ≡ w.draws
unfolding send_inventory send_packet_in_all_room_clients send_packet_to_all_clients
send_inventory-draws n id w = ground arith

entered-clients :
    (o : Option ℕ) (v w : World) (f g : ℕ → Outcome)
    → v.clients ≡ w.clients
    → ((r : ℕ) → o ≡ some r → clients_of (f r) ≡ clients_of (g r))
    → clients_of (with_room o v f) ≡ clients_of (with_room o w g)
entered-clients none v w f g e h = ap some e
entered-clients (some r) v w f g e h = h r refl

answered-clients :
    (b : Bool) (n id : ℕ) (w : World)
    → ((if b then w else send_inventory n id w).clients ≡ w.clients)
      × ((if b then w else send_inventory n id w).draws ≡ w.draws)
answered-clients true n id w = (refl, refl)
answered-clients false n id w = (send_inventory-clients n id w, send_inventory-draws n id w)

-- A combination changes the clients in the same way, whatever the stage of any room is.
pub request_combination_item-any_stage :
    (random : Random) (n id i j k r : ℕ) (stage : RoomStatusType) (w : World)
    → clients_of (request_combination_item random n id i j k w)
      ≡ clients_of (request_combination_item random n id i j k (in_stage stage r w))
unfolding request_combination_item
request_combination_item-any_stage random n id i j k r stage w =
    let w' = in_stage stage r w in
    entered-clients (w.clients id).room w w' _ _ refl λ s f.
      let (c, d) = answered-clients (is_ready_stage (w.rooms s).cur_room_status_type) n id w in
      let (c', d') = answered-clients (is_ready_stage (w'.rooms s).cur_room_status_type) n id w' in
      combine-clients random n id i j k (get_item i (w.clients id)) (get_item j (w.clients id))
        (get_item k (w.clients id)) _ _ (c ∙ sym c') (d ∙ sym d')
