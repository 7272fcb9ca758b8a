-- ===== src/Stage/Staged.antt =====
-- Room.cpp: `BattleStage` as a whole, from the avatars to the end of the last fight.
use isegye_idol_game_server.Common.{
  ℕ, ◌<◌, ◌≡◌, refl, Bool, true, false, not, some, List, [], ◌∷◌, arith, if◌then◌else◌,
  get_elem?-lt_length, lt→ltb, inl, inr,
}
use isegye_idol_game_server.Types.{Random, InRange, max_user, ℤ}
use isegye_idol_game_server.Packet.{fade_out}
use isegye_idol_game_server.Client.{Client}
use isegye_idol_game_server.Client.Inventory.Valid.{IsValid}
use isegye_idol_game_server.World.{World, battle_stage, modify_room, is_valid_client_in_this_room}
use isegye_idol_game_server.World.Safe.{
  IsSafeWorld, same-IsSafeWorld, send_packet_to_all_clients-IsSafeWorld,
}
use isegye_idol_game_server.Avatar.{BattleAvatar, set_finish}
use isegye_idol_game_server.Avatar.Setup.{set_avatar}
use isegye_idol_game_server.Items.Battle.{set_avatar-IsSound, using_item-IsFair}
use isegye_idol_game_server.Server.Safety.{AllValid}
use isegye_idol_game_server.Stage.{Scene, Others, write, send_stream, set_status, goes_on}
use isegye_idol_game_server.Stage.Prepare.{
  number_of, are_numbered, is_negative, battle_avatars, new_scene,
}
use isegye_idol_game_server.Stage.Battle.{
  look_up, order_pairs, open_battle, fight_battle, battle_stage_of,
}
use isegye_idol_game_server.Stage.Fight.{Fighters}
use isegye_idol_game_server.Stage.Safety.{IsSafeScene}
use isegye_idol_game_server.Stage.Upkeep.{KeepsServer, sleep-IsSafeWorld}
use isegye_idol_game_server.Stage.Arming.{IsReadied, AreReadied}
use isegye_idol_game_server.Stage.Prepared.{IsStarting, AreStarting, prepare_battle-AreStarting}
use isegye_idol_game_server.Stage.Fought.{fight-IsSafeScene}

-- The avatar of a player with a valid inventory.
set_avatar-IsStarting :
    (index : ℕ) (c : Client) (room network_id : ℕ) (is_ghost : Bool) (round : ℕ)
    → IsValid c
    → network_id < max_user
    → IsStarting (set_avatar index c room network_id is_ghost round)
unfolding set_avatar
set_avatar-IsStarting index c room network_id is_ghost round v h =
    let (s, client, least, _, _, _) = set_avatar-IsSound index c room network_id is_ghost round in
    let six = v.inventory.six_in_use in
    record {
      equipped = record {
        has_client = client;
        fifth = least;
        whole = six;
        listed = λ n i p.
            (using_item-IsFair c n v p
              (omega (arith, get_elem?-lt_length c.using_items n p, six))).listed;
        numbered = h;
        sound = s;
      };
      fights = refl;
    }

-- The opponents stand in pairs of numbers of clients.
abbrev pub ArePaired : List ℤ → Type 0
ArePaired [] = Unit {0}
ArePaired (z ∷ []) = ⊥
ArePaired (z ∷ y ∷ opponents) =
    (number_of z < max_user) × (number_of y < max_user) × ArePaired opponents

ArePaired-are_numbered : (opponents : List ℤ) → ArePaired opponents → are_numbered opponents ≡ true
unfolding are_numbered
ArePaired-are_numbered [] v = refl
ArePaired-are_numbered (z ∷ []) v = elim v [ ]
ArePaired-are_numbered (z ∷ y ∷ opponents) (h, k, v) =
    rw (lt→ltb (number_of z) max_user h, lt→ltb (number_of y) max_user k)
      (ArePaired-are_numbered opponents v)

battle_avatars-AreStarting :
    (w : World) (r : ℕ) (opponents : List ℤ)
    → AllValid w
    → ArePaired opponents
    → AreStarting (battle_avatars w r opponents)
unfolding battle_avatars
battle_avatars-AreStarting w r [] v p = tt
battle_avatars-AreStarting w r (z ∷ []) v p = elim p [ ]
battle_avatars-AreStarting w r (z ∷ y ∷ opponents) v (h, k, p) = (
  set_avatar-IsStarting (number_of z) (w.clients (number_of z)) r (number_of z) (is_negative z)
      (w.rooms r).round (v (number_of z)) h,
  set_avatar-IsStarting (number_of y) (w.clients (number_of y)) r (number_of y) (is_negative y)
      (w.rooms r).round (v (number_of y)) k,
  battle_avatars-AreStarting w r opponents v p,
)

no_end : {b : Bool} → b ≡ false → b ≡ true → ⊥
no_end e f = cc

starting-IsReadied : (a : BattleAvatar) → IsStarting a → IsReadied a
starting-IsReadied a v = record {
  equipped = v.equipped;
  armed_before = λ e. absurd (no_end v.fights e);
}

found : (id : ℕ) (s : Scene) → id < max_user → IsSafeScene s → IsSafeScene (look_up id s)
unfolding look_up
found id s h (e, w, l) = rw (lt→ltb id max_user h) (e, w, l)

if-IsSafe :
    (b : Bool) (s t : Scene) → IsSafeScene s → IsSafeScene t → IsSafeScene (if b then s else t)
if-IsSafe true s t v w = v
if-IsSafe false s t v w = w

-- A pair that fights, or of which someone has gone, in either order.
ordered-AreReadied :
    (there swaps : Bool) (a b : BattleAvatar) (rest : List BattleAvatar)
    → IsStarting a
    → IsStarting b
    → AreReadied rest
    → let a' = if there then a else set_finish a in
      let b' = if there then b else set_finish b in
      AreReadied (if swaps then b' ∷ a' ∷ rest else a' ∷ b' ∷ rest)
unfolding set_finish
ordered-AreReadied true true a b rest v u vs =
    (inl (starting-IsReadied b u, starting-IsReadied a v), vs)
ordered-AreReadied true false a b rest v u vs =
    (inl (starting-IsReadied a v, starting-IsReadied b u), vs)
ordered-AreReadied false true a b rest v u vs = (inr (refl, refl), vs)
ordered-AreReadied false false a b rest v u vs = (inr (refl, refl), vs)

order_pairs-AreReadied :
    (r : ℕ) (avatars : List BattleAvatar) (s : Scene)
    → AreStarting avatars
    → IsSafeScene s
    → let (ordered, t) = order_pairs r avatars s in AreReadied ordered × IsSafeScene t
unfolding order_pairs
order_pairs-AreReadied r [] s v w = (v, w)
order_pairs-AreReadied r (a ∷ []) s v w = elim v [ ]
order_pairs-AreReadied r (a ∷ b ∷ avatars) s (v, u, vs) w =
    let (rest, t) = order_pairs-AreReadied r avatars s vs w in
    let s' = (order_pairs r avatars s).1 in
    let there = is_valid_client_in_this_room s.world r (some a.network_id) in
    (
      ordered-AreReadied _ _ a b (order_pairs r avatars s).0 v u rest,
      found a.network_id (if there then look_up b.network_id s' else s') v.equipped.numbered (
          if-IsSafe there (look_up b.network_id s') s' (found b.network_id s' u.equipped.numbered t)
            t),
    )

module _ (others : Others) (random : Random) (r : ℕ) (range : InRange random)
    (keeps : KeepsServer others) where
  open_battle-AreStarting :
      (w : World)
      → AllValid w
      → ArePaired (w.rooms r).battle_opponents
      → IsSafeWorld w
      → let (avatars, s) = open_battle others random r w in AreStarting avatars × IsSafeScene s
  unfolding open_battle write send_stream
  open_battle-AreStarting w v p k =
      let opponents = (w.rooms r).battle_opponents in
      let start : IsSafeScene (record (new_scene w) { fault = not (are_numbered opponents) }) =
        rw (ArePaired-are_numbered opponents p) (refl, k, tt) in
      let (a, (e, m, l)) =
        prepare_battle-AreStarting random range (battle_avatars w r opponents) _
          (battle_avatars-AreStarting w r opponents v p) start in
      (
        a,
        (
          e,
          sleep-IsSafeWorld others keeps _ (
              send_packet_to_all_clients-IsSafeWorld r (fade_out 1 ∷ []) _ (
                sleep-IsSafeWorld others keeps _ (send_packet_to_all_clients-IsSafeWorld r _ _ m))),
          l,
        ),
      )

  if-IsSafeEnd :
      (b : Bool) (x y : Scene × Bool)
      → IsSafeScene x.0
      → IsSafeScene y.0
      → IsSafeScene (if b then x else y).0
  if-IsSafeEnd true x y p q = p
  if-IsSafeEnd false x y p q = q

  fight_battle-IsSafeScene :
      (open_count : ℕ) (f : Fighters)
      → AreStarting f.0
      → IsSafeScene f.1
      → IsSafeScene (fight_battle others random r open_count f).0
  fight_battle-IsSafeScene open_count (avatars, s) v w =
      let (ordered, t) = order_pairs-AreReadied r avatars s v w in
      let f = order_pairs r avatars s in
      if-IsSafeEnd (goes_on r open_count s.world) _ _
        (fight-IsSafeScene others random r open_count range keeps f.0 f.1 ordered t) w

  status-IsSafeWorld : (w : World) → IsSafeWorld w → IsSafeWorld (set_status r battle_stage w)
  unfolding set_status modify_room
  status-IsSafeWorld w k = same-IsSafeWorld w _ refl (λ i. refl) (λ i. refl) k

  status-AllValid : (w : World) → AllValid w → AllValid (set_status r battle_stage w)
  unfolding set_status modify_room
  status-AllValid w v = v

  status-opponents :
      (w : World)
      → ((set_status r battle_stage w).rooms r).battle_opponents ≡ (w.rooms r).battle_opponents
  unfolding set_status modify_room
  status-opponents w = ground arith

  -- The whole battle stage of a room, from the making of the avatars to the end of the last fight,
  -- whatever is drawn and whoever leaves: where the opponents of the room stand in pairs of the numbers of
  -- clients, every client has a valid inventory and its number, the places in use have a share of the order,
  -- the queue is in order, and the other threads keep the queue, the places and the numbers so, no null
  -- pointer is followed, nothing is divided by zero, neither an avatar, an item, a place nor a client is
  -- looked up out of bounds, and the queue, the places and the numbers are in order afterwards.
  pub battle_stage_of-IsSafeScene :
      (w : World)
      → AllValid w
      → ArePaired (w.rooms r).battle_opponents
      → IsSafeWorld w
      → IsSafeScene (battle_stage_of others random r w).0
  unfolding battle_stage_of
  battle_stage_of-IsSafeScene w v p k =
      let w' = set_status r battle_stage w in
      let k' = status-IsSafeWorld w k in
      let (a, t) =
        open_battle-AreStarting w' (status-AllValid w v) (rw (status-opponents w) p) k' in
      let open_count = (w'.rooms r).open_count in
      if-IsSafeEnd (goes_on r open_count w') _ _
        (fight_battle-IsSafeScene open_count (open_battle others random r w') a t) (refl, k', tt)
