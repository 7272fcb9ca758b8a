-- ===== src/Server/Upgrades.antt =====
-- Server.cpp: `cs_requestUpgradeItem`, what an upgrade changes and when.
use isegye_idol_game_server.Common.{
  ℕ, ◌+◌, ◌<◌, ◌≡◌, ◌≢◌, ◌∙◌, refl, ap, sym, ◌⊎◌, inl, inr, true, some, arith, ◌==◌, ==_iff,
  Bool-cases, if◌then◌else◌,
}
use isegye_idol_game_server.Types.{Item, set_empty_item}
use isegye_idol_game_server.Client.{Client}
use isegye_idol_game_server.Client.Inventory.{get_item, put_item}
use isegye_idol_game_server.Client.Inventory.Slots.{get_item-put_item_self, get_item-put_item_ne}
use isegye_idol_game_server.World.{World, RoomStatusType}
use isegye_idol_game_server.Server.Stage.{is_ready_stage, put_client, send_inventory, changed}
use isegye_idol_game_server.Server.Places.{request_upgrade_item, refuses_upgrade, upgraded}
use isegye_idol_game_server.Server.Safety.{send_inventory-clients}
use isegye_idol_game_server.Server.Spending.{entered}

-- What an upgrade asks of the two places and their items.
abbrev pub CanUpgrade : ℕ → ℕ → Item → Item → Type 0
CanUpgrade i j x y =
    (i ≢ j) × (x.type ≡ y.type) × (x.type ≢ 0) × (x.upgrade ≡ y.upgrade) × (x.upgrade < 2)

upgraded-cases :
    (i j : ℕ) (c : Client) (x y : Item)
    → (CanUpgrade i j x y
        × (upgraded i j c (some x) (some y)
            ≡ some (
                put_item j
                  (set_empty_item y)
                  (put_item i (record x { upgrade = x.upgrade + 1 }) c))))
      ⊎ ((¬ CanUpgrade i j x y) × (upgraded i j c (some x) (some y) ≡ some c))
unfolding upgraded refuses_upgrade
upgraded-cases i j c x y = ground arith

-- The two clients differ in the places `i` and `j` only, of which the first has the item `x` with an
-- upgrade more and the second nothing.
pub record Upgraded (i j : ℕ) (x y : Item) (c d : Client) : Type 0 where
  pub raised : get_item i d ≡ some (record x { upgrade = x.upgrade + 1 })
  pub emptied : get_item j d ≡ some (set_empty_item y)
  pub same_places : (k : ℕ) → i ≢ k → j ≢ k → get_item k d ≡ get_item k c

-- No client but `id` changes.
abbrev pub OthersStay : ℕ → World → World → Type 0
OthersStay id w w' = (k : ℕ) → id ≢ k → w'.clients k ≡ w.clients k

two_puts-Upgraded :
    (i j : ℕ) (c : Client) (x y : Item)
    → i ≢ j
    → get_item i c ≡ some x
    → get_item j c ≡ some y
    → Upgraded i j x y c
        (put_item j (set_empty_item y) (put_item i (record x { upgrade = x.upgrade + 1 }) c))
two_puts-Upgraded i j c x y n p q =
    let x' = record x { upgrade = x.upgrade + 1 } in
    let c' = put_item i x' c in
    record {
      raised =
          get_item-put_item_ne c' j i (set_empty_item y) (λ e. n (sym e))
          ∙ get_item-put_item_self c i x' p;
      emptied =
          get_item-put_item_self c' j (set_empty_item y) (get_item-put_item_ne c i j x' n ∙ q);
      same_places = λ k h m.
          get_item-put_item_ne c' j k (set_empty_item y) m ∙ get_item-put_item_ne c i k x' h;
    }

put_client_self : (id : ℕ) (c : Client) (w : World) → (put_client id c w).clients id ≡ c
unfolding put_client
put_client_self id c w = ground arith

put_client_ne : (id : ℕ) (c : Client) (w : World) → OthersStay id w (put_client id c w)
unfolding put_client
put_client_ne id c w k h = ground arith

-- What a request to upgrade comes to: the stage is the ready one, the two places differ and hold the
-- same item, and the item is raised; or one of this is not so, and no client changes.
abbrev pub IsUpgrade : ℕ → ℕ → ℕ → RoomStatusType → Item → Item → World → World → Type 0
IsUpgrade id i j status x y w w' =
    ((is_ready_stage status ≡ true)
      × CanUpgrade i j x y
      × Upgraded i j x y (w.clients id) (w'.clients id)
      × OthersStay id w w')
    ⊎ ((¬ ((is_ready_stage status ≡ true) × CanUpgrade i j x y))
        × ((k : ℕ) → w'.clients k ≡ w.clients k))

told-Upgraded :
    (id i j : ℕ) (x y : Item) (d : Client) (w v : World)
    → v.clients ≡ (put_client id d w).clients
    → Upgraded i j x y (w.clients id) d
    → Upgraded i j x y (w.clients id) (v.clients id) × OthersStay id w v
told-Upgraded id i j x y d w v e u =
    (rw (e, put_client_self id d w) u, λ k h. ap (λ cs. cs k) e ∙ put_client_ne id d w k h)

put_client_same :
    (id : ℕ) (w v : World)
    → v.clients ≡ (put_client id (w.clients id) w).clients
    → (k : ℕ) → v.clients k ≡ w.clients k
put_client_same id w v e k = elim (Bool-cases (id == k)) [
  | inl h ↦ ap (λ cs. cs k) e ∙ rw (← (==_iff id k).0 h) (put_client_self id (w.clients id) w)
  | inr h ↦ ap (λ cs. cs k) e ∙ put_client_ne id (w.clients id) w k (λ m. ground arith)
]

entered_upgrade :
    (n id i j r : ℕ) (w : World)
    → (w.clients id).room ≡ some r
    → let c = w.clients id in
      request_upgrade_item n id i j w ≡ (
        if is_ready_stage (w.rooms r).cur_room_status_type
        then changed n id id w (upgraded i j c (get_item i c) (get_item j c))
        else some (send_inventory n id w))
unfolding request_upgrade_item
entered_upgrade n id i j r w e = entered ((w.clients id).room) w _ e

-- `cs_requestUpgradeItem` on all its branches, for a client in a room with an item `x` in the first place
-- and `y` in the second: it returns; and if the room is in its ready stage, the two places differ, and
-- both items are of the same type, not empty, and of the same upgrade below 2, then the item in the first
-- place is upgraded once, the second place is emptied, and every other place and every other client
-- stay as they were; if not, no client changes.
pub request_upgrade_item-IsUpgrade :
    (network_id id i j r : ℕ) (x y : Item) (w : World)
    → (w.clients id).room ≡ some r
    → get_item i (w.clients id) ≡ some x
    → get_item j (w.clients id) ≡ some y
    → (w' : World) × (request_upgrade_item network_id id i j w ≡ some w')
      × IsUpgrade id i j (w.rooms r).cur_room_status_type x y w w'
request_upgrade_item-IsUpgrade n id i j r x y w e p q =
    elim (Bool-cases (is_ready_stage (w.rooms r).cur_room_status_type)) [
      | inr h ↦
          rw (entered_upgrade n id i j r w e, h)
            (_, refl, inr (λ (ready, _). cc, λ k. ap (λ cs. cs k) (send_inventory-clients n id w)))
      | inl h ↦ elim (upgraded-cases i j (w.clients id) x y) [
        | inl (c, u) ↦
            let d =
              put_item j (set_empty_item y)
                (put_item i (record x { upgrade = x.upgrade + 1 }) (w.clients id)) in
            let v = send_inventory n id (put_client id d w) in
            let (k, o) =
              told-Upgraded id i j x y d w v (send_inventory-clients n id (put_client id d w))
                (two_puts-Upgraded i j (w.clients id) x y c.0 p q) in
            rw (entered_upgrade n id i j r w e, h, p, q, u) (v, refl, inl (refl, c, k, o))
        | inr (c, u) ↦
            let w' = put_client id (w.clients id) w in
            rw (entered_upgrade n id i j r w e, h, p, q, u)
              (
                send_inventory n id w',
                refl,
                inr (
                  λ (_, d). c d,
                  put_client_same id w (send_inventory n id w') (send_inventory-clients n id w'),
                ),
              )
      ]
    ]
