-- ===== src/Client/ActiveQueue.antt =====
-- Client.cpp: `GetItemActiveQueue`, the order in which the six items in use act in a battle.
pub mod Order
use isegye_idol_game_server.Common.{
  ℕ, zero, suc, ◌+◌, ◌-◌, Bool, true, false, Option, none, some, List, [], ◌∷◌, ltb, get_elem?, set,
  replicate, if◌then◌else◌,
}
use isegye_idol_game_server.Types.{Item, max_using_item_count}
use isegye_idol_game_server.Client.{Client}
use isegye_idol_game_server.Client.Inventory.{SlotInfo}
use isegye_idol_game_server.Types.{Random}

-- The sum of the percentages of the places that are not in the queue yet.
unfoldable pub percent_sum : List Item → List Bool → ℕ
percent_sum [] included = 0
percent_sum (i ∷ items) [] = 0
percent_sum (i ∷ items) (b ∷ included) =
    (if b then 0 else i.active_percent) + percent_sum items included

-- The inner loop from place `j` on: the place where the number, less the percentages passed, falls
-- below zero.
unfoldable pub find_place : List Item → List Bool → ℕ → ℕ → Option ℕ
find_place [] included rand j = none
find_place (i ∷ items) [] rand j = none
find_place (i ∷ items) (b ∷ included) rand j =
    let rest = find_place items included rand (j + 1) in
    let rest' = find_place items included (rand - i.active_percent) (j + 1) in
    if b then rest else (if ltb rand i.active_percent then some j else rest')

abbrev pub slot_info_at : List Item → ℕ → List SlotInfo → List SlotInfo
slot_info_at items j queue = elim (get_elem? items j) [
  | none ↦ queue
  | some item ↦ record { index = j; item = item } ∷ queue
]

-- `n` turns of the outer loop. The source's bounds are 0 and the sum less 1; that they are in order
-- needs a percentage above 0 among the places left.
unfoldable pub queue_loop : Random → ℕ → ℕ → List Item → List Bool → List SlotInfo
unfolding percent_sum find_place
queue_loop random draws zero items included = []
queue_loop random draws (suc n) items included =
    elim (find_place items included (random draws 0 (percent_sum items included - 1)) 0) [
      | none ↦ queue_loop random (draws + 1) n items included
      | some j ↦ slot_info_at items j (queue_loop random (draws + 1) n items (set included j true))
    ]

-- `Client::GetItemActiveQueue`
unfoldable pub get_item_active_queue : Random → ℕ → Client → List SlotInfo
unfolding queue_loop
get_item_active_queue random draws c =
    queue_loop random draws max_using_item_count c.using_items
      (replicate max_using_item_count false)
