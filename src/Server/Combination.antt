-- ===== src/Server/Combination.antt =====
-- Server.cpp: `cs_requestCombinationItem`, three items for a new one.
use isegye_idol_game_server.Common.{
  ℕ, zero, suc, not, ◌||◌, Option, none, some, min, max, ◌==◌, if◌then◌else◌,
}
use isegye_idol_game_server.Types.{Item, empty_item, set_empty_item}
use isegye_idol_game_server.Client.{Client}
use isegye_idol_game_server.Client.Inventory.{get_item, put_item, find_empty_item_slot_index}
use isegye_idol_game_server.Client.Draws.{Drawn, get_random_item_type_by_combination}
use isegye_idol_game_server.Items.Tiers.{tier_of}
use isegye_idol_game_server.World.{World, Random}
use isegye_idol_game_server.Server.Stage.{
  Outcome, is_ready_stage, with_room, send_inventory, changed,
}

-- `item.SetEmptyItem()` through the reference to the place.
unfoldable pub empty_place : ℕ → Client → Client
empty_place index c = elim (get_item index c) [
  | none ↦ c
  | some item ↦ put_item index (set_empty_item item) c
]

-- `n` turns of the loop that draws until the type is none of the three; the last draw stands. The
-- source makes ten turns; with none the type would have no value.
unfoldable pub combine_loop : Random → ℕ → ℕ → ℕ → ℕ → ℕ → ℕ → ℕ → Drawn
combine_loop random zero type1 type2 type3 min_tier max_tier draws = none
combine_loop random (suc n) type1 type2 type3 min_tier max_tier draws =
    elim (get_random_item_type_by_combination random draws min_tier max_tier) [
      | none ↦ none
      | some (type, draws') ↦
          let rest = combine_loop random n type1 type2 type3 min_tier max_tier draws' in
          if not (type1 == type || type2 == type || type3 == type) || n == 0
          then some (type, draws')
          else rest
    ]

unfoldable pub new_item_at : ℕ → ℕ → Client → Option Item → Option Client
new_item_at slot type c none = none
new_item_at slot type c (some item) =
    some (put_item slot (record item { type = type; upgrade = 0 }) c)

-- The new item goes to the first empty place.
unfoldable pub place_new_item : ℕ → ℕ → World → Client → Drawn → Outcome
unfolding new_item_at
place_new_item network_id id w c none = none
place_new_item network_id id w c (some (type, draws)) =
    changed network_id id id (record w { draws = draws })
      (new_item_at (find_empty_item_slot_index c) type c
        (get_item (find_empty_item_slot_index c) c))

-- From the tiers of the three items on.
unfoldable pub combine_tiers :
    Random → ℕ → ℕ → Client → ℕ → ℕ → ℕ → Option ℕ → Option ℕ → Option ℕ → World → Outcome
unfolding place_new_item
combine_tiers random network_id id c type1 type2 type3 (some tier1) (some tier2) (some tier3) w =
    place_new_item network_id id w c (
      combine_loop random 10 type1 type2 type3 (min (min tier1 tier2) tier3)
        (max (max tier3 tier2) tier1) w.draws)
combine_tiers random network_id id c type1 type2 type3 _ _ _ w = none

-- From the three items on.
unfoldable pub combine :
    Random → ℕ → ℕ → ℕ → ℕ → ℕ → Option Item → Option Item → Option Item → World → Outcome
unfolding empty_place combine_tiers
combine random network_id id index1 index2 index3 (some item1) (some item2) (some item3) w =
    if item1.type == empty_item || item2.type == empty_item || item3.type == empty_item
    then some (send_inventory network_id id w)
    else combine_tiers random network_id id
        (empty_place index3 (empty_place index2 (empty_place index1 (w.clients id)))) item1.type
        item2.type item3.type (tier_of random item1.type) (tier_of random item2.type)
        (tier_of random item3.type) w
combine random network_id id index1 index2 index3 _ _ _ w = none

-- `cs_requestCombinationItem`: outside the ready stage the inventory is sent, and the request goes on.
unfoldable pub request_combination_item : Random → ℕ → ℕ → ℕ → ℕ → ℕ → World → Outcome
unfolding combine
request_combination_item random network_id id index1 index2 index3 w =
    with_room (w.clients id).room w λ r.
      let w' =
        if is_ready_stage (w.rooms r).cur_room_status_type
        then w
        else send_inventory network_id id w in
      let c = w.clients id in
      combine random network_id id index1 index2 index3 (get_item index1 c) (get_item index2 c)
        (get_item index3 c) w'
