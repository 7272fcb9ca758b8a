-- ===== src/Tests/Inventories.antt =====
-- The properties of the inventory, the draws and the order of a battle.
use mathlib.Core.List.{Perm}
use isegye_idol_game_server.Common.{ℕ, ◌≤◌, ◌≡◌, refl, some, map, arith, length, Bool, [], ◌∷◌}
use isegye_idol_game_server.Types.{normal, Item}
use isegye_idol_game_server.Client.{Client, init_client}
use isegye_idol_game_server.Client.Inventory.{
  SlotInfo, get_item, put_item, swap_item, add_item, find_empty_item_slot_index,
  try_set_default_using_item,
}
use isegye_idol_game_server.Client.Inventory.Slots.{slots, IsInventory}
use isegye_idol_game_server.Client.Inventory.Swap.{
  share, swap_item-share, kind, swap_item-swap_item, swap_item-perm,
}
use isegye_idol_game_server.Client.Inventory.Add.{
  Added, add_item-Added, find_empty_item_slot_index-add_item,
}
use isegye_idol_game_server.Client.Inventory.Default.{
  SameKinds, Defaulted, try_set_default_using_item-Defaulted,
}
use isegye_idol_game_server.Client.Inventory.Valid.{IsValid, init_client-IsValid}
use isegye_idol_game_server.Client.Draws.{
  get_random_item_type_of, get_random_item_type_by_combination,
}
use isegye_idol_game_server.Client.Draws.Tickets.{
  DrawsTier, MayGive, get_random_item_type_of-DrawsTier,
  get_random_item_type_by_combination-DrawsTier,
}
use isegye_idol_game_server.Client.ActiveQueue.{get_item_active_queue}
use isegye_idol_game_server.Client.ActiveQueue.Order.{AreCopies, get_item_active_queue-perm}
use isegye_idol_game_server.Avatar.Setup.{identity_queue}
use isegye_idol_game_server.Items.Tiers.{s_tier_items-tier_of, tier_of}
use isegye_idol_game_server.Tests.Inputs.{
  lowest_draws, highest_draws, highest_draws-InRange, player, idle_player, with_items, place,
  player-has_tickets, player-IsInventory, idle_player-IsInventory, player-HasShares,
}

-- The items of the places 1 and 9 have changed places; the shares have not.
abbrev swapped : Client
swapped =
    with_items
      (place 0 45 1 0
        ∷ place 1 45 6 0
        ∷ place 2 33 27 2
        ∷ place 3 33 29 0
        ∷ place 4 23 32 1
        ∷ place 5 23 0 0
        ∷ [])
      (place 6 0 24 1
        ∷ place 7 0 5 0
        ∷ place 8 0 5 0
        ∷ place 9 0 24 1
        ∷ place 10 0 0 0
        ∷ place 11 0 0 0
        ∷ place 12 0 0 0
        ∷ place 13 0 0 0
        ∷ place 14 0 0 0
        ∷ place 15 0 8 0
        ∷ [])

swap_goes_through : swap_item 1 9 player ≡ some swapped
unfolding swap_item get_item put_item
swap_goes_through = refl

swap_item-swap_item_example : swap_item 1 9 swapped ≡ some player
swap_item-swap_item_example = swap_item-swap_item 1 9 player swap_goes_through

swap_item-perm_example :
    Perm (map kind (slots swapped)) (map kind (slots player)) × IsInventory swapped
swap_item-perm_example = swap_item-perm 1 9 player-IsInventory swap_goes_through

add_item-Added_example : Added 21 player (add_item 21 player)
add_item-Added_example = add_item-Added 21 player-IsInventory

find_empty_item_slot_index-add_item_example :
    find_empty_item_slot_index player ≡ (add_item 4 player).1
find_empty_item_slot_index-add_item_example = find_empty_item_slot_index-add_item 4 player

try_set_default_using_item-Defaulted_example :
    (c' : Client) × (flag : Bool) × (try_set_default_using_item idle_player ≡ some (c', flag))
    × IsInventory c'
    × SameKinds idle_player c'
    × Defaulted idle_player c' flag
try_set_default_using_item-Defaulted_example =
    try_set_default_using_item-Defaulted idle_player-IsInventory

init_client-IsValid_example :
    IsValid (init_client player)
    × ((m : ℕ) (x : Item) → get_item m (init_client player) ≡ some x → x.type ≡ 0)
init_client-IsValid_example = init_client-IsValid player-IsInventory

get_random_item_type_of-DrawsTier_example :
    DrawsTier
      (MayGive normal 3)
      highest_draws
      2
      (get_random_item_type_of normal highest_draws 0 3 player)
get_random_item_type_of-DrawsTier_example =
    get_random_item_type_of-DrawsTier normal highest_draws 0 3 player highest_draws-InRange
      player-has_tickets

get_random_item_type_by_combination-DrawsTier_example :
    DrawsTier
      (λ tier. (1 ≤ tier) × (tier ≤ 3))
      highest_draws
      2
      (get_random_item_type_by_combination highest_draws 0 1 3)
get_random_item_type_by_combination-DrawsTier_example =
    get_random_item_type_by_combination-DrawsTier highest_draws 0 1 3 highest_draws-InRange
      (omega arith) (omega arith)

get_item_active_queue-perm_example :
    Perm
      (map (λ (s : SlotInfo). s.index) (get_item_active_queue highest_draws 0 player))
      identity_queue
    × AreCopies player.using_items (get_item_active_queue highest_draws 0 player)
    × (length (get_item_active_queue highest_draws 0 player) ≡ 6)
get_item_active_queue-perm_example =
    get_item_active_queue-perm highest_draws 0 player highest_draws-InRange refl player-HasShares

s_tier_items-tier_of_example : tier_of lowest_draws 25 ≡ some 3
s_tier_items-tier_of_example = s_tier_items-tier_of lowest_draws 3 4 refl refl

swap_item-share_example : map share (slots swapped) ≡ map share (slots player)
swap_item-share_example = swap_item-share 1 9 player-IsInventory swap_goes_through
