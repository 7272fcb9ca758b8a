-- ===== src/Client/Draws.antt =====
-- Client.h and Client.cpp: the items that tickets and combinations draw.
pub mod Tickets
use isegye_idol_game_server.Common.{
  ℕ, ◌+◌, ◌-◌, Option, none, some, List, [], ◌∷◌, length, get_elem?, min, ltb, ◌==◌, if◌then◌else◌,
}
use isegye_idol_game_server.Types.{empty_item, ItemTicketType, normal, advanced, top, supreme}
use isegye_idol_game_server.Client.{Client, ticket_count}
use isegye_idol_game_server.Types.{Random}
use isegye_idol_game_server.Items.Tiers.{
  s_two_tier_items, s_three_tier_items, s_four_tier_items, s_five_tier_items, s_tier_items,
}

-- `Client::sItemProbability`: by round, then by tier.
abbrev pub s_item_probability : List (List ℕ)
s_item_probability =
    (100 ∷ 0 ∷ 0 ∷ 0 ∷ 0 ∷ [])
    ∷ (75 ∷ 25 ∷ 0 ∷ 0 ∷ 0 ∷ [])
    ∷ (55 ∷ 30 ∷ 15 ∷ 0 ∷ 0 ∷ [])
    ∷ (25 ∷ 40 ∷ 30 ∷ 5 ∷ 0 ∷ [])
    ∷ (19 ∷ 44 ∷ 27 ∷ 9 ∷ 1 ∷ [])
    ∷ (11 ∷ 30 ∷ 40 ∷ 15 ∷ 4 ∷ [])
    ∷ []

-- The item drawn and the count of the numbers drawn by then; `none` is a read out of bounds.
abbrev pub Drawn : Type 0
Drawn = Option (ℕ × ℕ)

-- `items[itemGen()]->CODE` of a list of items
unfoldable pub pick : Random → ℕ → List ℕ → Drawn
pick random draws items = elim (get_elem? items (random draws 0 (length items - 1))) [
  | none ↦ none
  | some code ↦ some (code, draws + 1)
]

unfoldable pub pick_tier : Random → ℕ → Option (List ℕ) → Drawn
unfolding pick
pick_tier random draws none = none
pick_tier random draws (some items) = pick random draws items

-- The loop over the tiers, from `tier` on: where the number, less the percentages passed, falls below
-- zero.
unfoldable pub find_tier : List ℕ → ℕ → ℕ → ℕ
find_tier [] rand tier = tier
find_tier (p ∷ ps) rand tier =
    let rest = find_tier ps (rand - p) (tier + 1) in if ltb rand p then tier else rest

unfoldable pub pick_by_row : Random → ℕ → Option (List ℕ) → Drawn
unfolding find_tier pick_tier
pick_by_row random draws none = none
pick_by_row random draws (some row) =
    pick_tier random (draws + 1) (get_elem? s_tier_items (find_tier row (random draws 0 99) 0))

-- `GetRandomItemTypeOfNormalItemTicket`, with the round of the client's room
unfoldable pub get_random_item_type_of_normal_item_ticket : Random → ℕ → ℕ → Client → Drawn
unfolding pick_by_row
get_random_item_type_of_normal_item_ticket random draws round c =
    if c.normal_item_ticket_count == 0
    then some (empty_item, draws)
    else pick_by_row random draws (get_elem? s_item_probability (min round 5))

unfoldable pub pick_of_two : Random → ℕ → List ℕ → List ℕ → Drawn
unfolding pick
pick_of_two random draws items items' =
    pick random (draws + 1) (if random draws 0 1 == 0 then items else items')

-- `GetRandomItemTypeOfAdvancedItemTicket`
unfoldable pub get_random_item_type_of_advanced_item_ticket : Random → ℕ → Client → Drawn
unfolding pick_of_two
get_random_item_type_of_advanced_item_ticket random draws c =
    if c.advanced_item_ticket_count == 0
    then some (empty_item, draws)
    else pick_of_two random draws s_two_tier_items s_three_tier_items

-- `GetRandomItemTypeOfTopItemTicket`
unfoldable pub get_random_item_type_of_top_item_ticket : Random → ℕ → Client → Drawn
unfolding pick_of_two
get_random_item_type_of_top_item_ticket random draws c =
    if c.top_item_ticket_count == 0
    then some (empty_item, draws)
    else pick_of_two random draws s_three_tier_items s_four_tier_items

-- `GetRandomItemTypeOfSupremeItemTicket`
unfoldable pub get_random_item_type_of_supreme_item_ticket : Random → ℕ → Client → Drawn
unfolding pick
get_random_item_type_of_supreme_item_ticket random draws c =
    if c.supreme_item_ticket_count == 0
    then some (empty_item, draws)
    else pick random draws s_five_tier_items

-- The four of them, by the type of the ticket.
unfoldable pub get_random_item_type_of : ItemTicketType → Random → ℕ → ℕ → Client → Drawn
get_random_item_type_of normal random draws round c =
    get_random_item_type_of_normal_item_ticket random draws round c
get_random_item_type_of advanced random draws round c =
    get_random_item_type_of_advanced_item_ticket random draws c
get_random_item_type_of top random draws round c =
    get_random_item_type_of_top_item_ticket random draws c
get_random_item_type_of supreme random draws round c =
    get_random_item_type_of_supreme_item_ticket random draws c

-- `GetRandomItemTypeByCombination(minTier, maxTier)`
unfoldable pub get_random_item_type_by_combination : Random → ℕ → ℕ → ℕ → Drawn
unfolding pick_tier
get_random_item_type_by_combination random draws min_tier max_tier =
    pick_tier random (draws + 1) (get_elem? s_tier_items (random draws min_tier max_tier))
