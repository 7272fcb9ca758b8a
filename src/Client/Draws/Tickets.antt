-- ===== src/Client/Draws/Tickets.antt =====
-- What Client.cpp's draws give: an item of a tier that the ticket, or the combination, allows.
use isegye_idol_game_server.Common.{
  ℕ, suc, ◌+◌, ◌-◌, ◌<◌, ◌≤◌, ◌≡◌, ◌≢◌, refl, inl, inr, false, Option, none, some, List, [], ◌∷◌,
  ◌⊎◌, arith, ltb, ◌==◌, length, get_elem?, get_or, Bool-cases, ltb→lt, all-get_elem?, sum, min,
  get_elem?_total, ==_iff, ltb→lt,
}
use isegye_idol_game_server.Types.{ItemTicketType, normal, advanced, top, supreme}
use isegye_idol_game_server.Client.{Client, ticket_count}
use isegye_idol_game_server.Types.{Random, InRange}
use isegye_idol_game_server.Items.Tiers.{
  s_tier_items, s_tier_items-tier_of, s_tier_items_pos, tier_of, s_two_tier_items,
  s_three_tier_items, s_five_tier_items,
}
use isegye_idol_game_server.Client.Draws.{
  s_item_probability, Drawn, pick, pick_tier, find_tier, pick_by_row, pick_of_two,
  get_random_item_type_of_normal_item_ticket, get_random_item_type_of,
  get_random_item_type_by_combination, get_random_item_type_of_advanced_item_ticket,
  get_random_item_type_of_top_item_ticket, get_random_item_type_of_supreme_item_ticket,
}

-- An item of one of the tiers that are allowed, with `n` numbers drawn.
abbrev pub DrawsTier : (ℕ → Type 0) → Random → ℕ → Drawn → Type 0
DrawsTier allowed random n drawn =
    (code : ℕ) × (tier : ℕ) × (drawn ≡ some (code, n))
    × (tier_of random code ≡ some tier)
    × (0 < code)
    × allowed tier

-- The five lists are not empty.
nonempty : (k : ℕ) {items : List ℕ} → get_elem? s_tier_items k ≡ some items → 0 < length items
nonempty k e = ltb→lt _ _ (all-get_elem? (λ items. ltb 0 (length items)) s_tier_items k refl e)

pick-DrawsTier :
    (random : Random) (draws k : ℕ) {items : List ℕ} (allowed : ℕ → Type 0)
    → InRange random
    → get_elem? s_tier_items k ≡ some items
    → allowed k
    → DrawsTier allowed random (draws + 1) (pick random draws items)
unfolding pick
pick-DrawsTier random draws k {items} allowed r e a =
    let (code, f) =
      get_elem?_total items (random draws 0 (length items - 1))
        (omega (arith, nonempty k e, (r draws 0 (length items - 1) (omega arith)).1)) in
    (code, k, rw (f, pick) refl, s_tier_items-tier_of random k _ e f, s_tier_items_pos k _ e f, a)

pick_tier-DrawsTier :
    (random : Random) (draws k : ℕ) (allowed : ℕ → Type 0)
    → InRange random
    → k < 5
    → allowed k
    → DrawsTier allowed random (draws + 1) (pick_tier random draws (get_elem? s_tier_items k))
unfolding pick_tier
pick_tier-DrawsTier random draws k allowed r h a =
    let (items, e) = get_elem?_total s_tier_items k h in
    rw e (pick-DrawsTier random draws k {items = items} allowed r e a)

passed :
    (rand percent rest : ℕ)
    → ltb rand percent ≡ false
    → rand < percent + rest
    → rand - percent < rest
passed rand percent rest e h = ground arith

-- The loop stops at a tier whose percentage is above zero.
find_tier_positive :
    (ps : List ℕ) (rand tier : ℕ)
    → rand < sum ps
    → (k : ℕ) × (find_tier ps rand tier ≡ tier + k) × (k < length ps) × (0 < get_or ps k 0)
unfolding find_tier
find_tier_positive [] rand tier h = elim h [ ]
find_tier_positive (p ∷ ps) rand tier h = elim (Bool-cases (ltb rand p)) [
  | inl e ↦ (0, rw e (omega arith), omega arith, omega (arith, ltb→lt rand p e))
  | inr e ↦
      let (k, f, l, g) = find_tier_positive ps (rand - p) (tier + 1) (passed rand p _ e h) in
      (suc k, rw e (omega (arith, f)), omega arith, g)
]

-- Each row of the table has five percentages, which come to a hundred.
row_lem :
    (n : ℕ) {row : List ℕ}
    → get_elem? s_item_probability n ≡ some row
    → (sum row ≡ 100) × (length row ≡ 5)
row_lem n {row} e = (
  (==_iff _ _).0 (all-get_elem? (λ row. sum row == 100) s_item_probability n refl e),
  (==_iff _ _).0 (all-get_elem? (λ row. length row == 5) s_item_probability n refl e),
)

row_total : (round : ℕ) → (row : List ℕ) × (get_elem? s_item_probability (min round 5) ≡ some row)
row_total round = get_elem?_total s_item_probability (min round 5) (omega arith)

row_at : Option (List ℕ) → List ℕ
row_at none = []
row_at (some row) = row

-- The tiers that a ticket of a type may give in a round.
unfoldable pub MayGive : ItemTicketType → ℕ → ℕ → Type 0
unfolding row_at
MayGive normal round tier = 0 < get_or (row_at (get_elem? s_item_probability (min round 5))) tier 0
MayGive advanced round tier = (tier ≡ 1) ⊎ (tier ≡ 2)
MayGive top round tier = (tier ≡ 2) ⊎ (tier ≡ 3)
MayGive supreme round tier = tier ≡ 4

-- How many numbers it draws.
abbrev pub draws_of : ItemTicketType → ℕ
draws_of supreme = 1
draws_of _ = 2

pick_by_row-DrawsTier :
    (random : Random) (draws round : ℕ) (row : List ℕ)
    → InRange random
    → get_elem? s_item_probability (min round 5) ≡ some row
    → DrawsTier
        (λ tier. 0 < get_or row tier 0)
        random
        (draws + 2)
        (pick_by_row random draws (some row))
unfolding pick_by_row
pick_by_row-DrawsTier random draws round row r e =
    let (s, l) = row_lem (min round 5) e in
    let (k, f, m, g) =
      find_tier_positive row (random draws 0 99) 0
        (omega (arith, s, (r draws 0 99 (omega arith)).1)) in
    let tier : find_tier row (random draws 0 99) 0 ≡ k = omega (arith, f) in
    let two : draws + 2 ≡ draws + 1 + 1 = omega arith in
    rw (tier, two)
      (pick_tier-DrawsTier random (draws + 1) k (λ tier. 0 < get_or row tier 0) r
        (omega (arith, l, m)) g)

no_ticket : (n : ℕ) → n ≢ 0 → (n == 0) ≡ false
no_ticket n h = ground arith

pick_of_two-DrawsTier :
    (random : Random) (draws j k : ℕ) {items items' : List ℕ}
    → InRange random
    → get_elem? s_tier_items j ≡ some items
    → get_elem? s_tier_items k ≡ some items'
    → DrawsTier
        (λ tier. (tier ≡ j) ⊎ (tier ≡ k))
        random
        (draws + 2)
        (pick_of_two random draws items items')
unfolding pick_of_two
pick_of_two-DrawsTier random draws j k {items} {items'} r e f =
    let two : draws + 2 ≡ draws + 1 + 1 = omega arith in
    elim (Bool-cases (random draws 0 1 == 0)) [
      | inl h ↦ rw (two, h) (pick-DrawsTier random (draws + 1) j {items = items} _ r e (inl refl))
      | inr h ↦ rw (two, h) (pick-DrawsTier random (draws + 1) k {items = items'} _ r f (inr refl))
    ]

-- A client that has a ticket of a type draws, in any round and within the generator's bounds, an item
-- of a tier that the type allows there: with a normal ticket one whose percentage in the round is above
-- zero, with the others one of the tiers two and three, three and four, or five.
pub get_random_item_type_of-DrawsTier :
    (type : ItemTicketType) (random : Random) (draws round : ℕ) (c : Client)
    → InRange random
    → ticket_count type c ≢ 0
    → DrawsTier
        (MayGive type round)
        random
        (draws + draws_of type)
        (get_random_item_type_of type random draws round c)
unfolding get_random_item_type_of get_random_item_type_of_normal_item_ticket
    get_random_item_type_of_advanced_item_ticket get_random_item_type_of_top_item_ticket
    get_random_item_type_of_supreme_item_ticket ticket_count MayGive row_at
get_random_item_type_of-DrawsTier normal random draws round c r h =
    let (row, e) = row_total round in
    rw (no_ticket _ h, e) (pick_by_row-DrawsTier random draws round row r e)
get_random_item_type_of-DrawsTier advanced random draws round c r h =
    rw (no_ticket _ h)
      (pick_of_two-DrawsTier random draws 1 2 {items = s_two_tier_items} r refl refl)
get_random_item_type_of-DrawsTier top random draws round c r h =
    rw (no_ticket _ h)
      (pick_of_two-DrawsTier random draws 2 3 {items = s_three_tier_items} r refl refl)
get_random_item_type_of-DrawsTier supreme random draws round c r h =
    rw (no_ticket _ h) (pick-DrawsTier random draws 4 {items = s_five_tier_items} _ r refl refl)

-- A combination draws an item whose tier lies between the two that it is given.
pub get_random_item_type_by_combination-DrawsTier :
    (random : Random) (draws min_tier max_tier : ℕ)
    → InRange random
    → min_tier ≤ max_tier
    → max_tier < 5
    → DrawsTier
        (λ tier. (min_tier ≤ tier) × (tier ≤ max_tier))
        random
        (draws + 2)
        (get_random_item_type_by_combination random draws min_tier max_tier)
unfolding get_random_item_type_by_combination
get_random_item_type_by_combination-DrawsTier random draws lo hi r h m =
    let (a, b) = r draws lo hi h in
    let two : draws + 2 ≡ draws + 1 + 1 = omega arith in
    rw two
      (pick_tier-DrawsTier random (draws + 1) (random draws lo hi) _ r (omega (arith, b)) (a, b))
