-- ===== src/Server/Safety/Combination.antt =====
-- Server.cpp: a combination keeps every inventory valid and always finds a place for its item.
use isegye_idol_game_server.Common.{
  ℕ, zero, suc, ◌+◌, ◌<◌, ◌≤◌, ◌≡◌, refl, inl, inr, Bool, some, arith, ◌==◌, if◌then◌else◌, true,
  false, not, ◌||◌, min, max,
}
use isegye_idol_game_server.Types.{Item, set_empty_item}
use isegye_idol_game_server.Client.{Client}
use isegye_idol_game_server.Client.Inventory.{
  get_item, put_item, add_item, find_empty_item_slot_index,
}
use isegye_idol_game_server.Client.Inventory.Slots.{get_item_total, get_item-put_item_self}
use isegye_idol_game_server.Client.Inventory.Add.{
  Added, add_item-Added, find_empty_item_slot_index-add_item,
}
use isegye_idol_game_server.Client.Inventory.Valid.{
  IsValid, IsFair, put_item-IsValid, set_empty_item-IsFair,
}
use isegye_idol_game_server.Client.Draws.{Drawn}
use isegye_idol_game_server.Client.Draws.Tickets.{get_random_item_type_by_combination-DrawsTier}
use isegye_idol_game_server.Items.Tiers.{tier_of, tier_of-lt, tier_of_total}
use isegye_idol_game_server.World.{World, Random, InRange}
use isegye_idol_game_server.Server.Stage.{send_inventory}
use isegye_idol_game_server.Server.Combination.{
  empty_place, combine_loop, new_item_at, place_new_item, combine_tiers, combine,
  request_combination_item,
}
use isegye_idol_game_server.Server.Safety.{
  AllValid, IsSafe, IsSafeClient, some-IsSafe, if-IsSafe, with_room-IsSafe, changed-IsSafe,
  send_inventory-AllValid,
}

if-AllValid : (b : Bool) (w w' : World) → AllValid w → AllValid w' → AllValid (if b then w else w')
if-AllValid true w w' v v' = v
if-AllValid false w w' v v' = v'

-- The place `k` is empty.
abbrev pub IsEmptyAt : ℕ → Client → Type 0
IsEmptyAt k c = (x : Item) × (get_item k c ≡ some x) × (x.type ≡ 0)

empty_place_lem :
    (i : ℕ) (c : Client) {x : Item}
    → get_item i c ≡ some x
    → empty_place i c ≡ put_item i (set_empty_item x) c
unfolding empty_place
empty_place_lem i c e = rw (e, empty_place) refl

empty_place-IsValid : (i : ℕ) (c : Client) → i < 16 → IsValid c → IsValid (empty_place i c)
empty_place-IsValid i c h v =
    let (x, e) = get_item_total i v.inventory h in
    rw (empty_place_lem i c e) (put_item-IsValid i _ (set_empty_item-IsFair x) v)

empty_place-IsEmptyAt : (i : ℕ) (c : Client) → i < 16 → IsValid c → IsEmptyAt i (empty_place i c)
unfolding set_empty_item
empty_place-IsEmptyAt i c h v =
    let (x, e) = get_item_total i v.inventory h in
    (set_empty_item x, rw (empty_place_lem i c e) (get_item-put_item_self c i _ e), refl)

-- An empty place is found, if there is one.
found_place :
    (t k : ℕ) (c : Client) (r : Client × ℕ) → IsEmptyAt k c → Added t c r → IsEmptyAt r.1 c
found_place t k c r e (inl (x, p, z, _, _)) = (x, p, z)
found_place t k c r (x, p, z) (inr (_, _, taken)) = absurd (taken k x p z)

pub find_empty_item_slot_index-IsEmptyAt :
    (k : ℕ) (c : Client) → IsValid c → IsEmptyAt k c → IsEmptyAt (find_empty_item_slot_index c) c
find_empty_item_slot_index-IsEmptyAt k c v e =
    rw (find_empty_item_slot_index-add_item 1 c)
      (found_place 1 k c (add_item 1 c) e (add_item-Added 1 v.inventory))

-- The type is one of a tier between the two.
abbrev IsBetween : Random → ℕ → ℕ → ℕ → Type 0
IsBetween random lo hi type =
    (tier : ℕ) × (tier_of random type ≡ some tier) × (lo ≤ tier) × (tier ≤ hi)

abbrev DrawsBetween : Random → ℕ → ℕ → Drawn → Type 0
DrawsBetween random lo hi o = (t : ℕ) × (d : ℕ) × (o ≡ some (t, d)) × IsBetween random lo hi t

module _ (random : Random) (lo hi : ℕ) where
  if-DrawsBetween :
      (b : Bool) (o p : Drawn)
      → DrawsBetween random lo hi o
      → DrawsBetween random lo hi p
      → DrawsBetween random lo hi (if b then o else p)
  if-DrawsBetween true o p s t = s
  if-DrawsBetween false o p s t = t

  -- The last turn takes what it draws.
  last-DrawsBetween :
      (b : Bool) (o p : Drawn)
      → DrawsBetween random lo hi o
      → DrawsBetween random lo hi (if b || true then o else p)
  last-DrawsBetween true o p s = s
  last-DrawsBetween false o p s = s

-- The loop ends with a type of a tier between the two, with ten turns as with any number above zero.
combine_loop-DrawsBetween :
    (random : Random) (n a b c lo hi draws : ℕ)
    → InRange random
    → lo ≤ hi
    → hi < 5
    → 0 < n
    → DrawsBetween random lo hi (combine_loop random n a b c lo hi draws)
unfolding combine_loop
combine_loop-DrawsBetween random zero a b c lo hi draws r l h p = elim p [ ]
combine_loop-DrawsBetween random (suc zero) a b c lo hi draws r l h p =
    let (t, k, e, f, _, g) =
      get_random_item_type_by_combination-DrawsTier random draws lo hi r l h in
    rw (e, combine_loop)
      (last-DrawsBetween random lo hi (not (a == t || b == t || c == t)) _ _
        (t, _, refl, (k, f, g.0, g.1)))
combine_loop-DrawsBetween random (suc (suc n)) a b c lo hi draws r l h p =
    let (t, k, e, f, _, g) =
      get_random_item_type_by_combination-DrawsTier random draws lo hi r l h in
    rw (e, combine_loop)
      (if-DrawsBetween random lo hi (not (a == t || b == t || c == t) || suc n == 0) _ _
        (t, _, refl, (k, f, g.0, g.1))
        (combine_loop-DrawsBetween random (suc n) a b c lo hi (draws + 2) r l h (omega arith)))

new_item_at-IsSafeClient :
    (slot t : ℕ) (c : Client) (x : Item)
    → t < 46
    → IsValid c
    → IsSafeClient (new_item_at slot t c (some x))
unfolding new_item_at
new_item_at-IsSafeClient slot t c x h v = (
  _,
  refl,
  put_item-IsValid slot _ (record { listed = h; upgradable = omega arith; bare = λ _. refl }) v,
)

place_new_item-IsSafe :
    (network_id id k t d : ℕ) (c : Client) (w : World)
    → t < 46
    → IsValid c
    → IsEmptyAt k c
    → AllValid w
    → IsSafe (place_new_item network_id id w c (some (t, d)))
unfolding place_new_item
place_new_item-IsSafe network_id id k t d c w h v e all =
    let (x, p, _) = find_empty_item_slot_index-IsEmptyAt k c v e in
    changed-IsSafe network_id id id (record w { draws = d }) _ all
      (rw p (new_item_at-IsSafeClient (find_empty_item_slot_index c) t c x h v))

lowest : (a b c : ℕ) → min (min a b) c ≤ max (max c b) a
lowest a b c = omega arith

combine_tiers-IsSafe :
    (random : Random) (network_id id k : ℕ) (c : Client) (a b d : ℕ) (w : World)
    → InRange random
    → a < 46
    → b < 46
    → d < 46
    → IsValid c
    → IsEmptyAt k c
    → AllValid w
    → IsSafe (
        combine_tiers random network_id id c a b d
          (tier_of random a)
          (tier_of random b)
          (tier_of random d)
          w)
unfolding combine_tiers
combine_tiers-IsSafe random network_id id k c a b d w r ha hb hd v e all =
    let (i, p, hi) = tier_of_total random a ha in
    let (j, q, hj) = tier_of_total random b hb in
    let (l, s, hl) = tier_of_total random d hd in
    let (t, n, f, (m, g, _, _)) =
      combine_loop-DrawsBetween random 10 a b d (min (min i j) l) (max (max l j) i) w.draws r
        (lowest i j l) (omega (arith, hi, hj, hl)) (omega arith) in
    rw (p, q, s, combine_tiers, f)
      (place_new_item-IsSafe network_id id k t n c w (tier_of-lt random t g) v e all)

combine-IsSafe :
    (random : Random) (network_id id i j k : ℕ) (x y z : Item) (w : World)
    → InRange random
    → i < 16
    → j < 16
    → k < 16
    → IsFair x
    → IsFair y
    → IsFair z
    → AllValid w
    → IsSafe (combine random network_id id i j k (some x) (some y) (some z) w)
unfolding combine
combine-IsSafe random network_id id i j k x y z w r hi hj hk fx fy fz v =
    let v1 = empty_place-IsValid i (w.clients id) hi (v id) in
    let v2 = empty_place-IsValid j (empty_place i (w.clients id)) hj v1 in
    if-IsSafe _ _ _ (some-IsSafe _ (send_inventory-AllValid network_id id w v)) (
      combine_tiers-IsSafe random network_id id k _ x.type y.type z.type w r fx.listed fy.listed
        fz.listed (empty_place-IsValid k _ hk v2) (empty_place-IsEmptyAt k _ hk v2) v)

pub request_combination_item-IsSafe :
    (random : Random) (network_id id i j k : ℕ) (w : World)
    → InRange random
    → i < 16
    → j < 16
    → k < 16
    → AllValid w
    → IsSafe (request_combination_item random network_id id i j k w)
unfolding request_combination_item
request_combination_item-IsSafe random network_id id i j k w r hi hj hk v =
    with_room-IsSafe ((w.clients id).room) w _ v λ room.
      let (x, p) = get_item_total i (v id).inventory hi in
      let (y, q) = get_item_total j (v id).inventory hj in
      let (z, s) = get_item_total k (v id).inventory hk in
      rw (p, q, s)
        (combine-IsSafe random network_id id i j k x y z _ r hi hj hk ((v id).fair i x p)
          ((v id).fair j y q) ((v id).fair k z s)
          (if-AllValid _ w (send_inventory network_id id w) v
            (send_inventory-AllValid network_id id w v)))
