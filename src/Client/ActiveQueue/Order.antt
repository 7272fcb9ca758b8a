-- ===== src/Client/ActiveQueue/Order.antt =====
-- `Client::GetItemActiveQueue` gives each of the six places its turn once.
use mathlib.Core.List.{Perm}
use mathlib.Core.List.Perm
use isegye_idol_game_server.Common.{
  ℕ, zero, suc, ◌+◌, ◌-◌, ◌<◌, ◌≡◌, refl, ap, sym, ◌∙◌, inl, inr, Bool, true, false, Option, some,
  List, [], ◌∷◌, map, arith, ltb, length, length-set, get_elem?, set, replicate, Bool-cases,
  get_elem?_total,
}
use isegye_idol_game_server.Types.{Item}
use isegye_idol_game_server.Client.{Client}
use isegye_idol_game_server.Client.Inventory.{SlotInfo}
use isegye_idol_game_server.Types.{Random, InRange}
use isegye_idol_game_server.Avatar.Setup.{identity_queue}
use isegye_idol_game_server.Client.ActiveQueue.{
  percent_sum, find_place, slot_info_at, queue_loop, get_item_active_queue,
}

-- The places from `j` on that are not in the queue yet.
abbrev places_left : List Bool → ℕ → List ℕ
places_left [] j = []
places_left (true ∷ bs) j = places_left bs (j + 1)
places_left (false ∷ bs) j = j ∷ places_left bs (j + 1)

-- Every place has a share of the order.
abbrev pub HasShares : List Item → Type 0
HasShares items = (j : ℕ) (i : Item) → get_elem? items j ≡ some i → 0 < i.active_percent

HasShares-tail : (i : Item) (items : List Item) → HasShares (i ∷ items) → HasShares items
HasShares-tail i items h j = h (suc j)

-- The search finds a place that is not in the queue yet.
abbrev Finds : List Bool → ℕ → Option ℕ → Type 0
Finds included j o =
    (k : ℕ) × (o ≡ some (j + k))
    × (k < length included)
    × (suc (length (places_left (set included k true) j)) ≡ length (places_left included j))
    × Perm ((j + k) ∷ places_left (set included k true) j) (places_left included j)

shift : (j k : ℕ) → j + suc k ≡ j + 1 + k
shift j k = omega arith

Finds-skip :
    (included : List Bool) (j : ℕ) (o : Option ℕ)
    → Finds included (j + 1) o
    → Finds (true ∷ included) j o
Finds-skip included j o (k, e, h, l, p) =
    (suc k, e ∙ ap some (sym (shift j k)), omega arith, l, rw (shift j k) p)

Finds-pass :
    (included : List Bool) (j : ℕ) (o : Option ℕ)
    → Finds included (j + 1) o
    → Finds (false ∷ included) j o
Finds-pass included j o (k, e, h, l, p) = (
  suc k,
  e ∙ ap some (sym (shift j k)),
  omega arith,
  ap suc l,
  rw (shift j k) (Perm.trans (Perm.swap j (j + 1 + k) _) (Perm.cons j p)),
)

passed :
    (rand percent rest : ℕ)
    → ltb rand percent ≡ false
    → rand < percent + rest
    → rand - percent < rest
passed rand percent rest e h = ground arith

find_place-Finds :
    (items : List Item) (included : List Bool) (rand j : ℕ)
    → length items ≡ length included
    → rand < percent_sum items included
    → Finds included j (find_place items included rand j)
unfolding find_place percent_sum
find_place-Finds [] included rand j l h = elim h [ ]
find_place-Finds (i ∷ items) [] rand j l h = elim h [ ]
find_place-Finds (i ∷ items) (true ∷ included) rand j l h =
    Finds-skip included j _
      (find_place-Finds items included rand (j + 1) (omega (arith, l)) (omega (arith, h)))
find_place-Finds (i ∷ items) (false ∷ included) rand j l h =
    elim (Bool-cases (ltb rand i.active_percent)) [
      | inl e ↦
          let zero_right : j + 0 ≡ j = omega arith in
          rw e (0, ap some (omega arith), omega arith, refl, rw zero_right (Perm.refl _))
      | inr e ↦ rw e (
          Finds-pass included j _ (
            find_place-Finds items included _ (j + 1) (omega (arith, l))
              (passed rand i.active_percent _ e h)))
    ]

-- While a place is left, the sum of the shares is above 0.
percent_sum_pos :
    (items : List Item) (included : List Bool) (j : ℕ)
    → HasShares items
    → length items ≡ length included
    → 0 < length (places_left included j)
    → 0 < percent_sum items included
unfolding percent_sum
percent_sum_pos items [] j s l h = elim h [ ]
percent_sum_pos [] (b ∷ included) j s l h = absurd (omega (arith, l))
percent_sum_pos (i ∷ items) (true ∷ included) j s l h =
    omega (
      arith,
      percent_sum_pos items included (j + 1) (HasShares-tail i items s) (omega (arith, l)) h,
    )
percent_sum_pos (i ∷ items) (false ∷ included) j s l h = omega (arith, s 0 i refl)

length-zero {ℓ} : {A : Type ℓ} (xs : List A) → 0 ≡ length xs → xs ≡ []
length-zero [] h = refl
length-zero (x ∷ xs) h = absurd (omega (arith, h))

-- The items of a queue are copies of those in their places.
abbrev pub AreCopies : List Item → List SlotInfo → Type 0
AreCopies items [] = Unit {0}
AreCopies items (s ∷ queue) = (get_elem? items s.index ≡ some s.item) × AreCopies items queue

queue_loop-perm :
    (random : Random) (draws n : ℕ) (items : List Item) (included : List Bool)
    → InRange random
    → HasShares items
    → length items ≡ length included
    → n ≡ length (places_left included 0)
    → let queue = queue_loop random draws n items included in
      Perm (map (λ (s : SlotInfo). s.index) queue) (places_left included 0)
      × AreCopies items queue
      × (length queue ≡ n)
unfolding queue_loop
queue_loop-perm random draws zero items included r s l e =
    rw (length-zero (places_left included 0) e) (Perm.refl [], tt, refl)
queue_loop-perm random draws (suc n) items included r s l e =
    let pos : 0 < percent_sum items included =
      percent_sum_pos items included 0 s l (omega (arith, e)) in
    let (k, f, h, m, p) =
      find_place-Finds items included (random draws 0 (percent_sum items included - 1)) 0 l
        (omega (arith, (r draws 0 (percent_sum items included - 1) (omega arith)).1)) in
    let left : 0 + k ≡ k = omega arith in
    let (item, g) = get_elem?_total items k (omega (arith, h, l)) in
    let (q, copies, whole) =
      queue_loop-perm random (draws + 1) n items (set included k true) r s
        (l ∙ sym (length-set included k true)) (omega (arith, m, e)) in
    rw (f ∙ ap some left, queue_loop, slot_info_at, g)
      (Perm.trans (Perm.cons k q) (rw left at p), (g, copies), ap suc whole)

-- The order of a battle holds each of the six places in use once, in some order, with a copy of its
-- item, whatever numbers the generator draws within its bounds, if each place has a share above 0.
pub get_item_active_queue-perm :
    (random : Random) (draws : ℕ) (c : Client)
    → InRange random
    → length c.using_items ≡ 6
    → HasShares c.using_items
    → let queue = get_item_active_queue random draws c in
      Perm (map (λ (s : SlotInfo). s.index) queue) identity_queue
      × AreCopies c.using_items queue
      × (length queue ≡ 6)
unfolding get_item_active_queue
get_item_active_queue-perm random draws c r l s =
    queue_loop-perm random draws 6 c.using_items (replicate 6 false) r s l refl
