-- ===== src/Client/Inventory/Default.antt =====
-- `Client::TrySetDefaultUsingItem`: always ends, only moves items, and says whether it moved any.
use mathlib.Core.List.{Perm}
use mathlib.Core.List.Perm
use mathlib.Core.Bool.{false≢true}
use isegye_idol_game_server.Common.{
  ℕ, zero, suc, ◌+◌, ◌<◌, ◌≤◌, ◌≡◌, refl, ap, ◌∙◌, inl, inr, Option, some, false, true, Bool, List,
  map, arith, length, [], ◌∷◌, ◌==◌, Bool-cases, ltb, get_elem?, List-cases, ◌⊎◌,
}
use isegye_idol_game_server.Types.{Item}
use isegye_idol_game_server.Client.{Client}
use isegye_idol_game_server.Client.Inventory.{
  SlotInfo, valid_items, is_using, is_empty, default_loop, get_valid_using_items,
  get_valid_un_using_items, try_set_default_using_item,
}
use isegye_idol_game_server.Client.Inventory.Slots.{slots, IsInventory}
use isegye_idol_game_server.Client.Inventory.Swap.{kind, swap_item_total, swap_item-perm}

abbrev AllBelow : ℕ → List SlotInfo → Type 0
AllBelow n [] = Unit {0}
AllBelow n (s ∷ ss) = (s.index < n) × AllBelow n ss

valid_items-AllBelow :
    (items : List Item) (i n : ℕ) → i + length items ≤ n → AllBelow n (valid_items items i)
unfolding valid_items
valid_items-AllBelow [] i n h = tt
valid_items-AllBelow (x ∷ items) i n h =
    ground (arith, valid_items-AllBelow items (i + 1) n (omega arith))

-- The sixteen kinds of items are the same, up to their order.
abbrev pub SameKinds : Client → Client → Type 0
SameKinds c c' = Perm (map kind (slots c')) (map kind (slots c))

-- The loop from any of its states ends well, moves items only, and does not take back its flag.
abbrev Ends : Client → Bool → Option (Client × Bool) → Type 0
Ends c flag r =
    (c' : Client) × (flag' : Bool) × (r ≡ some (c', flag'))
    × IsInventory c'
    × SameKinds c c'
    × (flag ≡ true → flag' ≡ true)

swapped :
    (c c₁ : Client) (flag : Bool) (r : Option (Client × Bool))
    → SameKinds c c₁
    → Ends c₁ true r
    → Ends c flag r
swapped c c₁ flag r p (c', flag', e, v, q, keep) = (c', flag', e, v, Perm.trans q p, λ _. keep refl)

below_six : (n k : ℕ) → n ≡ k → n < 6 → (suc k == 6) ≡ false → n + 1 < 6
below_six n k e h more = ground arith

default_loop-Ends :
    (ss : List SlotInfo) (slot1 : ℕ) (types : List ℕ) (c : Client) (flag : Bool)
    → IsInventory c
    → AllBelow 16 ss
    → slot1 ≡ length types
    → slot1 < 6
    → Ends c flag (default_loop ss slot1 types c flag)
unfolding default_loop
default_loop-Ends [] slot1 types c flag v b e h = (c, flag, refl, v, Perm.refl _, λ f. f)
default_loop-Ends (s ∷ ss) slot1 types c flag v b e h =
    elim (Bool-cases (is_using s.item.type types)) [
      | inl old ↦ rw (old, default_loop) (default_loop-Ends ss slot1 types c flag v b.1 e h)
      | inr new ↦
          let (c₁, q, v₁) = swap_item_total slot1 s.index v (omega arith) b.0 in
          let moved = (swap_item-perm slot1 s.index v q).0 in
          elim (Bool-cases (length (s.item.type ∷ types) == 6)) [
            | inl full ↦ rw (new, q, full, default_loop) (c₁, true, refl, v₁, moved, λ _. refl)
            | inr more ↦
                rw (new, q, more, default_loop)
                  (swapped c c₁ flag _ moved (
                    default_loop-Ends ss (slot1 + 1) (s.item.type ∷ types) c₁ true v₁ b.1
                      (omega arith) (below_six slot1 (length types) e h more)))
          ]
    ]

-- A list of places that holds no item.
abbrev pub NoItems : List Item → Type 0
NoItems items = (k : ℕ) (x : Item) → get_elem? items k ≡ some x → x.type ≡ 0

NoItems-cons : (x : Item) (items : List Item) → x.type ≡ 0 → NoItems items → NoItems (x ∷ items)
NoItems-cons x items e f zero y p = ground arith
NoItems-cons x items e f (suc k) y p = f k y p

valid_items-empty :
    (items : List Item) (i : ℕ) → is_empty (valid_items items i) ≡ true → NoItems items
unfolding valid_items
valid_items-empty [] i e = λ k x p. cc
valid_items-empty (x ∷ items) i e = elim (Bool-cases (ltb 0 x.type)) [
  | inl some_item ↦ absurd (false≢true (rw some_item at e))
  | inr no_item ↦
      NoItems-cons x items (ground arith) (valid_items-empty items (i + 1) (rw no_item at e))
]

valid_items-nonempty :
    (items : List Item) (i : ℕ) → is_empty (valid_items items i) ≡ false → ¬ NoItems items
unfolding valid_items
valid_items-nonempty [] i e f = cc
valid_items-nonempty (x ∷ items) i e f = elim (Bool-cases (ltb 0 x.type)) [
  | inl some_item ↦ absurd (ground (arith, f 0 x refl))
  | inr no_item ↦ valid_items-nonempty items (i + 1) (rw no_item at e) (λ k y p. f (suc k) y p)
]

-- The outcome of `TrySetDefaultUsingItem`, by the flag that it returns.
abbrev pub Defaulted : Client → Client → Bool → Type 0
Defaulted c c' true = NoItems c.using_items × ¬ NoItems c.un_using_items
Defaulted c c' false = (c' ≡ c) × (NoItems c.un_using_items ⊎ ¬ NoItems c.using_items)

filled :
    (c : Client) (s : SlotInfo) (ss : List SlotInfo)
    → IsInventory c
    → AllBelow 16 (s ∷ ss)
    → (c' : Client) × (default_loop (s ∷ ss) 0 [] c false ≡ some (c', true))
      × IsInventory c'
      × SameKinds c c'
unfolding default_loop is_using
filled c s ss v b =
    let (c₁, q, v₁) = swap_item_total 0 s.index v (omega arith) b.0 in
    let moved = (swap_item-perm 0 s.index v q).0 in
    let (c', flag', e, v', same, keep) =
      default_loop-Ends ss 1 (s.item.type ∷ []) c₁ true v₁ b.1 refl (omega arith) in
    (
      c',
      rw (q, default_loop) (e ∙ ap (λ (f : Bool). some (c', f)) (keep refl)),
      v',
      Perm.trans same moved,
    )

-- On an inventory of six and ten places `TrySetDefaultUsingItem` ends, it only moves items about, it
-- returns true just when the places in use hold no item and the store holds one, and where it
-- returns false it changes nothing.
pub try_set_default_using_item-Defaulted :
    {c : Client}
    → IsInventory c
    → (c' : Client) × (flag : Bool) × (try_set_default_using_item c ≡ some (c', flag))
      × IsInventory c'
      × SameKinds c c'
      × Defaulted c c' flag
unfolding try_set_default_using_item get_valid_using_items get_valid_un_using_items
try_set_default_using_item-Defaulted {c} v = elim (List-cases (valid_items c.un_using_items 6)) [
  | inl e ↦
      rw (e, try_set_default_using_item)
        (c, false, refl, v, Perm.refl _, (refl, inl (valid_items-empty c.un_using_items 6 (rw e))))
  | inr (s, ss, e) ↦ elim (Bool-cases (is_empty (valid_items c.using_items 0))) [
    | inr busy ↦
        rw (e, busy, try_set_default_using_item)
          (c, false, refl, v, Perm.refl _, (refl, inr (valid_items-nonempty c.using_items 0 busy)))
    | inl idle ↦
        let below = rw e at (valid_items-AllBelow c.un_using_items 6 16 (omega (arith, v))) in
        let (c', q, v', same) = filled c s ss v below in
        rw (e, idle, try_set_default_using_item)
          (
            c',
            true,
            q,
            v',
            same,
            (
              valid_items-empty c.using_items 0 idle,
              valid_items-nonempty c.un_using_items 6 (rw e),
            ),
          )
  ]
]
