-- ===== src/Client/Inventory/Slots.antt =====
-- The places of an inventory as one list: reads and writes through an index, of Client.h's `GetItem`.
use isegye_idol_game_server.Common.{
  ℕ, ◌+◌, ◌-◌, ◌<◌, ◌≡◌, ◌≢◌, ap, sym, ◌∙◌, inl, inr, false, some, List, ◌++◌, arith, ltb, length,
  get_elem?, set, Bool-cases, get_elem?-set_self, get_elem?-set_ne, set-set, set-get_elem?,
  set_comm, get_elem?_total, get_elem?-append_left, get_elem?-append_right, set-append_left,
  set-append_right, length-set, length-append, ltb→lt,
}
use isegye_idol_game_server.Types.{Item}
use isegye_idol_game_server.Client.{Client}
use isegye_idol_game_server.Client.Inventory.{get_item, put_item}

-- All sixteen places, the ones in use first.
abbrev pub slots : Client → List Item
slots c = c.using_items ++ c.un_using_items

-- The sizes of the two arrays.
pub record IsInventory (c : Client) : Type 0 where
  pub six_in_use : length c.using_items ≡ 6
  pub ten_in_store : length c.un_using_items ≡ 10

pub length-slots : {c : Client} → IsInventory c → length (slots c) ≡ 16
length-slots {c} v = omega (arith, v, length-append c.using_items c.un_using_items)

-- An index in the store goes past those in use.
past : (n i : ℕ) → ltb i 6 ≡ false → n ≡ 6 → n + (i - 6) ≡ i
past n i h e = ground arith

pub get_item-slots : {c : Client} (i : ℕ) → IsInventory c → get_item i c ≡ get_elem? (slots c) i
unfolding get_item
get_item-slots {c} i v = elim (Bool-cases (ltb i 6)) [
  | inl h ↦ rw h (
      sym (
        get_elem?-append_left c.using_items c.un_using_items i
          (omega (arith, ltb→lt i 6 h, v.six_in_use))))
  | inr h ↦ rw h (
      sym (get_elem?-append_right c.using_items c.un_using_items (i - 6))
      ∙ ap (get_elem? (slots c)) (past _ i h v.six_in_use))
]

pub slots-put_item :
    {c : Client} (i : ℕ) (x : Item) → IsInventory c → slots (put_item i x c) ≡ set (slots c) i x
unfolding put_item
slots-put_item {c} i x v = elim (Bool-cases (ltb i 6)) [
  | inl h ↦ rw h (
      sym (
        set-append_left c.using_items c.un_using_items i x
          (omega (arith, ltb→lt i 6 h, v.six_in_use))))
  | inr h ↦ rw h (
      sym (set-append_right c.using_items c.un_using_items (i - 6) x)
      ∙ ap (λ k. set (slots c) k x) (past _ i h v.six_in_use))
]

pub put_item-IsInventory :
    {c : Client} (i : ℕ) (x : Item) → IsInventory c → IsInventory (put_item i x c)
unfolding put_item
put_item-IsInventory {c} i x v =
    ground (arith, length-set c.using_items i x, length-set c.un_using_items (i - 6) x)

pub get_item_total :
    {c : Client} (i : ℕ) → IsInventory c → i < 16 → (x : Item) × (get_item i c ≡ some x)
get_item_total {c} i v h =
    let (x, e) = get_elem?_total (slots c) i (omega (arith, length-slots v)) in
    (x, get_item-slots i v ∙ e)

-- The five laws of reads and writes.
pub get_item-put_item_self :
    (c : Client) (i : ℕ) (x : Item) {y : Item}
    → get_item i c ≡ some y
    → get_item i (put_item i x c) ≡ some x
unfolding get_item put_item
get_item-put_item_self c i x {y} h = ground (
  arith,
  get_elem?-set_self c.using_items i x {w = y},
  get_elem?-set_self c.un_using_items (i - 6) x {w = y},
)

apart : (i j : ℕ) → i ≢ j → ltb i 6 ≡ false → ltb j 6 ≡ false → i - 6 ≢ j - 6
apart i j h p q = ground arith

pub get_item-put_item_ne :
    (c : Client) (i j : ℕ) (x : Item) → i ≢ j → get_item j (put_item i x c) ≡ get_item j c
unfolding get_item put_item
get_item-put_item_ne c i j x h = ground (
  arith,
  get_elem?-set_ne c.using_items i j x h,
  get_elem?-set_ne c.un_using_items (i - 6) (j - 6) x,
  apart i j h,
)

pub put_item-put_item :
    (c : Client) (i : ℕ) (x y : Item) → put_item i x (put_item i y c) ≡ put_item i x c
unfolding put_item
put_item-put_item c i x y =
    ground (arith, set-set c.using_items i x y, set-set c.un_using_items (i - 6) x y)

pub put_item-get_item : (c : Client) (i : ℕ) (x : Item) → get_item i c ≡ some x → put_item i x c ≡ c
unfolding get_item put_item
put_item-get_item c i x h =
    ground (arith, set-get_elem? c.using_items i x, set-get_elem? c.un_using_items (i - 6) x)

pub put_item_comm :
    (c : Client) (i j : ℕ) (x y : Item)
    → i ≢ j
    → put_item i x (put_item j y c) ≡ put_item j y (put_item i x c)
unfolding put_item
put_item_comm c i j x y h = ground (
  arith,
  set_comm c.using_items i j x y h,
  set_comm c.un_using_items (i - 6) (j - 6) x y,
  apart i j h,
)
