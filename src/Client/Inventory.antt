-- ===== src/Client/Inventory.antt =====
-- Client.h and Client.cpp: the sixteen places of a player's items, six in use and ten in store.
-- An index past the sixteenth is out of the bounds of the source's arrays: it is `none` here.
pub mod Slots
pub mod Swap
pub mod Add
pub mod Default
pub mod Valid
use isegye_idol_game_server.Common.{
  ℕ, ◌+◌, ◌-◌, Bool, true, false, ◌||◌, Option, none, some, List, [], ◌∷◌, ltb, ◌==◌, if◌then◌else◌,
  get_elem?, set, length, ◌>>=◌,
}
use isegye_idol_game_server.Types.{Item, empty_item, max_using_item_count, max_un_using_item_count}
use isegye_idol_game_server.Client.{Client}

-- `Client::GetItem`
unfoldable pub get_item : ℕ → Client → Option Item
get_item index c =
    if ltb index max_using_item_count
    then get_elem? c.using_items index
    else get_elem? c.un_using_items (index - max_using_item_count)

-- A write through the reference that `GetItem` returns.
unfoldable pub put_item : ℕ → Item → Client → Client
put_item index item c =
    if ltb index max_using_item_count
    then record c { using_items = set c.using_items index item }
    else record c { un_using_items = set c.un_using_items (index - max_using_item_count) item }

-- `Client::SwapItem`: the type and the upgrade change places, the slot and the percentage stay. The
-- first item is read again before it is written, since both may be one.
unfoldable pub swap_item : ℕ → ℕ → Client → Option Client
unfolding get_item put_item
swap_item index1 index2 c = do
  item1 ← get_item index1 c
  item2 ← get_item index2 c
  let c' = put_item index2 (record item2 { type = item1.type; upgrade = item1.upgrade }) c
  item1' ← get_item index1 c'
  some (put_item index1 (record item1' { type = item2.type; upgrade = item2.upgrade }) c')

-- The loop that looks for an empty place, from index `i` on.
unfoldable pub first_empty : List Item → ℕ → Option ℕ
first_empty [] i = none
first_empty (item ∷ items) i =
    let rest = first_empty items (i + 1) in if item.type == empty_item then some i else rest

abbrev set_type : List Item → ℕ → ℕ → List Item
set_type items i type = elim (get_elem? items i) [
  | none ↦ items
  | some item ↦ set items i (record item { type = type })
]

-- `Client::AddItem`: the first empty place in store, then the first in use; 16 if there is none.
unfoldable pub add_item : ℕ → Client → Client × ℕ
unfolding first_empty
add_item type c = elim (first_empty c.un_using_items 0) [
  | some i ↦
      (record c { un_using_items = set_type c.un_using_items i type }, i + max_using_item_count)
  | none ↦ elim (first_empty c.using_items 0) [
    | some i ↦ (record c { using_items = set_type c.using_items i type }, i)
    | none ↦ (c, max_un_using_item_count + max_using_item_count)
  ]
]

-- `Client::FindEmptyItemSlotIndex`
unfoldable pub find_empty_item_slot_index : Client → ℕ
unfolding first_empty
find_empty_item_slot_index c = elim (first_empty c.un_using_items 0) [
  | some i ↦ i + max_using_item_count
  | none ↦ elim (first_empty c.using_items 0) [
    | some i ↦ i
    | none ↦ max_un_using_item_count + max_using_item_count
  ]
]

-- `SlotInfo`: a place and a copy of its item.
pub record SlotInfo : Type 0 where
  pub index : ℕ
  pub item : Item

-- The places from `i` on that are not empty.
unfoldable pub valid_items : List Item → ℕ → List SlotInfo
valid_items [] i = []
valid_items (item ∷ items) i =
    let rest = valid_items items (i + 1) in
    if ltb empty_item item.type then record { index = i; item = item } ∷ rest else rest

-- `Client::GetValidUsingItems` and `Client::GetValidUnUsingItems`
unfoldable pub get_valid_using_items : Client → List SlotInfo
unfolding valid_items
get_valid_using_items c = valid_items c.using_items 0

unfoldable pub get_valid_un_using_items : Client → List SlotInfo
unfolding valid_items
get_valid_un_using_items c = valid_items c.un_using_items max_using_item_count

-- The inner loop of `TrySetDefaultUsingItem`: is the type among those already put in use?
unfoldable pub is_using : ℕ → List ℕ → Bool
is_using type [] = false
is_using type (t ∷ ts) = t == type || is_using type ts

-- Its outer loop over the copies of the items in store; `slot1` is the next place in use, `types` the
-- types put there, and the flag what the function returns.
unfoldable pub default_loop : List SlotInfo → ℕ → List ℕ → Client → Bool → Option (Client × Bool)
unfolding is_using swap_item
default_loop [] slot1 types c flag = some (c, flag)
default_loop (s ∷ ss) slot1 types c flag = elim (is_using s.item.type types) [
  | true ↦ default_loop ss slot1 types c flag
  | false ↦ elim (swap_item slot1 s.index c) [
    | none ↦ none
    | some c' ↦ elim (length (s.item.type ∷ types) == max_using_item_count) [
      | true ↦ some (c', true)
      | false ↦ default_loop ss (slot1 + 1) (s.item.type ∷ types) c' true
    ]
  ]
]

abbrev is_empty {ℓ} : {A : Type ℓ} → List A → Bool
is_empty [] = true
is_empty (x ∷ xs) = false

-- `Client::TrySetDefaultUsingItem`
unfoldable pub try_set_default_using_item : Client → Option (Client × Bool)
unfolding get_valid_using_items get_valid_un_using_items default_loop
try_set_default_using_item c =
    let valid = get_valid_un_using_items c in
    let filled = default_loop valid 0 [] c false in
    if is_empty valid
    then some (c, false)
    else (if is_empty (get_valid_using_items c) then filled else some (c, false))

-- `Client::SetItem`; the test lets the index 16 through, which is out of bounds.
unfoldable pub set_item : ℕ → ℕ → Client → Option Client
unfolding get_item put_item
set_item index type c =
    if ltb (max_using_item_count + max_un_using_item_count) index
    then some c
    else elim (get_item index c) [
      | none ↦ none
      | some item ↦ some (put_item index (record item { type = type }) c)
    ]
