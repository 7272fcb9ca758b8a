-- ===== src/Client/Inventory/Add.antt =====
-- `Client::AddItem` and `Client::FindEmptyItemSlotIndex`: the first empty place, store before use.
use isegye_idol_game_server.Common.{
  ℕ, zero, suc, ◌+◌, ◌-◌, ◌<◌, ◌≤◌, ◌≡◌, ◌≢◌, refl, sym, ◌∙◌, inl, inr, Option, none, some, false,
  ltb, lt→ltb, List, arith, get_elem?, set, Option-cases, ◌⊎◌, [], ◌∷◌, get_elem?-lt_length, ◌==◌,
  Bool-cases,
}
use native.Mathlib.Decide.{dec_lt}
use isegye_idol_game_server.Types.{Item}
use isegye_idol_game_server.Client.{Client}
use isegye_idol_game_server.Client.Inventory.{
  get_item, put_item, first_empty, set_type, add_item, find_empty_item_slot_index,
}
use isegye_idol_game_server.Client.Inventory.Slots.{IsInventory}

-- The outcome of the search from index `i`: the least empty place, or none is empty.
abbrev FirstEmpty : List Item → ℕ → Option ℕ → Type 0
FirstEmpty items i none = (k : ℕ) (x : Item) → get_elem? items k ≡ some x → x.type ≢ 0
FirstEmpty items i (some n) =
    (k : ℕ) × (n ≡ i + k)
    × ((x : Item) × (get_elem? items k ≡ some x) × (x.type ≡ 0))
    × ((m : ℕ) (y : Item) → m < k → get_elem? items m ≡ some y → y.type ≢ 0)

-- The order of the search: the store from 6 to 15, then the places in use from 0 to 5.
abbrev pub IsBefore : ℕ → ℕ → Type 0
IsBefore m k = ((6 ≤ m) × (k < 6)) ⊎ ((6 ≤ m) × (6 ≤ k) × (m < k)) ⊎ ((m < k) × (k < 6))

not_empty : (n : ℕ) → (n == 0) ≡ false → n ≢ 0
not_empty n e = ground arith

-- No place before `suc k` is empty, if the head is not and none before `k` of the rest.
not_empty-cons :
    (x : Item) (items : List Item) (m : ℕ) (y : Item)
    → x.type ≢ 0
    → ((k : ℕ) → suc k ≡ m → (z : Item) → get_elem? items k ≡ some z → z.type ≢ 0)
    → get_elem? (x ∷ items) m ≡ some y
    → y.type ≢ 0
not_empty-cons x items zero y n f p = ground arith
not_empty-cons x items (suc m) y n f p = f m refl y p

FirstEmpty-cons :
    (x : Item) (items : List Item) (i : ℕ) (o : Option ℕ)
    → x.type ≢ 0
    → FirstEmpty items (i + 1) o
    → FirstEmpty (x ∷ items) i o
FirstEmpty-cons x items i none n f = λ k y p. not_empty-cons x items k y n (λ j e z q. f j z q) p
FirstEmpty-cons x items i (some m) n (k, e, w, least) = (
  suc k,
  omega arith,
  w,
  λ j y h p. not_empty-cons x items j y n (λ l q z r. least l z (omega arith) r) p,
)

first_empty-FirstEmpty : (items : List Item) (i : ℕ) → FirstEmpty items i (first_empty items i)
unfolding first_empty
first_empty-FirstEmpty [] i = λ k x e. cc
first_empty-FirstEmpty (x ∷ items) i = elim (Bool-cases (x.type == 0)) [
  | inl e ↦ rw e (0, omega arith, (x, refl, ground arith), λ m y h. elim h [ ])
  | inr e ↦ rw e (
      FirstEmpty-cons x items i (first_empty items (i + 1)) (not_empty x.type e)
        (first_empty-FirstEmpty items (i + 1)))
]

-- The item of an empty place, with the new type.
abbrev of_type : ℕ → Item → Item
of_type type x = record x { type = type }

-- `AddItem`, on every branch: the place that it returns was empty and now holds the type, all else
-- is as before, and every place that comes before it in the order of the search is taken; or all
-- sixteen places are taken, it returns 16, and nothing changes.
abbrev pub Added : ℕ → Client → Client × ℕ → Type 0
Added type c (c', k) =
    ((x : Item) × (get_item k c ≡ some x)
      × (x.type ≡ 0)
      × (c' ≡ put_item k (of_type type x) c)
      × ((m : ℕ) (y : Item) → IsBefore m k → get_item m c ≡ some y → y.type ≢ 0))
    ⊎ ((k ≡ 16) × (c' ≡ c) × ((m : ℕ) (y : Item) → get_item m c ≡ some y → y.type ≢ 0))

in_store : (i : ℕ) → (ltb (i + 6) 6 ≡ false) × (i + 6 - 6 ≡ i)
in_store i = (ground arith, omega arith)

get_item_in_store : (c : Client) (i : ℕ) → get_item (i + 6) c ≡ get_elem? c.un_using_items i
unfolding get_item
get_item_in_store c i = rw ((in_store i).0, (in_store i).1)

put_item_in_store :
    (c : Client) (i : ℕ) (x : Item)
    → put_item (i + 6) x c ≡ record c { un_using_items = set c.un_using_items i x }
unfolding put_item
put_item_in_store c i x = rw ((in_store i).0, (in_store i).1)

get_item_in_use : (c : Client) (i : ℕ) → i < 6 → get_item i c ≡ get_elem? c.using_items i
unfolding get_item
get_item_in_use c i h = rw (lt→ltb i 6 h)

put_item_in_use :
    (c : Client) (i : ℕ) (x : Item)
    → i < 6
    → put_item i x c ≡ record c { using_items = set c.using_items i x }
unfolding put_item
put_item_in_use c i x h = rw (lt→ltb i 6 h)

-- A place of the store is read at its index less six.
get_item_past :
    (c : Client) (m : ℕ) (y : Item)
    → 6 ≤ m
    → get_item m c ≡ some y
    → get_elem? c.un_using_items (m - 6) ≡ some y
unfolding get_item
get_item_past c m y h p = ground arith

get_item_before :
    (c : Client) (m : ℕ) (y : Item)
    → m < 6
    → get_item m c ≡ some y
    → get_elem? c.using_items m ≡ some y
unfolding get_item
get_item_before c m y h p = ground arith

-- The search over a whole array.
abbrev Found : List Item → ℕ → Type 0
Found items k =
    ((x : Item) × (get_elem? items k ≡ some x) × (x.type ≡ 0))
    × ((m : ℕ) (y : Item) → m < k → get_elem? items m ≡ some y → y.type ≢ 0)

found : (items : List Item) (n : ℕ) → first_empty items 0 ≡ some n → Found items n
found items n e =
    let (k, p, w, least) = rw e at (first_empty-FirstEmpty items 0) in
    let q : k ≡ n = omega arith in rw (← q) (w, least)

not_found :
    (items : List Item)
    → first_empty items 0 ≡ none
    → (k : ℕ) (x : Item) → get_elem? items k ≡ some x
    → x.type ≢ 0
not_found items e = rw e at (first_empty-FirstEmpty items 0)

module _ (c : Client) where
  store_taken :
      first_empty c.un_using_items 0 ≡ none
      → (m : ℕ) (y : Item) → 6 ≤ m
      → get_item m c ≡ some y
      → y.type ≢ 0
  store_taken e m y h p = not_found c.un_using_items e (m - 6) y (get_item_past c m y h p)

  Added-in_store :
      (type i : ℕ)
      → first_empty c.un_using_items 0 ≡ some i
      → Added type c (record c { un_using_items = set_type c.un_using_items i type }, i + 6)
  Added-in_store type i e =
      let ((x, p, z), least) = found c.un_using_items i e in
      inl (
        x,
        get_item_in_store c i ∙ p,
        z,
        rw (p, set_type) (sym (put_item_in_store c i (of_type type x))),
        λ m y before q. least (m - 6) y (omega arith) (get_item_past c m y (omega arith) q),
      )

  Added-in_use :
      (type i : ℕ)
      → i < 6
      → first_empty c.un_using_items 0 ≡ none
      → first_empty c.using_items 0 ≡ some i
      → Added type c (record c { using_items = set_type c.using_items i type }, i)
  Added-in_use type i h e f =
      let ((x, p, z), least) = found c.using_items i f in
      inl (
        x,
        get_item_in_use c i h ∙ p,
        z,
        rw (p, set_type) (sym (put_item_in_use c i (of_type type x) h)),
        λ m y before q. elim before [
          | inl (a, _) ↦ store_taken e m y a q
          | inr (inl (a, b, _)) ↦ absurd (omega arith)
          | inr (inr (a, b)) ↦ least m y a (get_item_before c m y (omega arith) q)
        ],
      )

  all_taken :
      first_empty c.un_using_items 0 ≡ none
      → first_empty c.using_items 0 ≡ none
      → (m : ℕ) (y : Item) → get_item m c ≡ some y
      → y.type ≢ 0
  all_taken e f m y p = elim (dec_lt m 6) [
    | yes h ↦ not_found c.using_items f m y (get_item_before c m y h p)
    | no h ↦ store_taken e m y (omega arith) p
  ]

-- `AddItem` meets its specification on every inventory of six and ten places.
pub add_item-Added : {c : Client} (type : ℕ) → IsInventory c → Added type c (add_item type c)
unfolding add_item
add_item-Added {c} type v = elim (Option-cases (first_empty c.un_using_items 0)) [
  | inr (i, e) ↦ rw (e, add_item) (Added-in_store c type i e)
  | inl e ↦ elim (Option-cases (first_empty c.using_items 0)) [
    | inr (i, f) ↦
        let ((x, p, z), least) = found c.using_items i f in
        let h : i < 6 = omega (arith, get_elem?-lt_length c.using_items i p, v.six_in_use) in
        rw (e, f, add_item) (Added-in_use c type i h e f)
    | inl f ↦ rw (e, f, add_item) (inr (refl, refl, all_taken c e f))
  ]
]

-- The index that `FindEmptyItemSlotIndex` returns is the one that `AddItem` would fill.
pub find_empty_item_slot_index-add_item :
    (type : ℕ) (c : Client) → find_empty_item_slot_index c ≡ (add_item type c).1
unfolding add_item find_empty_item_slot_index
find_empty_item_slot_index-add_item type c = ground arith
