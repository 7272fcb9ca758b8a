-- ===== src/Client/Inventory/Valid.antt =====
-- The invariant of the items of Client.h: what stands in the sixteen places is in the table of the
-- items, and its upgrade is one that the macro `ITEM` knows.
use isegye_idol_game_server.Common.{
  ℕ, zero, suc, ◌<◌, ◌≡◌, refl, sym, ◌∙◌, ◌⊎◌, inl, inr, some, arith, get_elem?, get_elem?-set,
  length-map, List, all, all-get_elem?, Bool, true, not, ◌&&◌, ◌||◌, [], ◌∷◌, map, ltb, ◌-◌, ◌==◌,
  Bool-cases,
}
use mathlib.Core.Option.{some_inj}
use isegye_idol_game_server.Types.{Item, set_empty_item}
use isegye_idol_game_server.Client.{Client, init_client}
use isegye_idol_game_server.Client.Inventory.{get_item, put_item, swap_item, add_item}
use isegye_idol_game_server.Client.Inventory.Slots.{
  IsInventory, put_item-IsInventory, get_item_total,
}
use isegye_idol_game_server.Client.Inventory.Swap.{swap_item_lem}
use isegye_idol_game_server.Client.Inventory.Add.{Added, add_item-Added}

-- An item of the table, with an upgrade of 0, 1 or 2; an empty place has none.
pub record IsFair (x : Item) : Type 0 where
  pub listed : x.type < 46
  pub upgradable : x.upgrade < 3
  pub bare : x.type ≡ 0 → x.upgrade ≡ 0

pub record IsValid (c : Client) : Type 0 where
  pub inventory : IsInventory c
  pub fair : (m : ℕ) (x : Item) → get_item m c ≡ some x → IsFair x

-- Only the items count.
pub same_items-IsValid :
    (c d : Client)
    → d.using_items ≡ c.using_items
    → d.un_using_items ≡ c.un_using_items
    → IsValid c
    → IsValid d
unfolding get_item
same_items-IsValid c d p q v = record {
  inventory = record {
    six_in_use = rw p v.inventory.six_in_use;
    ten_in_store = rw q v.inventory.ten_in_store;
  };
  fair = λ m x e. v.fair m x (rw (p, q) at e);
}

get_item-put_item :
    (c : Client) (i m : ℕ) (x : Item) {y : Item}
    → get_item m (put_item i x c) ≡ some y
    → (y ≡ x) ⊎ (get_item m c ≡ some y)
unfolding get_item put_item
get_item-put_item c i m x {y} e = ground (
  arith,
  get_elem?-set c.using_items i m x {w = y},
  get_elem?-set c.un_using_items (i - 6) (m - 6) x {w = y},
)

pub put_item-IsValid :
    {c : Client} (i : ℕ) (x : Item) → IsFair x → IsValid c → IsValid (put_item i x c)
put_item-IsValid {c} i x f v = record {
  inventory = put_item-IsInventory i x v.inventory;
  fair = λ m y e. elim (get_item-put_item c i m x e) [ inl h ↦ rw h f | inr h ↦ v.fair m y h ];
}

pub set_empty_item-IsFair : (x : Item) → IsFair (set_empty_item x)
unfolding set_empty_item
set_empty_item-IsFair x = record {
  listed = omega arith;
  upgradable = omega arith;
  bare = λ _. refl;
}

pub swap_item-IsValid :
    {c : Client} (i j : ℕ)
    → IsValid c
    → i < 16
    → j < 16
    → (c' : Client) × (swap_item i j c ≡ some c') × IsValid c'
swap_item-IsValid {c} i j v hi hj =
    let (x, p) = get_item_total i v.inventory hi in
    let (y, q) = get_item_total j v.inventory hj in
    let fx = v.fair i x p in
    let fy = v.fair j y q in
    (
      _,
      swap_item_lem i j c p q,
      put_item-IsValid i _
          (record { listed = fy.listed; upgradable = fy.upgradable; bare = fy.bare })
          (put_item-IsValid j _
            (record { listed = fx.listed; upgradable = fx.upgradable; bare = fx.bare }) v),
    )

-- An item added starts without an upgrade.
Added-IsValid :
    {c : Client} (type : ℕ) (r : Client × ℕ) → type < 46 → IsValid c → Added type c r → IsValid r.0
Added-IsValid {c} type (c', k) h v (inl (x, p, z, e, least)) =
    let none_yet : x.upgrade ≡ 0 = (v.fair k x p).bare z in
    rw e (
      put_item-IsValid k _
        (record { listed = h; upgradable = omega (arith, none_yet); bare = λ _. none_yet }) v)
Added-IsValid {c} type (c', k) h v (inr (_, e, _)) = rw e v

pub add_item-IsValid : {c : Client} (type : ℕ) → type < 46 → IsValid c → IsValid (add_item type c).0
add_item-IsValid {c} type h v = Added-IsValid type _ h v (add_item-Added type v.inventory)

get_elem?-map_back :
    (f : Item → Item) (items : List Item) (i : ℕ) {y : Item}
    → get_elem? (map f items) i ≡ some y
    → (x : Item) × (y ≡ f x)
get_elem?-map_back f [] i e = cc
get_elem?-map_back f (x ∷ items) zero e = (x, sym (some_inj.0 e))
get_elem?-map_back f (x ∷ items) (suc i) e = get_elem?-map_back f items i e

-- An empty place of any slot.
abbrev pub IsVacant : Item → Type 0
IsVacant x = (x.type ≡ 0) × (x.upgrade ≡ 0)

emptied :
    (items : List Item) (i : ℕ) {y : Item}
    → get_elem? (map set_empty_item items) i ≡ some y
    → IsVacant y
unfolding set_empty_item
emptied items i e = let (x, p) = get_elem?-map_back set_empty_item items i e in rw p (refl, refl)

init_client-IsVacant :
    (c : Client) (m : ℕ) (x : Item) → get_item m (init_client c) ≡ some x → IsVacant x
unfolding get_item init_client
init_client-IsVacant c m x e = elim (Bool-cases (ltb m 6)) [
  | inl h ↦ emptied c.using_items m (rw h at e)
  | inr h ↦ emptied c.un_using_items (m - 6) (rw h at e)
]

init_client-IsInventory : (c : Client) → IsInventory c → IsInventory (init_client c)
unfolding init_client
init_client-IsInventory c v = record {
  six_in_use = length-map set_empty_item c.using_items ∙ v.six_in_use;
  ten_in_store = length-map set_empty_item c.un_using_items ∙ v.ten_in_store;
}

-- A client that is set back has a valid inventory, all of whose sixteen places are empty, whatever stood
-- in them.
pub init_client-IsValid :
    {c : Client}
    → IsInventory c
    → IsValid (init_client c)
      × ((m : ℕ) (x : Item) → get_item m (init_client c) ≡ some x → x.type ≡ 0)
init_client-IsValid {c} v = (
  record {
    inventory = init_client-IsInventory c v;
    fair = λ m x e.
        let (t, u) = init_client-IsVacant c m x e in
        record { listed = omega (arith, t); upgradable = omega (arith, u); bare = λ _. u };
  },
  λ m x e. (init_client-IsVacant c m x e).0,
)

-- The invariant as a test.
abbrev pub is_fair : Item → Bool
is_fair x = ltb x.type 46 && ltb x.upgrade 3 && (not (x.type == 0) || x.upgrade == 0)

is_fair-IsFair : (x : Item) → is_fair x ≡ true → IsFair x
is_fair-IsFair x h = ground arith

pub checked-IsValid :
    (c : Client)
    → IsInventory c
    → all is_fair c.using_items ≡ true
    → all is_fair c.un_using_items ≡ true
    → IsValid c
unfolding get_item
checked-IsValid c v p q = record {
  inventory = v;
  fair = λ m x e. elim (Bool-cases (ltb m 6)) [
    | inl h ↦ is_fair-IsFair x (all-get_elem? is_fair c.using_items m p (rw h at e))
    | inr h ↦ is_fair-IsFair x (all-get_elem? is_fair c.un_using_items (m - 6) q (rw h at e))
  ];
}
