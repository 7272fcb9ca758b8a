-- ===== src/Client/Inventory/Swap.antt =====
-- `Client::SwapItem`: total on the sixteen places, its own inverse, and without loss.
use mathlib.Core.List.{Perm}
use isegye_idol_game_server.Common.{
  ℕ, ◌<◌, ◌≡◌, ◌≢◌, ap, sym, ◌∙◌, inl, inr, none, some, map, arith, set, Option-cases, set-set-perm,
  set-get_elem?, map-set, get_elem?-map,
}
use mathlib.Core.Option.{some_inj}
use native.Mathlib.Decide.{ℕ_discrete}
use isegye_idol_game_server.Types.{Item}
use isegye_idol_game_server.Client.{Client}
use isegye_idol_game_server.Client.Inventory.{get_item, put_item, swap_item}
use isegye_idol_game_server.Client.Inventory.Slots.{
  slots, IsInventory, get_item-slots, slots-put_item, put_item-IsInventory, get_item_total,
  get_item-put_item_self, get_item-put_item_ne, put_item-put_item, put_item-get_item, put_item_comm,
}

-- What `SwapItem` moves: the type and the upgrade.
abbrev pub kind : Item → ℕ × ℕ
kind x = (x.type, x.upgrade)

-- The item of a place with the kind of another.
abbrev with_kind : Item → Item → Item
with_kind x y = record x { type = y.type; upgrade = y.upgrade }

missing_first :
    (i j : ℕ) (c : Client) {c' : Client} → get_item i c ≡ none → ¬ (swap_item i j c ≡ some c')
unfolding swap_item
missing_first i j c p e = ground arith

missing_second :
    (i j : ℕ) (c : Client) {c' : Client} {x : Item}
    → get_item i c ≡ some x
    → get_item j c ≡ none
    → ¬ (swap_item i j c ≡ some c')
unfolding swap_item
missing_second i j c p q e = ground arith

-- A successful swap is two writes, whether or not the two places are one.
pub swap_item_lem :
    (i j : ℕ) (c : Client) {x y : Item}
    → get_item i c ≡ some x
    → get_item j c ≡ some y
    → swap_item i j c ≡ some (put_item i (with_kind x y) (put_item j (with_kind y x) c))
unfolding swap_item
swap_item_lem i j c {x} {y} p q = elim (ℕ_discrete i j) [
  | yes e ↦ ground (arith, get_item-put_item_self c j (with_kind y x) {y = y})
  | no n ↦ ground (arith, get_item-put_item_ne c j i (with_kind y x))
]

-- Any two of the sixteen places can be swapped.
pub swap_item_total :
    {c : Client} (i j : ℕ)
    → IsInventory c
    → i < 16
    → j < 16
    → (c' : Client) × (swap_item i j c ≡ some c') × IsInventory c'
swap_item_total {c} i j v hi hj =
    let (x, p) = get_item_total i v hi in
    let (y, q) = get_item_total j v hj in
    (
      put_item i (with_kind x y) (put_item j (with_kind y x) c),
      swap_item_lem i j c p q,
      put_item-IsInventory i _ (put_item-IsInventory j _ v),
    )

-- An inversion of `swap_item`.
pub swap_item-some :
    (i j : ℕ) (c : Client) {c' : Client}
    → swap_item i j c ≡ some c'
    → (x : Item) × (y : Item) × (get_item i c ≡ some x)
      × (get_item j c ≡ some y)
      × (c' ≡ put_item i (with_kind x y) (put_item j (with_kind y x) c))
swap_item-some i j c {c'} e = elim (Option-cases (get_item i c)) [
  | inl none_i ↦ absurd (missing_first i j c none_i e)
  | inr (x, p) ↦ elim (Option-cases (get_item j c)) [
    | inl none_j ↦ absurd (missing_second i j c p none_j e)
    | inr (y, q) ↦ (x, y, p, q, some_inj.0 (sym e ∙ swap_item_lem i j c p q))
  ]
]

undo_same :
    (i : ℕ) (c : Client) {x : Item} → get_item i c ≡ some x → put_item i x (put_item i x c) ≡ c
undo_same i c {x} p = rw (put_item-put_item c i x x) (put_item-get_item c i x p)

undo_other :
    (i j : ℕ) (c : Client) {x y : Item} (z w : Item)
    → i ≢ j
    → get_item i c ≡ some x
    → get_item j c ≡ some y
    → put_item i x (put_item j y (put_item i z (put_item j w c))) ≡ c
undo_other i j c {x} {y} z w n p q =
    rw
      (
        put_item_comm (put_item j w c) j i y z (λ e. n (sym e)),
        put_item-put_item c j y w,
        put_item-get_item c j y q,
        put_item-put_item c i x z,
      )
      (put_item-get_item c i x p)

-- Where a swap goes through, a second one undoes it.
pub swap_item-swap_item :
    (i j : ℕ) (c : Client) {c' : Client} → swap_item i j c ≡ some c' → swap_item i j c' ≡ some c
swap_item-swap_item i j c {c'} e =
    let (x, y, p, q, r) = swap_item-some i j c e in
    elim (ℕ_discrete i j) [
      | yes k ↦
          let same : x ≡ y = some_inj.0 (sym p ∙ ap (λ n. get_item n c) k ∙ q) in
          let whole : c' ≡ c = r ∙ rw (k, ← same) (undo_same j c (rw same q)) in
          rw whole (rw whole at e)
      | no n ↦
          let back =
            swap_item_lem i j c' {x = with_kind x y} {y = with_kind y x}
              (rw r (
                get_item-put_item_self _ i (with_kind x y)
                  (get_item-put_item_ne c j i (with_kind y x) (λ k. n (sym k)) ∙ p)))
              (rw r (
                get_item-put_item_ne (put_item j (with_kind y x) c) i j (with_kind x y) n
                ∙ get_item-put_item_self c j (with_kind y x) q)) in
          back ∙ ap some (rw r (undo_other i j c (with_kind x y) (with_kind y x) n p q))
    ]

-- A swap neither loses nor makes up an item: the sixteen kinds stay the same, up to their order.
pub swap_item-perm :
    {c : Client} (i j : ℕ) {c' : Client}
    → IsInventory c
    → swap_item i j c ≡ some c'
    → Perm (map kind (slots c')) (map kind (slots c)) × IsInventory c'
swap_item-perm {c} i j {c'} v e =
    let (x, y, p, q, r) = swap_item-some i j c e in
    let v' = put_item-IsInventory j (with_kind y x) v in
    (
      rw
          (
            r,
            slots-put_item i (with_kind x y) v',
            slots-put_item j (with_kind y x) v,
            map-set kind (set (slots c) j (with_kind y x)) i (with_kind x y),
            map-set kind (slots c) j (with_kind y x),
          )
          (set-set-perm (map kind (slots c)) i j (kind x) (kind y)
            (get_elem?-map kind (slots c) i (sym (get_item-slots i v) ∙ p))
            (get_elem?-map kind (slots c) j (sym (get_item-slots j v) ∙ q))),
      rw r (put_item-IsInventory i (with_kind x y) v'),
    )

-- The share of the order that a place has.
abbrev pub share : Item → ℕ
share x = x.active_percent

-- A swap leaves every place its share of the order of a battle.
pub swap_item-share :
    {c : Client} (i j : ℕ) {c' : Client}
    → IsInventory c
    → swap_item i j c ≡ some c'
    → map share (slots c') ≡ map share (slots c)
swap_item-share {c} i j {c'} v e =
    let (x, y, p, q, r) = swap_item-some i j c e in
    let v' = put_item-IsInventory j (with_kind y x) v in
    let at_i = get_elem?-map share (slots c) i (sym (get_item-slots i v) ∙ p) in
    let at_j = get_elem?-map share (slots c) j (sym (get_item-slots j v) ∙ q) in
    rw
      (
        r,
        slots-put_item i (with_kind x y) v',
        slots-put_item j (with_kind y x) v,
        map-set share (set (slots c) j (with_kind y x)) i (with_kind x y),
        map-set share (slots c) j (with_kind y x),
        set-get_elem? (map share (slots c)) j y.active_percent at_j,
      )
      (set-get_elem? (map share (slots c)) i x.active_percent at_i)
