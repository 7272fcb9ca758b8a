-- ===== src/Stage/Listed.antt =====
-- BattleAvatar.cpp: `GetDamage` of an avatar whose items are of the table.
use isegye_idol_game_server.Common.{
  ℕ, zero, suc, List, [], ◌∷◌, length, ◌==◌, ◌<◌, ◌≡◌, ◌+◌, refl, false, some, arith, get_elem?,
  Bool-cases, inl, inr,
}
use isegye_idol_game_server.Types.{Random, Item}
use isegye_idol_game_server.Avatar.{BattleAvatar}
use isegye_idol_game_server.Items.{ItemBase, s_items, get_damage, damage_of, damage_sum}
use isegye_idol_game_server.Items.Fitted.{AreListed, length-s_items}
use isegye_idol_game_server.Stage.Bout.{unlisted}

damage_of_total :
    (table : List ItemBase) (n : ℕ)
    → n < length table
    → (d : ℕ) × (damage_of (get_elem? table n) ≡ some d)
unfolding damage_of
damage_of_total [] n h = elim h [ ]
damage_of_total (x ∷ table) zero h = (_, refl)
damage_of_total (x ∷ table) (suc n) h = damage_of_total table n (omega arith)

damage_sum_total :
    (table : List ItemBase) (items : List Item)
    → length table ≡ 46
    → AreListed items
    → (d : ℕ) × (damage_sum table items ≡ some d)
unfolding damage_sum
damage_sum_total table [] l h = (0, refl)
damage_sum_total table (i ∷ items) l h =
    let (m, e) = damage_sum_total table items l (λ n. h (suc n)) in
    let (d, p) = damage_of_total table i.type (omega (arith, l, h 0 i refl)) in
    elim (Bool-cases (i.type == 0)) [
      | inl z ↦ (0 + m, rw (damage_sum, z, e) refl)
      | inr z ↦ (d + m, rw (damage_sum, z, p, e) refl)
    ]

get_damage_total :
    (random : Random) (a : BattleAvatar)
    → AreListed a.using_item
    → (d : ℕ) × (get_damage random a ≡ some d)
unfolding get_damage
get_damage_total random a h =
    damage_sum_total (s_items random) a.using_item (length-s_items random) h

-- Where the items of both are of the table, `GetDamage` stays within it.
pub listed-unlisted :
    (random : Random) (a b : BattleAvatar)
    → AreListed a.using_item
    → AreListed b.using_item
    → unlisted random a b ≡ false
unfolding unlisted
listed-unlisted random a b h k =
    rw ((get_damage_total random a h).1, (get_damage_total random b k).1) refl
