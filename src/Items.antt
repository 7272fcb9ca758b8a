-- ===== src/Items.antt =====
-- Server/Server/Items.h and ItemBase.h: the table `sItems` of all items, the tiers, and what an avatar
-- does with its items (BattleAvatar.cpp).
pub mod Opening
pub mod Trading
pub mod Turning
pub mod Closing
pub mod Creeps
pub mod Fitment
pub mod Active
pub mod Tiers
pub mod Fitted
pub mod Battle
use isegye_idol_game_server.Common.{
  ℕ, zero, suc, ◌+◌, ◌<◌, Bool, false, Option, none, some, List, [], ◌∷◌, get_elem?, ◌&&◌, ltb,
  ◌==◌, if◌then◌else◌, min, ◌*◌,
}
use isegye_idol_game_server.Types.{
  ItemTierType, one, two, three, four, five, ItemType, attack, defense, effect, heal, empty, Item,
}
use isegye_idol_game_server.World.{Random}
use isegye_idol_game_server.Avatar.{BattleAvatar, to_heal}
use isegye_idol_game_server.Duel.{Duel, Step, go_wrong}
use isegye_idol_game_server.Items.Opening.{
  item_empty, item001, item002, item003, item004, item005, item006, item007, item008, item009,
}
use isegye_idol_game_server.Items.Trading.{
  item010, item011, item012, item013, item014, item015, item016, item017, item018, item019,
}
use isegye_idol_game_server.Items.Turning.{
  item020, item021, item022, item023, item024, item025, item026, item027, item028, item029,
}
use isegye_idol_game_server.Items.Closing.{
  item030, item031, item032, item033, item034, item035, item036, item037,
}
use isegye_idol_game_server.Items.Creeps.{
  item038, item039, item040, item041, item042, item043, item044, item045,
}
use isegye_idol_game_server.Items.Fitment.{
  Passive, no_fitment, item006_fitment, item007_fitment, item015_fitment, item016_fitment,
  item023_fitment, item027_fitment, item030_fitment, item032_fitment, item036_fitment,
  item037_fitment,
}

-- `class ItemBase` with its two virtual methods
pub record ItemBase : Type 0 where
  pub code : ℕ
  pub tier_type : ItemTierType
  pub type : ItemType
  pub active : ℕ → Step
  pub fitment_effect : Passive

abbrev item : ℕ → ItemTierType → ItemType → (ℕ → Step) → Passive → ItemBase
item code tier_type type active fitment_effect = record {
  code = code;
  tier_type = tier_type;
  type = type;
  active = active;
  fitment_effect = fitment_effect;
}

-- `sItems`
unfoldable pub s_items : Random → List ItemBase
s_items random =
    item 0 one empty item_empty no_fitment
    ∷ item 1 one attack item001 no_fitment
    ∷ item 2 one defense item002 no_fitment
    ∷ item 3 one effect item003 no_fitment
    ∷ item 4 one attack item004 no_fitment
    ∷ item 5 four attack item005 no_fitment
    ∷ item 6 three heal item006 item006_fitment
    ∷ item 7 two effect item007 item007_fitment
    ∷ item 8 one effect item008 no_fitment
    ∷ item 9 two defense item009 no_fitment
    ∷ item 10 two defense item010 no_fitment
    ∷ item 11 three effect item011 no_fitment
    ∷ item 12 two heal item012 no_fitment
    ∷ item 13 four attack item013 no_fitment
    ∷ item 14 two defense item014 no_fitment
    ∷ item 15 five attack item015 item015_fitment
    ∷ item 16 two effect item016 item016_fitment
    ∷ item 17 four effect item017 no_fitment
    ∷ item 18 four attack item018 no_fitment
    ∷ item 19 two attack item019 no_fitment
    ∷ item 20 two effect item020 no_fitment
    ∷ item 21 two attack (item021 random) no_fitment
    ∷ item 22 two attack item022 no_fitment
    ∷ item 23 three effect item023 item023_fitment
    ∷ item 24 three attack item024 no_fitment
    ∷ item 25 four effect item025 no_fitment
    ∷ item 26 two attack item026 no_fitment
    ∷ item 27 five defense item027 item027_fitment
    ∷ item 28 three attack item028 no_fitment
    ∷ item 29 three effect (item029 random) no_fitment
    ∷ item 30 two defense item030 item030_fitment
    ∷ item 31 two attack item031 no_fitment
    ∷ item 32 five heal item032 item032_fitment
    ∷ item 33 one heal item033 no_fitment
    ∷ item 34 three effect item034 no_fitment
    ∷ item 35 three defense item035 no_fitment
    ∷ item 36 three defense item036 item036_fitment
    ∷ item 37 two effect item037 item037_fitment
    ∷ item 38 one attack item038 no_fitment
    ∷ item 39 one attack item039 no_fitment
    ∷ item 40 one attack item040 no_fitment
    ∷ item 41 two attack item041 no_fitment
    ∷ item 42 two attack item042 no_fitment
    ∷ item 43 two defense item043 no_fitment
    ∷ item 44 two attack item044 no_fitment
    ∷ item 45 two attack item045 no_fitment
    ∷ []

active_of : Option ItemBase → ℕ → Step
active_of none upgrade = go_wrong
active_of (some base) upgrade = base.active upgrade

-- `sItems[type]->Active(me, enemy, upgrade)`
unfoldable pub active : Random → ℕ → ℕ → Step
unfolding s_items active_of
active random type upgrade = active_of (get_elem? (s_items random) type) upgrade

-- The second half of `ActiveItem`: the owner heals with every item that it used.
unfoldable pub effect_heals : Step
effect_heals d =
    if d.me.is_effect_heal && ltb 0 d.me.hp
    then record d { me = to_heal d.me.effect_heal d.me }
    else d

unfoldable pub count_item : BattleAvatar → BattleAvatar
count_item a = record a { effect_item_count = a.effect_item_count + 1 }

unfoldable pub use_item : Random → Option Item → Step
unfolding active effect_heals count_item
use_item random none d = go_wrong d
use_item random (some i) d =
    effect_heals (active random i.type i.upgrade (record d { me = count_item d.me }))

unfoldable pub item_at : BattleAvatar → Option ℕ → Option Item
item_at a none = none
item_at a (some slot) = get_elem? a.using_item slot

-- `BattleAvatar::ActiveItem(index, enemy)`; the slot that it returns is `active_queue[index]`.
unfoldable pub active_item : Random → ℕ → Step
unfolding use_item item_at
active_item random index d = use_item random (item_at d.me (get_elem? d.me.active_queue index)) d

unfoldable pub fitment_of : Option ItemBase → ℕ → BattleAvatar → Option BattleAvatar
fitment_of none upgrade a = none
fitment_of (some base) upgrade a = some (base.fitment_effect upgrade a)

unfoldable pub fitment_loop : List ItemBase → List Item → BattleAvatar → Option BattleAvatar
unfolding fitment_of
fitment_loop table [] a = some a
fitment_loop table (i ∷ items) a = elim (fitment_of (get_elem? table i.type) i.upgrade a) [
  | none ↦ none
  | some b ↦ fitment_loop table items b
]

-- `BattleAvatar::FitmentEffect`; `none` is a read past the table.
unfoldable pub fitment_effect : Random → BattleAvatar → Option BattleAvatar
unfolding fitment_loop s_items
fitment_effect random a = fitment_loop (s_items random) a.using_item a

tier_number : ItemTierType → ℕ
tier_number one = 0
tier_number two = 1
tier_number three = 2
tier_number four = 3
tier_number five = 4

unfoldable pub damage_of : Option ItemBase → Option ℕ
unfolding tier_number
damage_of none = none
damage_of (some base) = some (tier_number base.tier_type + 1)

abbrev add_damage : Option ℕ → Option ℕ → Option ℕ
add_damage none o = none
add_damage (some m) none = none
add_damage (some m) (some n) = some (m + n)

unfoldable pub damage_sum : List ItemBase → List Item → Option ℕ
unfolding damage_of
damage_sum table [] = some 0
damage_sum table (i ∷ items) =
    add_damage (if i.type == 0 then some 0 else damage_of (get_elem? table i.type))
      (damage_sum table items)

-- `BattleAvatar::GetDamage`: a point for each item and one for each tier above the first; `none` is a
-- read past the table.
unfoldable pub get_damage : Random → BattleAvatar → Option ℕ
unfolding damage_sum s_items
get_damage random a = damage_sum (s_items random) a.using_item
