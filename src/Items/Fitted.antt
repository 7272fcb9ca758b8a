-- ===== src/Items/Fitted.antt =====
-- BattleAvatar.cpp's `FitmentEffect`: an avatar that puts its items on.
use isegye_idol_game_server.Common.{
  ℕ, zero, suc, ◌≤◌, ◌<◌, ◌≡◌, ◌∙◌, refl, some, List, [], ◌∷◌, get_elem?, length, arith,
}
use isegye_idol_game_server.Types.{Item}
use isegye_idol_game_server.World.{Random}
use isegye_idol_game_server.Avatar.{BattleAvatar, set_max_hp, to_defensive, set_first_attack_state}
use isegye_idol_game_server.Avatar.Sound.{IsSound}
use isegye_idol_game_server.Items.{ItemBase, s_items, fitment_effect, fitment_loop, fitment_of}
use isegye_idol_game_server.Items.Fitment.{
  Passive, no_fitment, item006_fitment, item007_fitment, item015_fitment, item016_fitment,
  item023_fitment, item027_fitment, item030_fitment, item032_fitment, item036_fitment,
  item037_fitment,
}

-- What putting an item on leaves alone: the avatar stays whole and is no weaker.
pub record Fitted (a b : BattleAvatar) : Type 0 where
  pub sound : IsSound a → IsSound b
  pub whole : a.hp ≡ a.max_hp → b.hp ≡ b.max_hp
  pub no_weaker : a.max_hp ≤ b.max_hp
  pub same_client : b.client ≡ a.client
  pub same_network_id : b.network_id ≡ a.network_id
  pub same_using_item : b.using_item ≡ a.using_item
  pub same_active_queue : b.active_queue ≡ a.active_queue
  pub same_is_finish : b.is_finish ≡ a.is_finish

abbrev Fits : Passive → Type 0
Fits f = (u : ℕ) (a : BattleAvatar) → Fitted a (f u a)

set_max_hp-Fitted : (n : ℕ) (a : BattleAvatar) → a.max_hp ≤ n → Fitted a (set_max_hp n a)
unfolding set_max_hp
set_max_hp-Fitted n a h = ground arith

no_fitment-Fits : Fits no_fitment
no_fitment-Fits u a = ground arith

item006_fitment-Fits : Fits item006_fitment
unfolding item006_fitment
item006_fitment-Fits u a = set_max_hp-Fitted _ a (omega arith)

item007_fitment-Fits : Fits item007_fitment
unfolding item007_fitment to_defensive
item007_fitment-Fits u a = ground arith

item015_fitment-Fits : Fits item015_fitment
unfolding item015_fitment set_first_attack_state
item015_fitment-Fits u a = ground arith

item016_fitment-Fits : Fits item016_fitment
unfolding item016_fitment
item016_fitment-Fits u a = set_max_hp-Fitted _ a (omega arith)

item023_fitment-Fits : Fits item023_fitment
unfolding item023_fitment set_first_attack_state
item023_fitment-Fits u a = ground arith

item027_fitment-Fits : Fits item027_fitment
unfolding item027_fitment to_defensive
item027_fitment-Fits u a = ground arith

item030_fitment-Fits : Fits item030_fitment
unfolding item030_fitment to_defensive
item030_fitment-Fits u a = ground arith

item032_fitment-Fits : Fits item032_fitment
unfolding item032_fitment
item032_fitment-Fits zero a = set_max_hp-Fitted _ a (omega arith)
item032_fitment-Fits (suc zero) a = set_max_hp-Fitted _ a (omega arith)
item032_fitment-Fits (suc (suc zero)) a = set_max_hp-Fitted _ a (omega arith)
item032_fitment-Fits (suc (suc (suc u))) a = ground arith

item036_fitment-Fits : Fits item036_fitment
unfolding item036_fitment
item036_fitment-Fits u a = set_max_hp-Fitted _ a (omega arith)

item037_fitment-Fits : Fits item037_fitment
unfolding item037_fitment to_defensive
item037_fitment-Fits u a = ground arith

Fitted-trans : (a b c : BattleAvatar) → Fitted a b → Fitted b c → Fitted a c
Fitted-trans a b c p q = record {
  sound = λ s. q.sound (p.sound s);
  whole = λ h. q.whole (p.whole h);
  no_weaker = omega (arith, p.no_weaker, q.no_weaker);
  same_client = q.same_client ∙ p.same_client;
  same_network_id = q.same_network_id ∙ p.same_network_id;
  same_using_item = q.same_using_item ∙ p.same_using_item;
  same_active_queue = q.same_active_queue ∙ p.same_active_queue;
  same_is_finish = q.same_is_finish ∙ p.same_is_finish;
}

abbrev AllFit : List ItemBase → Type 0
AllFit [] = Unit {0}
AllFit (i ∷ items) = Fits i.fitment_effect × AllFit items

s_items-AllFit : (random : Random) → AllFit (s_items random)
unfolding s_items
s_items-AllFit random =
    search
      (
        no_fitment-Fits, item006_fitment-Fits, item007_fitment-Fits, item015_fitment-Fits,
        item016_fitment-Fits, item023_fitment-Fits, item027_fitment-Fits, item030_fitment-Fits,
        item032_fitment-Fits, item036_fitment-Fits, item037_fitment-Fits,
      )
      depth 60

-- Every item of a list is one of the table.
abbrev pub AreListed : List Item → Type 0
AreListed items = (n : ℕ) (i : Item) → get_elem? items n ≡ some i → i.type < 46

fitment_of-Fitted :
    (table : List ItemBase) (n u : ℕ) (a : BattleAvatar)
    → AllFit table
    → n < length table
    → (b : BattleAvatar) × (fitment_of (get_elem? table n) u a ≡ some b) × Fitted a b
unfolding fitment_of
fitment_of-Fitted [] n u a k h = elim h [ ]
fitment_of-Fitted (i ∷ items) zero u a k h = (i.fitment_effect u a, refl, k.0 u a)
fitment_of-Fitted (i ∷ items) (suc n) u a k h = fitment_of-Fitted items n u a k.1 (omega arith)

fitment_loop-Fitted :
    (table : List ItemBase) (items : List Item) (a : BattleAvatar)
    → AllFit table
    → length table ≡ 46
    → AreListed items
    → (b : BattleAvatar) × (fitment_loop table items a ≡ some b) × Fitted a b
unfolding fitment_loop
fitment_loop-Fitted table [] a k l h = (a, refl, no_fitment-Fits 0 a)
fitment_loop-Fitted table (i ∷ items) a k l h =
    let (b, e, f) = fitment_of-Fitted table i.type i.upgrade a k (omega (arith, l, h 0 i refl)) in
    let (c, e', g) = fitment_loop-Fitted table items b k l (λ n. h (suc n)) in
    (c, rw (fitment_loop, e) e', Fitted-trans a b c f g)

pub length-s_items : (random : Random) → length (s_items random) ≡ 46
unfolding s_items
length-s_items random = refl

-- Where all of its items are of the table, an avatar can put them on; that keeps it sound, whole if it
-- was whole, and with no less maximal life, and leaves its client, its number, its items and its order
-- alone.
pub fitment_effect-Fitted :
    (random : Random) (a : BattleAvatar)
    → AreListed a.using_item
    → (b : BattleAvatar) × (fitment_effect random a ≡ some b) × Fitted a b
unfolding fitment_effect
fitment_effect-Fitted random a h =
    fitment_loop-Fitted (s_items random) a.using_item a (s_items-AllFit random)
      (length-s_items random) h
