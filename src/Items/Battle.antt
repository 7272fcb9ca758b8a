-- ===== src/Items/Battle.antt =====
-- BattleAvatar.cpp: `SetAvatar` of a valid player, and `ActiveItem` between two avatars.
use isegye_idol_game_server.Common.{
  ℕ, zero, suc, ◌<◌, ◌≤◌, ◌≡◌, ◌≢◌, none, some, List, [], ◌∷◌, get_elem?, arith, Bool, lt→ltb,
}
use mathlib.Core.Option.{some_inj}
use isegye_idol_game_server.Types.{Item}
use isegye_idol_game_server.Client.{Client}
use isegye_idol_game_server.Client.Inventory.{SlotInfo, get_item}
use isegye_idol_game_server.Client.Inventory.Valid.{IsValid, IsFair}
use isegye_idol_game_server.Client.ActiveQueue.Order.{AreCopies}
use isegye_idol_game_server.World.{Random}
use isegye_idol_game_server.Avatar.{BattleAvatar, to_heal}
use isegye_idol_game_server.Avatar.Sound.{IsSound, SameFighter, to_heal-Touches}
use isegye_idol_game_server.Avatar.Setup.{set_avatar}
use isegye_idol_game_server.Duel.{Duel, on_me}
use isegye_idol_game_server.Duel.Fights.{
  Fights, Keeps, if-Fights, skip-Keeps, on_me-Keeps, Fights-trans,
}
use isegye_idol_game_server.Items.{active_item, use_item, item_at, effect_heals, count_item}
use isegye_idol_game_server.Items.Active.{active-Fights}

-- An avatar that can go through a cycle: a player behind it, enough life to divide by, and in each of
-- the six places of its order an item of the table.
pub record IsArmed (a : BattleAvatar) : Type 0 where
  pub has_client : a.client ≢ none
  pub fifth : 5 ≤ a.max_hp
  pub armed :
      (n : ℕ)
      → n < 6
      → (slot : ℕ) × (i : Item) × (get_elem? a.active_queue n ≡ some slot)
        × (get_elem? a.using_item slot ≡ some i)
        × (i.type < 46)

-- Both avatars are armed and sound.
pub record IsBattle (d : Duel) : Type 0 where
  pub me_armed : IsArmed d.me
  pub opponent_armed : IsArmed d.opponent
  pub me_sound : IsSound d.me
  pub opponent_sound : IsSound d.opponent

pub SameFighter-IsArmed : (a b : BattleAvatar) → SameFighter a b → IsArmed a → IsArmed b
SameFighter-IsArmed a b s v = record {
  has_client = rw s.same_client v.has_client;
  fifth = rw s.same_max_hp v.fifth;
  armed = λ n h. rw (s.same_active_queue, s.same_using_item) (v.armed n h);
}

pub count_item-IsArmed : (a : BattleAvatar) → IsArmed a → IsArmed (count_item a)
unfolding count_item
count_item-IsArmed a v = record { has_client = v.has_client; fifth = v.fifth; armed = v.armed }

pub count_item-IsSound : (a : BattleAvatar) → IsSound a → IsSound (count_item a)
unfolding count_item
count_item-IsSound a s = ground arith

effect_heals-Keeps : Keeps effect_heals
unfolding effect_heals on_me
effect_heals-Keeps d =
    if-Fights _ d _ _ (on_me-Keeps (to_heal d.me.effect_heal) (to_heal-Touches d.me.effect_heal) d)
      (skip-Keeps d)

unfoldable pub counted : Duel → Duel
counted d = record d { me = count_item d.me }

use_item-Fights :
    (random : Random) (i : Item) (d : Duel)
    → i.type < 46
    → Fights (counted d) (use_item random (some i) d)
unfolding use_item counted
use_item-Fights random i d h =
    Fights-trans _ _ _ (active-Fights random i.type i.upgrade _ h) (effect_heals-Keeps _)

pub active_item-Fights :
    (random : Random) (n : ℕ) (d : Duel)
    → IsArmed d.me
    → n < 6
    → Fights (counted d) (active_item random n d)
unfolding active_item item_at
active_item-Fights random n d v h =
    let (slot, i, p, q, t) = v.armed n h in rw (p, item_at, q) (use_item-Fights random i d t)

-- Between two sound and armed avatars any of the six turns of a cycle goes right, whatever is drawn:
-- no null pointer is followed, nothing is divided by zero and no index is out of bounds; the opponent
-- gains no life; and the two stay sound and armed, so that the next turn, of either of them, does too.
pub active_item-IsBattle :
    (random : Random) (n : ℕ) (d : Duel)
    → IsBattle d
    → n < 6
    → let e = active_item random n d in
      IsBattle e × (e.fault ≡ d.fault) × (e.opponent.hp ≤ d.opponent.hp)
unfolding counted
active_item-IsBattle random n d b h =
    let f = active_item-Fights random n d b.me_armed h in
    (
      record {
        me_armed = SameFighter-IsArmed _ _ f.me_touched.same (count_item-IsArmed d.me b.me_armed);
        opponent_armed = SameFighter-IsArmed _ _ f.opponent_touched.same b.opponent_armed;
        me_sound = f.me_touched.sound (count_item-IsSound d.me b.me_sound);
        opponent_sound = f.opponent_touched.sound b.opponent_sound;
      },
      f.no_fault (record {
        has_client = (count_item-IsArmed d.me b.me_armed).has_client;
        fifth = b.opponent_armed.fifth;
      }),
      f.opponent_hurt,
    )

pub copies_at :
    (items : List Item) (queue : List SlotInfo) (n : ℕ) {s : SlotInfo}
    → AreCopies items queue
    → get_elem? queue n ≡ some s
    → get_elem? items s.index ≡ some s.item
copies_at items [] n k e = cc
copies_at items (q ∷ queue) zero k e = rw (← some_inj.0 e) k.0
copies_at items (q ∷ queue) (suc n) k e = copies_at items queue n k.1 e

pub using_item-IsFair :
    (c : Client) (n : ℕ) {x : Item}
    → IsValid c
    → get_elem? c.using_items n ≡ some x
    → n < 6
    → IsFair x
unfolding get_item
using_item-IsFair c n {x} v e h = v.fair n x (rw (lt→ltb n 6 h) e)

pub set_avatar-IsSound :
    (index : ℕ) (c : Client) (room network_id : ℕ) (is_ghost : Bool) (round : ℕ)
    → let a = set_avatar index c room network_id is_ghost round in
      IsSound a
      × (a.client ≢ none)
      × (5 ≤ a.max_hp)
      × (a.hp ≡ a.max_hp)
      × (a.using_item ≡ c.using_items)
      × (a.network_id ≡ network_id)
unfolding set_avatar
set_avatar-IsSound index c room network_id is_ghost round = ground arith
