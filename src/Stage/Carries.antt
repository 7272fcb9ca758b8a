-- ===== src/Stage/Carries.antt =====
-- Room.cpp: two avatars stay able to fight, and no null pointer is followed; the answer to an attack.
use isegye_idol_game_server.Common.{
  ℕ, List, [], ◌∷◌, ◌++◌, ◌<◌, ◌≡◌, ◌∙◌, refl, Bool, true, false, arith, if◌then◌else◌,
}
use isegye_idol_game_server.Types.{max_user}
use isegye_idol_game_server.World.{World}
use isegye_idol_game_server.Avatar.{BattleAvatar, to_damage, to_heal, effect_bleeding, set_finish}
use isegye_idol_game_server.Avatar.Sound.{IsSound}
use isegye_idol_game_server.Duel.{
  Duel, to_damage_character, effect_counter, counter_attacks, counter_heals,
}
use isegye_idol_game_server.World.Safe.{IsSafeWorld}
use isegye_idol_game_server.Items.Fitted.{AreListed}
use isegye_idol_game_server.Items.Battle.{IsArmed, IsBattle}
use isegye_idol_game_server.Stage.Bout.{Bout, turned}

-- An avatar that another one can still stand for.
pub record Stays (a b : BattleAvatar) : Type 0 where
  pub stays_sound : IsSound a → IsSound b
  pub stays_client : b.client ≡ a.client
  pub stays_max_hp : b.max_hp ≡ a.max_hp
  pub stays_network_id : b.network_id ≡ a.network_id
  pub stays_using_item : b.using_item ≡ a.using_item
  pub stays_active_queue : b.active_queue ≡ a.active_queue

Stays-IsArmed : (a b : BattleAvatar) → Stays a b → IsArmed a → IsArmed b
Stays-IsArmed a b s v = record {
  has_client = rw s.stays_client v.has_client;
  fifth = rw s.stays_max_hp v.fifth;
  armed = λ n h. rw (s.stays_active_queue, s.stays_using_item) (v.armed n h);
}

-- An avatar that the end of a fight can look at: it is armed, and each of its items is of the table.
pub record CanEnd (a : BattleAvatar) : Type 0 where
  pub is_armed : IsArmed a
  pub are_listed : AreListed a.using_item

Stays-CanEnd : (a b : BattleAvatar) → Stays a b → CanEnd a → CanEnd b
Stays-CanEnd a b s v = record {
  is_armed = Stays-IsArmed a b s v.is_armed;
  are_listed = rw s.stays_using_item v.are_listed;
}

pub Stays-trans : (a b c : BattleAvatar) → Stays a b → Stays b c → Stays a c
Stays-trans a b c p q = ground arith

pub set_finish-Stays : (a : BattleAvatar) → Stays a (set_finish a)
unfolding set_finish
set_finish-Stays a = ground arith

pub to_damage_character-Stays :
    (n : ℕ) (forced : Bool) (w : World) (a : BattleAvatar)
    → Stays a (to_damage_character n forced (w, a)).1
unfolding to_damage_character
to_damage_character-Stays n forced w a = ground arith

pub effect_bleeding-Stays : (a : BattleAvatar) → Stays a (effect_bleeding a)
unfolding effect_bleeding
effect_bleeding-Stays a = ground arith

-- A step of two avatars that keeps both and meets no fault.
pub record Carries (d e : Duel) : Type 0 where
  pub me_stays : Stays d.me e.me
  pub opponent_stays : Stays d.opponent e.opponent
  pub same_fault : CanEnd d.me → CanEnd d.opponent → e.fault ≡ d.fault
  pub kept_world : IsSafeWorld d.world → IsSafeWorld e.world

pub Carries-IsBattle : (d e : Duel) → Carries d e → IsBattle d → IsBattle e
Carries-IsBattle d e c v = record {
  me_armed = Stays-IsArmed _ _ c.me_stays v.me_armed;
  opponent_armed = Stays-IsArmed _ _ c.opponent_stays v.opponent_armed;
  me_sound = c.me_stays.stays_sound v.me_sound;
  opponent_sound = c.opponent_stays.stays_sound v.opponent_sound;
}

pub Carries-trans : (c d e : Duel) → Carries c d → Carries d e → Carries c e
Carries-trans c d e p q = record {
  me_stays = Stays-trans _ _ _ p.me_stays q.me_stays;
  opponent_stays = Stays-trans _ _ _ p.opponent_stays q.opponent_stays;
  same_fault = λ k h.
      q.same_fault (Stays-CanEnd _ _ p.me_stays k) (Stays-CanEnd _ _ p.opponent_stays h)
      ∙ p.same_fault k h;
  kept_world = λ s. q.kept_world (p.kept_world s);
}

pub turned-Carries : (d e : Duel) → Carries d e → Carries (turned d) (turned e)
turned-Carries d e c = record {
  me_stays = c.opponent_stays;
  opponent_stays = c.me_stays;
  same_fault = λ k h. c.same_fault h k;
  kept_world = c.kept_world;
}

pub refl-Stays : (a : BattleAvatar) → Stays a a
refl-Stays a = ground arith

pub refl-Carries : (d : Duel) → Carries d d
refl-Carries d = record {
  me_stays = refl-Stays d.me;
  opponent_stays = refl-Stays d.opponent;
  same_fault = λ k h. refl;
  kept_world = λ s. s;
}

pub if-Carries :
    (b : Bool) (d e f : Duel) → Carries d e → Carries d f → Carries d (if b then e else f)
if-Carries true d e f p q = p
if-Carries false d e f p q = q

counter_attacks_world : (d : Duel) → (counter_attacks d).world ≡ d.world
unfolding counter_attacks
counter_attacks_world d = ground arith

counter_attacks-Carries : (d : Duel) → Carries d (counter_attacks d)
unfolding counter_attacks to_damage
counter_attacks-Carries d = record {
  me_stays = ground arith;
  opponent_stays = ground arith;
  same_fault = λ k h. ground arith;
  kept_world = λ s. rw (counter_attacks_world d) s;
}

counter_heals_world : (d : Duel) → (counter_heals d).world ≡ d.world
unfolding counter_heals
counter_heals_world d = ground arith

counter_heals-Carries : (d : Duel) → Carries d (counter_heals d)
unfolding counter_heals to_heal
counter_heals-Carries d = record {
  me_stays = ground arith;
  opponent_stays = ground arith;
  same_fault = λ k h. ground arith;
  kept_world = λ s. rw (counter_heals_world d) s;
}

pub effect_counter-Carries : (d : Duel) → Carries d (effect_counter d)
unfolding effect_counter
effect_counter-Carries d =
    if-Carries d.me.is_finish d d (counter_heals (counter_attacks d)) (refl-Carries d)
      (Carries-trans _ _ _ (counter_attacks-Carries d) (counter_heals-Carries (counter_attacks d)))

-- Each of these is the number of a client.
abbrev pub AreNumbers : List ℕ → Type 0
AreNumbers [] = Unit {0}
AreNumbers (i ∷ ids) = (i < max_user) × AreNumbers ids

pub append-AreNumbers :
    (ids : List ℕ) (i : ℕ) → AreNumbers ids → i < max_user → AreNumbers (ids ++ i ∷ [])
append-AreNumbers [] i v h = (h, v)
append-AreNumbers (j ∷ ids) i (g, v) h = (g, append-AreNumbers ids i v h)

-- A step of a bout, which also notes none but the number of a client to disconnect.
pub record CarriesBout (b c : Bout) : Type 0 where
  pub duel : Carries b.duel c.duel
  pub numbers :
      b.duel.me.network_id < max_user
      → b.duel.opponent.network_id < max_user
      → AreNumbers b.leaving
      → AreNumbers c.leaving

pub CarriesBout-trans : (b c d : Bout) → CarriesBout b c → CarriesBout c d → CarriesBout b d
CarriesBout-trans b c d p q = record {
  duel = Carries-trans _ _ _ p.duel q.duel;
  numbers = λ h k v.
      q.numbers (rw p.duel.me_stays.stays_network_id h)
        (rw p.duel.opponent_stays.stays_network_id k) (p.numbers h k v);
}

-- A step of the duel, whatever is written to the stream.
pub duel-CarriesBout :
    (b c : Bout) → c.leaving ≡ b.leaving → Carries b.duel c.duel → CarriesBout b c
duel-CarriesBout b c e k = record { duel = k; numbers = λ _ _ v. rw e v }
