-- ===== src/Stage/Turns.antt =====
-- Room.cpp: an attack, the end of a cycle and the end of a fight keep the two avatars able to fight.
use isegye_idol_game_server.Common.{
  ℕ, ◌||◌, ◌<◌, ◌≡◌, ◌≢◌, ◌+◌, not, ◌&&◌, ◌∙◌, refl, ap, Bool, true, Option, none, some, arith,
  get_elem?, get_elem?_total, Bool-cases, inl, inr,
}
use isegye_idol_game_server.Types.{Random, Item, max_user}
use isegye_idol_game_server.Avatar.{BattleAvatar, effect_bomb, init_cycle, effect_bleeding}
use isegye_idol_game_server.Duel.{Duel, to_damage_character, effect_counter}
use isegye_idol_game_server.Items.{s_items, active_item, count_item}
use isegye_idol_game_server.Items.Battle.{IsArmed, active_item-Fights, counted, count_item-IsSound}
use isegye_idol_game_server.Stage.Bout.{
  Bout, unlisted, hurt_both, is_over, round_damage, is_attack, type_of, settle, close_fight,
  attacks, shown_id, answer, bleed, show, attack_with, take_turn, turned, on_duel,
}
use isegye_idol_game_server.Stage.Settled.{is_null, noted-fault}
use isegye_idol_game_server.Stage.Battle.{explode, force_battle}
use isegye_idol_game_server.Stage.Carries.{
  Carries, turned-Carries, Stays-trans, set_finish-Stays, to_damage_character-Stays,
  effect_bleeding-Stays, Carries-trans, refl-Stays, refl-Carries, if-Carries,
  effect_counter-Carries, AreNumbers, CarriesBout, CarriesBout-trans, duel-CarriesBout,
}
use isegye_idol_game_server.Stage.Hurt.{
  to_damage_character-IsSafeWorld, hurt_both-IsSafeWorld, hurt_both-Stays,
}
use isegye_idol_game_server.Stage.Listed.{listed-unlisted}
use isegye_idol_game_server.Stage.Noted.{both-AreNumbers}

attacks_total :
    (random : Random) (slot : ℕ) (a : BattleAvatar) {i : Item}
    → get_elem? a.using_item slot ≡ some i
    → i.type < 46
    → (b : Bool) × (attacks random a slot ≡ some b)
unfolding attacks s_items
attacks_total random slot a {i} e h =
    let (base, p) = get_elem?_total (s_items random) i.type h in
    (is_attack base.type, rw (attacks, e) (ap type_of p))

answer-Carries :
    (random : Random) (slot : ℕ) (d : Duel) {i : Item}
    → get_elem? d.me.using_item slot ≡ some i
    → i.type < 46
    → Carries d (answer random slot d)
unfolding answer
answer-Carries random slot d e h =
    let (b, p) = attacks_total random slot d.me e h in
    rw (answer, p)
      (if-Carries b d (turned (effect_counter (turned d))) d
        (turned-Carries _ _ (effect_counter-Carries (turned d))) (refl-Carries d))

bleed-Carries : (d : Duel) → Carries d (bleed d)
unfolding bleed
bleed-Carries d =
    if-Carries (not d.me.is_finish && not d.opponent.is_finish) d
      (record d { me = effect_bleeding d.me }) d
      (record {
        me_stays = effect_bleeding-Stays d.me;
        opponent_stays = refl-Stays d.opponent;
        same_fault = λ k h. refl;
        kept_world = λ s. s;
      })
      (refl-Carries d)

is_null_not : (o : Option ℕ) (b : Bool) → o ≢ none → is_null o b ≡ b
is_null_not none b h = elim (h refl) [ ]
is_null_not (some i) b h = refl

settle-Carries : (random : Random) (r : ℕ) (b : Bout) → Carries b.duel (settle random r b).duel
unfolding settle close_fight
settle-Carries random r b =
    let d = b.duel in
    let h = hurt_both random r (d.world, d.me, d.opponent) in
    let (p, q) = hurt_both-Stays random r d.world d.me d.opponent in
    elim (Bool-cases (is_over d)) [
      | inl e ↦ rw e (record {
        me_stays = Stays-trans _ _ _ p (set_finish-Stays h.1);
        opponent_stays = Stays-trans _ _ _ q (set_finish-Stays h.2);
        same_fault = λ k v.
            noted-fault r h.0 h.1 h.2 b.leaving (unlisted random d.me d.opponent || d.fault)
            ∙ is_null_not h.2.client _ (rw q.stays_client v.is_armed.has_client)
            ∙ is_null_not h.1.client _ (rw p.stays_client k.is_armed.has_client)
            ∙ ap (λ m. m || d.fault)
                (listed-unlisted random d.me d.opponent k.are_listed v.are_listed);
        kept_world = hurt_both-IsSafeWorld random r d.world d.me d.opponent;
      })
      | inr e ↦ rw e (refl-Carries d)
    ]

settle-AreNumbers :
    (random : Random) (r : ℕ) (b : Bout)
    → b.duel.me.network_id < max_user
    → b.duel.opponent.network_id < max_user
    → AreNumbers b.leaving
    → AreNumbers (settle random r b).leaving
unfolding settle close_fight
settle-AreNumbers random r b h k v =
    let d = b.duel in
    let t = hurt_both random r (d.world, d.me, d.opponent) in
    let (p, q) = hurt_both-Stays random r d.world d.me d.opponent in
    elim (Bool-cases (is_over d)) [
      | inl e ↦ rw e (
          both-AreNumbers r t.0 t.1 t.2 b.leaving (unlisted random d.me d.opponent || d.fault) v
            (rw p.stays_network_id h) (rw q.stays_network_id k))
      | inr e ↦ rw e v
    ]

settle-CarriesBout : (random : Random) (r : ℕ) (b : Bout) → CarriesBout b (settle random r b)
settle-CarriesBout random r b = record {
  duel = settle-Carries random r b;
  numbers = settle-AreNumbers random r b;
}

active_item-Carries :
    (random : Random) (n : ℕ) (d : Duel) → IsArmed d.me → n < 6 → Carries d (active_item random n d)
unfolding counted count_item
active_item-Carries random n d v h =
    let f = active_item-Fights random n d v h in
    let s = f.me_touched.same in
    let o = f.opponent_touched.same in
    record {
      me_stays = record {
        stays_sound = λ k. f.me_touched.sound (count_item-IsSound d.me k);
        stays_client = s.same_client;
        stays_max_hp = s.same_max_hp;
        stays_network_id = s.same_network_id;
        stays_using_item = s.same_using_item;
        stays_active_queue = s.same_active_queue;
      };
      opponent_stays = record {
        stays_sound = f.opponent_touched.sound;
        stays_client = o.same_client;
        stays_max_hp = o.same_max_hp;
        stays_network_id = o.same_network_id;
        stays_using_item = o.same_using_item;
        stays_active_queue = o.same_active_queue;
      };
      same_fault = λ k m.
          f.no_fault (record { has_client = k.is_armed.has_client; fifth = m.is_armed.fifth });
      kept_world = f.kept_world;
    }

-- The attack with an item of the table.
attack_with-CarriesBout :
    (random : Random) (r n slot : ℕ) (b : Bout) {i : Item}
    → IsArmed b.duel.me
    → n < 6
    → get_elem? b.duel.me.using_item slot ≡ some i
    → i.type < 46
    → CarriesBout b (attack_with random r n slot b)
unfolding attack_with show
attack_with-CarriesBout random r n slot b v h e t =
    let used = on_duel (active_item random n) b in
    let settled = settle random r used in
    let answered = on_duel (answer random slot) settled in
    let shown = show (shown_id b.duel.me) slot (on_duel bleed answered) in
    let first =
      CarriesBout-trans b used settled
        (duel-CarriesBout b used refl (active_item-Carries random n b.duel v h))
        (settle-CarriesBout random r used) in
    let next =
      answer-Carries random slot settled.duel
        (ap (λ xs. get_elem? xs slot) first.duel.me_stays.stays_using_item ∙ e) t in
    let second =
      duel-CarriesBout settled shown refl
        (Carries-trans _ _ _ next (bleed-Carries answered.duel)) in
    CarriesBout-trans b settled (settle random r shown) first (
      CarriesBout-trans settled shown (settle random r shown) second
        (settle-CarriesBout random r shown))

-- An attack in the battle stage.
pub take_turn-CarriesBout :
    (random : Random) (r n : ℕ) (b : Bout)
    → IsArmed b.duel.me
    → n < 6
    → CarriesBout b (take_turn random r n b)
unfolding take_turn
take_turn-CarriesBout random r n b v h =
    let (slot, i, p, q, t) = v.armed n h in
    rw (take_turn, p) (attack_with-CarriesBout random r n slot b v h q t)

explode-Carries : (b : Bout) → Carries b.duel (explode b).duel
unfolding explode effect_bomb init_cycle
explode-Carries b = record {
  me_stays = ground arith;
  opponent_stays = ground arith;
  same_fault = λ k h. refl;
  kept_world = λ s. s;
}

-- The end of a cycle.
pub end_cycle-CarriesBout :
    (random : Random) (r : ℕ) (b : Bout) → CarriesBout b (settle random r (explode b))
unfolding explode
end_cycle-CarriesBout random r b =
    CarriesBout-trans b (explode b) (settle random r (explode b))
      (duel-CarriesBout b (explode b) refl (explode-Carries b))
      (settle-CarriesBout random r (explode b))

force_battle-Carries : (r : ℕ) (b : Bout) → Carries b.duel (force_battle r b).duel
unfolding force_battle
force_battle-Carries r b =
    let d = b.duel in
    let s = to_damage_character (10 + round_damage r d.world) true (d.world, d.me) in
    let t = to_damage_character (10 + round_damage r s.0) true (s.0, d.opponent) in
    let p = to_damage_character-Stays (10 + round_damage r d.world) true d.world d.me in
    let q = to_damage_character-Stays (10 + round_damage r s.0) true s.0 d.opponent in
    record {
      me_stays = p;
      opponent_stays = q;
      same_fault = λ k v.
          noted-fault r t.0 s.1 t.1 b.leaving d.fault
          ∙ is_null_not t.1.client _ (rw q.stays_client v.is_armed.has_client)
          ∙ is_null_not s.1.client _ (rw p.stays_client k.is_armed.has_client);
      kept_world = λ k.
          to_damage_character-IsSafeWorld (10 + round_damage r s.0) true s.0 d.opponent
            (to_damage_character-IsSafeWorld (10 + round_damage r d.world) true d.world d.me k);
    }

-- The end of a fight that lasts too long.
pub force_battle-CarriesBout : (r : ℕ) (b : Bout) → CarriesBout b (force_battle r b)
unfolding force_battle
force_battle-CarriesBout r b =
    let d = b.duel in
    let s = to_damage_character (10 + round_damage r d.world) true (d.world, d.me) in
    let t = to_damage_character (10 + round_damage r s.0) true (s.0, d.opponent) in
    let p = to_damage_character-Stays (10 + round_damage r d.world) true d.world d.me in
    let q = to_damage_character-Stays (10 + round_damage r s.0) true s.0 d.opponent in
    record {
      duel = force_battle-Carries r b;
      numbers = λ h k v.
          both-AreNumbers r t.0 s.1 t.1 b.leaving d.fault v (rw p.stays_network_id h)
            (rw q.stays_network_id k);
    }
