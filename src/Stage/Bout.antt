-- ===== src/Stage/Bout.antt =====
-- Room.cpp: one attack in the battle stage, `BattleStage`'s innermost block; and the packets that show
-- an avatar (BattleAvatar.cpp).
use isegye_idol_game_server.Common.{
  ℕ, ◌+◌, ◌*◌, ◌%◌, ◌^◌, Bool, true, false, not, ◌&&◌, ◌||◌, Option, none, some, List, [], ◌∷◌,
  ◌++◌, ltb, ◌==◌, get_elem?, if◌then◌else◌,
}
use isegye_idol_game_server.Types.{Random, ItemType, attack, ℤ, pos, negsuc}
use isegye_idol_game_server.Packet.{Packet, AvatarInfo, active_item, battle_avatar_info}
use isegye_idol_game_server.World.{World, is_valid_client_in_this_room}
use isegye_idol_game_server.Avatar.{BattleAvatar, set_finish, effect_bleeding}
use isegye_idol_game_server.Duel.{
  Duel, effect_counter, to_damage_character, is_valid_battle_avatar_in_room,
}
use isegye_idol_game_server.Items
use isegye_idol_game_server.Items.{ItemBase, s_items, item_at, get_damage}

-- The two avatars of an attack, and what the stage carries on.
pub record Bout : Type 0 where
  pub duel : Duel
  pub stream : List Packet
  pub leaving : List ℕ

-- The number by which a packet names an avatar.
unfoldable pub shown_id : BattleAvatar → ℤ
shown_id a = if a.is_ghost then negsuc a.network_id else pos a.network_id

abbrev life_of : World → Option ℕ → ℕ
life_of w none = 50
life_of w (some i) = (w.clients i).hp

-- `BattleAvatar::ApplyBattleAvatarInfoPacket`
unfoldable pub apply_battle_avatar_info_packet : World → BattleAvatar → AvatarInfo
unfolding shown_id is_valid_battle_avatar_in_room
apply_battle_avatar_info_packet w a = record {
  network_id = if ltb 100000 a.network_id then pos a.network_id else shown_id a;
  player_hp = (if is_valid_battle_avatar_in_room w a then life_of w a.client else 50) % 256;
  max_hp = a.max_hp % 65536;
  hp = a.hp % 65536;
  first_attack_state = a.first_attack_state % 256;
  offense_power = a.offense_power % 256;
  defensive = a.defensive % 2 ^ 32;
  addition_defensive = a.addition_defensive % 256;
  weakening = a.weakening % 256;
  bleeding = a.bleeding % 65536;
  reduced_healing = a.reduced_healing % 256;
  is_effect_heal = a.is_effect_heal;
  effect_heal = a.effect_heal % 256;
  is_install_bomb = a.is_install_bomb;
  install_bomb_damage = a.install_bomb_damage % 256;
  is_ignore_next_damage = a.is_ignore_next_damage;
  can_defend_negative_effect = a.can_defend_negative_effect;
  is_counter_attack = a.is_counter_attack;
  counter_attack_damage = a.counter_attack_damage % 256;
  is_counter_heal = a.is_counter_heal;
  counter_heal = a.counter_heal % 256;
}

-- `sc_BattleAvatarInfoPacket(avatar)`
unfoldable pub battle_avatar_info_packet : World → BattleAvatar → Packet
unfolding apply_battle_avatar_info_packet
battle_avatar_info_packet w a = battle_avatar_info (apply_battle_avatar_info_packet w a)

-- The round of the room, twice.
abbrev pub round_damage : ℕ → World → ℕ
round_damage r w = (w.rooms r).round * 2

abbrev pub points : Option ℕ → ℕ
points none = 0
points (some n) = n

abbrev pub is_unlisted : Option ℕ → Bool
is_unlisted none = true
is_unlisted (some n) = false

-- Would `GetDamage` of one of the two, which only looks at their items, read past `sItems`?
unfoldable pub unlisted : Random → BattleAvatar → BattleAvatar → Bool
unfolding get_damage
unlisted random a b = is_unlisted (get_damage random a) || is_unlisted (get_damage random b)

-- `a.ToDamageCharacter(b.GetDamage() + round * 2, false)`, and the other way round.
unfoldable pub hurt_both :
    Random → ℕ → World × BattleAvatar × BattleAvatar → World × BattleAvatar × BattleAvatar
unfolding to_damage_character get_damage
hurt_both random r (w, a, b) =
    let s = to_damage_character (points (get_damage random b) + round_damage r w) false (w, a) in
    let t =
      to_damage_character (points (get_damage random s.1) + round_damage r s.0) false (s.0, b) in
    (t.0, s.1, t.1)

-- Is the player behind the avatar out of life, and still there? A null pointer is `none`.
unfoldable pub is_out : ℕ → World → BattleAvatar → Option Bool
unfolding is_valid_client_in_this_room
is_out r w a = elim a.client [
  | none ↦ none
  | some i ↦ some ((w.clients i).hp == 0 && is_valid_client_in_this_room w r (some i))
]

unfoldable pub note_leaving : ℕ → World → BattleAvatar → List ℕ × Bool → List ℕ × Bool
unfolding is_out
note_leaving r w a (leaving, fault) = elim (is_out r w a) [
  | none ↦ (leaving, true)
  | some b ↦ (if b then leaving ++ a.network_id ∷ [] else leaving, fault)
]

unfoldable pub is_over : Duel → Bool
is_over d = d.me.hp == 0 || d.opponent.hp == 0

-- Both were hurt: who has no life left is noted, and both have finished.
unfoldable pub close_fight : ℕ → World × BattleAvatar × BattleAvatar → Bout → Bout
close_fight r (w, me, opponent) b =
    let noted = note_leaving r w opponent (note_leaving r w me (b.leaving, b.duel.fault)) in
    record b {
      duel = record {
        world = w;
        me = set_finish me;
        opponent = set_finish opponent;
        fault = noted.1;
      };
      leaving = noted.0;
    }

abbrev pub marked : Bool → Bout → Bout
marked fault b = record b { duel = record (b.duel) { fault = fault || b.duel.fault } }

-- The end of a fight, where one of the two has no life left.
unfoldable pub settle : Random → ℕ → Bout → Bout
settle random r b =
    if is_over b.duel
    then close_fight r (hurt_both random r (b.duel.world, b.duel.me, b.duel.opponent))
        (marked (unlisted random b.duel.me b.duel.opponent) b)
    else b

-- Seen from the other side.
abbrev pub turned : Duel → Duel
turned d = record d { me = d.opponent; opponent = d.me }

abbrev pub is_attack : ItemType → Bool
is_attack attack = true
is_attack _ = false

abbrev pub type_of : Option ItemBase → Option Bool
type_of none = none
type_of (some base) = some (is_attack base.type)

-- `sItems[avatar.GetItemBySlot(slot).GetType()]->TYPE == EItemType::Attack`
unfoldable pub attacks : Random → BattleAvatar → ℕ → Option Bool
unfolding s_items
attacks random a slot = elim (get_elem? a.using_item slot) [
  | none ↦ none
  | some item ↦ type_of (get_elem? (s_items random) item.type)
]

-- The one that was attacked answers.
unfoldable pub answer : Random → ℕ → Duel → Duel
unfolding attacks effect_counter
answer random slot d = elim (attacks random d.me slot) [
  | none ↦ record d { fault = true }
  | some b ↦ if b then turned (effect_counter (turned d)) else d
]

unfoldable pub bleed : Duel → Duel
unfolding effect_bleeding
bleed d =
    if not d.me.is_finish && not d.opponent.is_finish
    then record d { me = effect_bleeding d.me }
    else d

-- What the players are shown of an attack, by an avatar of that number.
unfoldable pub show : ℤ → ℕ → Bout → Bout
unfolding battle_avatar_info_packet
show id slot b = record b {
  stream =
      b.stream
      ++ (active_item id slot
          ∷ battle_avatar_info_packet b.duel.world b.duel.me
          ∷ battle_avatar_info_packet b.duel.world b.duel.opponent
          ∷ []);
}

abbrev pub on_duel : (Duel → Duel) → Bout → Bout
on_duel f b = record b { duel = f b.duel }

-- The attack with the item of a place.
unfoldable pub attack_with : Random → ℕ → ℕ → ℕ → Bout → Bout
unfolding answer bleed show shown_id
attack_with random r index slot b = settle random r (
    show (shown_id b.duel.me) slot (
      on_duel bleed (
        on_duel (answer random slot)
          (settle random r (on_duel (Items.active_item random index) b)))))

-- An attack of `me`, the `index`th of a cycle.
unfoldable pub take_turn : Random → ℕ → ℕ → Bout → Bout
unfolding attack_with
take_turn random r index b = elim (get_elem? b.duel.me.active_queue index) [
  | none ↦ on_duel (λ d. record d { fault = true }) b
  | some slot ↦ attack_with random r index slot b
]
