-- ===== src/Stage/Creep.antt =====
-- Room.cpp: the monsters of the creep stage and their rewards, and one attack between a player and a
-- monster.
use isegye_idol_game_server.Common.{
  ℕ, zero, suc, ◌+◌, Bool, true, false, not, ◌&&◌, Option, none, some, [], ◌∷◌, ◌++◌, ltb, ◌==◌,
  get_elem?, if◌then◌else◌,
}
use isegye_idol_game_server.Types.{
  Random, CreepType, shrimp, negative_man, hodd, wakpago, short_answer, chunsik, kwon_min, pos,
  ItemTicketType, advanced, top, supreme, Item, new_item,
}
use isegye_idol_game_server.Packet.{set_item_ticket_packet}
use isegye_idol_game_server.World.{World, modify_room}
use isegye_idol_game_server.Avatar.{BattleAvatar, set_finish, set_using_item, set_max_hp}
use isegye_idol_game_server.Avatar.Setup.{new_avatar}
use isegye_idol_game_server.Duel.{Duel, increase_item_ticket}
use isegye_idol_game_server.Items
use isegye_idol_game_server.Stage.Bout.{
  Bout, hurt_both, unlisted, marked, note_leaving, is_over, on_duel, turned, answer, bleed, show,
}

-- `Room::GetCurCreepType`
unfoldable pub get_cur_creep_type : ℕ → CreepType
get_cur_creep_type zero = shrimp
get_cur_creep_type (suc zero) = negative_man
get_cur_creep_type (suc (suc zero)) = hodd
get_cur_creep_type (suc (suc (suc zero))) = wakpago
get_cur_creep_type (suc (suc (suc (suc zero)))) = short_answer
get_cur_creep_type (suc (suc (suc (suc (suc zero))))) = chunsik
get_cur_creep_type (suc (suc (suc (suc (suc (suc n)))))) = kwon_min

abbrev pub creep_item : ℕ → Item
unfolding new_item
creep_item type = record (new_item 0) { type = type }

-- The six places of a monster, with two kinds of items in turn.
unfoldable pub armed : ℕ → ℕ → BattleAvatar → BattleAvatar
unfolding set_using_item
armed even odd a = set_using_item 5 (creep_item odd) (
    set_using_item 4 (creep_item even) (
      set_using_item 3 (creep_item odd) (
        set_using_item 2 (creep_item even)
          (set_using_item 1 (creep_item odd) (set_using_item 0 (creep_item even) a)))))

-- The switch of `GetCreepMonster`.
unfoldable pub creep_monster : CreepType → BattleAvatar → BattleAvatar
unfolding armed set_max_hp
creep_monster shrimp a = set_max_hp 20 (armed 38 38 a)
creep_monster negative_man a = set_max_hp 20 (armed 39 39 a)
creep_monster hodd a = set_max_hp 20 (armed 40 40 a)
creep_monster wakpago a = set_max_hp 30 (armed 41 41 a)
creep_monster short_answer a = set_max_hp 30 (armed 42 43 a)
creep_monster chunsik a = set_max_hp 25 (armed 44 44 a)
creep_monster kwon_min a = set_max_hp 100 (armed 45 45 a)

-- `Room::GetCreepMonster`: the monster of the round, and the next round.
unfoldable pub get_creep_monster : ℕ → World → World × BattleAvatar
unfolding modify_room creep_monster get_cur_creep_type new_avatar
get_creep_monster r w = (
  modify_room r (λ room. record room { creep_round = room.creep_round + 1 }) w,
  creep_monster (get_cur_creep_type (w.rooms r).creep_round)
      (record new_avatar { is_ghost = true }),
)

-- The reward for a kind of monster, by the number drawn for the last one.
unfoldable pub creep_reward : CreepType → ℕ → ItemTicketType × ℕ
creep_reward shrimp n = (advanced, 1)
creep_reward negative_man n = (advanced, 1)
creep_reward hodd n = (advanced, 1)
creep_reward wakpago n = (advanced, 3)
creep_reward short_answer n = (top, 2)
creep_reward chunsik n = (top, 3)
creep_reward kwon_min n = if ltb n 20 then (supreme, 1) else (top, 4)

abbrev draws_for : CreepType → ℕ
draws_for kwon_min = 1
draws_for _ = 0

-- `Room::GetCreepRewardTicketType`; only the last kind of monster needs a number.
unfoldable pub get_creep_reward_ticket_type : Random → ℕ → World → World × ItemTicketType × ℕ
unfolding creep_reward get_cur_creep_type
get_creep_reward_ticket_type random r w =
    let creep = get_cur_creep_type (w.rooms r).creep_round in
    let (type, count) = creep_reward creep (random w.draws 0 99) in
    (record w { draws = w.draws + draws_for creep }, type, count)

-- The ticket for a monster without life, where the fight was not over before.
unfoldable pub reward : Random → ℕ → Bout → Bout
unfolding get_creep_reward_ticket_type increase_item_ticket set_item_ticket_packet
reward random r b =
    if not b.duel.me.is_finish && b.duel.opponent.hp == 0
    then (let (w, type, count) = get_creep_reward_ticket_type random r b.duel.world in
        let (w', tickets) = increase_item_ticket type count (w, b.duel.me) in
        record b {
          duel = record (b.duel) { world = w' };
          stream = b.stream ++ (set_item_ticket_packet b.duel.me.network_id type tickets ∷ []);
        })
    else b

-- Who is hurt first: the player, `me`, or the monster.
abbrev hurt_in_order : Bool → Random → ℕ → Duel → Duel
hurt_in_order true random r d =
    let (w, me, opponent) = hurt_both random r (d.world, d.me, d.opponent) in
    record d { world = w; me = me; opponent = opponent }
hurt_in_order false random r d =
    let (w, opponent, me) = hurt_both random r (d.world, d.opponent, d.me) in
    record d { world = w; me = me; opponent = opponent }

abbrev finish_both : Bout → Bout
finish_both = on_duel (λ d. record d { me = set_finish d.me; opponent = set_finish d.opponent })

abbrev note_player : ℕ → Bout → Bout
note_player r b =
    let (leaving, fault) = note_leaving r b.duel.world b.duel.me (b.leaving, b.duel.fault) in
    record b { leaving = leaving; duel = record (b.duel) { fault = fault } }

-- The end of a fight with a monster, where one of the two has no life left; `me` is the player.
unfoldable pub settle_creep : Bool → Random → ℕ → Bout → Bout
unfolding hurt_both unlisted note_leaving reward set_finish is_over
settle_creep player_first random r b =
    if is_over b.duel
    then finish_both (
        reward random r (
          note_player r (
            on_duel (hurt_in_order player_first random r)
              (marked (unlisted random b.duel.me b.duel.opponent) b))))
    else b

abbrev settle_turned : Random → ℕ → Bout → Bout
settle_turned random r b = on_duel turned (settle_creep false random r (on_duel turned b))

-- The attack of the player, `me`: there is no answer.
unfoldable pub player_attack : Random → ℕ → ℕ → ℕ → Bout → Bout
unfolding settle_creep bleed show
player_attack random r index slot b = settle_creep true random r (
    show (pos b.duel.me.network_id) slot
      (on_duel bleed (settle_creep true random r (on_duel (Items.active_item random index) b))))

-- The attack of the monster, `me`.
unfoldable pub creep_attack : Random → ℕ → ℕ → ℕ → Bout → Bout
unfolding settle_creep answer bleed show
creep_attack random r index slot b = settle_turned random r (
    show (pos b.duel.me.network_id) slot (
      on_duel bleed (
        on_duel (answer random slot)
          (settle_turned random r (on_duel (Items.active_item random index) b)))))

abbrev at_slot : Option ℕ → (ℕ → Bout → Bout) → Bout → Bout
at_slot none f = on_duel (λ d. record d { fault = true })
at_slot (some slot) f = f slot

unfoldable pub player_turn : Random → ℕ → ℕ → Bout → Bout
unfolding player_attack
player_turn random r index b =
    at_slot (get_elem? b.duel.me.active_queue index) (player_attack random r index) b

unfoldable pub creep_turn : Random → ℕ → ℕ → Bout → Bout
unfolding creep_attack
creep_turn random r index b =
    at_slot (get_elem? b.duel.me.active_queue index) (creep_attack random r index) b
