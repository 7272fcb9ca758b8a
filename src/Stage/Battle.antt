-- ===== src/Stage/Battle.antt =====
-- Room.cpp: `Room::BattleStage`, on the loops of Stage/Fight.
use isegye_idol_game_server.Common.{
  ℕ, ◌+◌, Bool, true, false, not, ◌||◌, ◌&&◌, some, List, [], ◌∷◌, ◌++◌, ltb, if◌then◌else◌,
}
use isegye_idol_game_server.Types.{Random, pos, max_user}
use isegye_idol_game_server.Client.ActiveQueue.{get_item_active_queue}
use isegye_idol_game_server.Packet.{Packet, notification, NotificationType, fade_out}
use isegye_idol_game_server.World.{
  World, battle_stage, send_packet_to_all_clients, is_valid_client_in_this_room,
}
use isegye_idol_game_server.Avatar.{BattleAvatar, set_finish, effect_bomb, init_cycle}
use isegye_idol_game_server.Avatar.Setup.{set_active_queue}
use isegye_idol_game_server.Duel.{to_damage_character}
use isegye_idol_game_server.Stage.{
  Others, Scene, on_world, sleep, write, send_stream, goes_on, set_status,
}
use isegye_idol_game_server.Stage.Prepare.{
  new_scene, are_numbered, battle_avatars, prepare_battle, avatar_infos,
}
use isegye_idol_game_server.Stage.Bout.{
  Bout, shown_id, battle_avatar_info_packet, settle, round_damage, note_leaving, take_turn,
}
use isegye_idol_game_server.Stage.Fight.{Fighters, Rules, fight}

-- `Server::GetClient(networkID)`, a read of `sClients` without any test.
unfoldable pub look_up : ℕ → Scene → Scene
look_up id s = record s { fault = not (ltb id max_user) || s.fault }

-- A pair of which a player has gone does not fight, and the greater right strikes first.
unfoldable pub order_pairs : ℕ → List BattleAvatar → Scene → Fighters
unfolding set_finish look_up
order_pairs r [] s = ([], s)
order_pairs r (a ∷ []) s = (a ∷ [], record s { fault = true })
order_pairs r (a ∷ b ∷ avatars) s =
    let first = is_valid_client_in_this_room s.world r (some a.network_id) in
    let there = first && is_valid_client_in_this_room s.world r (some b.network_id) in
    let a' = if there then a else set_finish a in
    let b' = if there then b else set_finish b in
    let (rest, s') = order_pairs r avatars s in
    (
      if ltb a'.first_attack_state b'.first_attack_state then b' ∷ a' ∷ rest else a' ∷ b' ∷ rest,
      look_up a.network_id (if first then look_up b.network_id s' else s'),
    )

-- The order of the items of an avatar for the next cycle; six numbers are drawn.
unfoldable pub queue_items : Random → BattleAvatar → Scene → BattleAvatar × Scene
unfolding set_active_queue get_item_active_queue look_up
queue_items random a s = (
  set_active_queue (get_item_active_queue random s.world.draws (s.world.clients a.network_id)) a,
  look_up a.network_id (on_world (λ w. record w { draws = w.draws + 6 }) s),
)

unfoldable pub queue_battle : Random → List BattleAvatar → Scene → Fighters
unfolding queue_items
queue_battle random [] s = ([], s)
queue_battle random (a ∷ avatars) s =
    let (a', s') = if a.is_finish then (a, s) else queue_items random a s in
    let (rest, s'') = queue_battle random avatars s' in (a' ∷ rest, s'')

unfoldable pub slot_notices : List BattleAvatar → List Packet
unfolding shown_id
slot_notices [] = []
slot_notices (a ∷ avatars) =
    let rest = slot_notices avatars in
    if a.is_finish then rest else notification (shown_id a) NotificationType.init_battle_slot ∷ rest

abbrev pub send_notices : Others → ℕ → List Packet → Scene → Scene
send_notices others r [] s = on_world (sleep others) s
send_notices others r (p ∷ packets) s =
    on_world (λ w. sleep others (send_packet_to_all_clients r (p ∷ packets) w)) s

-- The beginning of a cycle of a battle.
unfoldable pub begin_battle_cycle : Others → Random → ℕ → Fighters → Fighters
unfolding queue_battle slot_notices sleep send_packet_to_all_clients
begin_battle_cycle others random r (avatars, s) =
    let (avatars', s') = queue_battle random avatars s in
    (avatars', send_notices others r (slot_notices avatars') s')

-- The bombs of both go off, and what lasts for a cycle ends.
unfoldable pub explode : Bout → Bout
unfolding effect_bomb init_cycle battle_avatar_info_packet
explode b =
    let me = init_cycle (effect_bomb b.duel.me) in
    let opponent = init_cycle (effect_bomb b.duel.opponent) in
    record b {
      duel = record (b.duel) { me = me; opponent = opponent };
      stream =
          b.stream
          ++ (battle_avatar_info_packet b.duel.world me
              ∷ battle_avatar_info_packet b.duel.world opponent
              ∷ []);
    }

-- A fight that is not over after ten cycles hurts both players.
unfoldable pub force_battle : ℕ → Bout → Bout
unfolding to_damage_character note_leaving
force_battle r b =
    let d = b.duel in
    let (w, me) = to_damage_character (10 + round_damage r d.world) true (d.world, d.me) in
    let (w', opponent) = to_damage_character (10 + round_damage r w) true (w, d.opponent) in
    let (leaving, fault) = note_leaving r w' opponent (note_leaving r w' me (b.leaving, d.fault)) in
    record b {
      duel = record { world = w'; me = me; opponent = opponent; fault = fault };
      leaving = leaving;
    }

-- The battle stage in the loops of Stage/Fight.
unfoldable pub battle_rules : Others → Random → ℕ → Rules
battle_rules others random r = record {
  begin_cycle = begin_battle_cycle others random r;
  first_turn = take_turn random r;
  second_turn = take_turn random r;
  end_cycle = λ b. settle random r (explode b);
  force = force_battle r;
}

-- `BattleStage` up to the first cycle: the avatars, with their items on, which everyone is shown.
unfoldable pub open_battle : Others → Random → ℕ → World → Fighters
unfolding battle_avatars are_numbered prepare_battle avatar_infos write send_stream sleep
    send_packet_to_all_clients
open_battle others random r w =
    let opponents = (w.rooms r).battle_opponents in
    let found = record (new_scene w) { fault = not (are_numbered opponents) } in
    let s = write (notification (pos 0) NotificationType.enter_battle_stage ∷ []) found in
    let (avatars, s') = prepare_battle random (battle_avatars w r opponents) s in
    let s'' = send_stream r (write (avatar_infos s'.world avatars) s') in
    (
      avatars,
      on_world (λ v. sleep others (send_packet_to_all_clients r (fade_out 1 ∷ []) (sleep others v)))
          s'',
    )

abbrev pub fight_battle : Others → Random → ℕ → ℕ → Fighters → Scene × Bool
fight_battle others random r open_count (avatars, s) =
    if goes_on r open_count s.world
    then fight others (battle_rules others random r) r open_count (order_pairs r avatars s)
    else (s, false)

-- `Room::BattleStage`
unfoldable pub battle_stage_of : Others → Random → ℕ → World → Scene × Bool
unfolding set_status goes_on open_battle order_pairs fight battle_rules
battle_stage_of others random r w =
    let w' = set_status r battle_stage w in
    let open_count = (w'.rooms r).open_count in
    if goes_on r open_count w'
    then fight_battle others random r open_count (open_battle others random r w')
    else (new_scene w', false)
