-- ===== src/Stage/Monsters.antt =====
-- Room.cpp: `Room::CreepStage`, on the loops of Stage/Fight. The avatars stand in pairs, of a player
-- and a monster.
use isegye_idol_game_server.Common.{ℕ, ◌+◌, Bool, true, false, none, List, [], ◌∷◌, if◌then◌else◌}
use isegye_idol_game_server.Types.{Random, pos}
use isegye_idol_game_server.Packet.{notification, NotificationType, creep_stage_info, fade_out}
use isegye_idol_game_server.World.{World, creep_stage, send_packet_to_all_clients}
use isegye_idol_game_server.Avatar.{BattleAvatar}
use isegye_idol_game_server.Avatar.Setup.{set_avatar}
use isegye_idol_game_server.Duel.{to_damage_character}
use isegye_idol_game_server.Stage.{
  Others, Scene, on_world, sleep, write, send_stream, goes_on, set_status,
}
use isegye_idol_game_server.Stage.Bout.{Bout, round_damage, note_leaving}
use isegye_idol_game_server.Stage.Creep.{
  get_cur_creep_type, get_creep_monster, settle_creep, player_turn, creep_turn,
}
use isegye_idol_game_server.Stage.Prepare.{prepare, avatar_infos, new_scene}
use isegye_idol_game_server.Stage.Fight.{Fighters, Rules, fight}
use isegye_idol_game_server.Stage.Battle.{queue_items, slot_notices, send_notices, explode}

-- Each player of the room with a monster, whose number is the player's and a million.
unfoldable pub creep_avatars : World → ℕ → BattleAvatar → List ℕ → List BattleAvatar
unfolding set_avatar
creep_avatars w r monster [] = []
creep_avatars w r monster (i ∷ clients) =
    set_avatar i (w.clients i) r (w.clients i).network_id false (w.rooms r).round
    ∷ record monster { network_id = (w.clients i).network_id + 1000000 }
    ∷ creep_avatars w r monster clients

-- The players put their items on; the doctor's tool stays what it is.
unfoldable pub prepare_creep : Random → List BattleAvatar → Scene → Fighters
unfolding prepare
prepare_creep random [] s = ([], s)
prepare_creep random (a ∷ []) s = (a ∷ [], s)
prepare_creep random (a ∷ b ∷ avatars) s =
    let (a', s') = prepare random false none a s in
    let (rest, s'') = prepare_creep random avatars s' in (a' ∷ b ∷ rest, s'')

unfoldable pub queue_creep : Random → List BattleAvatar → Scene → Fighters
unfolding queue_items
queue_creep random [] s = ([], s)
queue_creep random (a ∷ []) s = (a ∷ [], s)
queue_creep random (a ∷ b ∷ avatars) s =
    let (a', s') = queue_items random a s in
    let (rest, s'') = queue_creep random avatars s' in (a' ∷ b ∷ rest, s'')

unfoldable pub players_of : List BattleAvatar → List BattleAvatar
players_of [] = []
players_of (a ∷ []) = a ∷ []
players_of (a ∷ b ∷ avatars) = a ∷ players_of avatars

-- The beginning of a cycle: only the players get an order and are told so.
unfoldable pub begin_creep_cycle : Others → Random → ℕ → Fighters → Fighters
unfolding queue_creep slot_notices players_of
begin_creep_cycle others random r (avatars, s) =
    let (avatars', s') = queue_creep random avatars s in
    (avatars', send_notices others r (slot_notices (players_of avatars')) s')

-- A fight that is not over after ten cycles hurts the player.
unfoldable pub force_creep : ℕ → Bout → Bout
unfolding to_damage_character note_leaving
force_creep r b =
    let d = b.duel in
    let (w, me) = to_damage_character (10 + round_damage r d.world) true (d.world, d.me) in
    let (leaving, fault) = note_leaving r w me (b.leaving, d.fault) in
    record b { duel = record d { world = w; me = me; fault = fault }; leaving = leaving }

-- The creep stage in the loops of Stage/Fight.
unfoldable pub creep_rules : Others → Random → ℕ → Rules
creep_rules others random r = record {
  begin_cycle = begin_creep_cycle others random r;
  first_turn = player_turn random r;
  second_turn = creep_turn random r;
  end_cycle = λ b. settle_creep true random r (explode b);
  force = force_creep r;
}

-- `CreepStage` up to the first cycle.
unfoldable pub open_creep : Others → Random → ℕ → World → Fighters
unfolding get_creep_monster creep_avatars prepare_creep avatar_infos write send_stream
open_creep others random r w =
    let (w', monster) = get_creep_monster r w in
    let s =
      write
        (notification (pos 0) NotificationType.enter_creep_stage
          ∷ creep_stage_info (get_cur_creep_type (w.rooms r).creep_round)
          ∷ [])
        (new_scene w') in
    let (avatars, s') = prepare_creep random (creep_avatars w' r monster (w'.rooms r).clients) s in
    let s'' = send_stream r (write (avatar_infos s'.world avatars) s') in
    (
      avatars,
      on_world
          (λ v.
            sleep others
              (sleep others (send_packet_to_all_clients r (fade_out 1 ∷ []) (sleep others v))))
          s'',
    )

abbrev fight_creep : Others → Random → ℕ → ℕ → Fighters → Scene × Bool
fight_creep others random r open_count (avatars, s) =
    if goes_on r open_count s.world
    then fight others (creep_rules others random r) r open_count (avatars, s)
    else (s, false)

-- `Room::CreepStage`
unfoldable pub creep_stage_of : Others → Random → ℕ → World → Scene × Bool
unfolding set_status goes_on open_creep fight creep_rules
creep_stage_of others random r w =
    let w' = set_status r creep_stage w in
    let open_count = (w'.rooms r).open_count in
    if goes_on r open_count w'
    then fight_creep others random r open_count (open_creep others random r w')
    else (new_scene w', false)
