-- ===== src/Stage/Ready.antt =====
-- Room.cpp: `Room::ReadyStage`.
use isegye_idol_game_server.Common.{
  ℕ, zero, suc, ◌+◌, ◌-◌, ◌*◌, Bool, true, false, Option, none, some, List, [], ◌∷◌, ◌++◌, max,
  if◌then◌else◌,
}
use isegye_idol_game_server.Types.{Random, pos, normal, battle_ready_time}
use isegye_idol_game_server.Client.{Client, ticket_count, set_ticket_count}
use isegye_idol_game_server.Client.Inventory.{try_set_default_using_item}
use isegye_idol_game_server.Packet.{
  Packet, notification, NotificationType, battle_opponents, set_ready_time, fade_in, fade_out,
  update_character_info_packet, set_item_ticket_packet,
}
use isegye_idol_game_server.Matching.{BattleInfo}
use isegye_idol_game_server.World.{World, ready_stage, modify_client, send_packet_to_all_clients}
use isegye_idol_game_server.Room.{apply_random_battle_opponent}
use isegye_idol_game_server.Stage.Prepare.{new_scene}
use isegye_idol_game_server.Stage.{
  Others, Scene, on_world, sleep, write, send_stream, goes_on, set_status,
}

-- `max(30, BATTLE_READY_TIME - round * 3) + 1`
unfoldable pub ready_time : ℕ → ℕ
ready_time round = max 30 (battle_ready_time - round * 3) + 1

abbrev opposed : ℕ → Scene → Option World → Scene
opposed r s none = record s { fault = true }
opposed r s (some w) = record s {
  world = w;
  stream = s.stream ++ (battle_opponents (w.rooms r).battle_opponents ∷ []);
}

-- Each player is shown as it was, and gets two tickets.
unfoldable pub give_tickets : List ℕ → Scene → Scene
unfolding write modify_client ticket_count set_ticket_count update_character_info_packet
    set_item_ticket_packet
give_tickets [] s = s
give_tickets (i ∷ clients) s =
    let c = s.world.clients i in
    let c' = set_ticket_count normal (ticket_count normal c + 2) c in
    give_tickets clients (
      write
        (update_character_info_packet c
          ∷ set_item_ticket_packet c.network_id normal (ticket_count normal c')
          ∷ [])
        (on_world (modify_client i (λ c. c')) s))

-- `n` seconds, in each of which the room may end.
unfoldable pub wait : Others → ℕ → ℕ → ℕ → World → World × Bool
unfolding sleep goes_on
wait others r open_count zero w = (w, true)
wait others r open_count (suc n) w =
    let w' = sleep others w in
    let rest = wait others r open_count n w' in
    if goes_on r open_count w' then rest else (w', false)

abbrev defaulted : ℕ → Option (Client × Bool) → Scene → Scene
defaulted i none s = record s { fault = true }
defaulted i (some (c, false)) s = on_world (modify_client i (λ x. c)) s
defaulted i (some (c, true)) s = record s {
  world = modify_client i (λ x. c) s.world;
  stream =
      s.stream ++ (notification (pos c.network_id) NotificationType.set_default_using_item ∷ []);
}

-- A player with nothing in use gets its default items.
unfoldable pub set_defaults : List ℕ → Scene → Scene
unfolding try_set_default_using_item modify_client
set_defaults [] s = s
set_defaults (i ∷ clients) s =
    set_defaults clients (defaulted i (try_set_default_using_item (s.world.clients i)) s)

unfoldable pub character_infos : List ℕ → World → List Packet
unfolding update_character_info_packet
character_infos [] w = []
character_infos (i ∷ clients) w =
    update_character_info_packet (w.clients i) ∷ character_infos clients w

-- `ReadyStage` up to the time of getting ready.
unfoldable pub open_ready :
    Others → (List BattleInfo → List BattleInfo) → Random → ℕ → Bool → World → Scene
unfolding apply_random_battle_opponent give_tickets ready_time write send_stream sleep
open_ready others shuffle random r is_next_stage_battle w =
    let s =
      if is_next_stage_battle
      then opposed r (new_scene w) (apply_random_battle_opponent shuffle random r w)
      else new_scene w in
    let s' =
      write
        (set_ready_time (ready_time (w.rooms r).round)
          ∷ notification (pos 0) NotificationType.enter_ready_stage
          ∷ [])
        s in
    on_world (λ v. send_packet_to_all_clients r (fade_out 1 ∷ []) (sleep others v))
      (send_stream r (give_tickets (s'.world.rooms r).clients s'))

-- The end of `ReadyStage`.
unfoldable pub close_ready : Others → ℕ → ℕ → Scene → Scene × Bool
unfolding set_defaults character_infos write send_stream goes_on sleep
close_ready others r open_count s =
    let clients = (s.world.rooms r).clients in
    let s' = set_defaults clients s in
    let s'' = send_stream r (write (character_infos clients s'.world) s') in
    if goes_on r open_count s''.world
    then (on_world (λ w. sleep others (send_packet_to_all_clients r (fade_in 1 ∷ []) w)) s'', true)
    else (s'', false)

abbrev waited : Others → ℕ → ℕ → Scene → World × Bool → Scene × Bool
waited others r open_count s (w, false) = (record s { world = w }, false)
waited others r open_count s (w, true) = close_ready others r open_count (record s { world = w })

-- `Room::ReadyStage`
unfoldable pub ready_stage_of :
    Others → (List BattleInfo → List BattleInfo) → Random → ℕ → Bool → World → Scene × Bool
unfolding set_status goes_on open_ready wait close_ready ready_time
ready_stage_of others shuffle random r is_next_stage_battle w =
    let w' = set_status r ready_stage w in
    let open_count = (w'.rooms r).open_count in
    let s = open_ready others shuffle random r is_next_stage_battle w' in
    if goes_on r open_count w'
    then waited others r open_count s
        (wait others r open_count (ready_time (w'.rooms r).round) s.world)
    else (new_scene w', false)
