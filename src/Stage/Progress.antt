-- ===== src/Stage/Progress.antt =====
-- Room.cpp: `Room::ProgressThread`, from the choice of the characters to the end of the game.
use isegye_idol_game_server.Common.{
  ℕ, zero, suc, ◌+◌, Bool, true, false, List, [], ◌∷◌, if◌then◌else◌,
}
use isegye_idol_game_server.Types.{
  Random, pos, CharacterType, woowakgood, no_character, normal, advanced, top, supreme,
  choice_character_time, battle_ready_time, default_item_ticket_count,
}
use isegye_idol_game_server.Client.{Client, ticket_count, set_ticket_count}
use isegye_idol_game_server.Client.Inventory.{add_item}
use isegye_idol_game_server.Packet.{
  Packet, notification, NotificationType, change_character, set_ready_time, fade_in, fade_out,
  inventory_info_packet, set_item_ticket_packet,
}
use isegye_idol_game_server.Matching.{BattleInfo}
use isegye_idol_game_server.World.{
  World, choice_character, cut_scene_stage, ready_stage, modify_client, modify_room,
  send_packet_to_all_clients,
}
use isegye_idol_game_server.Room.{init_room, try_send_enter_in_game}
use isegye_idol_game_server.Stage.Prepare.{new_scene}
use isegye_idol_game_server.Stage.{
  Others, Scene, on_world, sleep, interrupted, write, send_stream, goes_on, set_status,
}
use isegye_idol_game_server.Stage.Battle.{battle_stage_of}
use isegye_idol_game_server.Stage.Monsters.{creep_stage_of}
use isegye_idol_game_server.Stage.Ready.{ready_stage_of}

-- Where the thread stands: it goes on, it has jumped to `loopOut`, or it has ended where it was.
pub data Game : Type 0 where
  plays leaves stops : Scene → Game

-- One part after the other.
infixl 20 ◌then_play◌
abbrev pub ◌then_play◌ : Game → (Scene → Game) → Game
plays s then_play f = f s
leaves s then_play f = leaves s
stops s then_play f = stops s

abbrev pub tested : ℕ → ℕ → Scene → Game
tested r open_count s = if goes_on r open_count s.world then plays s else leaves s

abbrev pub slept : Others → Scene → Scene
slept others = on_world (sleep others)

abbrev pub sent_to : ℕ → List Packet → Scene → Scene
sent_to r packets = on_world (send_packet_to_all_clients r packets)

-- `n` seconds of the choice of the characters.
unfoldable pub choose : Others → ℕ → ℕ → ℕ → Scene → Game
unfolding sleep try_send_enter_in_game goes_on
choose others r open_count zero s = plays s
choose others r open_count (suc n) s =
    let s' = on_world (λ w. try_send_enter_in_game r (sleep others w)) s in
    let rest = choose others r open_count n s' in
    if (s'.world.rooms r).is_finish_choice_character
    then plays s'
    else (if goes_on r open_count s'.world then rest else leaves s')

unfoldable pub characters : List ℕ → World → List Packet
characters [] w = []
characters (i ∷ clients) w =
    change_character (w.clients i).network_id (w.clients i).character_type ∷ characters clients w

abbrev pub scene_packets : List Packet
scene_packets =
    notification (pos 0) NotificationType.enter_cut_scene_stage
    ∷ set_ready_time battle_ready_time
    ∷ fade_out 1
    ∷ []

-- Everyone has chosen.
unfoldable pub after_choice : Others → ℕ → ℕ → Scene → Game
unfolding characters goes_on sleep
after_choice others r open_count s =
    tested r open_count (slept others (sent_to r (characters (s.world.rooms r).clients s.world) s))
    then_play λ t. plays (sent_to r scene_packets (slept others (sent_to r (fade_in 1 ∷ []) t)))

abbrev pub is_no_character : CharacterType → Bool
is_no_character no_character = true
is_no_character _ = false

-- A turn of the loop over the players when the time is up: who has no character is woowakgood.
unfoldable pub choose_one : ℕ → Scene → Scene
unfolding write modify_client
choose_one i s =
    let c = s.world.clients i in
    let s' =
      if is_no_character c.character_type
      then write (change_character c.network_id woowakgood ∷ [])
          (on_world (modify_client i (λ c. record c { character_type = woowakgood })) s)
      else s in
    if c.is_choice_character
    then s'
    else write (notification (pos c.network_id) NotificationType.choice_character ∷ []) s'

unfoldable pub choose_for : List ℕ → Scene → Scene
unfolding choose_one
choose_for [] s = s
choose_for (i ∷ clients) s = choose_for clients (choose_one i s)

-- The time is up.
unfoldable pub without_choice : Others → ℕ → ℕ → Scene → Game
unfolding choose_for write send_stream sleep goes_on
without_choice others r open_count s =
    tested r open_count (
      slept others (
        send_stream r (
          write
            (notification (pos 0) NotificationType.finish_choice_character_time ∷ fade_in 1 ∷ [])
            (choose_for (s.world.rooms r).clients s))))
    then_play λ t. plays (sent_to r scene_packets t)

-- The scene before the game.
unfoldable pub play_scene : Others → ℕ → ℕ → Scene → Game
unfolding goes_on sleep
play_scene others r open_count s =
    tested r open_count (slept others s)
    then_play (λ t. tested r open_count (slept others t))
    then_play (λ t. tested r open_count (slept others (sent_to r (fade_in 1 ∷ []) t)))
    then_play λ t.
        plays (sent_to r (notification (pos 0) NotificationType.finish_cut_scene_stage ∷ []) t)

-- The two items of the beginning, in the first places that are empty, and no tickets.
unfoldable pub equip : Client → Client
unfolding add_item set_ticket_count
equip c = set_ticket_count supreme default_item_ticket_count (
    set_ticket_count top default_item_ticket_count (
      set_ticket_count advanced default_item_ticket_count
        (set_ticket_count normal default_item_ticket_count (add_item 4 (add_item 1 c).0).0)))

abbrev ticket_packets : Client → List Packet
ticket_packets c =
    set_item_ticket_packet c.network_id normal (ticket_count normal c)
    ∷ set_item_ticket_packet c.network_id advanced (ticket_count advanced c)
    ∷ set_item_ticket_packet c.network_id top (ticket_count top c)
    ∷ set_item_ticket_packet c.network_id supreme (ticket_count supreme c)
    ∷ []

-- The inventory is shown before the tickets are set, which it does not hold.
unfoldable pub equip_all : List ℕ → Scene → Scene
unfolding equip write modify_client inventory_info_packet set_item_ticket_packet ticket_count
equip_all [] s = s
equip_all (i ∷ clients) s =
    let c = equip (s.world.clients i) in
    equip_all clients
      (write (inventory_info_packet c ∷ ticket_packets c) (on_world (modify_client i (λ x. c)) s))

-- The default items. The other threads go on meanwhile, and where the room then does not, the thread
-- ends here and now.
unfoldable pub hand_out : Others → ℕ → ℕ → Scene → Game
unfolding equip_all send_stream set_status goes_on sleep
hand_out others r open_count s =
    let s' =
      on_world (λ w. interrupted others (set_status r ready_stage w))
        (send_stream r (equip_all (s.world.rooms r).clients s)) in
    if goes_on r open_count s'.world then plays s' else stops s'

abbrev pub kept : Bool → Scene × Bool → Game
kept fault (s, true) = plays (record s { fault = if fault then true else s.fault })
kept fault (s, false) = leaves (record s { fault = if fault then true else s.fault })

module _ (others : Others) (shuffle : List BattleInfo → List BattleInfo) (random : Random)
    (r : ℕ) where
  unfoldable pub ready : Bool → Scene → Game
  ready is_next_stage_battle s =
      kept s.fault (ready_stage_of others shuffle random r is_next_stage_battle s.world)

  unfoldable pub battle : Scene → Game
  battle s = kept s.fault (battle_stage_of others random r s.world)

  unfoldable pub creep : Scene → Game
  creep s = kept s.fault (creep_stage_of others random r s.world)

  unfoldable pub next_round : Scene → Scene
  unfolding modify_room
  next_round = on_world (modify_room r (λ room. record room { round = room.round + 1 }))

  -- The first stages, three times with a monster.
  unfoldable pub first_round : Scene → Game
  unfolding ready creep next_round
  first_round s =
      ready false (slept others s)
      then_play (λ t. creep (slept others t))
      then_play (λ t. ready false (slept others t))
      then_play (λ t. creep (slept others t))
      then_play (λ t. ready false (slept others t))
      then_play (λ t. creep (slept others t))
      then_play λ t. plays (next_round (slept others t))

  -- A round: three battles and a monster.
  unfoldable pub play_round : Scene → Game
  unfolding ready battle creep next_round
  play_round s =
      ready true s
      then_play battle
      then_play ready true
      then_play battle
      then_play ready true
      then_play battle
      then_play ready false
      then_play creep
      then_play λ t. plays (next_round t)

  -- `n` rounds of the endless loop.
  unfoldable pub play_rounds : ℕ → Scene → Game
  play_rounds zero s = plays s
  play_rounds (suc n) s = play_round s then_play play_rounds n

  -- `loopOut`: the room is free again.
  unfoldable pub loop_out : Scene → Scene
  unfolding init_room modify_room
  loop_out = on_world (modify_room r (λ room. record (init_room room) { is_finish_thread = true }))

  abbrev chosen : ℕ → Scene → Game
  chosen open_count s =
      if (s.world.rooms r).is_finish_choice_character
      then after_choice others r open_count s
      else without_choice others r open_count s

  -- The thread up to the first stage, and from it through `n` rounds.
  unfoldable pub play : ℕ → World → Game
  unfolding choose after_choice without_choice play_scene hand_out first_round play_rounds
      modify_room set_status
  play n w =
      let w' =
        set_status r choice_character
          (modify_room r (λ room. record room { is_finish_thread = false }) w) in
      let open_count = (w'.rooms r).open_count in
      choose others r open_count choice_character_time (new_scene w')
      then_play (λ s. chosen open_count (on_world (set_status r cut_scene_stage) s))
      then_play play_scene others r open_count
      then_play hand_out others r open_count
      then_play first_round
      then_play play_rounds n

  abbrev pub closed : Game → Game
  closed (plays s) = plays s
  closed (leaves s) = leaves (loop_out s)
  closed (stops s) = stops s

  -- `Room::ProgressThread`, as far as `n` rounds of its loop.
  unfoldable pub progress_thread : ℕ → World → Game
  unfolding play loop_out
  progress_thread n w = closed (play n w)
