-- ===== src/Stage/Fight.antt =====
-- Room.cpp: the loops that the battle stage and the creep stage share: ten cycles of six items, in each
-- of which first one avatar of every pair attacks and then the other.
use isegye_idol_game_server.Common.{
  ℕ, zero, suc, ◌+◌, ◌-◌, ◌/◌, Bool, true, false, ◌&&◌, List, [], ◌∷◌, if◌then◌else◌,
}
use isegye_idol_game_server.Types.{pos, max_using_item_count}
use isegye_idol_game_server.Packet.{notification, NotificationType, battle_time_info, fade_in}
use isegye_idol_game_server.World.{send_packet_to_all_clients}
use isegye_idol_game_server.Avatar.{BattleAvatar}
use isegye_idol_game_server.Stage.{
  Others, Scene, on_world, sleep, write, send_off, goes_on, disconnect_all,
}
use isegye_idol_game_server.Stage.Bout.{Bout}

abbrev pub Fighters : Type 0
Fighters = List BattleAvatar × Scene

abbrev pub bout : BattleAvatar → BattleAvatar → Scene → Bout
bout me opponent s = record {
  duel = record { world = s.world; me = me; opponent = opponent; fault = s.fault };
  stream = s.stream;
  leaving = s.leaving;
}

abbrev pub after : Bout → Scene → Scene
after b s = record s {
  world = b.duel.world;
  stream = b.stream;
  leaving = b.leaving;
  fault = b.duel.fault;
}

-- `for (k = 0; k < avatarCount; k += 2)`: the first of each pair attacks, unless it has finished.
unfoldable pub first_half : (Bout → Bout) → List BattleAvatar → Scene → Fighters
first_half turn [] s = ([], s)
first_half turn (a ∷ []) s = (a ∷ [], if a.is_finish then s else record s { fault = true })
first_half turn (a ∷ b ∷ avatars) s =
    let met = turn (bout a b s) in
    let (rest, s') = first_half turn avatars (if a.is_finish then s else after met s) in
    (if a.is_finish then a ∷ b ∷ rest else met.duel.me ∷ met.duel.opponent ∷ rest, s')

-- `for (k = 1; k < avatarCount; k += 2)`: the second of each pair.
unfoldable pub second_half : (Bout → Bout) → List BattleAvatar → Scene → Fighters
second_half turn [] s = ([], s)
second_half turn (a ∷ []) s = (a ∷ [], s)
second_half turn (a ∷ b ∷ avatars) s =
    let met = turn (bout b a s) in
    let (rest, s') = second_half turn avatars (if b.is_finish then s else after met s) in
    (if b.is_finish then a ∷ b ∷ rest else met.duel.opponent ∷ met.duel.me ∷ rest, s')

unfoldable pub all_finished : List BattleAvatar → Bool
all_finished [] = true
all_finished (a ∷ avatars) = a.is_finish && all_finished avatars

-- `60 - 0.5f * effectItemCount` as a `uint8_t`; there are at most 120 of them.
unfoldable pub remain_time : ℕ → ℕ
remain_time n = (120 - n) / 2

-- The end of a half: the time, and the players without life.
unfoldable pub end_half : Others → ℕ → Fighters → Fighters
unfolding write remain_time send_off sleep
end_half others r (avatars, s) = (
  avatars,
  on_world (sleep others)
      (send_off others r (write (battle_time_info (remain_time s.effect_item_count) ∷ []) s)),
)

abbrev pub count_item : Scene → Scene
count_item s = record s { effect_item_count = s.effect_item_count + 1 }

-- How a part of a stage ends: it goes on, at the label `FinishBattle`, or with `return false`.
pub data Flow : Type 0 where
  goes finishes breaks : Fighters → Flow

-- What the two stages do in their own way: the beginning of a cycle, the two halves for an item, the
-- end of a cycle for a pair, and the end of a fight that lasts too long.
pub record Rules : Type 0 where
  pub begin_cycle : Fighters → Fighters
  pub first_turn : ℕ → Bout → Bout
  pub second_turn : ℕ → Bout → Bout
  pub end_cycle : Bout → Bout
  pub force : Bout → Bout

module _ (others : Others) (rules : Rules) (r open_count : ℕ) where
  -- The second half for an item, and the tests after it.
  unfoldable pub rest_of_item : ℕ → Fighters → Flow
  unfolding second_half end_half all_finished goes_on
  rest_of_item index (avatars, s) =
      let f = end_half others r (second_half (rules.second_turn index) avatars (count_item s)) in
      if all_finished f.0
      then finishes f
      else (if goes_on r open_count (f.1).world then goes f else breaks f)

  -- One item: both halves.
  unfoldable pub play_item : ℕ → Fighters → Flow
  unfolding first_half end_half all_finished rest_of_item
  play_item index (avatars, s) =
      let f = end_half others r (first_half (rules.first_turn index) avatars (count_item s)) in
      if all_finished f.0 then finishes f else rest_of_item index f

  -- The items from the `index`th on, `n` of them.
  unfoldable pub play_items : ℕ → ℕ → Fighters → Flow
  unfolding play_item
  play_items zero index f = goes f
  play_items (suc n) index f = elim (play_item index f) [
    | goes g ↦ play_items n (index + 1) g
    | finishes g ↦ finishes g
    | breaks g ↦ breaks g
  ]

  -- The end of a cycle.
  unfoldable pub close_cycle : Fighters → Fighters
  unfolding first_half send_off
  close_cycle (avatars, s) =
      let f = first_half rules.end_cycle avatars s in (f.0, send_off others r f.1)

  -- `n` cycles.
  unfoldable pub play_cycles : ℕ → Fighters → Flow
  unfolding play_items close_cycle
  play_cycles zero f = goes f
  play_cycles (suc n) f = elim (play_items max_using_item_count 0 (rules.begin_cycle f)) [
    | goes g ↦ play_cycles n (close_cycle g)
    | finishes g ↦ finishes g
    | breaks g ↦ breaks g
  ]

  -- The fights that are not over after ten cycles.
  unfoldable pub force_end : Fighters → Fighters
  unfolding sleep first_half send_off
  force_end (avatars, s) =
      let f = first_half rules.force avatars (on_world (sleep others) s) in
      (f.0, send_off others r f.1)

  abbrev pub last_client : List ℕ → Scene → Scene
  last_client (i ∷ []) s = disconnect_all ((s.world.clients i).network_id ∷ []) (
      on_world (sleep others) (
        on_world
          (send_packet_to_all_clients r (
            notification (pos (s.world.clients i).network_id) NotificationType.disconnect_server
            ∷ []))
          s))
  last_client clients s = s

  -- From the label `FinishBattle` on: a player who is left alone is disconnected; and whether the room
  -- goes on.
  unfoldable pub finish_battle : Scene → Scene × Bool
  unfolding sleep goes_on send_packet_to_all_clients disconnect_all
  finish_battle s =
      let s' = on_world (sleep others) (last_client (s.world.rooms r).clients s) in
      if goes_on r open_count s'.world
      then (
        on_world
            (λ w. sleep others (send_packet_to_all_clients r (fade_in 1 ∷ []) (sleep others w))) s',
        true,
      )
      else (s', false)

  unfoldable pub ended : Flow → Scene × Bool
  unfolding force_end finish_battle
  ended (goes f) = finish_battle (force_end f).1
  ended (finishes f) = finish_battle f.1
  ended (breaks f) = (f.1, false)

  -- The fights of a stage, from the first cycle to the end.
  unfoldable pub fight : Fighters → Scene × Bool
  unfolding play_cycles ended
  fight f = ended (play_cycles 10 f)
