-- ===== src/Stage/Fought.antt =====
-- Room.cpp: the fights of a battle from the first cycle to the end.
use isegye_idol_game_server.Common.{
  ℕ, zero, suc, ◌+◌, ◌<◌, ◌≤◌, Bool, true, false, List, [], ◌∷◌, arith, if◌then◌else◌,
}
use isegye_idol_game_server.Types.{pos, Random, InRange, max_using_item_count}
use isegye_idol_game_server.Packet.{
  Packet, notification, NotificationType, fade_in, battle_time_info,
}
use isegye_idol_game_server.World.{send_packet_to_all_clients}
use isegye_idol_game_server.World.Safe.{send_packet_to_all_clients-IsSafeWorld}
use isegye_idol_game_server.Avatar.{BattleAvatar}
use isegye_idol_game_server.Stage.{Scene, Others, on_world, sleep, write, goes_on, send_off}
use isegye_idol_game_server.Stage.Turns.{
  take_turn-CarriesBout, end_cycle-CarriesBout, force_battle-CarriesBout,
}
use isegye_idol_game_server.Stage.Bout.{take_turn, settle}
use isegye_idol_game_server.Stage.Battle.{battle_rules, begin_battle_cycle, force_battle, explode}
use isegye_idol_game_server.Stage.Fight.{
  Fighters, Flow, goes, finishes, breaks, first_half, second_half, all_finished, remain_time,
  end_half, count_item, rest_of_item, play_item, play_items, close_cycle, play_cycles, force_end,
  finish_battle, last_client, ended, fight,
}
use isegye_idol_game_server.Stage.Safety.{
  IsSafeScene, IsHeld, first_half-IsHeld, second_half-IsHeld,
}
use isegye_idol_game_server.Stage.Upkeep.{
  KeepsServer, sleep-IsSafeWorld, send_off-IsSafeScene, disconnect_all-IsSafeScene,
}
use isegye_idol_game_server.Stage.Arming.{
  AreReadied, ArePairs-AreReadied, begin_battle_cycle-IsHeld,
}

abbrev IsHeldFlow : Flow → Type 0
IsHeldFlow (goes f) = IsHeld f
IsHeldFlow (finishes f) = IsHeld f
IsHeldFlow (breaks f) = IsHeld f

-- One part of the fights after another.
next-IsHeldFlow :
    (x : Flow) (k : Fighters → Flow)
    → ((f : Fighters) → IsHeld f → IsHeldFlow (k f))
    → IsHeldFlow x
    → IsHeldFlow (elim x [ goes f ↦ k f | finishes f ↦ finishes f | breaks f ↦ breaks f ])
next-IsHeldFlow (goes f) k h v = h f v
next-IsHeldFlow (finishes f) k h v = v
next-IsHeldFlow (breaks f) k h v = v

if-IsHeldFlow :
    (b : Bool) (x y : Flow) → IsHeldFlow x → IsHeldFlow y → IsHeldFlow (if b then x else y)
if-IsHeldFlow true x y p q = p
if-IsHeldFlow false x y p q = q

if-IsSafeScene :
    (b : Bool) (x y : Scene × Bool)
    → IsSafeScene x.0
    → IsSafeScene y.0
    → IsSafeScene (if b then x else y).0
if-IsSafeScene true x y p q = p
if-IsSafeScene false x y p q = q

module _ (others : Others) (random : Random) (r open_count : ℕ) (range : InRange random)
    (keeps : KeepsServer others) where
  slept : (s : Scene) → IsSafeScene s → IsSafeScene (on_world (sleep others) s)
  slept s (e, w, l) = (e, sleep-IsSafeWorld others keeps s.world w, l)

  end_half-IsHeld : (f : Fighters) → IsHeld f → IsHeld (end_half others r f)
  unfolding end_half write
  end_half-IsHeld f (ps, v) =
      let s = write (battle_time_info (remain_time (f.1).effect_item_count) ∷ []) f.1 in
      (ps, slept (send_off others r s) (send_off-IsSafeScene others keeps r s v))

  rest_of_item-IsHeld :
      (index : ℕ) (f : Fighters)
      → index < 6
      → IsHeld f
      → IsHeldFlow (rest_of_item others (battle_rules others random r) r open_count index f)
  unfolding rest_of_item battle_rules
  rest_of_item-IsHeld index (avatars, s) h v =
      let half = second_half (take_turn random r index) avatars (count_item s) in
      let g = end_half others r half in
      let k = end_half-IsHeld half (
        second_half-IsHeld (take_turn random r index) avatars (count_item s)
          (λ b a. take_turn-CarriesBout random r index b a h) v) in
      if-IsHeldFlow (all_finished g.0) _ _ k
        (if-IsHeldFlow (goes_on r open_count (g.1).world) _ _ k k)

  play_item-IsHeld :
      (index : ℕ) (f : Fighters)
      → index < 6
      → IsHeld f
      → IsHeldFlow (play_item others (battle_rules others random r) r open_count index f)
  unfolding play_item battle_rules
  play_item-IsHeld index (avatars, s) h v =
      let half = first_half (take_turn random r index) avatars (count_item s) in
      let g = end_half others r half in
      let k = end_half-IsHeld half (
        first_half-IsHeld (take_turn random r index) avatars (count_item s)
          (λ b a. take_turn-CarriesBout random r index b a h) v) in
      if-IsHeldFlow (all_finished g.0) _ _ k (rest_of_item-IsHeld index g h k)

  play_items-IsHeld :
      (n index : ℕ) (f : Fighters)
      → index + n ≤ 6
      → IsHeld f
      → IsHeldFlow (play_items others (battle_rules others random r) r open_count n index f)
  unfolding play_items
  play_items-IsHeld zero index f h v = v
  play_items-IsHeld (suc n) index f h v =
      next-IsHeldFlow _ _ (λ g k. play_items-IsHeld n (index + 1) g (omega arith) k)
        (play_item-IsHeld index f (omega arith) v)

  close_cycle-IsHeld :
      (f : Fighters)
      → IsHeld f
      → IsHeld (close_cycle others (battle_rules others random r) r open_count f)
  unfolding close_cycle battle_rules
  close_cycle-IsHeld (avatars, s) v =
      let (ps, k) =
        first_half-IsHeld (λ b. settle random r (explode b)) avatars s
          (λ b a. end_cycle-CarriesBout random r b) v in
      (
        ps,
        send_off-IsSafeScene others keeps r
            (first_half (λ b. settle random r (explode b)) avatars s).1 k,
      )

  -- A cycle, and what comes after it.
  cycle-IsHeld :
      (n : ℕ) (f : Fighters)
      → AreReadied f.0
      → IsSafeScene f.1
      → ((g : Fighters)
          → IsHeld g
          → IsHeldFlow (play_cycles others (battle_rules others random r) r open_count n g))
      → IsHeldFlow (play_cycles others (battle_rules others random r) r open_count (suc n) f)
  unfolding play_cycles battle_rules
  cycle-IsHeld n f v w rest =
      next-IsHeldFlow _ _ (λ g k. rest _ (close_cycle-IsHeld g k))
        (play_items-IsHeld max_using_item_count 0 (begin_battle_cycle others random r f)
          (omega arith) (begin_battle_cycle-IsHeld random range others keeps r f.0 f.1 v w))

  play_cycles-IsHeld :
      (n : ℕ) (f : Fighters)
      → IsHeld f
      → IsHeldFlow (play_cycles others (battle_rules others random r) r open_count n f)
  unfolding play_cycles
  play_cycles-IsHeld zero f v = v
  play_cycles-IsHeld (suc n) f (ps, w) =
      cycle-IsHeld n f (ArePairs-AreReadied f.0 ps) w (play_cycles-IsHeld n)

  force_end-IsSafeScene :
      (f : Fighters)
      → IsHeld f
      → IsSafeScene (force_end others (battle_rules others random r) r open_count f).1
  unfolding force_end battle_rules
  force_end-IsSafeScene (avatars, s) (ps, v) =
      let t = on_world (sleep others) s in
      let (_, k) =
        first_half-IsHeld (force_battle r) avatars t (λ b a. force_battle-CarriesBout r b)
          (ps, slept s v) in
      send_off-IsSafeScene others keeps r (first_half (force_battle r) avatars t).1 k

  told :
      (packets : List Packet) (s : Scene)
      → IsSafeScene s
      → IsSafeScene (on_world (send_packet_to_all_clients r packets) s)
  told packets s (e, w, l) = (e, send_packet_to_all_clients-IsSafeWorld r packets s.world w, l)

  last_client-IsSafeScene :
      (clients : List ℕ) (s : Scene)
      → IsSafeScene s
      → IsSafeScene (last_client others (battle_rules others random r) r open_count clients s)
  last_client-IsSafeScene [] s v = v
  last_client-IsSafeScene (i ∷ []) s v =
      let packets =
        notification (pos (s.world.clients i).network_id) NotificationType.disconnect_server ∷ [] in
      let t = on_world (send_packet_to_all_clients r packets) s in
      disconnect_all-IsSafeScene ((s.world.clients i).network_id ∷ []) (on_world (sleep others) t)
        ((v.1.present i).1, tt) (slept t (told packets s v))
  last_client-IsSafeScene (i ∷ j ∷ clients) s v = v

  finish_battle-IsSafeScene :
      (s : Scene)
      → IsSafeScene s
      → IsSafeScene (finish_battle others (battle_rules others random r) r open_count s).0
  unfolding finish_battle
  finish_battle-IsSafeScene s (e, w, l) =
      let clients = (s.world.rooms r).clients in
      let t = last_client others (battle_rules others random r) r open_count clients s in
      let (p, u, m) = slept t (last_client-IsSafeScene clients s (e, w, l)) in
      let v = sleep others t.world in
      if-IsSafeScene (goes_on r open_count v) _ _
        (
          p,
          sleep-IsSafeWorld others keeps _ (
              send_packet_to_all_clients-IsSafeWorld r (fade_in 1 ∷ []) (sleep others v)
                (sleep-IsSafeWorld others keeps v u)),
          m,
        )
        (p, u, m)

  ended-IsSafeScene :
      (x : Flow)
      → IsHeldFlow x
      → IsSafeScene (ended others (battle_rules others random r) r open_count x).0
  unfolding ended
  ended-IsSafeScene (goes f) v = finish_battle-IsSafeScene _ (force_end-IsSafeScene f v)
  ended-IsSafeScene (finishes f) v = finish_battle-IsSafeScene f.1 v.1
  ended-IsSafeScene (breaks f) v = v.1

  -- A whole battle, from the first cycle to the end, whatever is drawn and whoever leaves: where the
  -- avatars stand in pairs that have their items, of the table, and the numbers of clients, or have
  -- finished, no fault has come, who is to be disconnected is a client, the queue is in order, every client
  -- has its six places in use and its number, and the other threads keep these three so, no null pointer
  -- is followed, nothing is divided by zero, neither an avatar, an item, a place nor a client is looked up
  -- out of bounds, and the queue, the places and the numbers are in order afterwards.
  pub fight-IsSafeScene :
      (avatars : List BattleAvatar) (s : Scene)
      → AreReadied avatars
      → IsSafeScene s
      → IsSafeScene (fight others (battle_rules others random r) r open_count (avatars, s)).0
  unfolding fight
  fight-IsSafeScene avatars s v w =
      ended-IsSafeScene _ (cycle-IsHeld 9 (avatars, s) v w (play_cycles-IsHeld 9))
