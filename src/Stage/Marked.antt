-- ===== src/Stage/Marked.antt =====
-- Room.cpp: up to the default items `ProgressThread` keeps the mark that the room's thread runs.
use isegye_idol_game_server.Common.{
  ℕ, zero, suc, ◌≡◌, refl, ap, ◌∙◌, Bool, true, false, List, [], ◌∷◌, arith, if◌then◌else◌,
}
use isegye_idol_game_server.Packet.{Packet}
use isegye_idol_game_server.World.{
  World, Room, RoomStatusType, modify_client, modify_room, send_packet_to_all_clients,
}
use isegye_idol_game_server.Room.{try_send_enter_in_game}
use isegye_idol_game_server.Stage.{Others, Scene, sleep, write, send_stream, goes_on, set_status}
use isegye_idol_game_server.Stage.Progress.{
  Game, plays, leaves, stops, ◌then_play◌, tested, choose, after_choice, choose_one, choose_for,
  without_choice, play_scene, scene_packets, equip_all, hand_out,
}

-- The thread of the room is marked as running.
pub record Runs (r : ℕ) (w : World) : Type 0 where
  pub marked : (w.rooms r).is_finish_thread ≡ false

-- No other thread writes the mark of the room.
abbrev pub LeavesMark : ℕ → Others → Type 0
LeavesMark r others =
    (n : ℕ) (w : World) → ((others n w).rooms r).is_finish_thread ≡ (w.rooms r).is_finish_thread

-- A part of the game that keeps the mark.
pub data Kept (r : ℕ) : Game → Type 0 where
  on : {s : Scene} → Runs r s.world → Kept r (plays s)
  out : {s : Scene} → Kept r (leaves s)
  off : {s : Scene} → Runs r s.world → Kept r (stops s)

pub then_play-Kept :
    (r : ℕ) (g : Game) (f : Scene → Game)
    → Kept r g
    → ((s : Scene) → Runs r s.world → Kept r (f s))
    → Kept r (g then_play f)
then_play-Kept r (plays s) f (on k) h = h s k
then_play-Kept r (leaves s) f k h = out
then_play-Kept r (stops s) f (off k) h = off k

pub if-Kept : (r : ℕ) (b : Bool) (g h : Game) → Kept r g → Kept r h → Kept r (if b then g else h)
if-Kept r true g h k l = k
if-Kept r false g h k l = l

tested-Kept : (r open_count : ℕ) (s : Scene) → Runs r s.world → Kept r (tested r open_count s)
tested-Kept r open_count s k =
    if-Kept r (goes_on r open_count s.world) (plays s) (leaves s) (on k) out

pub set_status-Runs :
    (r : ℕ) (status : RoomStatusType) (w : World) → Runs r w → Runs r (set_status r status w)
unfolding set_status modify_room
set_status-Runs r status w k = record { marked = let m = k.marked in ground arith }

pub started-Runs :
    (r : ℕ) (w : World)
    → Runs r (modify_room r (λ room. record room { is_finish_thread = false }) w)
unfolding modify_room
started-Runs r w = record { marked = ground arith }

sent-Runs :
    (r : ℕ) (packets : List Packet) (w : World)
    → Runs r w
    → Runs r (send_packet_to_all_clients r packets w)
unfolding send_packet_to_all_clients
sent-Runs r packets w k = record { marked = k.marked }

try_send_enter_in_game-Runs : (r : ℕ) (w : World) → Runs r w → Runs r (try_send_enter_in_game r w)
unfolding try_send_enter_in_game send_packet_to_all_clients modify_room
try_send_enter_in_game-Runs r w k = record { marked = let m = k.marked in ground arith }

choose_one-rooms : (i : ℕ) (s : Scene) → (choose_one i s).world.rooms ≡ s.world.rooms
unfolding choose_one write modify_client
choose_one-rooms i s = ground arith

choose_for-rooms :
    (clients : List ℕ) (s : Scene) → (choose_for clients s).world.rooms ≡ s.world.rooms
unfolding choose_for
choose_for-rooms [] s = refl
choose_for-rooms (i ∷ clients) s = choose_for-rooms clients (choose_one i s) ∙ choose_one-rooms i s

equip_all-rooms : (clients : List ℕ) (s : Scene) → (equip_all clients s).world.rooms ≡ s.world.rooms
unfolding equip_all write modify_client
equip_all-rooms [] s = refl
equip_all-rooms (i ∷ clients) s = equip_all-rooms clients _

same_rooms : (r : ℕ) (w w' : World) → w'.rooms ≡ w.rooms → Runs r w → Runs r w'
same_rooms r w w' e k = record {
  marked = ap (λ (f : ℕ → Room). (f r).is_finish_thread) e ∙ k.marked;
}

module _ (others : Others) (r open_count : ℕ) (mark : LeavesMark r others) where
  sleep-Runs : (w : World) → Runs r w → Runs r (sleep others w)
  unfolding sleep
  sleep-Runs w k = record { marked = mark w.clock w ∙ k.marked }

  pub choose-Kept : (n : ℕ) (s : Scene) → Runs r s.world → Kept r (choose others r open_count n s)
  unfolding choose
  choose-Kept zero s k = on k
  choose-Kept (suc n) s k =
      let k' = try_send_enter_in_game-Runs r _ (sleep-Runs s.world k) in
      if-Kept r _ _ _ (on k') (if-Kept r _ _ _ (choose-Kept n _ k') out)

  pub after_choice-Kept : (s : Scene) → Runs r s.world → Kept r (after_choice others r open_count s)
  unfolding after_choice
  after_choice-Kept s k =
      then_play-Kept r _ _ (tested-Kept r open_count _ (sleep-Runs _ (sent-Runs r _ s.world k)))
        λ t l. on (sent-Runs r scene_packets _ (sleep-Runs _ (sent-Runs r _ t.world l)))

  pub without_choice-Kept :
      (s : Scene) → Runs r s.world → Kept r (without_choice others r open_count s)
  unfolding without_choice write send_stream
  without_choice-Kept s k =
      then_play-Kept r _ _
        (tested-Kept r open_count _ (
          sleep-Runs _ (
            sent-Runs r _ _
              (same_rooms r s.world _ (choose_for-rooms (s.world.rooms r).clients s) k))))
        λ t l. on (sent-Runs r scene_packets t.world l)

  pub play_scene-Kept : (s : Scene) → Runs r s.world → Kept r (play_scene others r open_count s)
  unfolding play_scene
  play_scene-Kept s k =
      then_play-Kept r _ _
        (then_play-Kept r _ _
          (then_play-Kept r _ _ (tested-Kept r open_count _ (sleep-Runs _ k))
            λ t l. tested-Kept r open_count _ (sleep-Runs _ l))
          λ t l. tested-Kept r open_count _ (sleep-Runs _ (sent-Runs r _ t.world l)))
        λ t l. on (sent-Runs r _ t.world l)

  pub hand_out-Kept : (s : Scene) → Runs r s.world → Kept r (hand_out others r open_count s)
  unfolding hand_out send_stream
  hand_out-Kept s k =
      let k' = sleep-Runs _ (
        set_status-Runs r _ _ (
          sent-Runs r _ _
            (same_rooms r s.world _ (equip_all-rooms (s.world.rooms r).clients s) k))) in
      if-Kept r _ _ _ (on k') (off k')
