-- ===== src/Server/Leaving.antt =====
-- Server.cpp: `Disconnect` takes a client out of the queue, out of its room and off its place.
use isegye_idol_game_server.Common.{
  ℕ, ◌+◌, ◌-◌, ◌≡◌, refl, sym, ap, ◌∙◌, Bool, true, false, Option, none, some, List, [], ◌∷◌,
  length, arith, ◌==◌, ==_iff, Bool-cases, Option-cases, inl, inr,
}
use isegye_idol_game_server.Types.{free, allocated}
use isegye_idol_game_server.Client.{Client, init_client}
use isegye_idol_game_server.World.{World, Room, modify_client, modify_room}
use isegye_idol_game_server.Matching
use isegye_idol_game_server.Room.{
  send_packet_in_another_room_clients, send_packet_to_another_clients,
}
use isegye_idol_game_server.Queue.Waiting.{IsQueue}
use isegye_idol_game_server.Queue.Refines.{erase, remove_client-IsQueue}
use isegye_idol_game_server.Room.{contains, without, remove_room_client, init_room, init_if_empty}
use isegye_idol_game_server.Server.Connections.{leave_room, reset_client, disconnect, told, is_free}

length-without :
    (i : ℕ) (clients : List ℕ)
    → contains i clients ≡ true
    → length clients ≡ length (without i clients) + 1
unfolding contains without
length-without i [] h = cc
length-without i (x ∷ clients) h = elim (Bool-cases (x == i)) [
  | inl e ↦ rw e (omega arith)
  | inr e ↦ rw e (omega (arith, length-without i clients (rw e at h)))
]

without-missing :
    (i : ℕ) (clients : List ℕ) → contains i clients ≡ false → without i clients ≡ clients
unfolding contains without
without-missing i [] h = refl
without-missing i (x ∷ clients) h = elim (Bool-cases (x == i)) [
  | inl e ↦ let k = (rw e at h) in cc
  | inr e ↦ rw e (ap (λ xs. x ∷ xs) (without-missing i clients (rw e at h)))
]

no_length : (xs : List ℕ) → length xs ≡ 0 → xs ≡ []
no_length [] h = refl
no_length (x ∷ xs) h = let k : ⊥ = omega (arith, h) in elim k [ ]

init_if_empty-IsCounted :
    (r : Room)
    → r.size ≡ length r.clients
    → let r' = init_if_empty r in (r'.clients ≡ r.clients) × (r'.size ≡ length r'.clients)
unfolding init_if_empty init_room
init_if_empty-IsCounted r h = elim (Bool-cases (r.size == 0)) [
  | inl e ↦
      let none_left = no_length r.clients (omega (arith, h, (==_iff r.size 0).0 e)) in
      rw (init_if_empty, e) (sym none_left, refl)
  | inr e ↦ rw (init_if_empty, e) (refl, h)
]

remove_room_client-IsCounted :
    (i n : ℕ) (r : Room)
    → r.size ≡ length r.clients
    → let r' = remove_room_client i n r in
      (r'.clients ≡ without i r.clients) × (r'.size ≡ length r'.clients)
unfolding remove_room_client
remove_room_client-IsCounted i n r h = elim (Bool-cases (contains i r.clients)) [
  | inl e ↦
      rw (remove_room_client, e)
        (init_if_empty-IsCounted
          (record r {
            clients = without i r.clients;
            battle_manager = Matching.remove_client n r.battle_manager;
            size = r.size - 1;
          })
          (omega (arith, h, length-without i r.clients e)))
  | inr e ↦
      let (p, q) = init_if_empty-IsCounted r h in
      rw (remove_room_client, e) (p ∙ sym (without-missing i r.clients e), q)
]

-- Every room knows how many players it has.
abbrev pub AreCounted : World → Type 0
AreCounted w = (r : ℕ) → (w.rooms r).size ≡ length (w.rooms r).clients

-- The client `i` has gone, and no one else.
pub record HasLeft (i : ℕ) (w w' : World) (waiting : List ℕ) : Type 0 where
  pub queued : IsQueue w'.queue (erase waiting i)
  pub freed : (w'.clients i).status ≡ free
  pub in_no_room : (w'.clients i).room ≡ none
  pub others_kept : (j : ℕ) → (i == j) ≡ false → w'.clients j ≡ w.clients j
  pub taken_out :
      (r : ℕ) → (w.clients i).room ≡ some r → (w'.rooms r).clients ≡ without i (w.rooms r).clients
  pub still_counted : AreCounted w'

leave_room-IsCounted :
    (i : ℕ) (o : Option ℕ) (w : World) → AreCounted w → AreCounted (leave_room i o w)
unfolding leave_room modify_room
leave_room-IsCounted i none w h r = h r
leave_room-IsCounted i (some q) w h r = elim (Bool-cases (q == r)) [
  | inl e ↦ rw e (remove_room_client-IsCounted i (w.clients i).network_id (w.rooms q) (h q)).1
  | inr e ↦ rw e (h r)
]

leave_room-without :
    (i r : ℕ) (w : World)
    → AreCounted w
    → ((leave_room i (some r) w).rooms r).clients ≡ without i (w.rooms r).clients
unfolding leave_room modify_room
leave_room-without i r w h =
    rw ((==_iff r r).1 refl)
      (remove_room_client-IsCounted i (w.clients i).network_id (w.rooms r) (h r)).0

same_self : (i : ℕ) → (i == i) ≡ true
same_self i = (==_iff i i).1 refl

leave_room-same :
    (i : ℕ) (o : Option ℕ) (w : World)
    → ((leave_room i o w).clients ≡ w.clients) × ((leave_room i o w).queue ≡ w.queue)
unfolding leave_room modify_room
leave_room-same i none w = (refl, refl)
leave_room-same i (some r) w = (refl, refl)

reset_client-HasLeft :
    (i : ℕ) (w : World) (waiting : List ℕ)
    → IsQueue w.queue (erase waiting i)
    → AreCounted w
    → HasLeft i w (reset_client i w) waiting
unfolding reset_client modify_client init_client
reset_client-HasLeft i w waiting v h =
    let o = (w.clients i).room in
    let (c, q) = leave_room-same i o w in
    record {
      queued = rw q v;
      freed = rw (same_self i) refl;
      in_no_room = rw (same_self i) refl;
      others_kept = λ j e. rw (e, c) refl;
      taken_out = λ r e. rw e (leave_room-without i r w h);
      still_counted = leave_room-IsCounted i o w h;
    }

told-same :
    (b : Bool) (i : ℕ) (w : World)
    → let w' = told b i w in (w'.clients ≡ w.clients) × (w'.rooms ≡ w.rooms) × (w'.queue ≡ w.queue)
unfolding send_packet_in_another_room_clients send_packet_to_another_clients
told-same false i w = (refl, refl, refl)
told-same true i w = elim (Option-cases (w.clients i).room) [
  | inl e ↦ rw (send_packet_in_another_room_clients, e) (refl, refl, refl)
  | inr (r, e) ↦ rw (send_packet_in_another_room_clients, e) (refl, refl, refl)
]

-- `Disconnect` of a client that is connected returns, whether its room is told or not: the client waits
-- no more, its place is free and in no room, its room has the other players, in their order, and
-- counts them, and the other clients are as before; if the queue was in order and the rooms counted their
-- players.
pub disconnect-HasLeft :
    (i : ℕ) (b : Bool) (w : World) (waiting : List ℕ)
    → IsQueue w.queue waiting
    → AreCounted w
    → is_free (w.clients i).status ≡ false
    → (w' : World) × (disconnect i b w ≡ some w') × HasLeft i w w' waiting
unfolding disconnect modify_client
disconnect-HasLeft i b w waiting v h f =
    let (q, e, u) = remove_client-IsQueue i w.queue v in
    let t = told b i (record w { queue = q }) in
    let (clients, rooms, queue) = told-same b i (record w { queue = q }) in
    let w' = modify_client i (λ c. record c { status = allocated }) t in
    let left = reset_client-HasLeft i w' waiting (rw queue u) (rw rooms h) in
    (
      reset_client i w',
      rw (disconnect, f, e) refl,
      record {
        queued = left.queued;
        freed = left.freed;
        in_no_room = left.in_no_room;
        others_kept = λ j ne. left.others_kept j ne ∙ rw ne (ap (λ (g : ℕ → Client). g j) clients);
        taken_out = λ r p.
            left.taken_out r (rw (same_self i) (ap (λ (g : ℕ → Client). (g i).room) clients ∙ p))
            ∙ ap (λ (g : ℕ → Room). without i (g r).clients) rooms;
        still_counted = left.still_counted;
      },
    )
