-- ===== src/Stage/Upkeep.antt =====
-- Room.cpp: the end of each block of a stage, where players are told and disconnected, and the sleeps.
use isegye_idol_game_server.Common.{
  ℕ, ◌<◌, ◌==◌, ltb, lt→ltb, ◌≡◌, refl, Bool, true, false, Option, none, some, List, [], ◌∷◌,
  if◌then◌else◌, Bool-cases, inl, inr,
}
use isegye_idol_game_server.Types.{allocated, max_user}
use isegye_idol_game_server.Client.{Client, init_client}
use isegye_idol_game_server.World.{World, modify_client, modify_room}
use isegye_idol_game_server.World.Safe.{
  IsSafeWorld, same-IsSafeWorld, modify_client-IsSafeWorld, send_packet_to_all_clients-IsSafeWorld,
  init_client-IsPresent,
}
use isegye_idol_game_server.Queue.Refines.{remove_client-IsQueue}
use isegye_idol_game_server.Server.Connections.{leave_room, reset_client, disconnect, is_free}
use isegye_idol_game_server.Stage.{
  Others, Scene, on_world, sleep, write, send_stream, disconnect_all, unique, insert, farewells,
  send_off, is_empty,
}
use isegye_idol_game_server.Stage.Carries.{AreNumbers}
use isegye_idol_game_server.Stage.Safety.{IsSafeScene}

-- The other threads keep the server safe.
abbrev pub KeepsServer : Others → Type 0
KeepsServer others = (n : ℕ) (w : World) → IsSafeWorld w → IsSafeWorld (others n w)

leave_room-IsSafeWorld :
    (i : ℕ) (o : Option ℕ) (w : World) → IsSafeWorld w → IsSafeWorld (leave_room i o w)
unfolding leave_room modify_room
leave_room-IsSafeWorld i none w s = s
leave_room-IsSafeWorld i (some r) w s = same-IsSafeWorld w _ refl (λ j. refl) (λ j. refl) s

reset_client-IsSafeWorld : (i : ℕ) (w : World) → IsSafeWorld w → IsSafeWorld (reset_client i w)
unfolding reset_client
reset_client-IsSafeWorld i w s =
    modify_client-IsSafeWorld i init_client _ (init_client-IsPresent _)
      (leave_room-IsSafeWorld i (w.clients i).room w s)

-- `Disconnect` returns, and the queue and the places in use stay in order.
pub disconnect-IsSafeWorld :
    (i : ℕ) (w : World)
    → IsSafeWorld w
    → (w' : World) × (disconnect i false w ≡ some w') × IsSafeWorld w'
unfolding disconnect
disconnect-IsSafeWorld i w s =
    let (q, e, v) = remove_client-IsQueue i w.queue s.queued in
    let w' = record w { queue = q } in
    let allocate = λ (c : Client). record c { status = allocated } in
    elim (Bool-cases (is_free (w.clients i).status)) [
      | inl f ↦ (w, rw (disconnect, f) refl, s)
      | inr f ↦ (
        reset_client i (modify_client i allocate w'),
        rw (disconnect, f, e) refl,
        reset_client-IsSafeWorld i _ (
            modify_client-IsSafeWorld i allocate w' (λ k. k)
              (record { waiting = _; queued = v; present = s.present })),
      )
    ]

pub disconnect_all-IsSafeScene :
    (ids : List ℕ) (s : Scene) → AreNumbers ids → IsSafeScene s → IsSafeScene (disconnect_all ids s)
unfolding disconnect_all
disconnect_all-IsSafeScene [] s h v = v
disconnect_all-IsSafeScene (i ∷ ids) s (h, hs) (e, v, l) =
    let (w, p, k) = disconnect-IsSafeWorld i s.world v in
    rw (disconnect_all, lt→ltb i max_user h, p)
      (disconnect_all-IsSafeScene ids (record s { world = w }) hs (e, k, l))

if-AreNumbers :
    (b : Bool) (xs ys : List ℕ) → AreNumbers xs → AreNumbers ys → AreNumbers (if b then xs else ys)
if-AreNumbers true xs ys v w = v
if-AreNumbers false xs ys v w = w

insert-AreNumbers :
    (i : ℕ) (ids : List ℕ) → i < max_user → AreNumbers ids → AreNumbers (insert i ids)
insert-AreNumbers i [] h v = (h, v)
insert-AreNumbers i (x ∷ xs) h (g, v) =
    if-AreNumbers (ltb i x) _ _ (h, (g, v))
      (if-AreNumbers (i == x) _ _ (g, v) (g, insert-AreNumbers i xs h v))

unique-AreNumbers : (ids : List ℕ) → AreNumbers ids → AreNumbers (unique ids)
unfolding unique
unique-AreNumbers [] v = v
unique-AreNumbers (i ∷ ids) (h, v) = insert-AreNumbers i (unique ids) h (unique-AreNumbers ids v)

pub sleep-IsSafeWorld :
    (others : Others)
    → KeepsServer others
    → (w : World) → IsSafeWorld w
    → IsSafeWorld (sleep others w)
unfolding sleep
sleep-IsSafeWorld others k w s =
    same-IsSafeWorld (others w.clock w) _ refl (λ i. refl) (λ i. refl) (k w.clock w s)

if-IsSafeScene :
    (b : Bool) (s t : Scene) → IsSafeScene s → IsSafeScene t → IsSafeScene (if b then s else t)
if-IsSafeScene true s t p q = p
if-IsSafeScene false s t p q = q

pub send_off-IsSafeScene :
    (others : Others)
    → KeepsServer others
    → (r : ℕ) (s : Scene) → IsSafeScene s
    → IsSafeScene (send_off others r s)
unfolding send_off write send_stream
send_off-IsSafeScene others k r s (e, v, l) =
    let ids = unique s.leaving in
    let s' = write (farewells ids) (record s { leaving = [] }) in
    disconnect_all-IsSafeScene ids _ (unique-AreNumbers s.leaving l) (
      if-IsSafeScene (is_empty s'.stream) s' (on_world (sleep others) (send_stream r s')) (e, v, tt)
        (e, sleep-IsSafeWorld others k _ (send_packet_to_all_clients-IsSafeWorld r _ _ v), tt))
