-- ===== src/Server/Connections.antt =====
-- Server.cpp: a client comes (`EOperationType::Accept` in `WorkerThread`), waits for a room
-- (`cs_startMatching`) and goes (`Disconnect`); ServerQueue.cpp's calls of the rooms and the clients.
use isegye_idol_game_server.Common.{
  ℕ, zero, suc, ◌+◌, ◌-◌, ◌%◌, Bool, true, false, Option, none, some, List, [], ◌∷◌, ◌++◌, length,
  replicate, ◌==◌, if◌then◌else◌, ◌>>=◌,
}
use isegye_idol_game_server.Types.{
  SocketStatus, free, allocated, active, max_room_player, max_user, choice_character_time, pos,
}
use isegye_idol_game_server.Client.{init_client, is_valid_connect}
use isegye_idol_game_server.Packet.{
  Packet, notification, NotificationType, set_choice_character_time, connect_room, matching_info,
}
use isegye_idol_game_server.Queue
use isegye_idol_game_server.Queue.{ServerQueue, take_room, clients_from}
use isegye_idol_game_server.World.{
  World, Room, modify_client, modify_room, send_packet_to_all_clients,
  send_packet_in_all_room_clients, is_some,
}
use isegye_idol_game_server.Room.{
  add_clients, remove_room_client, send_packet_in_another_room_clients, get_un_used_room,
}
use isegye_idol_game_server.Server.Stage.{Outcome}

abbrev pub is_free : SocketStatus → Bool
is_free free = true
is_free _ = false

abbrev pub is_active : SocketStatus → Bool
is_active active = true
is_active _ = false

unfoldable pub leave_room : ℕ → Option ℕ → World → World
unfolding modify_room remove_room_client
leave_room i none w = w
leave_room i (some r) w = modify_room r (remove_room_client i (w.clients i).network_id) w

-- `Client::Init` with its call of `Room::RemoveClient`
unfoldable pub reset_client : ℕ → World → World
unfolding leave_room modify_client
reset_client i w = modify_client i init_client (leave_room i (w.clients i).room w)

-- `Server::SendPacket`
unfoldable pub send_packet : ℕ → List Packet → World → World
send_packet i packets w = record w { sent = record { receiver = i; packets = packets } ∷ w.sent }

abbrev pub told : Bool → ℕ → World → World
told false i w = w
told true i w =
    send_packet_in_another_room_clients i (notification (pos i) NotificationType.disconnect_server)
      w

-- `Server::Disconnect`
unfoldable pub disconnect : ℕ → Bool → World → Outcome
unfolding reset_client
disconnect i is_send_another_room_client w = if is_free (w.clients i).status then some w else do
  q ← Queue.remove_client i w.queue
  let w' = told is_send_another_room_client i (record w { queue = q })
  some (reset_client i (modify_client i (λ c. record c { status = allocated }) w'))

-- `Server::SendDisconnect`
unfoldable pub send_disconnect : ℕ → World → World
send_disconnect i w = if is_active (w.clients i).status then told true i w else w

-- `Server::SendDisconnectDelay`, where nothing else happens in the second before the client goes.
unfoldable pub send_disconnect_delay : ℕ → World → Outcome
unfolding disconnect
send_disconnect_delay i w =
    if is_active (w.clients i).status
    then disconnect i false (
        send_packet_in_all_room_clients i (notification (pos i) NotificationType.disconnect_server)
          w)
    else some w

abbrev created : World → Option (List ℕ) × ServerQueue → Option (World × Option ℕ)
created w (none, q) = some (record w { queue = q }, none)
created w (some clients, q) = do
  let opened = get_un_used_room w
  w' ← add_clients opened.1 clients opened.0
  some (record w' { queue = q }, some opened.1)

-- `ServerQueue::TryCreateRoomOrNullPtr`: the number of the room, if there is one.
unfoldable pub try_create_room : World → Option (World × Option ℕ)
try_create_room w = do taken ← take_room w.queue; created w taken

-- `sc_ConnectRoomPacket(room)`: eight numbers, 0 where there is no player.
unfoldable pub connect_room_packet : Room → Packet
connect_room_packet r = connect_room (r.clients ++ replicate (max_room_player - length r.clients) 0)

abbrev welcome : World × Option ℕ → World × Option ℕ
welcome (w, none) = (w, none)
welcome (w, some r) = (
  send_packet_to_all_clients r
      (set_choice_character_time choice_character_time ∷ connect_room_packet (w.rooms r) ∷ []) w,
  some r,
)

-- `cs_startMatching`, but for the name; with the room whose `ProgressThread` is started.
unfoldable pub start_matching : ℕ → World → Option (World × Option ℕ)
unfolding try_create_room connect_room_packet
start_matching i w = if is_some (w.clients i).room then some (w, none) else do
  q ← Queue.add_client i w.queue
  made ← try_create_room (record w { queue = q })
  some (welcome made)

abbrev send_each : List ℕ → Packet → World → World
send_each [] packet w = w
send_each (i ∷ clients) packet w = send_each clients packet (send_packet i (packet ∷ []) w)

-- `ServerQueue::SendMatchingQueueInfo`
unfoldable pub send_matching_queue_info : ℕ → World → Outcome
unfolding send_packet
send_matching_queue_info connection_count w = if w.queue.size == 0 then some w else do
  (clients, rest) ← clients_from w.queue.size w.queue w.queue.client_queue
  some (send_each clients (matching_info (w.queue.size % 256) (connection_count % 65536)) w)

-- The search for a free client among `n` from number `i` on.
unfoldable pub find_free : ℕ → ℕ → World → Option ℕ
find_free zero i w = none
find_free (suc n) i w =
    let rest = find_free n (i + 1) w in if is_free (w.clients i).status then some i else rest

-- The client `i` at a new socket. Where the port does not take the socket, the place is not given back.
unfoldable pub connect : Bool → ℕ → ℕ → Option ℕ → World → World
unfolding modify_client send_packet
connect registered socket now none w = w
connect registered socket now (some i) w =
    let w' = modify_client i (λ c. record c { status = allocated }) w in
    if registered
    then modify_client i (λ c. record c { last_connect_check_packet_time = now; status = active })
        (send_packet i (notification (pos i) NotificationType.connect_server ∷ [])
          (modify_client i (λ c. record c { prev_size = 0; socket = some socket }) w'))
    else w'

-- The case `EOperationType::Accept` of `WorkerThread`; `registered` is what the completion port says.
unfoldable pub accept : Bool → ℕ → ℕ → World → World
unfolding connect find_free
accept registered socket now w = connect registered socket now (find_free max_user 0 w) w

-- The check of the connections in `Server::Start`, of `n` clients from number `i` on, with the number
-- of those that stay.
unfoldable pub check_connections : ℕ → ℕ → ℕ → ℕ → World → Option (World × ℕ)
unfolding disconnect
check_connections zero now i count w = some (w, count)
check_connections (suc n) now i count w =
    if is_active (w.clients i).status
    then (let kept = check_connections n now (i + 1) (count + 1) w in
        let dropped = (do w' ← disconnect i true w; check_connections n now (i + 1) count w') in
        if is_valid_connect now (w.clients i) then kept else dropped)
    else (let rest = check_connections n now (i + 1) count w in rest)
