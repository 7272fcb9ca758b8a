-- ===== src/Queue.antt =====
-- Server/Server/ServerQueue.h, ServerQueue.cpp, ServerQueueNode.h and ServerQueueNode.cpp: the players
-- that wait for a room, a doubly linked list on a heap. `shared_ptr` and `weak_ptr` are addresses;
-- null is `none`, and so is a read through null or through an address without a node. A weak pointer
-- leads to its node as long as the list still owns that node.
pub mod Chain
pub mod Waiting
pub mod Leaving
pub mod Refines
use isegye_idol_game_server.Common.{
  ℕ, zero, suc, ◌+◌, ◌-◌, Bool, true, false, ◌||◌, Option, none, some, List, [], ◌∷◌, leb, ◌==◌,
  if◌then◌else◌, ◌>>=◌,
}
use isegye_idol_game_server.Types.{max_room_player}

-- `class ServerQueueNode`
pub record Node : Type 0 where
  pub client : ℕ
  pub next : Option ℕ
  pub previous : Option ℕ

-- `class ServerQueue` and its heap. The nodes are numbered as they are made; `fresh` is the next one.
pub record ServerQueue : Type 0 where
  pub cell : ℕ → Option Node
  pub fresh : ℕ
  pub client_queue : Option ℕ
  pub size : ℕ

-- `ServerQueue::ServerQueue`
abbrev pub new_queue : ServerQueue
new_queue = record { cell = λ p. none; fresh = 0; client_queue = none; size = 0 }

-- `ServerQueueNode::ServerQueueNode`
unfoldable pub new_node : ℕ → Node
new_node client = record { client = client; next = none; previous = none }

-- `*p`
unfoldable pub load : ServerQueue → Option ℕ → Option Node
load q none = none
load q (some p) = q.cell p

unfoldable pub write : (ℕ → Option Node) → ℕ → Node → ℕ → Option Node
write cell p node a = if a == p then some node else cell a

unfoldable pub store : ℕ → Node → ServerQueue → ServerQueue
unfolding write
store p node q = record q { cell = write q.cell p node }

-- Is the node at `p` among the `n` that follow from `from`?
unfoldable pub owns : ServerQueue → ℕ → Option ℕ → ℕ → Bool
owns q n none p = false
owns q zero (some from) p = false
owns q (suc n) (some from) p =
    from == p || elim (q.cell from) [ none ↦ false | some node ↦ owns q n node.next p ]

-- `weak_ptr::lock`
unfoldable pub lock : ServerQueue → Option ℕ → Option ℕ
unfolding owns
lock q none = none
lock q (some p) = if owns q q.fresh q.client_queue p then some p else none

-- `node = node->Next`, `n` times.
unfoldable pub walk : ℕ → ServerQueue → Option ℕ → Option (Option ℕ)
unfolding load
walk zero q p = some p
walk (suc n) q p = elim (load q p) [ none ↦ none | some node ↦ walk n q node.next ]

-- `p->Next = next` and `p->Previous = previous`
unfoldable pub set_next : Option ℕ → Option ℕ → ServerQueue → Option ServerQueue
unfolding store
set_next none next q = none
set_next (some p) next q = elim (q.cell p) [
  | none ↦ none
  | some node ↦ some (store p (record node { next = next }) q)
]

unfoldable pub set_previous : Option ℕ → Option ℕ → ServerQueue → Option ServerQueue
unfolding store
set_previous none previous q = none
set_previous (some p) previous q = elim (q.cell p) [
  | none ↦ none
  | some node ↦ some (store p (record node { previous = previous }) q)
]

-- `make_shared<ServerQueueNode>(&client)`
unfoldable pub make_node : ℕ → ServerQueue → ServerQueue
unfolding store new_node
make_node client q = record (store q.fresh (new_node client) q) { fresh = q.fresh + 1 }

-- The new node behind the last one.
unfoldable pub append_node : ℕ → Option ℕ → ServerQueue → Option ServerQueue
unfolding make_node set_next set_previous
append_node client node q = do
  let q' = make_node client q
  q'' ← set_next node (some q.fresh) q'
  set_previous (some q.fresh) node q''

unfoldable pub count_up : ServerQueue → ServerQueue
count_up q = record q { size = q.size + 1 }

-- `ServerQueue::AddClient`
unfoldable pub add_client : ℕ → ServerQueue → Option ServerQueue
unfolding make_node append_node walk count_up
add_client client q =
    if q.size == 0
    then some (count_up (record (make_node client q) { client_queue = some q.fresh }))
    else do
      node ← walk (q.size - 1) q q.client_queue
      q' ← append_node client node q
      some (count_up q')

abbrev pub is_address : Option ℕ → Option ℕ → Bool
is_address none none = true
is_address (some p) (some p') = p == p'
is_address _ _ = false

-- `if (p != nullptr) p->Previous = previous`
unfoldable pub set_previous_of : Option ℕ → Option ℕ → ServerQueue → Option ServerQueue
unfolding set_previous
set_previous_of none previous q = some q
set_previous_of (some p) previous q = set_previous (some p) previous q

-- What `RemoveClient` does with the node of the client: as the first of the queue, or between two.
unfoldable pub unlink : Option ℕ → Node → ServerQueue → Option ServerQueue
unfolding set_next set_previous_of lock
unlink at node q =
    if is_address at q.client_queue
    then set_previous_of node.next none (record q { client_queue = node.next })
    else do
      q' ← set_next (lock q node.previous) node.next q
      set_previous_of node.next (lock q' node.previous) q'

unfoldable pub count_down : ServerQueue → ServerQueue
count_down q = record q { size = q.size - 1 }

-- `n` turns of the loop of `RemoveClient`.
unfoldable pub remove_loop : ℕ → ℕ → Option ℕ → ServerQueue → Option ServerQueue
unfolding load unlink count_down
remove_loop zero client at q = some q
remove_loop (suc n) client at q = do
  node ← load q at
  if node.client == client
      then (do q' ← unlink at node q; some (count_down q'))
      else remove_loop n client node.next q

-- `ServerQueue::RemoveClient`
unfoldable pub remove_client : ℕ → ServerQueue → Option ServerQueue
unfolding remove_loop
remove_client client q = remove_loop q.size client q.client_queue q

-- The clients of `n` nodes, and the node after them.
unfoldable pub clients_from : ℕ → ServerQueue → Option ℕ → Option (List ℕ × Option ℕ)
unfolding load
clients_from zero q at = some ([], at)
clients_from (suc n) q at = do
  node ← load q at
  (clients, rest) ← clients_from n q node.next
  some (node.client ∷ clients, rest)

first_room : ServerQueue → Option (Option (List ℕ) × ServerQueue)
first_room q = do
  (clients, rest) ← clients_from max_room_player q q.client_queue
  q' ← set_previous_of rest none (record q { client_queue = rest })
  some (some clients, record q' { size = q'.size - max_room_player })

-- `ServerQueue::TryCreateRoomOrNullPtr`, as far as the queue goes: the first eight leave it.
unfoldable pub take_room : ServerQueue → Option (Option (List ℕ) × ServerQueue)
unfolding first_room
take_room q = if leb max_room_player q.size then first_room q else some (none, q)
