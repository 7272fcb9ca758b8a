-- ===== src/Queue/Waiting.antt =====
-- ServerQueue.cpp refines a list: what each operation makes of the clients that wait.
use isegye_idol_game_server.Common.{
  ℕ, suc, ◌+◌, ◌-◌, ◌<◌, ◌≡◌, refl, ◌∙◌, ◌≢◌, false, Option, none, some, List, [], ◌∷◌, ◌++◌, map,
  length, arith, ◌==◌, length-append,
}
use mathlib.Core.List.{map-append}
use isegye_idol_game_server.Queue.{
  Node, ServerQueue, new_queue, write, store, set_next, set_previous, new_node, make_node,
  append_node, count_up, add_client,
}
use isegye_idol_game_server.Queue.Chain.{
  Cells, first_of, last_address, Chain, Rises, Rises-extend, last_of-address, Rises-join,
  Chain-join, Chain-relink_last, walk-last_of,
}

abbrev names : Cells → List ℕ
names = map (λ (e : ℕ × ℕ). e.1)

-- The heap holds the clients in a doubly linked list, in this order.
pub record IsQueue (q : ServerQueue) (clients : List ℕ) : Type 0 where
  pub cells : Cells
  pub named : map (λ (e : ℕ × ℕ). e.1) cells ≡ clients
  pub first : q.client_queue ≡ first_of cells none
  pub counted : q.size ≡ length cells
  pub chained : Chain q.cell none cells none
  pub risen : Rises 0 q.fresh cells

pub new_queue-IsQueue : IsQueue new_queue []
new_queue-IsQueue = record {
  cells = [];
  named = refl;
  first = refl;
  counted = refl;
  chained = tt;
  risen = omega arith;
}

pub write_self : (cell : ℕ → Option Node) (p : ℕ) (n : Node) → write cell p n p ≡ some n
unfolding write
write_self cell p n = ground arith

pub write_ne : (cell : ℕ → Option Node) (p x : ℕ) (n : Node) → x ≢ p → write cell p n x ≡ cell x
unfolding write
write_ne cell p x n h = ground arith

-- The queue after the first client, and after one behind others.
appended : ℕ → ℕ → Node → ServerQueue → ServerQueue
appended client l n q = record q {
  cell =
      write (write (write q.cell q.fresh (new_node client)) l (record n { next = some q.fresh }))
        q.fresh (record (new_node client) { previous = some l });
  fresh = q.fresh + 1;
}

append_node-appended :
    (client l : ℕ) (n : Node) (q : ServerQueue)
    → q.cell l ≡ some n
    → l < q.fresh
    → append_node client (some l) q ≡ some (appended client l n q)
unfolding append_node make_node set_next set_previous store appended
append_node-appended client l n q e h = ground (
  arith,
  write_ne q.cell q.fresh l (new_node client) (omega arith),
  write_ne (write q.cell q.fresh (new_node client)) l q.fresh (record n { next = some q.fresh })
      (omega arith),
  write_self q.cell q.fresh (new_node client),
)

-- The last node.
pub last_node :
    (cell : ℕ → Option Node) (previous end : Option ℕ) (a c : ℕ) (es : Cells)
    → Chain cell previous ((a, c) ∷ es) end
    → (n : Node) × (cell (last_address a es) ≡ some n)
last_node cell previous end a c [] k = (_, k.0)
last_node cell previous end a c ((b, d) ∷ es) k = last_node cell (some a) end b d es k.1

pub last_address-lt :
    (low high a c : ℕ) (es : Cells) → Rises low high ((a, c) ∷ es) → last_address a es < high
last_address-lt low high a c [] r = r.1
last_address-lt low high a c ((b, d) ∷ es) r = last_address-lt (suc a) high b d es r.2

appended-Chain :
    (client a c : ℕ) (es : Cells) (n : Node) (q : ServerQueue)
    → Chain q.cell none ((a, c) ∷ es) none
    → Rises 0 q.fresh ((a, c) ∷ es)
    → q.cell (last_address a es) ≡ some n
    → Chain
        (appended client (last_address a es) n q).cell
        none
        (((a, c) ∷ es) ++ ((q.fresh, client) ∷ []))
        none
unfolding appended new_node
appended-Chain client a c es n q k r e =
    let l = last_address a es in
    let h = last_address-lt 0 q.fresh a c es r in
    Chain-join _ none none ((a, c) ∷ es) ((q.fresh, client) ∷ [])
      (Chain-relink_last q.cell _ none none (some q.fresh) 0 q.fresh a c es k r
        (λ x s.
          write_ne _ q.fresh x _ (omega arith)
          ∙ write_ne _ l x _ (omega arith)
          ∙ write_ne _ q.fresh x _ (omega arith))
        (λ n' e'. write_ne _ q.fresh l _ (omega arith) ∙ write_self _ l _ ∙ cc))
      (rw (last_of-address a es) (write_self _ q.fresh _), tt)

-- The state after the first client of an empty queue.
add_first :
    (client : ℕ) (q : ServerQueue)
    → q.size ≡ 0
    → (q' : ServerQueue) × (add_client client q ≡ some q') × IsQueue q' (client ∷ [])
unfolding add_client make_node count_up store new_node
add_first client q h = (
  count_up (record (make_node client q) { client_queue = some q.fresh }),
  ground arith,
  record {
    cells = (q.fresh, client) ∷ [];
    named = refl;
    first = refl;
    counted = omega arith;
    chained = (write_self q.cell q.fresh (new_node client), tt);
    risen = (omega arith, omega arith, omega arith);
  },
)

add_client-appended :
    (client a c : ℕ) (es : Cells) (n : Node) (q : ServerQueue)
    → q.client_queue ≡ some a
    → q.size ≡ suc (length es)
    → Chain q.cell none ((a, c) ∷ es) none
    → q.cell (last_address a es) ≡ some n
    → last_address a es < q.fresh
    → add_client client q ≡ some (count_up (appended client (last_address a es) n q))
unfolding add_client
add_client-appended client a c es n q h s k e l =
    let t : q.size - 1 ≡ length es = omega arith in
    let z : (q.size == 0) ≡ false = ground arith in
    ground (
      arith,
      walk-last_of q none none a c es k,
      last_of-address a es,
      append_node-appended client (last_address a es) n q e l,
    )

add_cells :
    (client : ℕ) (q : ServerQueue) (es : Cells)
    → q.client_queue ≡ first_of es none
    → q.size ≡ length es
    → Chain q.cell none es none
    → Rises 0 q.fresh es
    → (q' : ServerQueue) × (add_client client q ≡ some q') × IsQueue q' (names es ++ client ∷ [])
unfolding count_up appended
add_cells client q [] h s k r = add_first client q s
add_cells client q ((a, c) ∷ es) h s k r =
    let (n, e) = last_node q.cell none none a c es k in
    let l = last_address-lt 0 q.fresh a c es r in
    (
      count_up (appended client (last_address a es) n q),
      add_client-appended client a c es n q h s k e l,
      record {
        cells = ((a, c) ∷ es) ++ ((q.fresh, client) ∷ []);
        named = map-append (λ (e : ℕ × ℕ). e.1) ((a, c) ∷ es) ((q.fresh, client) ∷ []);
        first = h;
        counted = omega (arith, length-append {0} es ((q.fresh, client) ∷ []));
        chained = appended-Chain client a c es n q k r e;
        risen =
            Rises-join 0 (q.fresh + 1) a c es ((q.fresh, client) ∷ [])
              (Rises-extend 0 q.fresh ((a, c) ∷ es) r) (omega arith, omega arith, omega arith);
      },
    )

-- `AddClient` puts the client behind the others.
pub add_client-IsQueue :
    (client : ℕ) (q : ServerQueue) {clients : List ℕ}
    → IsQueue q clients
    → (q' : ServerQueue) × (add_client client q ≡ some q') × IsQueue q' (clients ++ client ∷ [])
add_client-IsQueue client q v =
    rw (← v.named) (add_cells client q v.cells v.first v.counted v.chained v.risen)
