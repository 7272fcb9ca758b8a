-- ===== src/Queue/Refines.antt =====
-- ServerQueue.cpp: the whole queue refines a list of clients.
use isegye_idol_game_server.Common.{
  ℕ, suc, ◌+◌, ◌-◌, ◌≡◌, refl, sym, ap, ◌∙◌, Option, none, some, List, [], ◌∷◌, ◌++◌, map, length,
  arith, ◌==◌, if◌then◌else◌, length-append, take, drop, leb, leb→le, take-append-drop, length-take,
  length-drop, map-take, map-drop, length-map, Bool-cases, inl, inr, ◌>>=◌,
}
use mathlib.Core.Path.{subst}
use mathlib.Core.List.{map-append, append_assoc}
use isegye_idol_game_server.Queue.{
  ServerQueue, load, unlink, count_down, remove_loop, remove_client, clients_from, take_room,
  first_room, add_client,
}
use isegye_idol_game_server.Queue.Chain.{
  Cells, first_of, last_of, last_address, node, Rises, Rises-drop, Rises-take, last_of-address,
  Chain-split, clients_from-Chain,
}
use isegye_idol_game_server.Queue.Waiting.{IsQueue, last_node, add_client-IsQueue}
use isegye_idol_game_server.Queue.Leaving.{
  Holds, set_previous_of-Holds, unlinked, unlinked-Holds, unlink-unlinked, unlinked-size,
}

-- The first occurrence goes.
unfoldable pub erase : List ℕ → ℕ → List ℕ
erase [] c = []
erase (x ∷ xs) c = let rest = erase xs c in if x == c then xs else x ∷ rest

-- The removal of one node, whatever stands before it.
unlink-Holds :
    (q : ServerQueue) (a c : ℕ) (pre fs : Cells)
    → Holds q (pre ++ ((a, c) ∷ fs))
    → (q' : ServerQueue) × (unlink (some a) (node c (first_of fs none) (last_of none pre)) q
        ≡ some q')
      × Holds q' (pre ++ fs)
      × (q'.size ≡ q.size)
unfolding unlink
unlink-Holds q a c [] fs v =
    let (q', e, h, s) =
      set_previous_of-Holds (record q { client_queue = first_of fs none }) (some a) (suc a) fs refl
        v.chained.1 v.risen.2 in
    (q', rw v.first (ground (arith, e)), h, s)
unlink-Holds q a c ((a0, c0) ∷ pre) fs v =
    let (before, behind) = Chain-split q.cell none none ((a0, c0) ∷ pre) ((a, c) ∷ fs) v.chained in
    let high = Rises-drop 0 q.fresh a0 c0 pre ((a, c) ∷ fs) v.risen in
    let low = Rises-take 0 q.fresh ((a0, c0) ∷ pre) ((a, c) ∷ fs) v.risen in
    let (n, at_last) = last_node q.cell none (some a) a0 c0 pre before in
    (
      unlinked (last_address a0 pre) n fs q,
      rw (last_of-address a0 pre)
          (unlink-unlinked q c a0 c0 a n pre v.first before low high.0 at_last fs behind.1 high.2),
      unlinked-Holds q c a0 c0 a n pre v.first before low high.0 at_last fs behind.1 high.2,
      unlinked-size (last_address a0 pre) n fs q,
    )

names : Cells → List ℕ
names = map (λ (e : ℕ × ℕ). e.1)

regroup :
    (pre : Cells) (a c : ℕ) (xs : List ℕ) → names (pre ++ (a, c) ∷ []) ++ xs ≡ names pre ++ c ∷ xs
unfolding names
regroup pre a c xs =
    rw (map-append (λ (e : ℕ × ℕ). e.1) pre ((a, c) ∷ [])) (append_assoc (names pre) (c ∷ []) xs)

-- The clients after the loop, which has gone past the nodes `pre`.
remove_loop-IsQueue :
    (client : ℕ) (q : ServerQueue) (pre fs : Cells)
    → Holds q (pre ++ fs)
    → q.size ≡ length (pre ++ fs)
    → (q' : ServerQueue) × (remove_loop (length fs) client (first_of fs none) q ≡ some q')
      × IsQueue q' (names pre ++ erase (names fs) client)
unfolding remove_loop erase load names count_down
remove_loop-IsQueue client q pre [] v s = (
  q,
  refl,
  record {
    cells = pre ++ [];
    named = map-append (λ (e : ℕ × ℕ). e.1) pre [];
    first = v.first;
    counted = s;
    chained = v.chained;
    risen = v.risen;
  },
)
remove_loop-IsQueue client q pre ((a, c) ∷ fs) v s =
    let (_, here) = Chain-split q.cell none none pre ((a, c) ∷ fs) v.chained in
    elim (Bool-cases (c == client)) [
      | inl found ↦
          let (q', e, h, z) = unlink-Holds q a c pre fs v in
          (
            count_down q',
            rw (here.0, found) (rw e refl),
            record {
              cells = pre ++ fs;
              named = rw found (map-append (λ (e : ℕ × ℕ). e.1) pre fs);
              first = h.first;
              counted =
                  omega (arith, length-append {0} pre fs, length-append {0} pre ((a, c) ∷ fs));
              chained = h.chained;
              risen = h.risen;
            },
          )
      | inr other ↦
          let next : pre ++ ((a, c) ∷ fs) ≡ (pre ++ (a, c) ∷ []) ++ fs =
            sym (append_assoc pre ((a, c) ∷ []) fs) in
          let (q', e, h) =
            remove_loop-IsQueue client q (pre ++ (a, c) ∷ []) fs (rw (← next) v) (rw (← next) s) in
          (
            q',
            rw (here.0, other) e,
            rw other (subst (IsQueue q') (regroup pre a c (erase (names fs) client)) h),
          )
    ]

-- `RemoveClient` takes the client out, wherever it stands, and does nothing where it does not wait.
pub remove_client-IsQueue :
    (client : ℕ) (q : ServerQueue) {clients : List ℕ}
    → IsQueue q clients
    → (q' : ServerQueue) × (remove_client client q ≡ some q') × IsQueue q' (erase clients client)
unfolding remove_client names
remove_client-IsQueue client q v =
    let (q', e, h) =
      remove_loop-IsQueue client q [] v.cells
        (record { first = v.first; chained = v.chained; risen = v.risen }) v.counted in
    (
      q',
      ap (λ n. remove_loop n client q.client_queue q) v.counted
          ∙ ap (λ p. remove_loop (length v.cells) client p q) v.first
          ∙ e,
      rw (← v.named) h,
    )

Rises-behind :
    (low high : ℕ) (es fs : Cells) → Rises low high (es ++ fs) → (low' : ℕ) × Rises low' high fs
Rises-behind low high [] fs r = (low, r)
Rises-behind low high ((a, c) ∷ es) fs r = Rises-behind (suc a) high es fs r.2

-- The first eight, if there are that many, and the others.
unfoldable pub split_eight : List ℕ → Option (List ℕ) × List ℕ
split_eight xs = if leb 8 (length xs) then (some (take 8 xs), drop 8 xs) else (none, xs)

first_of-append :
    (es fs : Cells) (end : Option ℕ) → first_of (es ++ fs) end ≡ first_of es (first_of fs end)
first_of-append [] fs end = refl
first_of-append ((a, c) ∷ es) fs end = refl

-- Eight or more wait.
first_room-IsQueue :
    (q : ServerQueue) (es fs : Cells)
    → Holds q (es ++ fs)
    → length es ≡ 8
    → q.size ≡ 8 + length fs
    → (q' : ServerQueue) × (first_room q ≡ some (some (names es), q')) × IsQueue q' (names fs)
unfolding first_room names
first_room-IsQueue q es fs v eight s =
    let (front, back) = Chain-split q.cell none none es fs v.chained in
    let (low, r) = Rises-behind 0 q.fresh es fs v.risen in
    let (q', e, h, z) =
      set_previous_of-Holds (record q { client_queue = first_of fs none }) (last_of none es) low fs
        refl back r in
    let c : clients_from 8 q q.client_queue ≡ some (names es, first_of fs none) =
      ap (λ n. clients_from n q q.client_queue) (sym eight)
      ∙ ap (λ p. clients_from (length es) q p) (v.first ∙ first_of-append es fs none)
      ∙ clients_from-Chain q none (first_of fs none) es front in
    (
      record q' { size = q'.size - 8 },
      rw (c, e) refl,
      record {
        cells = fs;
        named = refl;
        first = h.first;
        counted = omega arith;
        chained = h.chained;
        risen = h.risen;
      },
    )

-- What `TryCreateRoomOrNullPtr` takes.
take_room-IsQueue :
    (q : ServerQueue) {clients : List ℕ}
    → IsQueue q clients
    → (q' : ServerQueue) × (take_room q ≡ some ((split_eight clients).0, q'))
      × IsQueue q' (split_eight clients).1
unfolding take_room split_eight names
take_room-IsQueue q {clients} v =
    let whole = take-append-drop 8 v.cells in
    let long : length v.cells ≡ length clients =
      sym (length-map (λ (e : ℕ × ℕ). e.1) v.cells) ∙ ap length v.named in
    let same : leb 8 q.size ≡ leb 8 (length clients) = ap (leb 8) (v.counted ∙ long) in
    let taken : names (take 8 v.cells) ≡ take 8 clients =
      map-take (λ (e : ℕ × ℕ). e.1) 8 v.cells ∙ ap (take 8) v.named in
    let left : names (drop 8 v.cells) ≡ drop 8 clients =
      map-drop (λ (e : ℕ × ℕ). e.1) 8 v.cells ∙ ap (drop 8) v.named in
    elim (Bool-cases (leb 8 (length clients))) [
      | inl enough ↦
          let (q', e, h) =
            first_room-IsQueue q (take 8 v.cells) (drop 8 v.cells)
              (rw whole (record { first = v.first; chained = v.chained; risen = v.risen }))
              (length-take 8 v.cells (omega (arith, leb→le _ _ enough)))
              (omega (arith, leb→le _ _ enough, v.counted, length-drop 8 v.cells)) in
          (q', rw (same ∙ enough, enough, ← taken) e, rw (enough, ← left) h)
      | inr few ↦ (q, rw (same ∙ few, few) refl, rw few v)
    ]

-- What happens to the queue.
pub data QueueStep : Type 0 where
  joins leaves : ℕ → QueueStep
  fills : QueueStep

-- The rooms that the steps fill, and the queue after them.
abbrev noted : Option (List ℕ) → List (List ℕ) → List (List ℕ)
noted none rooms = rooms
noted (some clients) rooms = clients ∷ rooms

pub run : List QueueStep → ServerQueue → Option (List (List ℕ) × ServerQueue)
run [] q = some ([], q)
run (joins client ∷ steps) q = do q' ← add_client client q; run steps q'
run (leaves client ∷ steps) q = do q' ← remove_client client q; run steps q'
run (fills ∷ steps) q = do
  (room, q') ← take_room q
  (rooms, q'') ← run steps q'
  some (noted room rooms, q'')

-- The same on a list of the clients that wait.
pub run_list : List QueueStep → List ℕ → List (List ℕ) × List ℕ
unfolding split_eight erase
run_list [] clients = ([], clients)
run_list (joins client ∷ steps) clients = run_list steps (clients ++ client ∷ [])
run_list (leaves client ∷ steps) clients = run_list steps (erase clients client)
run_list (fills ∷ steps) clients =
    let (rooms, left) = run_list steps (split_eight clients).1 in
    (noted (split_eight clients).0 rooms, left)

-- Whatever clients join and leave in whatever order, and whenever rooms are filled: no pointer that is
-- null, or whose node is gone, is followed; the rooms get the clients, and the queue keeps the others,
-- that a plain list would, the first eight for a room where there are eight; and the links lead through
-- the clients forwards and backwards.
pub run-IsQueue :
    (steps : List QueueStep) (q : ServerQueue) (clients : List ℕ)
    → IsQueue q clients
    → (q' : ServerQueue) × (run steps q ≡ some ((run_list steps clients).0, q'))
      × IsQueue q' (run_list steps clients).1
unfolding run run_list
run-IsQueue [] q clients v = (q, refl, v)
run-IsQueue (joins client ∷ steps) q clients v =
    let (q', e, h) = add_client-IsQueue client q v in
    let (q'', e', h') = run-IsQueue steps q' (clients ++ client ∷ []) h in (q'', rw e e', h')
run-IsQueue (leaves client ∷ steps) q clients v =
    let (q', e, h) = remove_client-IsQueue client q v in
    let (q'', e', h') = run-IsQueue steps q' (erase clients client) h in (q'', rw e e', h')
run-IsQueue (fills ∷ steps) q clients v =
    let (q', e, h) = take_room-IsQueue q v in
    let (q'', e', h') = run-IsQueue steps q' (split_eight clients).1 h in (q'', rw (e, e') refl, h')
