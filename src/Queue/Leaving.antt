-- ===== src/Queue/Leaving.antt =====
-- ServerQueue.cpp: `RemoveClient` and the part of `TryCreateRoomOrNullPtr` that empties the queue.
use isegye_idol_game_server.Common.{
  ℕ, suc, ◌<◌, ◌≡◌, refl, ◌∙◌, false, Option, none, some, [], ◌∷◌, ◌++◌, arith,
}
use isegye_idol_game_server.Queue.{
  Node, ServerQueue, write, store, lock, set_next, set_previous, set_previous_of, unlink,
  is_address,
}
use isegye_idol_game_server.Queue.Chain.{
  Cells, first_of, last_address, node, Chain, Rises, Rises-weaken, last_of-address, le-last_address,
  Rises-join, Chain-join, Chain-relink_last, Chain-relink_first, lock-last,
}
use isegye_idol_game_server.Queue.Waiting.{write_self, write_ne}

-- The queue holds these nodes, whatever it says of their number.
pub record Holds (q : ServerQueue) (es : Cells) : Type 0 where
  pub first : q.client_queue ≡ first_of es none
  pub chained : Chain q.cell none es none
  pub risen : Rises 0 q.fresh es

-- The first node loses the one before it.
pub set_previous_of-Holds :
    (q : ServerQueue) (previous : Option ℕ) (low : ℕ) (es : Cells)
    → q.client_queue ≡ first_of es none
    → Chain q.cell previous es none
    → Rises low q.fresh es
    → (q' : ServerQueue) × (set_previous_of (first_of es none) none q ≡ some q')
      × Holds q' es
      × (q'.size ≡ q.size)
unfolding set_previous_of set_previous store
set_previous_of-Holds q previous low [] h k r =
    (q, refl, record { first = h; chained = tt; risen = omega arith }, refl)
set_previous_of-Holds q previous low ((d, c) ∷ es) h k r = (
  store d (node c (first_of es none) none) q,
  rw (k.0, set_previous) refl,
  record {
    first = h;
    chained =
        Chain-relink_first q.cell _ previous none none low q.fresh d c es k r
          (λ x s. write_ne q.cell d x _ (omega arith))
          (λ n e. write_self q.cell d _ ∙ (let t = k.0 in cc));
    risen = Rises-weaken low 0 q.fresh ((d, c) ∷ es) (omega arith) r;
  },
  refl,
)

-- The two writes of a removal between two nodes.
pub unlinked : ℕ → Node → Cells → ServerQueue → ServerQueue
unlinked b n [] q = store b (record n { next = none }) q
unlinked b n ((d, c) ∷ fs) q =
    store d (node c (first_of fs none) (some b)) (store b (record n { next = some d }) q)

-- Both writes leave the count alone.
pub unlinked-size :
    (b : ℕ) (n : Node) (fs : Cells) (q : ServerQueue) → (unlinked b n fs q).size ≡ q.size
unfolding unlinked store
unlinked-size b n [] q = refl
unlinked-size b n ((d, e) ∷ fs) q = refl

module _ (q : ServerQueue) (c a0 c0 a : ℕ) (n : Node) (pre : Cells)
    (head : q.client_queue ≡ some a0) (before : Chain q.cell none ((a0, c0) ∷ pre) (some a))
    (low : Rises 0 q.fresh ((a0, c0) ∷ pre)) (here : last_address a0 pre < a)
    (at_last : q.cell (last_address a0 pre) ≡ some n) where
  same_node :
      (end : Option ℕ) (n' : Node)
      → q.cell (last_address a0 pre) ≡ some n'
      → some (record n { next = end }) ≡ some (record n' { next = end })
  same_node end n' e = ground arith

  -- The nodes before the removed one after the first write.
  relinked :
      (end : Option ℕ)
      → Chain
          (store (last_address a0 pre) (record n { next = end }) q).cell
          none
          ((a0, c0) ∷ pre)
          end
  unfolding store
  relinked end =
      Chain-relink_last q.cell _ none (some a) end 0 q.fresh a0 c0 pre before low
        (λ x s. write_ne q.cell (last_address a0 pre) x _ (omega arith))
        (λ n' e. write_self q.cell (last_address a0 pre) _ ∙ same_node end n' e)

  locked : lock q (some (last_address a0 pre)) ≡ some (last_address a0 pre)
  locked = lock-last q (some a) 0 a0 c0 pre head before low

  locked_again :
      (end : Option ℕ)
      → lock (store (last_address a0 pre) (record n { next = end }) q) (some (last_address a0 pre))
        ≡ some (last_address a0 pre)
  unfolding store
  locked_again end = lock-last _ end 0 a0 c0 pre head (relinked end) low

  -- The nodes before and behind, once both writes are done.
  pub unlinked-Holds :
      (fs : Cells)
      → Chain q.cell (some a) fs none
      → Rises (suc a) q.fresh fs
      → Holds (unlinked (last_address a0 pre) n fs q) (((a0, c0) ∷ pre) ++ fs)
  unfolding unlinked store
  unlinked-Holds [] k r = record {
    first = head;
    chained = Chain-join _ none none ((a0, c0) ∷ pre) [] (relinked none) tt;
    risen = Rises-join 0 q.fresh a0 c0 pre [] low (omega arith);
  }
  unlinked-Holds ((d, e) ∷ fs) k r =
      let l = last_address a0 pre in
      let once = write q.cell l (record n { next = some d }) in
      let moved = node e (first_of fs none) (some l) in
      let twice = write once d moved in
      record {
        first = head;
        chained =
            Chain-join twice none none ((a0, c0) ∷ pre) ((d, e) ∷ fs)
              (Chain-relink_last q.cell twice none (some a) (some d) 0 q.fresh a0 c0 pre before low
                (λ x s.
                  write_ne once d x moved (omega arith)
                  ∙ write_ne q.cell l x (record n { next = some d }) (omega arith))
                (λ n' p.
                  write_ne once d l moved (omega arith)
                  ∙ write_self q.cell l (record n { next = some d })
                  ∙ same_node (some d) n' p))
              (rw (last_of-address a0 pre) (
                Chain-relink_first q.cell twice (some a) (some l) none (suc a) q.fresh d e fs k r
                  (λ x s.
                    write_ne once d x moved (omega arith)
                    ∙ write_ne q.cell l x (record n { next = some d }) (omega arith))
                  (λ n' p. write_self once d moved ∙ (let t = k.0 in ground arith))));
        risen =
            Rises-join 0 q.fresh a0 c0 pre ((d, e) ∷ fs) low
              (Rises-weaken (suc a) (suc l) q.fresh ((d, e) ∷ fs) (omega arith) r);
      }

  elsewhere : is_address (some a) q.client_queue ≡ false
  elsewhere = let h = le-last_address a0 q.fresh pre low.2 in rw head (ground arith)

  pub unlink-unlinked :
      (fs : Cells)
      → Chain q.cell (some a) fs none
      → Rises (suc a) q.fresh fs
      → unlink (some a) (node c (first_of fs none) (some (last_address a0 pre))) q
        ≡ some (unlinked (last_address a0 pre) n fs q)
  unfolding unlink set_next set_previous_of set_previous unlinked
  unlink-unlinked [] k r = rw (elsewhere, locked, set_next, at_last, set_previous_of) refl
  unlink-unlinked ((d, e) ∷ fs) k r =
      let l = last_address a0 pre in
      let next : (store l (record n { next = some d }) q).cell d
          ≡ some (node e (first_of fs none) (some a)) =
        unfold store in write_ne q.cell l d (record n { next = some d }) (omega arith) ∙ k.0 in
      let once = store l (record n { next = some d }) q in
      let second : set_previous_of (some d) (lock once (some l)) once
          ≡ some (store d (node e (first_of fs none) (some l)) once) =
        rw (locked_again (some d)) (rw (set_previous_of, set_previous, next) refl) in
      rw (elsewhere, locked, set_next, at_last) second
