-- ===== src/Queue/Chain.antt =====
-- ServerQueue.cpp: a list on the heap, and what the writes of the queue leave of it.
use isegye_idol_game_server.Common.{
  ℕ, zero, suc, ◌+◌, ◌<◌, ◌≤◌, ◌≡◌, refl, ◌∙◌, Bool, true, false, ◌||◌, Option, none, some, List,
  [], ◌∷◌, ◌++◌, map, length, arith,
}
use isegye_idol_game_server.Queue.{Node, ServerQueue, load, owns, lock, walk, clients_from}

-- What a list stands for: the address and the client of each node, in order.
abbrev pub Cells : Type 0
Cells = List (ℕ × ℕ)

abbrev pub first_of : Cells → Option ℕ → Option ℕ
first_of [] end = end
first_of ((a, c) ∷ es) end = some a

abbrev pub last_of : Option ℕ → Cells → Option ℕ
last_of previous [] = previous
last_of previous ((a, c) ∷ es) = last_of (some a) es

abbrev pub last_address : ℕ → Cells → ℕ
last_address a [] = a
last_address a ((b, c) ∷ es) = last_address b es

abbrev pub node : ℕ → Option ℕ → Option ℕ → Node
node client next previous = record { client = client; next = next; previous = previous }

-- The nodes follow one another, behind `previous` and before `end`.
abbrev pub Chain : (ℕ → Option Node) → Option ℕ → Cells → Option ℕ → Type 0
Chain cell previous [] end = Unit
Chain cell previous ((a, c) ∷ es) end =
    (cell a ≡ some (node c (first_of es end) previous)) × Chain cell (some a) es end

-- The addresses rise from `low` on and stay below `high`.
abbrev pub Rises : ℕ → ℕ → Cells → Type 0
Rises low high [] = low ≤ high
Rises low high ((a, c) ∷ es) = (low ≤ a) × (a < high) × Rises (suc a) high es

pub Rises-weaken :
    (low low' high : ℕ) (es : Cells) → low' ≤ low → Rises low high es → Rises low' high es
Rises-weaken low low' high [] h r = omega arith
Rises-weaken low low' high ((a, c) ∷ es) h r = (omega arith, r.1, r.2)

pub Rises-extend : (low high : ℕ) (es : Cells) → Rises low high es → Rises low (high + 1) es
Rises-extend low high [] r = omega arith
Rises-extend low high ((a, c) ∷ es) r = (r.0, omega arith, Rises-extend (suc a) high es r.2)

pub Rises-le : (low high : ℕ) (es : Cells) → Rises low high es → low + length es ≤ high
Rises-le low high [] r = omega arith
Rises-le low high ((a, c) ∷ es) r = omega (arith, Rises-le (suc a) high es r.2)

pub last_of-address : (a : ℕ) (es : Cells) → last_of (some a) es ≡ some (last_address a es)
last_of-address a [] = refl
last_of-address a ((b, c) ∷ es) = last_of-address b es

pub le-last_address : (a high : ℕ) (es : Cells) → Rises (suc a) high es → a ≤ last_address a es
le-last_address a high [] r = omega arith
le-last_address a high ((b, c) ∷ es) r = omega (arith, le-last_address b high es r.2)

-- The part behind the first nodes.
pub Rises-drop :
    (low high a c : ℕ) (es fs : Cells)
    → Rises low high (((a, c) ∷ es) ++ fs)
    → Rises (suc (last_address a es)) high fs
Rises-drop low high a c [] fs r = r.2
Rises-drop low high a c ((b, d) ∷ es) fs r = Rises-drop (suc a) high b d es fs r.2

pub Rises-take : (low high : ℕ) (es fs : Cells) → Rises low high (es ++ fs) → Rises low high es
Rises-take low high [] [] r = r
Rises-take low high [] ((b, d) ∷ fs) r = omega (arith, Rises-le (suc b) high fs r.2)
Rises-take low high ((a, c) ∷ es) fs r = (r.0, r.1, Rises-take (suc a) high es fs r.2)

pub Rises-join :
    (low high a c : ℕ) (es fs : Cells)
    → Rises low high ((a, c) ∷ es)
    → Rises (suc (last_address a es)) high fs
    → Rises low high (((a, c) ∷ es) ++ fs)
Rises-join low high a c [] fs r s = (r.0, r.1, s)
Rises-join low high a c ((b, d) ∷ es) fs r s = (r.0, r.1, Rises-join (suc a) high b d es fs r.2 s)

first_of-append :
    (es fs : Cells) (end : Option ℕ) → first_of (es ++ fs) end ≡ first_of es (first_of fs end)
first_of-append [] fs end = refl
first_of-append ((a, c) ∷ es) fs end = refl

-- A list in two parts.
pub Chain-split :
    (cell : ℕ → Option Node) (previous end : Option ℕ) (es fs : Cells)
    → Chain cell previous (es ++ fs) end
    → Chain cell previous es (first_of fs end) × Chain cell (last_of previous es) fs end
Chain-split cell previous end [] fs k = (tt, k)
Chain-split cell previous end ((a, c) ∷ es) fs k =
    let (p, q) = Chain-split cell (some a) end es fs k.1 in
    ((rw (← first_of-append es fs end) k.0, p), q)

pub Chain-join :
    (cell : ℕ → Option Node) (previous end : Option ℕ) (es fs : Cells)
    → Chain cell previous es (first_of fs end)
    → Chain cell (last_of previous es) fs end
    → Chain cell previous (es ++ fs) end
Chain-join cell previous end [] fs k l = l
Chain-join cell previous end ((a, c) ∷ es) fs k l =
    (rw (first_of-append es fs end) k.0, Chain-join cell (some a) end es fs k.1 l)

-- A write to the last node, which gets another one behind it.
pub Chain-relink_last :
    (cell cell' : ℕ → Option Node) (previous end end' : Option ℕ) (low high a c : ℕ) (es : Cells)
    → Chain cell previous ((a, c) ∷ es) end
    → Rises low high ((a, c) ∷ es)
    → ((x : ℕ) → x < last_address a es → cell' x ≡ cell x)
    → ((n : Node)
        → cell (last_address a es) ≡ some n
        → cell' (last_address a es) ≡ some (record n { next = end' }))
    → Chain cell' previous ((a, c) ∷ es) end'
Chain-relink_last cell cell' previous end end' low high a c [] k r same link = (link _ k.0, tt)
Chain-relink_last cell cell' previous end end' low high a c ((b, d) ∷ es) k r same link = (
  same a (omega (arith, le-last_address b high es r.2.2)) ∙ k.0,
  Chain-relink_last cell cell' (some a) end end' (suc a) high b d es k.1 r.2 same link,
)

-- A list of which no node is written.
pub Chain-frame :
    (cell cell' : ℕ → Option Node) (previous end : Option ℕ) (low high : ℕ) (es : Cells)
    → Chain cell previous es end
    → Rises low high es
    → ((x : ℕ) → low ≤ x → cell' x ≡ cell x)
    → Chain cell' previous es end
Chain-frame cell cell' previous end low high [] k r same = tt
Chain-frame cell cell' previous end low high ((a, c) ∷ es) k r same = (
  same a r.0 ∙ k.0,
  Chain-frame cell cell' (some a) end (suc a) high es k.1 r.2 (λ x h. same x (omega (arith, r.0))),
)

-- A write to the first node, which gets another one before it.
pub Chain-relink_first :
    (cell cell' : ℕ → Option Node) (previous previous' end : Option ℕ) (low high a c : ℕ)
    (es : Cells)
    → Chain cell previous ((a, c) ∷ es) end
    → Rises low high ((a, c) ∷ es)
    → ((x : ℕ) → a < x → cell' x ≡ cell x)
    → ((n : Node) → cell a ≡ some n → cell' a ≡ some (record n { previous = previous' }))
    → Chain cell' previous' ((a, c) ∷ es) end
Chain-relink_first cell cell' previous previous' end low high a c es k r same link = (
  link _ k.0,
  Chain-frame cell cell' (some a) end (suc a) high es k.1 r.2 (λ x h. same x (omega arith)),
)

-- `n` steps lead to the last of `n + 1` nodes.
pub walk-last_of :
    (q : ServerQueue) (previous end : Option ℕ) (a c : ℕ) (es : Cells)
    → Chain q.cell previous ((a, c) ∷ es) end
    → walk (length es) q (some a) ≡ some (last_of (some a) es)
unfolding walk load
walk-last_of q previous end a c [] k = refl
walk-last_of q previous end a c ((b, d) ∷ es) k =
    rw (k.0, walk) (walk-last_of q (some a) end b d es k.1)

pub clients_from-Chain :
    (q : ServerQueue) (previous end : Option ℕ) (es : Cells)
    → Chain q.cell previous es end
    → clients_from (length es) q (first_of es end) ≡ some (map (λ (e : ℕ × ℕ). e.1) es, end)
unfolding clients_from load
clients_from-Chain q previous end [] k = refl
clients_from-Chain q previous end ((a, c) ∷ es) k =
    rw (k.0, clients_from-Chain q (some a) end es k.1) refl

or_right : (b : Bool) → (b || true) ≡ true
or_right true = refl
or_right false = refl

-- The list owns its last node.
owns-last :
    (q : ServerQueue) (previous end : Option ℕ) (n a c : ℕ) (es : Cells)
    → Chain q.cell previous ((a, c) ∷ es) end
    → length es < n
    → owns q n (some a) (last_address a es) ≡ true
unfolding owns
owns-last q previous end zero a c es k h = elim h [ ]
owns-last q previous end (suc n) a c [] k h = ground arith
owns-last q previous end (suc n) a c ((b, d) ∷ es) k h =
    rw (k.0, owns-last q (some a) end n b d es k.1 (omega arith)) (or_right _)

pub lock-last :
    (q : ServerQueue) (end : Option ℕ) (low a c : ℕ) (es : Cells)
    → q.client_queue ≡ some a
    → Chain q.cell none ((a, c) ∷ es) end
    → Rises low q.fresh ((a, c) ∷ es)
    → lock q (some (last_address a es)) ≡ some (last_address a es)
unfolding lock
lock-last q end low a c es h k r =
    rw
      (
        h,
        owns-last q none end q.fresh a c es k (omega (arith, Rises-le low q.fresh ((a, c) ∷ es) r)),
      )
      refl
