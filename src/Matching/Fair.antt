-- ===== src/Matching/Fair.antt =====
-- BattleManager.cpp: in every round each player fights once, and only an odd one fights a ghost.
use mathlib.Core.List.{Perm, foldr}
use mathlib.Core.List.Perm
use native.Mathlib.Nat.{ℕ_set}
use isegye_idol_game_server.Common.{
  ℕ, zero, suc, ◌+◌, ◌*◌, ◌%◌, ◌<◌, ◌≤◌, ◌≡◌, refl, sym, ap, ◌∙◌, Bool, true, false, Option, none,
  some, List, [], ◌∷◌, map, ltb, if◌then◌else◌, get_elem?, length, arith, get_elem?_total,
  length-append,
}
use mathlib.Core.Option.{some_inj}
use isegye_idol_game_server.Types.{Random, ℤ, pos, negsuc}
use isegye_idol_game_server.Matching.{
  BattleInfo, find_min, remove, goes_first, draws_after, arrange, Matched, fight_before, match_loop,
  get_battle_opponent, get_battle_count, add_battle_count,
}

abbrev pub id_of : BattleInfo → ℕ
id_of b = b.network_id

-- The players of a list of opponents, without the ghosts.
abbrev pub players : List ℤ → List ℕ
players [] = []
players (pos n ∷ list) = n ∷ players list
players (negsuc n ∷ list) = players list

abbrev FindsBelow : ℕ → Option ℕ → Type 0
FindsBelow n o = (k : ℕ) × (o ≡ some k) × (k < n)

if-FindsBelow :
    (b : Bool) (n : ℕ) (o p : Option ℕ)
    → FindsBelow n o
    → FindsBelow n p
    → FindsBelow n (if b then o else p)
if-FindsBelow true n o p f g = f
if-FindsBelow false n o p f g = g

find_min_total :
    (id : ℕ) (infos : List BattleInfo) (i j count : ℕ)
    → j < i + length infos
    → FindsBelow (i + length infos) (find_min id infos i (some (j, count)))
unfolding find_min
find_min_total id [] i j count h = (j, refl, h)
find_min_total id (b ∷ infos) i j count h =
    let next : i + suc (length infos) ≡ i + 1 + length infos = omega arith in
    rw next (
      if-FindsBelow (ltb (get_battle_count b.battle_infos id) count) _ _ _
        (find_min_total id infos (i + 1) i (get_battle_count b.battle_infos id) (omega arith))
        (find_min_total id infos (i + 1) j count (omega (arith, h))))

-- Among some players there is one that fought a player least.
find_min-some :
    (id : ℕ) (b : BattleInfo) (infos : List BattleInfo)
    → FindsBelow (length (b ∷ infos)) (find_min id (b ∷ infos) 0 none)
unfolding find_min
find_min-some id b infos =
    let (k, e, h) =
      find_min_total id infos 1 0 (get_battle_count b.battle_infos id) (omega arith) in
    (k, e, omega (arith, h))

remove-perm :
    (xs : List BattleInfo) (i : ℕ) {x : BattleInfo}
    → get_elem? xs i ≡ some x
    → Perm (x.network_id ∷ map id_of (remove xs i)) (map id_of xs)
      × (suc (length (remove xs i)) ≡ length xs)
remove-perm [] i e = cc
remove-perm (y ∷ xs) zero e = rw (← some_inj.0 e) (Perm.refl _, refl)
remove-perm (y ∷ xs) (suc i) {x} e =
    let (p, l) = remove-perm xs i {x = x} e in
    (Perm.trans (Perm.swap y.network_id x.network_id _) (Perm.cons y.network_id p), ap suc l)

-- A round that is matched: each of the players stands in the list once, and the list has at most one
-- ghost, where the number of players is odd.
abbrev pub IsMatched : List BattleInfo → Matched → Type 0
IsMatched infos o =
    (list : List ℤ) × (infos' : List BattleInfo) × (o ≡ some (list, infos'))
    × Perm (players list) (map id_of infos)
    × (length list ≡ length infos + length infos % 2)

arrange-players :
    (b : Bool) (n m : ℕ) (list : List ℤ)
    → Perm (players (arrange b (pos n) (pos m) list)) (n ∷ m ∷ players list)
arrange-players true n m list = Perm.refl _
arrange-players false n m list = Perm.swap n m _

arrange-ghost :
    (b : Bool) (n m : ℕ) (list : List ℤ)
    → players (arrange b (pos n) (negsuc m) list) ≡ n ∷ players list
arrange-ghost true n m list = refl
arrange-ghost false n m list = refl

length-arrange :
    (b : Bool) (x y : ℤ) (list : List ℤ) → length (arrange b x y list) ≡ suc (suc (length list))
length-arrange true x y list = refl
length-arrange false x y list = refl

-- Two players matched, and then the others.
pair-IsMatched :
    (b : Bool) (c m : BattleInfo) (rest : List BattleInfo) (i : ℕ) (o : Matched)
    → get_elem? rest i ≡ some m
    → IsMatched (remove rest i) o
    → IsMatched (c ∷ rest) (fight_before b (pos c.network_id) (pos m.network_id) o)
pair-IsMatched b c m rest i o e (list, infos, f, p, l) =
    let (q, k) = remove-perm rest i {x = m} e in
    rw f (
      arrange b (pos c.network_id) (pos m.network_id) list,
      infos,
      refl,
      Perm.trans (arrange-players b c.network_id m.network_id list)
          (Perm.cons c.network_id (Perm.trans (Perm.cons m.network_id p) q)),
      omega (arith, l, k, length-arrange b (pos c.network_id) (pos m.network_id) list),
    )

-- The last one, and a ghost.
ghost-IsMatched :
    (b : Bool) (c m : BattleInfo) (infos : List BattleInfo)
    → IsMatched
        (c ∷ [])
        (fight_before b (pos c.network_id) (negsuc m.network_id) (some ([], infos)))
ghost-IsMatched b c m infos = (
  arrange b (pos c.network_id) (negsuc m.network_id) [],
  infos,
  refl,
  rw (arrange-ghost b c.network_id m.network_id []) (Perm.refl _),
  length-arrange b (pos c.network_id) (negsuc m.network_id) [],
)

match_loop-IsMatched :
    (random : Random) (fuel draws : ℕ) (infos matched : List BattleInfo)
    → length infos ≤ fuel
    → 2 ≤ length infos + 2 * length matched
    → IsMatched infos (match_loop random fuel draws infos matched)
unfolding match_loop
match_loop-IsMatched random fuel draws [] matched h some_left =
    ([], matched, refl, Perm.refl _, refl)
match_loop-IsMatched random zero draws (c ∷ rest) matched h two = absurd (omega (arith, h))
match_loop-IsMatched random (suc fuel) draws (c ∷ []) [] h two = absurd (omega (arith, two))
match_loop-IsMatched random (suc fuel) draws (c ∷ []) (d ∷ matched) h two =
    let (i, e, l) = find_min-some c.network_id d matched in
    let (m, f) = get_elem?_total (d ∷ matched) i l in
    rw (e, f, match_loop) (ghost-IsMatched (goes_first random draws c m) c m _)
match_loop-IsMatched random (suc fuel) draws (c ∷ d ∷ rest) matched h two =
    let (i, e, l) = find_min-some c.network_id d rest in
    let (m, f) = get_elem?_total (d ∷ rest) i l in
    let (_, k) = remove-perm (d ∷ rest) i {x = m} f in
    rw (e, f, match_loop)
      (pair-IsMatched (goes_first random draws c m) c m (d ∷ rest) i _ f (
        match_loop-IsMatched random fuel (draws_after draws c m) (remove (d ∷ rest) i) _
          (omega (arith, h, k))
          (omega (
            arith,
            length-append matched
                (add_battle_count c.network_id m ∷ add_battle_count m.network_id c ∷ []),
          ))))

length-foldr : (xs : List BattleInfo) → foldr (λ _ n. suc n) 0 xs ≡ length xs
length-foldr [] = refl
length-foldr (x ∷ xs) = ap suc (length-foldr xs)

-- What std::shuffle promises.
abbrev pub IsShuffle : (List BattleInfo → List BattleInfo) → Type 0
IsShuffle shuffle = (infos : List BattleInfo) → Perm (shuffle infos) infos

-- In a room of at least two players every one of them, whatever the shuffle and the numbers drawn,
-- stands in the list of opponents just once as itself; the list holds pairs only, and a ghost completes
-- it just where the number of players is odd.
pub get_battle_opponent-IsMatched :
    (shuffle : List BattleInfo → List BattleInfo) (random : Random) (draws : ℕ)
    (infos : List BattleInfo)
    → IsShuffle shuffle
    → 2 ≤ length infos
    → IsMatched infos (get_battle_opponent shuffle random draws infos)
unfolding get_battle_opponent
get_battle_opponent-IsMatched shuffle random draws infos s two =
    let p = s infos in
    let same : length (shuffle infos) ≡ length infos =
      sym (length-foldr (shuffle infos))
      ∙ Perm.foldr-eq ℕ_set (λ _ n. suc n) (λ _ _ _. refl) p 0
      ∙ length-foldr infos in
    let (list, infos', e, q, l) =
      match_loop-IsMatched random (length infos) draws (shuffle infos) [] (omega (arith, same))
        (omega (arith, same, two)) in
    (list, infos', e, Perm.trans q (Perm.map id_of p), omega (arith, l, same))
