-- ===== src/Matching.antt =====
-- Server/Server/BattleManager.h and BattleManager.cpp: who fights whom in a round. A player without an
-- opponent fights a copy of one that has one, a ghost, whose number is negative.
pub mod Fair
use isegye_idol_game_server.Common.{
  ℕ, zero, suc, ◌+◌, Bool, true, false, not, Option, none, some, List, [], ◌∷◌, ◌++◌, get_elem?,
  ltb, ◌==◌, if◌then◌else◌, length,
}
use isegye_idol_game_server.Types.{max_room_player, Random, ℤ, pos, negsuc}

-- `BattleHistory`: an opponent, by its number, and how often it was fought.
pub record BattleHistory : Type 0 where
  pub client : ℕ
  pub battle_count : ℕ

-- `BattleInfo`; of the client only the number and the right to strike first are used. The latter is
-- never written after `Init`.
pub record BattleInfo : Type 0 where
  pub network_id : ℕ
  pub first_attack_state : ℕ
  pub battle_infos : List BattleHistory

-- `BattleInfo::GetBattleCount`
unfoldable pub get_battle_count : List BattleHistory → ℕ → ℕ
get_battle_count [] id = 0
get_battle_count (h ∷ infos) id =
    let rest = get_battle_count infos id in if h.client == id then h.battle_count else rest

-- `BattleInfo::AddBattleCount`
unfoldable pub add_counts : List BattleHistory → ℕ → List BattleHistory
add_counts [] id = []
add_counts (h ∷ infos) id =
    (if h.client == id then record h { battle_count = h.battle_count + 1 } else h)
    ∷ add_counts infos id

unfoldable pub add_battle_count : ℕ → BattleInfo → BattleInfo
add_battle_count id b = record b { battle_infos = add_counts b.battle_infos id }

abbrev histories : ℕ → List (ℕ × ℕ) → List BattleHistory
histories id [] = []
histories id ((n, state) ∷ clients) =
    let rest = histories id clients in
    if id == n then rest else record { client = n; battle_count = 0 } ∷ rest

-- `BattleInfo::BattleInfo`: a client, by its number and its right, and the clients of the room.
unfoldable pub new_battle_info : ℕ × ℕ → List (ℕ × ℕ) → BattleInfo
new_battle_info (n, state) clients = record {
  network_id = n;
  first_attack_state = state;
  battle_infos = histories n clients;
}

abbrev info_before :
    Option (ℕ × ℕ) → List (ℕ × ℕ) → Option (List BattleInfo) → Option (List BattleInfo)
unfolding new_battle_info
info_before none clients infos = none
info_before (some c) clients none = none
info_before (some c) clients (some infos) = some (new_battle_info c clients ∷ infos)

-- `n` turns of the loop of `SetClients` from the index `player` on; it reads eight clients, however many
-- there are.
unfoldable pub set_clients_loop : ℕ → ℕ → List (ℕ × ℕ) → Option (List BattleInfo)
unfolding info_before
set_clients_loop zero player clients = some []
set_clients_loop (suc n) player clients =
    info_before (get_elem? clients player) clients (set_clients_loop n (player + 1) clients)

-- `BattleManager::SetClients`
unfoldable pub set_clients : List (ℕ × ℕ) → Option (List BattleInfo)
unfolding set_clients_loop
set_clients clients = set_clients_loop max_room_player 0 clients

-- `BattleInfo::RemoveClient`
unfoldable pub remove_history : ℕ → List BattleHistory → List BattleHistory
remove_history id [] = []
remove_history id (h ∷ infos) =
    let rest = remove_history id infos in if h.client == id then infos else h ∷ rest

-- `BattleManager::RemoveClient`
unfoldable pub remove_client : ℕ → List BattleInfo → List BattleInfo
unfolding remove_history
remove_client id [] = []
remove_client id (b ∷ infos) =
    let rest = remove_client id infos in
    if b.network_id == id
    then rest
    else record b { battle_infos = remove_history id b.battle_infos } ∷ rest

abbrev is_less : ℕ → Option (ℕ × ℕ) → Bool
is_less count none = true
is_less count (some (i, best)) = ltb count best

abbrev index_of : Option (ℕ × ℕ) → Option ℕ
index_of none = none
index_of (some (i, best)) = some i

-- The search for the one that fought the player `id` least, from index `i` on; of equals the first.
unfoldable pub find_min : ℕ → List BattleInfo → ℕ → Option (ℕ × ℕ) → Option ℕ
find_min id [] i best = index_of best
find_min id (b ∷ infos) i best =
    let count = get_battle_count b.battle_infos id in
    let better = find_min id infos (i + 1) (some (i, count)) in
    let rest = find_min id infos (i + 1) best in if is_less count best then better else rest

abbrev pub remove {ℓ} : {A : Type ℓ} → List A → ℕ → List A
remove [] i = []
remove (x ∷ xs) zero = xs
remove (x ∷ xs) (suc i) = x ∷ remove xs i

-- Who strikes first: the greater right, or a number drawn where the two are equal.
unfoldable pub goes_first : Random → ℕ → BattleInfo → BattleInfo → Bool
goes_first random draws a b =
    if a.first_attack_state == b.first_attack_state
    then not (random draws 0 1 == 0)
    else ltb b.first_attack_state a.first_attack_state

abbrev draws_after : ℕ → BattleInfo → BattleInfo → ℕ
draws_after draws a b = if a.first_attack_state == b.first_attack_state then draws + 1 else draws

abbrev pub arrange {ℓ} : {A : Type ℓ} → Bool → A → A → List A → List A
arrange true x y list = x ∷ y ∷ list
arrange false x y list = y ∷ x ∷ list

abbrev pub Matched : Type 0
Matched = Option (List ℤ × List BattleInfo)

abbrev pub fight_before : Bool → ℤ → ℤ → Matched → Matched
fight_before b x y none = none
fight_before b x y (some (list, infos)) = some (arrange b x y list, infos)

-- The loop over the players that are not matched yet; it returns the list and the players in the order
-- in which they were matched. A ghost is looked for where there is nobody left; with nobody matched
-- either, the source reads an empty vector.
unfoldable pub match_loop : Random → ℕ → ℕ → List BattleInfo → List BattleInfo → Matched
unfolding find_min add_battle_count goes_first
match_loop random fuel draws [] matched = some ([], matched)
match_loop random zero draws (c ∷ rest) matched = none
match_loop random (suc fuel) draws (c ∷ rest) matched = elim (find_min c.network_id rest 0 none) [
  | some i ↦ elim (get_elem? rest i) [
    | none ↦ none
    | some m ↦ fight_before (goes_first random draws c m) (pos c.network_id) (pos m.network_id) (
        match_loop random fuel (draws_after draws c m) (remove rest i)
          (matched ++ (add_battle_count c.network_id m ∷ add_battle_count m.network_id c ∷ [])))
  ]
  | none ↦ elim (find_min c.network_id matched 0 none) [
    | none ↦ none
    | some i ↦ elim (get_elem? matched i) [
      | none ↦ none
      | some m ↦
          fight_before (goes_first random draws c m) (pos c.network_id) (negsuc m.network_id)
            (match_loop random fuel (draws_after draws c m) rest (matched ++ (c ∷ [])))
    ]
  ]
]

-- `BattleManager::GetBattleOpponent`, over std::shuffle
unfoldable pub get_battle_opponent :
    (List BattleInfo → List BattleInfo) → Random → ℕ → List BattleInfo → Matched
unfolding match_loop
get_battle_opponent shuffle random draws infos =
    match_loop random (length infos) draws (shuffle infos) []
