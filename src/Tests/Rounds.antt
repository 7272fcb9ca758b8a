-- ===== src/Tests/Rounds.antt =====
-- The properties of BattleManager.cpp on three players.
use mathlib.Core.List.Perm
use isegye_idol_game_server.Common.{ℕ, List, [], ◌∷◌, arith}
use isegye_idol_game_server.Matching.{BattleInfo, get_battle_opponent}
use isegye_idol_game_server.Matching.Fair.{IsMatched, IsShuffle, get_battle_opponent-IsMatched}
use isegye_idol_game_server.Tests.Inputs.{highest_draws}

abbrev fighter : ℕ → BattleInfo
fighter n = record { network_id = n; first_attack_state = 0; battle_infos = [] }

-- The first two change places.
abbrev swap_first : List BattleInfo → List BattleInfo
swap_first [] = []
swap_first (x ∷ []) = x ∷ []
swap_first (x ∷ y ∷ infos) = y ∷ x ∷ infos

swap_first-IsShuffle : IsShuffle swap_first
swap_first-IsShuffle [] = Perm.refl []
swap_first-IsShuffle (x ∷ []) = Perm.refl (x ∷ [])
swap_first-IsShuffle (x ∷ y ∷ infos) = Perm.swap x y infos

get_battle_opponent-IsMatched_example :
    IsMatched
      (fighter 4 ∷ fighter 5 ∷ fighter 9 ∷ [])
      (get_battle_opponent swap_first highest_draws 0 (fighter 4 ∷ fighter 5 ∷ fighter 9 ∷ []))
get_battle_opponent-IsMatched_example =
    get_battle_opponent-IsMatched swap_first highest_draws 0
      (fighter 4 ∷ fighter 5 ∷ fighter 9 ∷ []) swap_first-IsShuffle (omega arith)
