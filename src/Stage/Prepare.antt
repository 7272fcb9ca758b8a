-- ===== src/Stage/Prepare.antt =====
-- Room.cpp: the avatars at the beginning of `BattleStage` and `CreepStage`, and what they put on.
use isegye_idol_game_server.Common.{
  ℕ, zero, suc, ◌+◌, Bool, true, false, ◌&&◌, Option, none, some, List, [], ◌∷◌, ◌==◌, ltb,
  get_elem?, set, if◌then◌else◌,
}
use isegye_idol_game_server.Types.{
  Random, HamburgerType, max_user, fillet, guinness, white_garlic, rice, Item, max_using_item_count,
  ℤ, pos, negsuc,
}
use isegye_idol_game_server.Packet.{Packet, set_hamburger_type, doctor_tool_info}
use isegye_idol_game_server.World.{World}
use isegye_idol_game_server.Avatar
use isegye_idol_game_server.Avatar.{BattleAvatar, set_finish, effect_bomb, init_cycle}
use isegye_idol_game_server.Avatar.Setup.{set_avatar, get_random_copy_item}
use isegye_idol_game_server.Items.{fitment_effect}
use isegye_idol_game_server.Stage.{Scene, on_world, write}
use isegye_idol_game_server.Stage.Bout.{shown_id, battle_avatar_info_packet}
use isegye_idol_game_server.Stage.Fight.{Fighters}

abbrev pub new_scene : World → Scene
new_scene w = record { world = w; stream = []; leaving = []; effect_item_count = 0; fault = false }

abbrev pub number_of : ℤ → ℕ
number_of (pos n) = n
number_of (negsuc n) = n

abbrev pub is_negative : ℤ → Bool
is_negative (pos n) = false
is_negative (negsuc n) = true

-- `Server::GetClient` of each of them stays within the clients.
unfoldable pub are_numbered : List ℤ → Bool
are_numbered [] = true
are_numbered (z ∷ opponents) = ltb (number_of z) max_user && are_numbered opponents

-- The avatars of a list of opponents.
unfoldable pub battle_avatars : World → ℕ → List ℤ → List BattleAvatar
unfolding set_avatar
battle_avatars w r [] = []
battle_avatars w r (z ∷ opponents) =
    set_avatar (number_of z) (w.clients (number_of z)) r (number_of z) (is_negative z)
      (w.rooms r).round
    ∷ battle_avatars w r opponents

abbrev hamburger_of : ℕ → HamburgerType
hamburger_of zero = fillet
hamburger_of (suc zero) = guinness
hamburger_of (suc (suc zero)) = white_garlic
hamburger_of (suc (suc (suc n))) = rice

-- A hamburger in the place `j` gets its kind (`GetRandomHamburgerType`).
unfoldable pub set_hamburger : Random → ℕ → BattleAvatar → Scene → BattleAvatar × Scene
unfolding shown_id write
set_hamburger random j a s =
    let type = hamburger_of (random s.world.draws 0 3) in
    (
      Avatar.set_hamburger_type type a,
      write (set_hamburger_type (shown_id a) j type ∷ [])
          (on_world (λ w. record w { draws = w.draws + 1 }) s),
    )

abbrev copied : ℕ → Option Item → Option Item → BattleAvatar → Scene → BattleAvatar × Scene
copied j none choice a s = (a, record s { fault = true })
copied j (some item) none a s = (a, record s { fault = true })
copied j (some item) (some choice) a s = (
  record a {
    using_item = set a.using_item j (record item { type = choice.type; upgrade = choice.upgrade });
  },
  write (doctor_tool_info (shown_id a) j choice.type choice.upgrade ∷ []) s,
)

-- The doctor's tool in the place `j` becomes a copy of an item of the opponent.
unfoldable pub set_copy :
    Random → ℕ → Option BattleAvatar → BattleAvatar → Scene → BattleAvatar × Scene
unfolding get_random_copy_item write shown_id
set_copy random j none a s = (a, record s { fault = true })
set_copy random j (some opponent) a s =
    copied j (get_elem? a.using_item j) (get_random_copy_item random s.world.draws opponent) a
      (on_world (λ w. record w { draws = w.draws + 1 }) s)

abbrev is_type : Option Item → ℕ → Bool
is_type none n = false
is_type (some item) n = item.type == n

abbrev is_missing : Option Item → Bool
is_missing none = true
is_missing (some item) = false

-- The place `j` of an avatar with that opponent; the tool is looked at in a battle only.
unfoldable pub prepare_place :
    Random → Bool → ℕ → Option BattleAvatar → BattleAvatar → Scene → BattleAvatar × Scene
prepare_place random tools j opponent a s =
    let item = get_elem? a.using_item j in
    if is_missing item
    then (a, record s { fault = true })
    else (if is_type item 7
        then set_hamburger random j a s
        else (if tools && is_type item 16 then set_copy random j opponent a s else (a, s)))

-- `n` places from `j` on.
unfoldable pub prepare_places :
    Random → Bool → ℕ → ℕ → Option BattleAvatar → BattleAvatar → Scene → BattleAvatar × Scene
prepare_places random tools zero j opponent a s = (a, s)
prepare_places random tools (suc n) j opponent a s =
    let (a', s') = prepare_place random tools j opponent a s in
    prepare_places random tools n (j + 1) opponent a' s'

-- `avatar.FitmentEffect()`
unfoldable pub put_on : Random → BattleAvatar → Scene → BattleAvatar × Scene
unfolding fitment_effect
put_on random a s = elim (fitment_effect random a) [
  | none ↦ (a, record s { fault = true })
  | some b ↦ (b, s)
]

-- An avatar puts its items on and looks at its places.
unfoldable pub prepare :
    Random → Bool → Option BattleAvatar → BattleAvatar → Scene → BattleAvatar × Scene
unfolding put_on prepare_places
prepare random tools opponent a s =
    let (b, t) = put_on random a s in
    prepare_places random tools max_using_item_count 0 opponent b t

-- The opponent of an avatar stands before or behind it, so that the second of a pair meets one that is
-- prepared.
unfoldable pub prepare_pair :
    Random → BattleAvatar → BattleAvatar → Scene → BattleAvatar × BattleAvatar × Scene
unfolding prepare
prepare_pair random a b s =
    let (a', s') = prepare random true (some b) a s in
    let (b', s'') = prepare random true (some a') b s' in (a', b', s'')

unfoldable pub prepare_battle : Random → List BattleAvatar → Scene → Fighters
unfolding prepare prepare_pair
prepare_battle random [] s = ([], s)
prepare_battle random (a ∷ []) s = let (a', s') = prepare random true none a s in (a' ∷ [], s')
prepare_battle random (a ∷ b ∷ avatars) s =
    let (a', b', s') = prepare_pair random a b s in
    let (rest, s'') = prepare_battle random avatars s' in (a' ∷ b' ∷ rest, s'')

unfoldable pub avatar_infos : World → List BattleAvatar → List Packet
unfolding battle_avatar_info_packet
avatar_infos w [] = []
avatar_infos w (a ∷ avatars) = battle_avatar_info_packet w a ∷ avatar_infos w avatars
