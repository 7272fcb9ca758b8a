-- ===== src/Types.antt =====
-- The data of Server/Server/ServerStruct.h, Item.h, ItemBase.h and SettingData.h: the enumerations,
-- the constants and the item of an inventory slot.
use isegye_idol_game_server.Common.{ℕ, ◌≤◌}

-- `ESocketStatus`
pub data SocketStatus : Type 0 where
  free allocated active : SocketStatus

-- `ECharacterType`; the last one is `Empty`
pub data CharacterType : Type 0 where
  woowakgood ine jingberger lilpa jururu gosegu viichan no_character : CharacterType

-- `EItemTicketType`
pub data ItemTicketType : Type 0 where
  normal advanced top supreme : ItemTicketType

-- `EHamburgerType`
pub data HamburgerType : Type 0 where
  fillet guinness white_garlic rice : HamburgerType

-- `ECreepType`
pub data CreepType : Type 0 where
  shrimp negative_man hodd wakpago short_answer chunsik kwon_min : CreepType

-- `EItemTierType`
pub data ItemTierType : Type 0 where
  one two three four five : ItemTierType

-- `EItemType`
pub data ItemType : Type 0 where
  attack defense effect heal empty : ItemType

-- `int32_t` where the source puts the `~n` of a ghost: `negsuc n`.
pub data ℤ : Type 0 where
  pos negsuc : ℕ → ℤ

-- `Random<int> gen(min, max)` of Random.h, a library over <random>: the `n`th number drawn by the
-- program, when the bounds are those.
abbrev pub Random : Type 0
Random = ℕ → ℕ → ℕ → ℕ

-- What <random> promises of `uniform_int_distribution`.
abbrev pub InRange : Random → Type 0
InRange random = (n lo hi : ℕ) → lo ≤ hi → (lo ≤ random n lo hi) × (random n lo hi ≤ hi)

abbrev pub max_room_player : ℕ
max_room_player = 8

abbrev pub max_using_item_count : ℕ
max_using_item_count = 6

abbrev pub max_un_using_item_count : ℕ
max_un_using_item_count = 10

abbrev pub max_room_count : ℕ
max_room_count = 2500

abbrev pub max_user : ℕ
max_user = 20000

abbrev pub choice_character_time : ℕ
choice_character_time = 60

abbrev pub battle_ready_time : ℕ
battle_ready_time = 40

abbrev pub default_item_ticket_count : ℕ
default_item_ticket_count = 0

abbrev pub max_item_upgrade : ℕ
max_item_upgrade = 5

abbrev pub max_character_max_hp : ℕ
max_character_max_hp = 100

abbrev pub max_avatar_max_hp : ℕ
max_avatar_max_hp = 100

abbrev pub empty_item : ℕ
empty_item = 0

-- `class Item`: four bytes.
pub record Item : Type 0 where
  pub type : ℕ
  pub active_percent : ℕ
  pub upgrade : ℕ
  pub slot : ℕ

-- `Item::SetEmptyItem`: the slot and the percentage of the place stay.
unfoldable pub set_empty_item : Item → Item
set_empty_item i = record i { type = empty_item; upgrade = 0 }

-- `Item::Item`; the constructor leaves `mSlot` unset, the argument is what stands there.
unfoldable pub new_item : ℕ → Item
new_item slot = record { type = empty_item; active_percent = 0; upgrade = 0; slot = slot }
