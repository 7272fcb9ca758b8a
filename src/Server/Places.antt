-- ===== src/Server/Places.antt =====
-- Server.cpp: the requests that change the places of an inventory: `cs_sc_changeItemSlot`,
-- `cs_sc_dropItem` and `cs_requestUpgradeItem`.
use isegye_idol_game_server.Common.{
  ℕ, ◌+◌, Bool, not, ◌||◌, Option, none, some, ◌==◌, leb, if◌then◌else◌,
}
use isegye_idol_game_server.Types.{Item, empty_item, set_empty_item}
use isegye_idol_game_server.Client.{Client}
use isegye_idol_game_server.Client.Inventory.{get_item, put_item, swap_item}
use isegye_idol_game_server.World.{World}
use isegye_idol_game_server.Server.Stage.{
  Outcome, is_ready_stage, with_room, send_inventory, changed,
}

-- `cs_sc_changeItemSlot`. The room is the one of the client that the packet names; the items are those
-- of the client that sent it.
unfoldable pub change_item_slot : ℕ → ℕ → ℕ → ℕ → World → Outcome
change_item_slot network_id id slot1 slot2 w = with_room (w.clients id).room w λ r.
    if is_ready_stage (w.rooms r).cur_room_status_type
    then changed network_id id network_id w (swap_item slot1 slot2 (w.clients network_id))
    else some (send_inventory network_id id w)

unfoldable pub dropped : ℕ → Client → Option Item → Option Client
dropped index c none = none
dropped index c (some item) =
    if item.type == empty_item then some c else some (put_item index (set_empty_item item) c)

-- `cs_sc_dropItem`
unfoldable pub drop_item : ℕ → ℕ → ℕ → World → Outcome
unfolding dropped
drop_item network_id id index w = with_room (w.clients id).room w λ r.
    if is_ready_stage (w.rooms r).cur_room_status_type
    then changed network_id id id w (dropped index (w.clients id) (get_item index (w.clients id)))
    else some (send_inventory network_id id w)

-- The five reasons to refuse an upgrade.
unfoldable pub refuses_upgrade : ℕ → ℕ → Item → Item → Bool
refuses_upgrade slot1 slot2 upgrade_item material_item =
    slot1 == slot2
    || not (upgrade_item.type == material_item.type)
    || upgrade_item.type == 0
    || not (upgrade_item.upgrade == material_item.upgrade)
    || leb 2 upgrade_item.upgrade

unfoldable pub upgraded : ℕ → ℕ → Client → Option Item → Option Item → Option Client
unfolding refuses_upgrade
upgraded slot1 slot2 c none material = none
upgraded slot1 slot2 c (some x) none = none
upgraded slot1 slot2 c (some x) (some y) =
    if refuses_upgrade slot1 slot2 x y
    then some c
    else some (
        put_item slot2 (set_empty_item y) (put_item slot1 (record x { upgrade = x.upgrade + 1 }) c))

-- `cs_requestUpgradeItem`
unfoldable pub request_upgrade_item : ℕ → ℕ → ℕ → ℕ → World → Outcome
unfolding upgraded
request_upgrade_item network_id id slot1 slot2 w = with_room (w.clients id).room w λ r.
    if is_ready_stage (w.rooms r).cur_room_status_type
    then changed network_id id id w (
        upgraded slot1 slot2 (w.clients id) (get_item slot1 (w.clients id))
          (get_item slot2 (w.clients id)))
    else some (send_inventory network_id id w)
