-- ===== src/Lib.antt =====
-- The game server of Server/Server: up to eight players collect items in rooms, and their avatars fight
-- with them in turns.
--
-- The parts and their files:
--   * Types: ServerStruct.h, SettingData.h, Item.h and ItemBase.h, the enumerations, the constants and
--     the item of four bytes.
--   * Client: Client.h and Client.cpp, a connected player. Client/Inventory has its sixteen places
--     (`GetItem`, `SwapItem`, `AddItem`, `FindEmptyItemSlotIndex`, `TrySetDefaultUsingItem`, `SetItem`),
--     Client/Draws the items that tickets and combinations draw, Client/ActiveQueue the order of the
--     items in a battle.
--   * Avatar: BattleAvatar.h and BattleAvatar.cpp, the methods that touch one avatar. Avatar/Setup has
--     the constructor, `SetAvatar`, `SetActiveQueue` and `GetRandomCopyItem`.
--   * Duel: the methods of BattleAvatar.cpp that reach the opponent or the client (`EffectCounter`,
--     `ToDamageCharacter`, `IncreaseItemTicket`), and the statements of which Items.h is built.
--   * Items: Items.h, the 46 classes of the macro `ITEM` in Items/Opening (0 to 9), Trading (10 to 19),
--     Turning (20 to 29), Closing (30 to 37) and Creeps (38 to 45), their second effect in
--     Items/Fitment, the table `sItems`, `ActiveItem`, `FitmentEffect` and `GetDamage` in Items, and the
--     lists by tier in Items/Tiers.
--   * Packet: PacketStruct.h, the packets that the server sends, by their fields.
--   * World: the clients, the rooms, the queue, the numbers drawn and the packets sent; the methods of
--     Client.cpp and Room.cpp that send to a room.
--   * Queue: ServerQueue.cpp and ServerQueueNode.cpp, the waiting players, a doubly linked list on a
--     heap. Queue/Chain and Queue/Waiting have its invariant and `AddClient`, Queue/Leaving and
--     Queue/Refines `RemoveClient`, `TryCreateRoomOrNullPtr` and the list of clients that it stands for.
--   * Room: who is in a room (Room.cpp), and which room is free (RoomManager.cpp).
--   * Server: Server.cpp's `ProcessPacket`, a file for each group of its cases: Server/Places,
--     Server/Tickets, Server/Combination and Server/Choice. Server/Reassembly has `PacketConstruct`,
--     which finds the packets in the bytes as they come; Server/Connections has `Accept`, `Disconnect`,
--     the check of the connections and the case `cs_startMatching`, and Server/Leaving is about
--     `Disconnect`.
--   * Stage: the stages of Room.cpp. Stage/Bout is one attack, Stage/Fight the loops that the battle and
--     the creep stage share, Stage/Battle and Stage/Prepare `BattleStage`, Stage/Creep and
--     Stage/Monsters `CreepStage`, Stage/Ready `ReadyStage`, and Stage/Progress `ProgressThread`.
--     Stage/Settled is about the end of a fight, Stage/Carries, Hurt, Listed, Noted, Turns, Safety, Upkeep,
--     Arming and Fought about the fights of a battle, Stage/Prepared and Stage/Staged about the whole
--     `BattleStage`, and Stage/Marked and Stage/Freed about the end of a game.
--   * Matching: BattleManager.h and BattleManager.cpp, the opponents of a round.
--   * Common: Boolean tests and lists over the native numbers. Tests: the properties at concrete inputs.
--
-- How they meet: a request changes the inventory of a client of the world and tells its room; at the
-- start of a battle an avatar copies the inventory (`set_avatar`), puts the items on
-- (`fitment_effect`) and takes its order from the client; a turn (`active_item`) looks the item up in
-- the table and runs it on the two avatars of a duel, which may also give a ticket to a client of the
-- world. Players wait in the queue of the world; eight of them get a room of the pool, whose thread plays
-- the stages one after the other on the world, until too few are left and the room is free again.
--
-- Objects that the source reaches through a pointer are reached through a number: a client through its
-- index in `Server::sClients`, a room through its number; null is `none`. The clients and the rooms are
-- functions of these numbers, of which the first 20000 clients stand for the array: where the source
-- looks a client up by a number that it does not test (`ProcessPacket`, `GetClient` in the stages,
-- `Disconnect` at the end of a block), the model does (`at_client`, `look_up`, `are_numbered`,
-- `disconnect_all`). What is wrong, a read or a write out of the bounds of an array or an assertion that
-- fails, is `none` for the inventory, the queue and the requests, and sets `fault` in a duel and in a
-- stage, as a null pointer and a division by zero do. Numbers are natural and have no upper bound; the
-- source keeps its own at 0 or above, but for the numbers of the clients in packets, which are read as
-- 32 bits. An `int` that would overflow goes on as the number it stands for, so that the model and the
-- source part there (Items/Turning/Overflow). The fields of packets keep their width.
--
-- The generator of Random.h is a parameter, `Random`: the number drawn is a function of how many were
-- drawn before and of the bounds. Where a property needs the bounds kept, `InRange` says so; it is what
-- the standard library promises of `uniform_int_distribution`.
--
-- The thread of a room is interrupted where it sleeps, and once more between the default items and the
-- test after them (`hand_out`), which can end the thread: `Others` says what the other threads do to the
-- world at each of these moments, the number of which is the world's clock. What they do between two of
-- them counts to the next one. The players that a loop of a stage goes through are those at its beginning.
--
-- Loops are structural: over the items of a list, over the six turns of `GetItemActiveQueue`, over the
-- ten turns of a combination. The loop of `PacketConstruct` runs on fuel, since it does not end on every
-- input; a turn for each byte is enough for packets that are not empty. That of `GetBattleOpponent` has a
-- turn for each player, of which every turn takes one or two. The endless loop of `ProgressThread` runs
-- through a given number of rounds; `plays` is a game that is not over then.
--
-- Not modelled: what two threads do at the same time, and their locks; the sockets and the completion
-- port, and so most of `Start` and `WorkerThread` in Server.cpp; the names of the players; the bytes of the
-- packets that are sent, and the memory streams of Server-Library; the log.
mod Common
pub mod Types
pub mod Avatar
pub mod Packet
pub mod World
pub mod Duel
pub mod Items
pub mod Client
pub mod Matching
pub mod Queue
pub mod Room
pub mod Server
pub mod Stage
mod Tests
