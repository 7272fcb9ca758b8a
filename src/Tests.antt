-- ===== src/Tests.antt =====
-- The properties at concrete inputs: players of Client.h, avatars of BattleAvatar.h and requests to
-- Server.cpp.
mod Inputs
mod Inventories
mod Avatars
mod Battles
mod Requests
mod Streams
mod Rounds
mod Waiting
mod Stages
