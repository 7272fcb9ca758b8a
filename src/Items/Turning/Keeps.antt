-- ===== src/Items/Turning/Keeps.antt =====
-- The items of this file keep both avatars sound and do not heal the opponent.
use isegye_idol_game_server.Common.{ℕ, Bool-cases, inl, inr, arith, ◌≤◌, ◌≡◌, ◌==◌, ◌/◌, true}
use isegye_idol_game_server.Avatar.Sound.{touches, hurts}
use isegye_idol_game_server.World.{Random}
use isegye_idol_game_server.Duel.{is_valid_battle_avatar_in_room}
use isegye_idol_game_server.Client.{set_ticket_count}
use isegye_idol_game_server.World.Safe.{
  modify_client-IsSafeWorld, send_packet_in_all_room_clients-IsSafeWorld,
}
use isegye_idol_game_server.Duel.Fights.{
  then-Keeps, on_world-Keeps, if-Fights, with_client-Keeps, Keeps, keeps, hit-Keeps,
  go_wrong-Fights, skip-Keeps,
}
use isegye_idol_game_server.Items.Turning.{
  item020, item021, item022, item023, item024, item025, item026, item027, item028, item029, tell,
  crowbar, one_ticket,
}

pub item020-Keeps : (u : ℕ) → Keeps (item020 u)
unfolding item020
item020-Keeps u = search (keeps, touches, hurts)

tell-Keeps : (n : ℕ) → Keeps (tell n)
unfolding tell
tell-Keeps n =
    with_client-Keeps _
      (λ i. on_world-Keeps _ (λ w. send_packet_in_all_room_clients-IsSafeWorld i _ w))

pub item021-Keeps : (random : Random) (u : ℕ) → Keeps (item021 random u)
unfolding item021
item021-Keeps random u = search (keeps, touches, hurts, tell-Keeps) depth 9

pub item022-Keeps : (u : ℕ) → Keeps (item022 u)
unfolding item022
item022-Keeps u = search (keeps, touches, hurts)

pub item023-Keeps : (u : ℕ) → Keeps (item023 u)
unfolding item023
item023-Keeps u = search (keeps, touches, hurts)

no_fifth : (n : ℕ) → 5 ≤ n → ¬ ((n / 5 == 0) ≡ true)
no_fifth n h e = ground arith

crowbar-Keeps : (n : ℕ) → Keeps (crowbar n)
unfolding crowbar
crowbar-Keeps n d = elim (Bool-cases (d.opponent.max_hp / 5 == 0)) [
  | inl e ↦ rw e (go_wrong-Fights d (λ r. no_fifth d.opponent.max_hp r.fifth e))
  | inr e ↦ rw e (hit-Keeps _ d)
]

pub item024-Keeps : (u : ℕ) → Keeps (item024 u)
unfolding item024
item024-Keeps u = search (keeps, touches, hurts, crowbar-Keeps)

pub item025-Keeps : (u : ℕ) → Keeps (item025 u)
unfolding item025
item025-Keeps u = search (keeps, touches, hurts)

pub item026-Keeps : (u : ℕ) → Keeps (item026 u)
unfolding item026
item026-Keeps u = search (keeps, touches, hurts)

pub item027-Keeps : (u : ℕ) → Keeps (item027 u)
unfolding item027
item027-Keeps u = search (keeps, touches, hurts)

pub item028-Keeps : (u : ℕ) → Keeps (item028 u)
unfolding item028
item028-Keeps u = search (keeps, touches, hurts)

one_ticket-Keeps : Keeps one_ticket
unfolding one_ticket set_ticket_count
one_ticket-Keeps d =
    if-Fights (is_valid_battle_avatar_in_room d.world d.me) d _ _
      (with_client-Keeps _
        (λ i.
          then-Keeps _ _ (on_world-Keeps _ (λ w. modify_client-IsSafeWorld i _ w (λ s. s)))
            (on_world-Keeps _ (λ w. send_packet_in_all_room_clients-IsSafeWorld i _ w)))
        d)
      (skip-Keeps d)

pub item029-Keeps : (random : Random) (u : ℕ) → Keeps (item029 random u)
unfolding item029
item029-Keeps random u = search (keeps, touches, hurts, one_ticket-Keeps)
