-- ===== src/Duel.antt =====
-- The two avatars of an attack together with the server's state: BattleAvatar.cpp's methods that reach
-- past their own object, and the steps of which Items.h builds the items.
pub mod Fights
pub mod Once
use isegye_idol_game_server.Common.{
  ℕ, zero, suc, ◌+◌, ◌*◌, Bool, true, false, ◌&&◌, Option, none, some, not, List, [], ◌∷◌,
  if◌then◌else◌, min,
}
use isegye_idol_game_server.Types.{ItemTicketType, normal, advanced, top, supreme, fillet}
use isegye_idol_game_server.Client.{Client, ticket_count, set_ticket_count, to_damage_client}
use isegye_idol_game_server.World.{World, Random, modify_client, is_valid_client_in_this_room}
use isegye_idol_game_server.Avatar.{BattleAvatar, to_damage, to_piercing_damage, to_heal}

-- `fault` is set where the source would read through a null pointer, past the end of an array, or
-- divide by zero.
pub record Duel : Type 0 where
  pub world : World
  pub me : BattleAvatar
  pub opponent : BattleAvatar
  pub fault : Bool

abbrev pub Step : Type 0
Step = Duel → Duel

-- One statement after the other.
infixl 20 ◌⨾◌
abbrev pub ◌⨾◌ : Step → Step → Step
(f ⨾ g) d = g (f d)

abbrev pub skip : Step
skip d = d

unfoldable pub on_me : (BattleAvatar → BattleAvatar) → Step
on_me f d = record d { me = f d.me }

unfoldable pub on_opponent : (BattleAvatar → BattleAvatar) → Step
on_opponent f d = record d { opponent = f d.opponent }

-- `opponents.ToDamage(n, me)`
unfoldable pub hit : ℕ → Step
hit n d = record d { opponent = to_damage n d.me d.opponent }

-- `opponents.ToPiercingDamage(n, me)`
unfoldable pub pierce : ℕ → Step
pierce n d = record d { opponent = to_piercing_damage n d.me d.opponent }

unfoldable pub go_wrong : Step
go_wrong d = record d { fault = true }

-- `for (int i = 0; i < n; ++i)` over a body that does not change `n`.
unfoldable pub times : ℕ → Step → Step
times zero f d = d
times (suc n) f d = times n f (f d)

-- The `switch (upgrade)` of the macro `ITEM`; any other upgrade is only logged.
unfoldable pub switch_upgrade : ℕ → Step → Step → Step → Step
switch_upgrade zero one two three = one
switch_upgrade (suc zero) one two three = two
switch_upgrade (suc (suc zero)) one two three = three
switch_upgrade _ one two three = skip

at_pointer : Option ℕ → (ℕ → Step) → Step
unfolding go_wrong
at_pointer none f = go_wrong
at_pointer (some i) f = f i

-- `me.GetClient()->...`, with the client's index.
unfoldable pub with_client : (ℕ → Step) → Step
unfolding at_pointer
with_client f d = at_pointer d.me.client f d

-- `BattleAvatar::IsValidBattleAvatarInRoom`
unfoldable pub is_valid_battle_avatar_in_room : World → BattleAvatar → Bool
is_valid_battle_avatar_in_room w a = elim a.room [
  | none ↦ false
  | some r ↦ is_valid_client_in_this_room w r a.client
]

-- A number drawn from `lo` to `hi`, handed to the rest.
unfoldable pub draw : Random → ℕ → ℕ → (ℕ → Step) → Step
draw random lo hi f d =
    f (random d.world.draws lo hi)
      (record d { world = record (d.world) { draws = d.world.draws + 1 } })

unfoldable pub on_world : (World → World) → Step
on_world f d = record d { world = f d.world }

unfoldable pub counter_attacks : Step
counter_attacks d =
    if d.me.is_counter_attack
    then record d {
      opponent =
          to_damage d.me.counter_attack_damage (record (d.me) { is_counter_attack = false })
            d.opponent;
      me = record (d.me) { is_counter_attack = false; counter_attack_damage = 0 };
    }
    else d

unfoldable pub counter_heals : Step
counter_heals d =
    if d.me.is_counter_heal
    then record d {
      me = record (to_heal d.me.counter_heal (record (d.me) { is_counter_heal = false })) {
        counter_heal = 0;
      };
    }
    else d

-- `BattleAvatar::EffectCounter(opponent)`: `me` is the avatar that was attacked, and `opponent` the
-- one that attacked it.
unfoldable pub effect_counter : Step
unfolding counter_attacks counter_heals
effect_counter d = if d.me.is_finish then d else counter_heals (counter_attacks d)

unfoldable pub alive : ℕ → Bool
alive zero = false
alive (suc n) = true

unfoldable pub hurt : ℕ → World → Option ℕ → World
hurt damage w none = w
hurt damage w (some i) = modify_client i (to_damage_client damage) w

-- `BattleAvatar::ToDamageCharacter`: the player behind an avatar that lost, or whose battle did not
-- end, is hurt once.
unfoldable pub to_damage_character : ℕ → Bool → World × BattleAvatar → World × BattleAvatar
unfolding alive hurt is_valid_battle_avatar_in_room
to_damage_character damage is_not_finish_battle (w, a) =
    if a.is_ghost
    then (w, a)
    else (if a.is_character_damage
        then (w, a)
        else (if not is_not_finish_battle && alive a.hp
            then (w, a)
            else (if not (is_valid_battle_avatar_in_room w a)
                then (w, a)
                else (hurt damage w a.client, record a { is_character_damage = true }))))

give : ItemTicketType → ℕ → World → Option ℕ → World × ℕ
unfolding modify_client ticket_count set_ticket_count
give type count w none = (w, 0)
give type count w (some i) =
    let w' = modify_client i (λ c. set_ticket_count type (ticket_count type c + count) c) w in
    (w', ticket_count type (w'.clients i))

-- `BattleAvatar::IncreaseItemTicket`: the new number of tickets, 0 where nothing is given.
unfoldable pub increase_item_ticket : ItemTicketType → ℕ → World × BattleAvatar → World × ℕ
unfolding give is_valid_battle_avatar_in_room
increase_item_ticket type count (w, a) =
    if a.is_ghost
    then (w, 0)
    else (if not (is_valid_battle_avatar_in_room w a) then (w, 0) else give type count w a.client)
