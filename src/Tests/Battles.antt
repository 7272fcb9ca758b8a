-- ===== src/Tests/Battles.antt =====
-- The properties of the items between two avatars.
use isegye_idol_game_server.Common.{◌≤◌, ◌≡◌, refl, some, false, arith, ltb, ltb→lt, all-get_elem?}
use isegye_idol_game_server.World.{ready_stage}
use isegye_idol_game_server.Avatar.{BattleAvatar}
use isegye_idol_game_server.Avatar.Setup.{set_avatar}
use isegye_idol_game_server.Avatar.Sound.{IsSound, SameFighter}
use isegye_idol_game_server.Duel.{Duel}
use isegye_idol_game_server.Items.{active, active_item, fitment_effect}
use isegye_idol_game_server.Items.Active.{active_total}
use isegye_idol_game_server.Items.Fitted.{Fitted, AreListed, fitment_effect-Fitted}
use isegye_idol_game_server.Items.Battle.{IsBattle, active_item-IsBattle}
use isegye_idol_game_server.Types.{Item}
use isegye_idol_game_server.Tests.Inputs.{
  lowest_draws, player, server, fresh, fighter, fighter-IsArmed, fighter-IsEquipped,
}

abbrev duel : Duel
duel = record { world = server player ready_stage; me = fighter; opponent = fighter; fault = false }

fighter-IsSound : IsSound fighter
fighter-IsSound = fighter-IsEquipped.sound

duel-IsBattle : IsBattle duel
duel-IsBattle = record {
  me_armed = fighter-IsArmed;
  opponent_armed = fighter-IsArmed;
  me_sound = fighter-IsSound;
  opponent_sound = fighter-IsSound;
}

active_item-IsBattle_example :
    IsBattle (active_item lowest_draws 3 duel)
    × ((active_item lowest_draws 3 duel).fault ≡ false)
    × ((active_item lowest_draws 3 duel).opponent.hp ≤ fighter.hp)
active_item-IsBattle_example = active_item-IsBattle lowest_draws 3 duel duel-IsBattle (omega arith)

active_total_example :
    ((active lowest_draws 24 1 duel).fault ≡ false)
    × IsSound (active lowest_draws 24 1 duel).me
    × IsSound (active lowest_draws 24 1 duel).opponent
    × SameFighter fighter (active lowest_draws 24 1 duel).me
    × SameFighter fighter (active lowest_draws 24 1 duel).opponent
    × ((active lowest_draws 24 1 duel).opponent.hp ≤ fighter.hp)
active_total_example =
    active_total lowest_draws 24 1 duel (omega arith)
      (record { has_client = fighter-IsArmed.has_client; fifth = fighter-IsArmed.fifth })
      fighter-IsSound fighter-IsSound

fresh-AreListed : AreListed fresh.using_item
unfolding set_avatar
fresh-AreListed n i e =
    ltb→lt _ _ (all-get_elem? (λ (x : Item). ltb x.type 46) player.using_items n refl e)

fitment_effect-Fitted_example :
    (b : BattleAvatar) × (fitment_effect lowest_draws fresh ≡ some b) × Fitted fresh b
fitment_effect-Fitted_example = fitment_effect-Fitted lowest_draws fresh fresh-AreListed
