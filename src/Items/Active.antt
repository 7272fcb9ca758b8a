-- ===== src/Items/Active.antt =====
-- `sItems[type]->Active` and `BattleAvatar::ActiveItem`, for every item of the table.
use isegye_idol_game_server.Common.{
  ℕ, zero, suc, ◌<◌, ◌≤◌, ◌≡◌, List, [], ◌∷◌, get_elem?, arith, length,
}
use isegye_idol_game_server.World.{Random}
use isegye_idol_game_server.Duel.{Duel}
use isegye_idol_game_server.Duel.Fights.{Fights, Keeps, IsReady}
use isegye_idol_game_server.Avatar.Sound.{IsSound, SameFighter}
use isegye_idol_game_server.Items.{ItemBase, s_items, active_of, active}
use isegye_idol_game_server.Items.Opening.Keeps.{
  item_empty-Keeps, item001-Keeps, item002-Keeps, item003-Keeps, item004-Keeps, item005-Keeps,
  item006-Keeps, item007-Keeps, item008-Keeps, item009-Keeps,
}
use isegye_idol_game_server.Items.Trading.Keeps.{
  item010-Keeps, item011-Keeps, item012-Keeps, item013-Keeps, item014-Keeps, item015-Keeps,
  item016-Keeps, item017-Keeps, item018-Keeps, item019-Keeps,
}
use isegye_idol_game_server.Items.Turning.Keeps.{
  item020-Keeps, item021-Keeps, item022-Keeps, item023-Keeps, item024-Keeps, item025-Keeps,
  item026-Keeps, item027-Keeps, item028-Keeps, item029-Keeps,
}
use isegye_idol_game_server.Items.Closing.Keeps.{
  item030-Keeps, item031-Keeps, item032-Keeps, item033-Keeps, item034-Keeps, item035-Keeps,
  item036-Keeps, item037-Keeps,
}
use isegye_idol_game_server.Items.Creeps.Keeps.{
  item038-Keeps, item039-Keeps, item040-Keeps, item041-Keeps, item042-Keeps, item043-Keeps,
  item044-Keeps, item045-Keeps,
}

abbrev AllKeep : List ItemBase → Type 0
AllKeep [] = Unit {0}
AllKeep (i ∷ items) = ((u : ℕ) → Keeps (i.active u)) × AllKeep items

s_items-AllKeep : (random : Random) → AllKeep (s_items random)
unfolding s_items
s_items-AllKeep random = (
  item_empty-Keeps,
  (
    item001-Keeps,
    (
      item002-Keeps,
      (
        item003-Keeps,
        (
          item004-Keeps,
          (
            item005-Keeps,
            (
              item006-Keeps,
              (
                item007-Keeps,
                (
                  item008-Keeps,
                  (
                    item009-Keeps,
                    (
                      item010-Keeps,
                      (
                        item011-Keeps,
                        (
                          item012-Keeps,
                          (
                            item013-Keeps,
                            (
                              item014-Keeps,
                              (
                                item015-Keeps,
                                (
                                  item016-Keeps,
                                  (
                                    item017-Keeps,
                                    (
                                      item018-Keeps,
                                      (
                                        item019-Keeps,
                                        (
                                          item020-Keeps,
                                          (
                                            (λ u. item021-Keeps random u),
                                            (
                                              item022-Keeps,
                                              (
                                                item023-Keeps,
                                                (
                                                  item024-Keeps,
                                                  (
                                                    item025-Keeps,
                                                    (
                                                      item026-Keeps,
                                                      (
                                                        item027-Keeps,
                                                        (
                                                          item028-Keeps,
                                                          (
                                                            (λ u. item029-Keeps random u),
                                                            (
                                                            item030-Keeps,
                                                            (
                                                            item031-Keeps,
                                                            (
                                                            item032-Keeps,
                                                            (
                                                            item033-Keeps,
                                                            (
                                                            item034-Keeps,
                                                            (
                                                            item035-Keeps,
                                                            (
                                                            item036-Keeps,
                                                            (
                                                            item037-Keeps,
                                                            (
                                                            item038-Keeps,
                                                            (
                                                            item039-Keeps,
                                                            (
                                                            item040-Keeps,
                                                            (
                                                            item041-Keeps,
                                                            (
                                                            item042-Keeps,
                                                            (
                                                            item043-Keeps,
                                                            (item044-Keeps, (item045-Keeps, tt)),
                                                            ),
                                                            ),
                                                            ),
                                                            ),
                                                            ),
                                                            ),
                                                            ),
                                                            ),
                                                            ),
                                                            ),
                                                            ),
                                                            ),
                                                            ),
                                                            ),
                                                          ),
                                                        ),
                                                      ),
                                                    ),
                                                  ),
                                                ),
                                              ),
                                            ),
                                          ),
                                        ),
                                      ),
                                    ),
                                  ),
                                ),
                              ),
                            ),
                          ),
                        ),
                      ),
                    ),
                  ),
                ),
              ),
            ),
          ),
        ),
      ),
    ),
  ),
)

active_of-Keeps :
    (items : List ItemBase) (n u : ℕ)
    → AllKeep items
    → n < length items
    → Keeps (active_of (get_elem? items n) u)
unfolding active_of
active_of-Keeps [] n u k h = elim h [ ]
active_of-Keeps (i ∷ items) zero u k h = k.0 u
active_of-Keeps (i ∷ items) (suc n) u k h = active_of-Keeps items n u k.1 (omega arith)

pub active-Fights :
    (random : Random) (type upgrade : ℕ) (d : Duel)
    → type < 46
    → Fights d (active random type upgrade d)
unfolding active s_items
active-Fights random type upgrade d h =
    active_of-Keeps (s_items random) type upgrade (s_items-AllKeep random) h d

-- Whatever item of the 46 is used between two sound avatars, at whatever upgrade and with whatever
-- numbers drawn, if the one that uses it has a client and the opponent's maximal life is at least five:
-- the source meets no null pointer, no division by zero and no index out of bounds; both stay sound and
-- keep what an item may not change; and the opponent gains no life.
pub active_total :
    (random : Random) (type upgrade : ℕ) (d : Duel)
    → type < 46
    → IsReady d
    → IsSound d.me
    → IsSound d.opponent
    → let e = active random type upgrade d in
      (e.fault ≡ d.fault)
      × IsSound e.me
      × IsSound e.opponent
      × SameFighter d.me e.me
      × SameFighter d.opponent e.opponent
      × (e.opponent.hp ≤ d.opponent.hp)
active_total random type upgrade d h ready s t =
    let f = active-Fights random type upgrade d h in
    (
      f.no_fault ready,
      f.me_touched.sound s,
      f.opponent_touched.sound t,
      f.me_touched.same,
      f.opponent_touched.same,
      f.opponent_hurt,
    )
