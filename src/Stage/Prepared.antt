-- ===== src/Stage/Prepared.antt =====
-- Room.cpp: what the avatars of a battle put on, the hamburger and the doctor's tool (`BattleStage`).
use isegye_idol_game_server.Common.{
  ℕ, zero, suc, ◌+◌, ◌-◌, ◌<◌, ◌≤◌, ◌≡◌, ◌∙◌, refl, Bool, true, false, ◌||◌, ◌==◌, some, List, [],
  ◌∷◌, arith, if◌then◌else◌, length, get_elem?, set, get_elem?_total, get_elem?-set, length-set,
  inl, inr,
}
use isegye_idol_game_server.Types.{Random, InRange, Item, max_using_item_count}
use isegye_idol_game_server.Avatar.{BattleAvatar, set_hamburger_type}
use isegye_idol_game_server.Avatar.Sound.{IsSound}
use isegye_idol_game_server.Avatar.Setup.{get_random_copy_item, valid_copies, copy_at, doctor_tool}
use isegye_idol_game_server.World.Safe.{same-IsSafeWorld}
use isegye_idol_game_server.Items.Fitted.{AreListed, fitment_effect-Fitted}
use isegye_idol_game_server.Stage.{Scene, write}
use isegye_idol_game_server.Stage.Prepare.{
  set_hamburger, set_copy, prepare_place, prepare_places, put_on, prepare, prepare_pair,
  prepare_battle,
}
use isegye_idol_game_server.Stage.Safety.{IsEquipped, IsSafeScene}

-- An avatar that is about to fight.
pub record IsStarting (a : BattleAvatar) : Type 0 where
  pub equipped : IsEquipped a
  pub fights : a.is_finish ≡ false

abbrev pub IsStarted : BattleAvatar × Scene → Type 0
IsStarted p = IsStarting p.0 × IsSafeScene p.1

-- The avatars stand in pairs.
abbrev pub AreStarting : List BattleAvatar → Type 0
AreStarting [] = Unit {0}
AreStarting (a ∷ []) = ⊥
AreStarting (a ∷ b ∷ avatars) = IsStarting a × IsStarting b × AreStarting avatars

-- An avatar whose items change only.
record Retooled (a b : BattleAvatar) : Type 0 where
  same_client : b.client ≡ a.client
  same_max_hp : b.max_hp ≡ a.max_hp
  same_network_id : b.network_id ≡ a.network_id
  same_is_finish : b.is_finish ≡ a.is_finish
  sound : IsSound a → IsSound b
  whole : length b.using_item ≡ length a.using_item

Retooled-IsStarting :
    (a b : BattleAvatar) → Retooled a b → AreListed b.using_item → IsStarting a → IsStarting b
Retooled-IsStarting a b r h v = record {
  equipped = record {
    has_client = rw r.same_client v.equipped.has_client;
    fifth = rw r.same_max_hp v.equipped.fifth;
    whole = r.whole ∙ v.equipped.whole;
    listed = h;
    numbered = rw r.same_network_id v.equipped.numbered;
    sound = r.sound v.equipped.sound;
  };
  fights = r.same_is_finish ∙ v.fights;
}

drawn :
    (s : Scene)
    → IsSafeScene s
    → IsSafeScene (record s { world = record (s.world) { draws = s.world.draws + 1 } })
drawn s (e, w, l) = (e, same-IsSafeWorld s.world _ refl (λ i. refl) (λ i. refl) w, l)

if-IsStarted :
    (b : Bool) (p q : BattleAvatar × Scene)
    → IsStarted p
    → IsStarted q
    → IsStarted (if b then p else q)
if-IsStarted true p q v w = v
if-IsStarted false p q v w = w

if-AreListed :
    (b : Bool) (xs ys : List Item) → AreListed xs → AreListed ys → AreListed (if b then xs else ys)
if-AreListed true xs ys v w = v
if-AreListed false xs ys v w = w

cons-AreListed : (x : Item) (xs : List Item) → x.type < 46 → AreListed xs → AreListed (x ∷ xs)
cons-AreListed x xs h v zero i e = ground arith
cons-AreListed x xs h v (suc n) i e = v n i e

-- The items that may be copied are among those of the avatar.
valid_copies-AreListed : (items : List Item) → AreListed items → AreListed (valid_copies items)
unfolding valid_copies
valid_copies-AreListed [] v = v
valid_copies-AreListed (x ∷ items) v =
    let rest = valid_copies-AreListed items (λ n. v (suc n)) in
    if-AreListed (x.type == 7 || x.type == 16 || x.type == 0) _ _ rest
      (cons-AreListed x _ (v 0 x refl) rest)

copy_at-listed :
    (items : List Item) (n : ℕ)
    → AreListed items
    → n ≤ length items - 1
    → (i : Item) × (copy_at items n ≡ some i) × (i.type < 46)
unfolding copy_at doctor_tool
copy_at-listed [] n v h = (doctor_tool, refl, omega arith)
copy_at-listed (x ∷ items) n v h =
    let (i, e) = get_elem?_total (x ∷ items) n (omega arith) in (i, e, v n i e)

set-AreListed :
    (items : List Item) (j : ℕ) (x : Item)
    → x.type < 46
    → AreListed items
    → AreListed (set items j x)
set-AreListed items j x h v n i e = elim (get_elem?-set items j n x e) [
  | inl p ↦ rw p h
  | inr p ↦ v n i p
]

module _ (random : Random) (range : InRange random) where
  get_random_copy_item-listed :
      (n : ℕ) (a : BattleAvatar)
      → AreListed a.using_item
      → (i : Item) × (get_random_copy_item random n a ≡ some i) × (i.type < 46)
  unfolding get_random_copy_item
  get_random_copy_item-listed n a v =
      let valid = valid_copies a.using_item in
      copy_at-listed valid (random n 0 (length valid - 1)) (valid_copies-AreListed a.using_item v)
        (range n 0 (length valid - 1) (omega arith)).1

  set_hamburger-IsStarted :
      (j : ℕ) (a : BattleAvatar) (s : Scene)
      → IsStarting a
      → IsSafeScene s
      → IsStarted (set_hamburger random j a s)
  unfolding set_hamburger set_hamburger_type write
  set_hamburger-IsStarted j a s v w = (
    Retooled-IsStarting a _
        (record {
          same_client = refl;
          same_max_hp = refl;
          same_network_id = refl;
          same_is_finish = refl;
          sound = λ k. ground arith;
          whole = refl;
        })
        v.equipped.listed v,
    drawn s w,
  )

  set_copy-IsStarted :
      (j : ℕ) (o a : BattleAvatar) (s : Scene) {x : Item}
      → get_elem? a.using_item j ≡ some x
      → AreListed o.using_item
      → IsStarting a
      → IsSafeScene s
      → IsStarted (set_copy random j (some o) a s)
  unfolding set_copy write
  set_copy-IsStarted j o a s {x} e h v w =
      let (i, p, t) = get_random_copy_item-listed s.world.draws o h in
      rw (set_copy, e, p)
        (
          Retooled-IsStarting a _
              (record {
                same_client = refl;
                same_max_hp = refl;
                same_network_id = refl;
                same_is_finish = refl;
                sound = λ k. ground arith;
                whole = length-set a.using_item j (record x { type = i.type; upgrade = i.upgrade });
              })
              (set-AreListed a.using_item j (record x { type = i.type; upgrade = i.upgrade }) t
                v.equipped.listed)
              v,
          drawn s w,
        )

  prepare_place-IsStarted :
      (j : ℕ) (o a : BattleAvatar) (s : Scene)
      → j < 6
      → AreListed o.using_item
      → IsStarting a
      → IsSafeScene s
      → IsStarted (prepare_place random true j (some o) a s)
  unfolding prepare_place
  prepare_place-IsStarted j o a s l h v w =
      let (x, e) = get_elem?_total a.using_item j (omega (arith, v.equipped.whole)) in
      rw e (
        if-IsStarted (x.type == 7) _ _ (set_hamburger-IsStarted j a s v w)
          (if-IsStarted (x.type == 16) _ _ (set_copy-IsStarted j o a s e h v w) (v, w)))

  prepare_places-IsStarted :
      (n j : ℕ) (o a : BattleAvatar) (s : Scene)
      → j + n ≤ 6
      → AreListed o.using_item
      → IsStarting a
      → IsSafeScene s
      → IsStarted (prepare_places random true n j (some o) a s)
  unfolding prepare_places
  prepare_places-IsStarted zero j o a s l h v w = (v, w)
  prepare_places-IsStarted (suc n) j o a s l h v w =
      let p = prepare_place random true j (some o) a s in
      let (v', w') = prepare_place-IsStarted j o a s (omega arith) h v w in
      prepare_places-IsStarted n (j + 1) o p.0 p.1 (omega arith) h v' w'

  -- All of the items can be put on.
  put_on-IsStarted :
      (a : BattleAvatar) (s : Scene)
      → IsStarting a
      → let (b, t) = put_on random a s in IsStarting b × (t ≡ s)
  unfolding put_on
  put_on-IsStarted a s v =
      let (b, e, f) = fitment_effect-Fitted random a v.equipped.listed in
      rw (put_on, e)
        (
          record {
            equipped = record {
              has_client = rw f.same_client v.equipped.has_client;
              fifth = let m = v.equipped.fifth in omega (arith, f.no_weaker);
              whole = rw f.same_using_item v.equipped.whole;
              listed = rw f.same_using_item v.equipped.listed;
              numbered = rw f.same_network_id v.equipped.numbered;
              sound = f.sound v.equipped.sound;
            };
            fights = f.same_is_finish ∙ v.fights;
          },
          refl,
        )

  prepare-IsStarted :
      (o a : BattleAvatar) (s : Scene)
      → AreListed o.using_item
      → IsStarting a
      → IsSafeScene s
      → IsStarted (prepare random true (some o) a s)
  unfolding prepare
  prepare-IsStarted o a s h v w =
      let (p, e) = put_on-IsStarted a s v in
      prepare_places-IsStarted max_using_item_count 0 o (put_on random a s).0 (put_on random a s).1
        (omega arith) h p (rw e w)

  pub prepare_battle-AreStarting :
      (avatars : List BattleAvatar) (s : Scene)
      → AreStarting avatars
      → IsSafeScene s
      → let (prepared, t) = prepare_battle random avatars s in AreStarting prepared × IsSafeScene t
  unfolding prepare_battle prepare_pair
  prepare_battle-AreStarting [] s v w = (v, w)
  prepare_battle-AreStarting (a ∷ []) s v w = elim v [ ]
  prepare_battle-AreStarting (a ∷ b ∷ avatars) s (v, u, vs) w =
      let p = prepare random true (some b) a s in
      let (v', w') = prepare-IsStarted b a s u.equipped.listed v w in
      let q = prepare random true (some p.0) b p.1 in
      let (u', w'') = prepare-IsStarted p.0 b p.1 v'.equipped.listed u w' in
      let (rest, t) = prepare_battle-AreStarting avatars q.1 vs w'' in ((v', u', rest), t)
