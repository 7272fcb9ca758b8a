-- ===== src/Stage/Arming.antt =====
-- Room.cpp: the beginning of a cycle gives the avatars of a battle their orders.
use isegye_idol_game_server.Common.{
  ℕ, ◌<◌, some, lt→ltb, ◌≡◌, ◌⊎◌, ◌∙◌, ap, refl, Bool, true, false, List, [], ◌∷◌, arith,
  if◌then◌else◌, length, get_elem?_total, get_elem?-map, get_elem?-lt_length, inl, inr,
}
use isegye_idol_game_server.Types.{Random, InRange, max_user}
use isegye_idol_game_server.Packet.{Packet}
use isegye_idol_game_server.Client.Inventory.{SlotInfo}
use isegye_idol_game_server.Client.ActiveQueue.{get_item_active_queue}
use isegye_idol_game_server.Client.ActiveQueue.Order.{get_item_active_queue-perm}
use isegye_idol_game_server.World.Safe.{
  IsSafeWorld, same-IsSafeWorld, send_packet_to_all_clients-IsSafeWorld,
}
use isegye_idol_game_server.Avatar.{BattleAvatar}
use isegye_idol_game_server.Avatar.Setup.{set_avatar, set_active_queue}
use isegye_idol_game_server.Items.Battle.{IsArmed, copies_at, using_item-IsFair, set_avatar-IsSound}
use isegye_idol_game_server.Items.{fitment_effect}
use isegye_idol_game_server.Items.Fitted.{AreListed, fitment_effect-Fitted}
use isegye_idol_game_server.Client.{Client}
use isegye_idol_game_server.Client.Inventory.Valid.{IsValid}
use isegye_idol_game_server.Stage.{Scene, Others}
use isegye_idol_game_server.Stage.Fight.{Fighters}
use isegye_idol_game_server.Stage.Prepare.{put_on}
use isegye_idol_game_server.Stage.Battle.{
  look_up, queue_items, queue_battle, send_notices, begin_battle_cycle,
}
use isegye_idol_game_server.Stage.Safety.{IsEquipped, ArePairs, IsSafeScene, IsHeld}
use isegye_idol_game_server.Stage.Upkeep.{KeepsServer, sleep-IsSafeWorld}

-- An avatar that has its items; where its fight is over it need not get an order.
pub record IsReadied (a : BattleAvatar) : Type 0 where
  pub equipped : IsEquipped a
  pub armed_before : a.is_finish ≡ true → IsArmed a

abbrev pub AreReadied : List BattleAvatar → Type 0
AreReadied [] = Unit {0}
AreReadied (a ∷ []) = ⊥
AreReadied (a ∷ b ∷ avatars) =
    ((IsReadied a × IsReadied b) ⊎ ((a.is_finish ≡ true) × (b.is_finish ≡ true)))
    × AreReadied avatars

-- Pairs that have fought can be given an order again.
pub ArePairs-AreReadied : (avatars : List BattleAvatar) → ArePairs avatars → AreReadied avatars
ArePairs-AreReadied [] v = v
ArePairs-AreReadied (a ∷ []) v = v
ArePairs-AreReadied (a ∷ b ∷ avatars) (inl v, vs) = (
  inl (
    record { equipped = v.first_equipped; armed_before = λ e. v.first_armed },
    record { equipped = v.second_equipped; armed_before = λ e. v.second_armed },
  ),
  ArePairs-AreReadied avatars vs,
)
ArePairs-AreReadied (a ∷ b ∷ avatars) (inr v, vs) = (inr v, ArePairs-AreReadied avatars vs)

pub set_active_queue-IsEquipped :
    (queue : List SlotInfo) (a : BattleAvatar)
    → IsEquipped a
    → IsEquipped (set_active_queue queue a)
unfolding set_active_queue
set_active_queue-IsEquipped queue a v = record {
  has_client = v.has_client;
  fifth = v.fifth;
  whole = v.whole;
  listed = v.listed;
  numbered = v.numbered;
  sound = let s = v.sound in ground arith;
}

-- The avatar of a player with a valid inventory can put its items on, and then be given an order.
fitment_effect-IsEquipped :
    (random : Random) (index : ℕ) (c : Client) (room network_id : ℕ) (is_ghost : Bool) (round : ℕ)
    → IsValid c
    → network_id < max_user
    → (b : BattleAvatar) × (fitment_effect random
          (set_avatar index c room network_id is_ghost round)
        ≡ some b)
      × IsEquipped b
fitment_effect-IsEquipped random index c room network_id is_ghost round v h =
    let a = set_avatar index c room network_id is_ghost round in
    let (s, client, least, _, using, number) =
      set_avatar-IsSound index c room network_id is_ghost round in
    let six = v.inventory.six_in_use in
    let listed : AreListed a.using_item = rw using (λ n i p.
      (using_item-IsFair c n v p
        (omega (arith, get_elem?-lt_length c.using_items n p, six))).listed) in
    let (b, e, f) = fitment_effect-Fitted random a listed in
    (
      b,
      e,
      record {
        has_client = rw f.same_client client;
        fifth = omega (arith, f.no_weaker);
        whole = ap length (f.same_using_item ∙ using) ∙ six;
        listed = rw f.same_using_item listed;
        numbered = rw (f.same_network_id, number) h;
        sound = f.sound s;
      },
    )

-- So it does, with no fault.
pub put_on-IsEquipped :
    (random : Random) (index : ℕ) (c : Client) (room network_id : ℕ) (is_ghost : Bool) (round : ℕ)
    (s : Scene)
    → IsValid c
    → network_id < max_user
    → let (b, t) = put_on random (set_avatar index c room network_id is_ghost round) s in
      IsEquipped b × (t ≡ s)
unfolding put_on
put_on-IsEquipped random index c room network_id is_ghost round s v h =
    let (b, e, k) = fitment_effect-IsEquipped random index c room network_id is_ghost round v h in
    rw (put_on, e) (k, refl)

module _ (random : Random) (range : InRange random) where
  pub queue_items-IsArmed :
      (a : BattleAvatar) (s : Scene)
      → IsEquipped a
      → IsSafeWorld s.world
      → IsArmed (queue_items random a s).0
  unfolding queue_items set_active_queue
  queue_items-IsArmed a s v w =
      let c = s.world.clients a.network_id in
      let (six, shares) = (w.present a.network_id).0 in
      let queue = get_item_active_queue random s.world.draws c in
      let (_, copies, whole) = get_item_active_queue-perm random s.world.draws c range six shares in
      record {
        has_client = v.has_client;
        fifth = v.fifth;
        armed = λ n h.
            let (q, e) = get_elem?_total queue n (omega (arith, whole)) in
            let p = copies_at c.using_items queue n copies e in
            let (i, t) =
              get_elem?_total a.using_item q.index
                (omega (arith, get_elem?-lt_length c.using_items q.index p, six, v.whole)) in
            (
              q.index,
              i,
              get_elem?-map (λ (x : SlotInfo). x.index) queue n e,
              t,
              v.listed q.index i t,
            );
      }

  queue_items-IsEquipped :
      (a : BattleAvatar) (s : Scene) → IsEquipped a → IsEquipped (queue_items random a s).0
  unfolding queue_items
  queue_items-IsEquipped a s v = set_active_queue-IsEquipped _ a v

  queue_items-IsSafeScene :
      (a : BattleAvatar) (s : Scene)
      → IsEquipped a
      → IsSafeScene s
      → IsSafeScene (queue_items random a s).1
  unfolding queue_items look_up
  queue_items-IsSafeScene a s v (e, w, l) = (
    rw (lt→ltb a.network_id max_user v.numbered) e,
    same-IsSafeWorld s.world _ refl (λ i. refl) (λ i. refl) w,
    l,
  )

  -- An avatar gets its order, or has finished.
  abbrev picked : Bool → BattleAvatar → Scene → BattleAvatar × Scene
  picked c a s = if c then (a, s) else queue_items random a s

  picked-IsArmed :
      (c : Bool) (a : BattleAvatar) (s : Scene)
      → IsEquipped a
      → (c ≡ true → IsArmed a)
      → IsSafeScene s
      → let p = picked c a s in IsArmed p.0 × IsEquipped p.0 × IsSafeScene p.1
  picked-IsArmed true a s v k w = (k refl, v, w)
  picked-IsArmed false a s v k w =
      (queue_items-IsArmed a s v w.1, queue_items-IsEquipped a s v, queue_items-IsSafeScene a s v w)

  queued-IsHeld :
      (c d : Bool) (a b : BattleAvatar) (s : Scene) (rest : Scene → Fighters)
      → (IsEquipped a × (c ≡ true → IsArmed a) × IsEquipped b × (d ≡ true → IsArmed b))
        ⊎ ((c ≡ true) × (d ≡ true) × (a.is_finish ≡ true) × (b.is_finish ≡ true))
      → IsSafeScene s
      → ((t : Scene) → IsSafeScene t → IsHeld (rest t))
      → let (a', s') = picked c a s in
        let (b', s'') = picked d b s' in
        let (avatars, t) = rest s'' in IsHeld (a' ∷ b' ∷ avatars, t)
  queued-IsHeld c d a b s rest (inl (v, k, u, m)) w h =
      let (p, q, w') = picked-IsArmed c a s v k w in
      let (p', q', w'') = picked-IsArmed d b (picked c a s).1 u m w' in
      let (avatars, t) = h (picked d b (picked c a s).1).1 w'' in
      (
        (
          inl (record {
            first_armed = p;
            second_armed = p';
            first_equipped = q;
            second_equipped = q';
          }),
          avatars,
        ),
        t,
      )
  queued-IsHeld true true a b s rest (inr (_, _, e, f)) w h =
      let (avatars, t) = h s w in ((inr (e, f), avatars), t)
  queued-IsHeld false d a b s rest (inr (e, _, _, _)) w h = cc
  queued-IsHeld true false a b s rest (inr (_, e, _, _)) w h = cc

  queue_battle-IsHeld :
      (avatars : List BattleAvatar) (s : Scene)
      → AreReadied avatars
      → IsSafeScene s
      → IsHeld (queue_battle random avatars s)
  unfolding queue_battle
  queue_battle-IsHeld [] s v w = (v, w)
  queue_battle-IsHeld (a ∷ []) s v w = elim v [ ]
  queue_battle-IsHeld (a ∷ b ∷ avatars) s (inl (v, u), vs) w =
      queued-IsHeld a.is_finish b.is_finish a b s (queue_battle random avatars)
        (inl (v.equipped, v.armed_before, u.equipped, u.armed_before)) w
        (λ t k. queue_battle-IsHeld avatars t vs k)
  queue_battle-IsHeld (a ∷ b ∷ avatars) s (inr (e, f), vs) w =
      queued-IsHeld a.is_finish b.is_finish a b s (queue_battle random avatars) (inr (e, f, e, f)) w
        (λ t k. queue_battle-IsHeld avatars t vs k)

  send_notices-IsSafeScene :
      (others : Others)
      → KeepsServer others
      → (r : ℕ) (packets : List Packet) (s : Scene) → IsSafeScene s
      → IsSafeScene (send_notices others r packets s)
  send_notices-IsSafeScene others k r [] s (e, w, l) = (e, sleep-IsSafeWorld others k s.world w, l)
  send_notices-IsSafeScene others k r (p ∷ packets) s (e, w, l) =
      (e, sleep-IsSafeWorld others k _ (send_packet_to_all_clients-IsSafeWorld r _ s.world w), l)

  -- Every avatar that fights gets an order in which each place has an item.
  pub begin_battle_cycle-IsHeld :
      (others : Others)
      → KeepsServer others
      → (r : ℕ) (avatars : List BattleAvatar) (s : Scene) → AreReadied avatars
      → IsSafeScene s
      → IsHeld (begin_battle_cycle others random r (avatars, s))
  unfolding begin_battle_cycle
  begin_battle_cycle-IsHeld others k r avatars s v w =
      let (pairs, t) = queue_battle-IsHeld avatars s v w in
      (pairs, send_notices-IsSafeScene others k r _ _ t)
