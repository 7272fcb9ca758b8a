-- ===== src/Stage/Safety.antt =====
-- Room.cpp: the loops over the pairs of avatars in the battle stage.
use isegye_idol_game_server.Common.{
  ◌≤◌, ◌≢◌, none, length, ◌<◌, ◌≡◌, ◌⊎◌, ◌∙◌, refl, Bool, true, false, List, [], ◌∷◌, if◌then◌else◌,
  inl, inr,
}
use isegye_idol_game_server.Types.{max_user}
use isegye_idol_game_server.World.Safe.{IsSafeWorld}
use isegye_idol_game_server.Avatar.{BattleAvatar}
use isegye_idol_game_server.Avatar.Sound.{IsSound}
use isegye_idol_game_server.Items.Fitted.{AreListed}
use isegye_idol_game_server.Items.Battle.{IsArmed, IsBattle}
use isegye_idol_game_server.Stage.{Scene}
use isegye_idol_game_server.Stage.Bout.{Bout}
use isegye_idol_game_server.Stage.Carries.{Stays, CanEnd, Carries-IsBattle, AreNumbers, CarriesBout}
use isegye_idol_game_server.Stage.Fight.{Fighters, after, bout, first_half, second_half}

-- An avatar that can be given an order: a player behind it, the number of a client, enough life to
-- divide by, and in each of its six places an item of the table.
pub record IsEquipped (a : BattleAvatar) : Type 0 where
  pub has_client : a.client ≢ none
  pub fifth : 5 ≤ a.max_hp
  pub whole : length a.using_item ≡ 6
  pub listed : AreListed a.using_item
  pub numbered : a.network_id < max_user
  pub sound : IsSound a

Stays-IsEquipped : (a b : BattleAvatar) → Stays a b → IsEquipped a → IsEquipped b
Stays-IsEquipped a b s v = record {
  has_client = rw s.stays_client v.has_client;
  fifth = rw s.stays_max_hp v.fifth;
  whole = rw s.stays_using_item v.whole;
  listed = rw s.stays_using_item v.listed;
  numbered = rw s.stays_network_id v.numbered;
  sound = s.stays_sound v.sound;
}

-- Both are armed and sound, and stay so.
pub record CanFight (a b : BattleAvatar) : Type 0 where
  pub first_armed : IsArmed a
  pub second_armed : IsArmed b
  pub first_equipped : IsEquipped a
  pub second_equipped : IsEquipped b

abbrev pub IsPair : BattleAvatar → BattleAvatar → Type 0
IsPair a b = CanFight a b ⊎ ((a.is_finish ≡ true) × (b.is_finish ≡ true))

-- The avatars stand in such pairs.
abbrev pub ArePairs : List BattleAvatar → Type 0
ArePairs [] = Unit {0}
ArePairs (a ∷ []) = ⊥
ArePairs (a ∷ b ∷ avatars) = IsPair a b × ArePairs avatars

-- Nothing has gone wrong, the server is safe, and who is to be disconnected is a client.
abbrev pub IsSafeScene : Scene → Type 0
IsSafeScene s = (s.fault ≡ false) × IsSafeWorld s.world × AreNumbers s.leaving

-- Both of it.
abbrev pub IsHeld : Fighters → Type 0
IsHeld f = ArePairs f.0 × IsSafeScene f.1

abbrev pub KeepsBouts : (Bout → Bout) → Type 0
KeepsBouts turn = (b : Bout) → IsArmed b.duel.me → CarriesBout b (turn b)

CanFight-IsBattle : (a b : BattleAvatar) (s : Scene) → CanFight a b → IsBattle (bout a b s).duel
CanFight-IsBattle a b s v = record {
  me_armed = v.first_armed;
  opponent_armed = v.second_armed;
  me_sound = v.first_equipped.sound;
  opponent_sound = v.second_equipped.sound;
}

swapped : (a b : BattleAvatar) → CanFight a b → CanFight b a
swapped a b v = record {
  first_armed = v.second_armed;
  second_armed = v.first_armed;
  first_equipped = v.second_equipped;
  second_equipped = v.first_equipped;
}

first_ends : (a b : BattleAvatar) → CanFight a b → CanEnd a
first_ends a b v = record { is_armed = v.first_armed; are_listed = v.first_equipped.listed }

-- One bout of a pair.
met-CanFight :
    (turn : Bout → Bout) (a b : BattleAvatar) (s : Scene)
    → KeepsBouts turn
    → CanFight a b
    → IsSafeScene s
    → let met = turn (bout a b s) in
      CanFight met.duel.me met.duel.opponent × IsSafeScene (after met s)
met-CanFight turn a b s k v (e, w, l) =
    let t = k (bout a b s) v.first_armed in
    let c = t.duel in
    let i = Carries-IsBattle _ _ c (CanFight-IsBattle a b s v) in
    (
      record {
        first_armed = i.me_armed;
        second_armed = i.opponent_armed;
        first_equipped = Stays-IsEquipped _ _ c.me_stays v.first_equipped;
        second_equipped = Stays-IsEquipped _ _ c.opponent_stays v.second_equipped;
      },
      (
        c.same_fault (first_ends a b v) (first_ends b a (swapped a b v)) ∙ e,
        c.kept_world w,
        t.numbers v.first_equipped.numbered v.second_equipped.numbered l,
      ),
    )

fights_on : (a b : BattleAvatar) → IsPair a b → a.is_finish ≡ false → CanFight a b
fights_on a b (inl v) e = v
fights_on a b (inr (p, q)) e = cc

fights_back : (a b : BattleAvatar) → IsPair a b → b.is_finish ≡ false → CanFight b a
fights_back a b (inl v) e = swapped a b v
fights_back a b (inr (p, q)) e = cc

-- A pair that has finished stays as it is; another one has met.
pair-IsHeld :
    (c : Bool) (a b a' b' : BattleAvatar) (s s' : Scene) (half : Scene → Fighters)
    → ((t : Scene) → IsSafeScene t → IsHeld (half t))
    → IsSafeScene s
    → IsPair a b
    → (c ≡ false → IsPair a' b' × IsSafeScene s')
    → let (rest, t) = half (if c then s else s') in
      IsHeld (if c then a ∷ b ∷ rest else a' ∷ b' ∷ rest, t)
pair-IsHeld true a b a' b' s s' half k e p m = let (qs, h) = k s e in ((p, qs), h)
pair-IsHeld false a b a' b' s s' half k e p m =
    let (q, e') = m refl in let (qs, h) = k s' e' in ((q, qs), h)

pub first_half-IsHeld :
    (turn : Bout → Bout) (avatars : List BattleAvatar) (s : Scene)
    → KeepsBouts turn
    → IsHeld (avatars, s)
    → IsHeld (first_half turn avatars s)
unfolding first_half
first_half-IsHeld turn [] s k v = v
first_half-IsHeld turn (a ∷ []) s k v = elim v.0 [ ]
first_half-IsHeld turn (a ∷ b ∷ avatars) s k ((p, ps), e) =
    let met = turn (bout a b s) in
    pair-IsHeld a.is_finish a b met.duel.me met.duel.opponent s (after met s)
      (first_half turn avatars) (λ t h. first_half-IsHeld turn avatars t k (ps, h)) e p
      (λ f. let (v, h) = met-CanFight turn a b s k (fights_on a b p f) e in (inl v, h))

pub second_half-IsHeld :
    (turn : Bout → Bout) (avatars : List BattleAvatar) (s : Scene)
    → KeepsBouts turn
    → IsHeld (avatars, s)
    → IsHeld (second_half turn avatars s)
unfolding second_half
second_half-IsHeld turn [] s k v = v
second_half-IsHeld turn (a ∷ []) s k v = elim v.0 [ ]
second_half-IsHeld turn (a ∷ b ∷ avatars) s k ((p, ps), e) =
    let met = turn (bout b a s) in
    pair-IsHeld b.is_finish a b met.duel.opponent met.duel.me s (after met s)
      (second_half turn avatars) (λ t h. second_half-IsHeld turn avatars t k (ps, h)) e p
      (λ f.
        let (v, h) = met-CanFight turn b a s k (fights_back a b p f) e in (inl (swapped _ _ v), h))
