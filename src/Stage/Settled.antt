-- ===== src/Stage/Settled.antt =====
-- Room.cpp: the end of a fight takes effect once.
use isegye_idol_game_server.Common.{
  ℕ, ◌+◌, ◌≡◌, ◌⊎◌, Option-cases, refl, ◌∙◌, ap, Bool, true, false, not, Option, none, some, List,
  [], ◌∷◌, ◌++◌, ◌||◌, arith, if◌then◌else◌, ◌==◌, Bool-cases, inl, inr, ==_iff,
}
use isegye_idol_game_server.Types.{Random}
use isegye_idol_game_server.Client.{Client, to_damage_client}
use isegye_idol_game_server.World.{World, update, modify_client, is_valid_client_in_this_room}
use isegye_idol_game_server.Avatar.{BattleAvatar, set_finish}
use isegye_idol_game_server.Duel.{
  Duel, to_damage_character, is_valid_battle_avatar_in_room, hurt, alive,
}
use isegye_idol_game_server.Items.{get_damage}
use isegye_idol_game_server.Stage.Bout.{
  Bout, points, unlisted, hurt_both, is_out, note_leaving, is_over, settle, close_fight,
  round_damage,
}

-- Nothing happens to the player of this avatar at the end of a fight.
pub record IsSpent (w : World) (a : BattleAvatar) : Type 0 where
  pub spent : (n : ℕ) → to_damage_character n false (w, a) ≡ (w, a)

to_damage_character-spent :
    (n m : ℕ) (w : World) (a : BattleAvatar)
    → let s = to_damage_character n false (w, a) in to_damage_character m false s ≡ s
unfolding to_damage_character
to_damage_character-spent n m w a = ground arith

-- A field that a change of a client leaves alone.
same_field :
    {B : Type 0} (f : Client → B) (g : Client → Client) (w : World) (i j : ℕ)
    → ((c : Client) → f (g c) ≡ f c)
    → f (update w.clients i (g (w.clients i)) j) ≡ f (w.clients j)
same_field f g w i j h = elim (Bool-cases (i == j)) [
  | inl e ↦ rw e (h (w.clients i) ∙ ap (λ k. f (w.clients k)) ((==_iff i j).0 e))
  | inr e ↦ rw e refl
]

-- What the validity of a client hangs on.
hurt-valid :
    (n : ℕ) (w : World) (o : Option ℕ) (r : ℕ) (p : Option ℕ)
    → is_valid_client_in_this_room (hurt n w o) r p ≡ is_valid_client_in_this_room w r p
unfolding hurt modify_client is_valid_client_in_this_room to_damage_client
hurt-valid n w none r p = refl
hurt-valid n w (some i) r none = refl
hurt-valid n w (some i) r (some j) =
    let g = to_damage_client n in
    rw
      (
        same_field (λ c. c.socket) g w i j (λ c. refl),
        same_field (λ c. c.room) g w i j (λ c. refl),
        same_field (λ c. c.room_open_count) g w i j (λ c. refl),
      )
      refl

hurt-valid_avatar :
    (n : ℕ) (w : World) (o : Option ℕ) (a : BattleAvatar)
    → is_valid_battle_avatar_in_room (hurt n w o) a ≡ is_valid_battle_avatar_in_room w a
unfolding is_valid_battle_avatar_in_room
hurt-valid_avatar n w o a = elim (Option-cases a.room) [
  | inl e ↦ rw e refl
  | inr (r, e) ↦ rw e (hurt-valid n w o r a.client)
]

-- Another one's hurt does not change that.
IsSpent-hurt :
    (n : ℕ) (w : World) (o : Option ℕ) (a : BattleAvatar) → IsSpent w a → IsSpent (hurt n w o) a
unfolding to_damage_character
IsSpent-hurt n w o a v = record {
  spent = λ m. let e = v.spent m in ground (arith, hurt-valid_avatar n w o a);
}

abbrev IsEither : World → World → World × BattleAvatar → Type 0
IsEither v w s = (s.0 ≡ v) ⊎ (s.0 ≡ w)

if-IsEither :
    (v w : World) (b : Bool) (s t : World × BattleAvatar)
    → IsEither v w s
    → IsEither v w t
    → IsEither v w (if b then s else t)
if-IsEither v w true s t p q = p
if-IsEither v w false s t p q = q

-- The world after `ToDamageCharacter`: the same, or hurt.
to_damage_character-world :
    (n : ℕ) (w : World) (a : BattleAvatar)
    → IsEither w (hurt n w a.client) (to_damage_character n false (w, a))
unfolding to_damage_character
to_damage_character-world n w a = if-IsEither _ _ a.is_ghost _ _ (inl refl) (
    if-IsEither _ _ a.is_character_damage _ _ (inl refl) (
      if-IsEither _ _ (alive a.hp) _ _ (inl refl)
        (if-IsEither _ _ (not (is_valid_battle_avatar_in_room w a)) _ _ (inl refl) (inr refl))))

IsSpent-world :
    (n : ℕ) (v w : World) (o : Option ℕ) (a : BattleAvatar)
    → (v ≡ w) ⊎ (v ≡ hurt n w o)
    → IsSpent w a
    → IsSpent v a
IsSpent-world n v w o a (inl e) s = rw e s
IsSpent-world n v w o a (inr e) s = rw e (IsSpent-hurt n w o a s)

-- Both are spent after both were hurt.
hurt_both-IsSpent :
    (random : Random) (r : ℕ) (w : World) (a b : BattleAvatar)
    → let (w', a', b') = hurt_both random r (w, a, b) in IsSpent w' a' × IsSpent w' b'
unfolding hurt_both
hurt_both-IsSpent random r w a b =
    let n = points (get_damage random b) + round_damage r w in
    let s = to_damage_character n false (w, a) in
    let m = points (get_damage random s.1) + round_damage r s.0 in
    (
      IsSpent-world m _ s.0 b.client s.1 (to_damage_character-world m s.0 b)
          (record { spent = λ k. to_damage_character-spent n k w a }),
      record { spent = λ k. to_damage_character-spent m k s.0 b },
    )

set_finish-IsSpent : (w : World) (a : BattleAvatar) → IsSpent w a → IsSpent w (set_finish a)
unfolding set_finish to_damage_character is_valid_battle_avatar_in_room
set_finish-IsSpent w a v = record { spent = λ m. let e = v.spent m in ground arith }

-- A null pointer on the way.
abbrev pub is_null : Option ℕ → Bool → Bool
is_null none fault = true
is_null (some i) fault = fault

note_leaving-fault :
    (r : ℕ) (w : World) (a : BattleAvatar) (leaving : List ℕ) (fault : Bool)
    → (note_leaving r w a (leaving, fault)).1 ≡ is_null a.client fault
unfolding note_leaving is_out
note_leaving-fault r w a leaving fault = elim (Option-cases a.client) [
  | inl e ↦ rw e refl
  | inr (i, e) ↦ rw e refl
]

if-leaving :
    (b : Bool) (leaving more : List ℕ)
    → ((if b then more else leaving) ≡ leaving) ⊎ ((if b then more else leaving) ≡ more)
if-leaving true leaving more = inr refl
if-leaving false leaving more = inl refl

-- None is noted but the avatar's number.
pub noted-leaving :
    (r : ℕ) (w : World) (a : BattleAvatar) (leaving : List ℕ) (fault : Bool)
    → ((note_leaving r w a (leaving, fault)).0 ≡ leaving)
      ⊎ ((note_leaving r w a (leaving, fault)).0 ≡ leaving ++ a.network_id ∷ [])
unfolding note_leaving is_out
noted-leaving r w a leaving fault = elim (Option-cases a.client) [
  | inl e ↦ rw e (inl refl)
  | inr (i, e) ↦ rw e (if-leaving _ leaving (leaving ++ a.network_id ∷ []))
]

set_finish-finished : (a : BattleAvatar) → a.is_finish ≡ true → set_finish a ≡ a
unfolding set_finish
set_finish-finished a e = ground arith

same_client :
    (n : ℕ) (w : World) (a : BattleAvatar)
    → (to_damage_character n false (w, a)).1.client ≡ a.client
unfolding to_damage_character
same_client n w a = ground arith

same_using_item :
    (n : ℕ) (w : World) (a : BattleAvatar)
    → (to_damage_character n false (w, a)).1.using_item ≡ a.using_item
unfolding to_damage_character
same_using_item n w a = ground arith

-- Who is hurt keeps its items.
hurt_both-unlisted :
    (random : Random) (r : ℕ) (w : World) (a b : BattleAvatar)
    → let h = hurt_both random r (w, a, b) in
      unlisted random (set_finish h.1) (set_finish h.2) ≡ unlisted random a b
unfolding hurt_both unlisted get_damage set_finish
hurt_both-unlisted random r w a b =
    let n = points (get_damage random b) + round_damage r w in
    let s = to_damage_character n false (w, a) in
    let m = points (get_damage random s.1) + round_damage r s.0 in
    rw (same_using_item m s.0 b, same_using_item n w a) refl

-- A fight that is over and done with.
record IsSettled (random : Random) (d : Duel) : Type 0 where
  me_spent : IsSpent d.world d.me
  opponent_spent : IsSpent d.world d.opponent
  me_finished : d.me.is_finish ≡ true
  opponent_finished : d.opponent.is_finish ≡ true
  noticed :
      is_null d.opponent.client (is_null d.me.client (unlisted random d.me d.opponent || d.fault))
      ≡ d.fault

is_null_twice :
    (o p : Option ℕ) (m b : Bool)
    → is_null o (is_null p (m || is_null o (is_null p (m || b)))) ≡ is_null o (is_null p (m || b))
is_null_twice none p m b = refl
is_null_twice (some i) none m b = refl
is_null_twice (some i) (some j) true b = refl
is_null_twice (some i) (some j) false b = refl

hurt_both-spent :
    (random : Random) (r : ℕ) (w : World) (a b : BattleAvatar)
    → IsSpent w a
    → IsSpent w b
    → hurt_both random r (w, a, b) ≡ (w, a, b)
unfolding hurt_both
hurt_both-spent random r w a b s t = rw (s.spent _, t.spent _) refl

-- What the null pointers met add up to.
pub noted-fault :
    (r : ℕ) (w : World) (a b : BattleAvatar) (leaving : List ℕ) (fault : Bool)
    → (note_leaving r w b (note_leaving r w a (leaving, fault))).1
      ≡ is_null b.client (is_null a.client fault)
noted-fault r w a b leaving fault =
    let first = note_leaving r w a (leaving, fault) in
    note_leaving-fault r w b first.0 first.1
    ∙ ap (is_null b.client) (note_leaving-fault r w a leaving fault)

settle-IsSettled :
    (random : Random) (r : ℕ) (b : Bout)
    → is_over b.duel ≡ true
    → IsSettled random (settle random r b).duel
unfolding settle close_fight set_finish
settle-IsSettled random r b e =
    let d = b.duel in
    let h = hurt_both random r (d.world, d.me, d.opponent) in
    let (s, t) = hurt_both-IsSpent random r d.world d.me d.opponent in
    let m = unlisted random d.me d.opponent in
    let n = noted-fault r h.0 h.1 h.2 b.leaving (m || d.fault) in
    let k = hurt_both-unlisted random r d.world d.me d.opponent in
    rw e (record {
      me_spent = set_finish-IsSpent _ _ s;
      opponent_spent = set_finish-IsSpent _ _ t;
      me_finished = refl;
      opponent_finished = refl;
      noticed = rw (n, k, is_null_twice h.2.client h.1.client m d.fault) refl;
    })

settled-settle :
    (random : Random) (r : ℕ) (b : Bout)
    → IsSettled random b.duel
    → (settle random r b).duel ≡ b.duel
unfolding settle close_fight
settled-settle random r b v =
    let d = b.duel in
    elim (Bool-cases (is_over d)) [
      | inl e ↦
          rw
            (
              e,
              hurt_both-spent random r d.world d.me d.opponent v.me_spent v.opponent_spent,
              set_finish-finished d.me v.me_finished,
              set_finish-finished d.opponent v.opponent_finished,
              noted-fault r d.world d.me d.opponent b.leaving
                  (unlisted random d.me d.opponent || d.fault),
              v.noticed,
            )
            refl
      | inr e ↦ rw e refl
    ]

settle-not_over :
    (random : Random) (r : ℕ) (b : Bout) → is_over b.duel ≡ false → settle random r b ≡ b
unfolding settle
settle-not_over random r b e = rw e refl

-- The end of a fight, wherever it is looked for again, takes effect once: whatever the two avatars and
-- the world are, looking a second time changes neither of them, nor adds a fault.
pub settle-settle :
    (random : Random) (r : ℕ) (b : Bout)
    → (settle random r (settle random r b)).duel ≡ (settle random r b).duel
settle-settle random r b = elim (Bool-cases (is_over b.duel)) [
  | inl e ↦ settled-settle random r (settle random r b) (settle-IsSettled random r b e)
  | inr e ↦ ap (λ c. (settle random r c).duel) (settle-not_over random r b e)
]
