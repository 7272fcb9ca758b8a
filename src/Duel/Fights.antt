-- ===== src/Duel/Fights.antt =====
-- What holds of any effect that Items.h builds from the methods of the two avatars.
use isegye_idol_game_server.Common.{
  ℕ, zero, suc, ◌≤◌, ◌≡◌, refl, Bool, true, false, none, some, arith, Option, ◌≢◌, ◌∙◌,
  if◌then◌else◌,
}
use isegye_idol_game_server.World.{World, Random}
use isegye_idol_game_server.World.Safe.{IsSafeWorld, same-IsSafeWorld}
use isegye_idol_game_server.Avatar.{BattleAvatar}
use isegye_idol_game_server.Avatar.Sound.{
  Touch, Touches, Hurts, Touch-trans, to_damage-Hurts, to_piercing_damage-Hurts,
}
use isegye_idol_game_server.Duel.{
  Duel, Step, ◌⨾◌, skip, on_me, on_opponent, on_world, hit, pierce, go_wrong, times, switch_upgrade,
  at_pointer, with_client, draw,
}

-- What an item asks of the two avatars so as not to go wrong: a client behind the one that uses it,
-- and a fifth of the opponent's life to divide by.
pub record IsReady (d : Duel) : Type 0 where
  pub has_client : d.me.client ≢ none
  pub fifth : 5 ≤ d.opponent.max_hp

-- Both avatars stay sound and the fighters that they were, the opponent gains no life, and nothing
-- goes wrong where the two are ready; and the server stays safe.
pub record Fights (d e : Duel) : Type 0 where
  pub me_touched : Touch d.me e.me
  pub opponent_touched : Touch d.opponent e.opponent
  pub opponent_hurt : e.opponent.hp ≤ d.opponent.hp
  pub no_fault : IsReady d → e.fault ≡ d.fault
  pub kept_world : IsSafeWorld d.world → IsSafeWorld e.world

abbrev pub Keeps : Step → Type 0
Keeps f = (d : Duel) → Fights d (f d)

Fights-IsReady : (d e : Duel) → Fights d e → IsReady d → IsReady e
Fights-IsReady d e f r = record {
  has_client = rw f.me_touched.same.same_client r.has_client;
  fifth = rw f.opponent_touched.same.same_max_hp r.fifth;
}

pub Fights-trans : (c d e : Duel) → Fights c d → Fights d e → Fights c e
Fights-trans c d e p q = record {
  me_touched = Touch-trans c.me d.me e.me p.me_touched q.me_touched;
  opponent_touched =
      Touch-trans c.opponent d.opponent e.opponent p.opponent_touched q.opponent_touched;
  opponent_hurt = omega (arith, p.opponent_hurt, q.opponent_hurt);
  no_fault = λ r. q.no_fault (Fights-IsReady c d p r) ∙ p.no_fault r;
  kept_world = λ s. q.kept_world (p.kept_world s);
}

Touch-refl : (a : BattleAvatar) → Touch a a
Touch-refl a = ground arith

Fights-refl :
    (d e : Duel)
    → e.me ≡ d.me
    → e.opponent ≡ d.opponent
    → e.fault ≡ d.fault
    → (IsSafeWorld d.world → IsSafeWorld e.world)
    → Fights d e
Fights-refl d e p q r k = record {
  me_touched = rw p (Touch-refl d.me);
  opponent_touched = rw q (Touch-refl d.opponent);
  opponent_hurt = rw q (omega arith);
  no_fault = λ _. r;
  kept_world = k;
}

pub skip-Keeps : Keeps skip
skip-Keeps d = Fights-refl d d refl refl refl (λ s. s)

pub then-Keeps : (f g : Step) → Keeps f → Keeps g → Keeps (f ⨾ g)
then-Keeps f g p q d = Fights-trans d (f d) (g (f d)) (p d) (q (f d))

pub on_me-Keeps : (f : BattleAvatar → BattleAvatar) → Touches f → Keeps (on_me f)
unfolding on_me
on_me-Keeps f p d = record {
  me_touched = p d.me;
  opponent_touched = Touch-refl d.opponent;
  opponent_hurt = omega arith;
  no_fault = λ _. refl;
  kept_world = λ s. s;
}

pub on_opponent-Keeps : (f : BattleAvatar → BattleAvatar) → Hurts f → Keeps (on_opponent f)
unfolding on_opponent
on_opponent-Keeps f p d = record {
  me_touched = Touch-refl d.me;
  opponent_touched = (p d.opponent).0;
  opponent_hurt = (p d.opponent).1;
  no_fault = λ _. refl;
  kept_world = λ s. s;
}

pub hit-Keeps : (n : ℕ) → Keeps (hit n)
unfolding hit
hit-Keeps n d = record {
  me_touched = Touch-refl d.me;
  opponent_touched = (to_damage-Hurts n d.me d.opponent).0;
  opponent_hurt = (to_damage-Hurts n d.me d.opponent).1;
  no_fault = λ _. refl;
  kept_world = λ s. s;
}

pub pierce-Keeps : (n : ℕ) → Keeps (pierce n)
unfolding pierce
pierce-Keeps n d = record {
  me_touched = Touch-refl d.me;
  opponent_touched = (to_piercing_damage-Hurts n d.me d.opponent).0;
  opponent_hurt = (to_piercing_damage-Hurts n d.me d.opponent).1;
  no_fault = λ _. refl;
  kept_world = λ s. s;
}

pub on_world-Keeps :
    (f : World → World) → ((w : World) → IsSafeWorld w → IsSafeWorld (f w)) → Keeps (on_world f)
unfolding on_world
on_world-Keeps f k d = Fights-refl d _ refl refl refl (k d.world)

-- Going wrong is no step of a ready pair.
pub go_wrong-Fights : (d : Duel) → ¬ IsReady d → Fights d (go_wrong d)
unfolding go_wrong
go_wrong-Fights d n = record {
  me_touched = Touch-refl d.me;
  opponent_touched = Touch-refl d.opponent;
  opponent_hurt = omega arith;
  no_fault = λ r. absurd (n r);
  kept_world = λ s. s;
}

pub times-Keeps : (n : ℕ) (f : Step) → Keeps f → Keeps (times n f)
unfolding times
times-Keeps zero f p d = skip-Keeps d
times-Keeps (suc n) f p d = Fights-trans d (f d) (times n f (f d)) (p d) (times-Keeps n f p (f d))

pub switch_upgrade-Keeps :
    (u : ℕ) (f g h : Step) → Keeps f → Keeps g → Keeps h → Keeps (switch_upgrade u f g h)
unfolding switch_upgrade
switch_upgrade-Keeps zero f g h p q r = p
switch_upgrade-Keeps (suc zero) f g h p q r = q
switch_upgrade-Keeps (suc (suc zero)) f g h p q r = r
switch_upgrade-Keeps (suc (suc (suc u))) f g h p q r = skip-Keeps

at_pointer-Keeps :
    (p : Option ℕ) (f : ℕ → Step)
    → ((i : ℕ) → Keeps (f i))
    → (d : Duel) → d.me.client ≡ p
    → Fights d (at_pointer p f d)
unfolding at_pointer
at_pointer-Keeps none f k d e = go_wrong-Fights d (λ r. r.has_client e)
at_pointer-Keeps (some i) f k d e = k i d

pub with_client-Keeps : (f : ℕ → Step) → ((i : ℕ) → Keeps (f i)) → Keeps (with_client f)
unfolding with_client
with_client-Keeps f k d = at_pointer-Keeps d.me.client f k d refl

pub draw-Keeps :
    (random : Random) (lo hi : ℕ) (f : ℕ → Step)
    → ((n : ℕ) → Keeps (f n))
    → Keeps (draw random lo hi f)
unfolding draw
draw-Keeps random lo hi f p d =
    Fights-trans d _ _
      (Fights-refl d _ refl refl refl (same-IsSafeWorld d.world _ refl (λ i. refl) (λ i. refl)))
      (p _ _)

pub if-Keeps : (b : Bool) (f g : Step) → Keeps f → Keeps g → Keeps (if b then f else g)
if-Keeps true f g p q = p
if-Keeps false f g p q = q

-- The same where the test reads the state.
pub if-Fights : (b : Bool) (d e f : Duel) → Fights d e → Fights d f → Fights d (if b then e else f)
if-Fights true d e f p q = p
if-Fights false d e f p q = q

pub ruleset keeps = (
  skip-Keeps, then-Keeps, on_me-Keeps, on_opponent-Keeps, hit-Keeps, pierce-Keeps, on_world-Keeps,
  times-Keeps, switch_upgrade-Keeps, with_client-Keeps, draw-Keeps, if-Keeps,
)
