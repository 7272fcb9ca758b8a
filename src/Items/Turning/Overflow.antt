-- ===== src/Items/Turning/Overflow.antt =====
-- Server/Server/Items.h: `Item027`, the bow tie, used again and again.
use isegye_idol_game_server.Common.{
  ℕ, zero, suc, ◌≡◌, ◌+◌, ◌*◌, ◌^◌, ◌≤◌, ◌<◌, ◌⊎◌, inl, inr, ltb, ltb→lt, ◌==◌, ==_iff, Bool-cases,
  arith,
}
use native.Mathlib.Nat.{pow-suc, mul-le-mul_right}
use isegye_idol_game_server.Avatar.{to_defensive}
use isegye_idol_game_server.Duel.{Duel, on_me, switch_upgrade, times}
use isegye_idol_game_server.Items.Turning.{item027}

-- One use of the strongest tie more than doubles the defence.
doubled : (d : Duel) → 2 * (d.me.defensive + 20) ≤ (item027 2 d).me.defensive + 20
unfolding item027 on_me switch_upgrade to_defensive
doubled d = omega arith

-- The defence after `n` uses of the strongest tie is at least twenty times `2 ^ n - 1`.
times-doubled :
    (n : ℕ) (d : Duel) → (d.me.defensive + 20) * 2 ^ n ≤ (times n (item027 2) d).me.defensive + 20
unfolding times
times-doubled zero d = omega arith
times-doubled (suc n) d =
    let more : ((item027 2 d).me.defensive + 20) * 2 ^ n
        ≤ (times (suc n) (item027 2) d).me.defensive + 20 =
      times-doubled n (item027 2 d) in
    rw (pow-suc 2 n) (omega (arith, more, mul-le-mul_right (2 ^ n) (doubled d)))

up_to :
    (f : ℕ → ℕ) (bound n : ℕ)
    → ((j : ℕ) → j ≤ n → f j < bound)
    → f (suc n) < bound
    → (j : ℕ) → j ≤ suc n
    → f j < bound
up_to f bound n below last j h = elim (Bool-cases (j == suc n)) [
  | inl e ↦ rw ((==_iff j (suc n)).0 e) last
  | inr e ↦ below j (ground arith)
]

-- Where a quantity that is below a bound at first reaches it within `n` turns.
first_past :
    (f : ℕ → ℕ) (bound n : ℕ)
    → f 0 < bound
    → ((j : ℕ) → j ≤ n → f j < bound)
      ⊎ ((k : ℕ) × (k < n) × ((j : ℕ) → j ≤ k → f j < bound) × (bound ≤ f (suc k)))
first_past f bound zero h = inl (λ j e. let z : j ≡ 0 = omega arith in rw z h)
first_past f bound (suc n) h = elim (first_past f bound n h) [
  | inr (k, l, below, past) ↦ inr (k, omega arith, below, past)
  | inl below ↦ elim (Bool-cases (ltb (f (suc n)) bound)) [
    | inl e ↦ inl (up_to f bound n below (ltb→lt _ _ e))
    | inr e ↦ inr (n, omega arith, below, ground arith)
  ]
]

-- As an `int`, the defence is below `2 ^ 31`. From any such defence the strongest tie comes to a use,
-- within 27, before which the defence was an `int` after each use, and after which it is not one.
pub item027-overflow :
    (d : Duel)
    → d.me.defensive < 2 ^ 31
    → (k : ℕ) × (k < 27)
      × ((j : ℕ) → j ≤ k → (times j (item027 2) d).me.defensive < 2 ^ 31)
      × (2 ^ 31 ≤ (times (suc k) (item027 2) d).me.defensive)
unfolding times
item027-overflow d h =
    let f = λ (n : ℕ). (times n (item027 2) d).me.defensive in
    elim (first_past f (2 ^ 31) 27 h) [
      | inl below ↦ absurd (omega (arith, times-doubled 27 d, below 27 (omega arith)))
      | inr past ↦ past
    ]
