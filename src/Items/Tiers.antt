-- ===== src/Items/Tiers.antt =====
-- Server/Server/Items.h: the lists of the items by tier, from which tickets and combinations draw.
use isegye_idol_game_server.Common.{
  ℕ, zero, suc, ◌≡◌, refl, Bool, true, false, Option, none, some, List, [], ◌∷◌, get_elem?, ◌==◌,
  all, all-get_elem?, arith, ◌<◌, get_elem?_total, get_elem?-lt_length, Option-cases, inl, inr, ltb,
  ltb→lt,
}
use mathlib.Core.Option.{some_inj}
use isegye_idol_game_server.Types.{ItemTierType}
use isegye_idol_game_server.World.{Random}
use isegye_idol_game_server.Items.{ItemBase, s_items, tier_number}

-- `_sOneTierItems` to `_sFiveTierItems`, by the items' codes
abbrev pub s_one_tier_items : List ℕ
s_one_tier_items = 1 ∷ 2 ∷ 3 ∷ 4 ∷ 8 ∷ 33 ∷ []

abbrev pub s_two_tier_items : List ℕ
s_two_tier_items = 7 ∷ 9 ∷ 10 ∷ 12 ∷ 14 ∷ 16 ∷ 19 ∷ 20 ∷ 21 ∷ 22 ∷ 26 ∷ 30 ∷ 31 ∷ 37 ∷ []

abbrev pub s_three_tier_items : List ℕ
s_three_tier_items = 6 ∷ 11 ∷ 23 ∷ 24 ∷ 28 ∷ 29 ∷ 34 ∷ 35 ∷ 36 ∷ []

abbrev pub s_four_tier_items : List ℕ
s_four_tier_items = 5 ∷ 13 ∷ 17 ∷ 18 ∷ 25 ∷ []

abbrev pub s_five_tier_items : List ℕ
s_five_tier_items = 15 ∷ 27 ∷ 32 ∷ []

-- `sTierItems`
abbrev pub s_tier_items : List (List ℕ)
s_tier_items =
    s_one_tier_items ∷ s_two_tier_items ∷ s_three_tier_items ∷ s_four_tier_items ∷ s_five_tier_items
    ∷ []

tier_of_base : Option ItemBase → Option ℕ
unfolding tier_number
tier_of_base none = none
tier_of_base (some base) = some (tier_number base.tier_type)

-- `sItems[type]->TIER_TYPE` as a number, which is what the source casts it to.
unfoldable pub tier_of : Random → ℕ → Option ℕ
unfolding tier_of_base s_items
tier_of random type = tier_of_base (get_elem? (s_items random) type)

abbrev is_tier : ℕ → Option ℕ → Bool
is_tier k none = false
is_tier k (some t) = t == k

is_tier-some : (k : ℕ) (o : Option ℕ) → is_tier k o ≡ true → o ≡ some k
is_tier-some k none h = cc
is_tier-some k (some t) h = ground arith

listed :
    (random : Random) (k n : ℕ) (items : List ℕ) {code : ℕ}
    → all (λ c. is_tier k (tier_of random c)) items ≡ true
    → get_elem? items n ≡ some code
    → tier_of random code ≡ some k
listed random k n items {code} h e =
    is_tier-some k _ (all-get_elem? (λ c. is_tier k (tier_of random c)) items n h e)

-- The lists agree with the table of the items: a code of the `k`th list is that of an item of the
-- `k`th tier.
pub s_tier_items-tier_of :
    (random : Random) (k n : ℕ) {items : List ℕ} {code : ℕ}
    → get_elem? s_tier_items k ≡ some items
    → get_elem? items n ≡ some code
    → tier_of random code ≡ some k
unfolding tier_of s_items
s_tier_items-tier_of random zero n p q =
    listed random 0 n s_one_tier_items refl (rw (← some_inj.0 p) at q)
s_tier_items-tier_of random (suc zero) n p q =
    listed random 1 n s_two_tier_items refl (rw (← some_inj.0 p) at q)
s_tier_items-tier_of random (suc (suc zero)) n p q =
    listed random 2 n s_three_tier_items refl (rw (← some_inj.0 p) at q)
s_tier_items-tier_of random (suc (suc (suc zero))) n p q =
    listed random 3 n s_four_tier_items refl (rw (← some_inj.0 p) at q)
s_tier_items-tier_of random (suc (suc (suc (suc zero)))) n p q =
    listed random 4 n s_five_tier_items refl (rw (← some_inj.0 p) at q)
s_tier_items-tier_of random (suc (suc (suc (suc (suc k))))) n p q = cc

tier_number_bound : (t : ItemTierType) → tier_number t < 5
unfolding tier_number
tier_number_bound t = ground arith

-- Each of the 46 items has a tier.
pub tier_of_total :
    (random : Random) (type : ℕ)
    → type < 46
    → (tier : ℕ) × (tier_of random type ≡ some tier) × (tier < 5)
unfolding tier_of s_items tier_of_base
tier_of_total random type h =
    let (base, e) = get_elem?_total (s_items random) type h in
    (tier_number base.tier_type, rw (e, tier_of_base) refl, tier_number_bound base.tier_type)

missing_tier :
    (random : Random) (type : ℕ) (tier : ℕ)
    → get_elem? (s_items random) type ≡ none
    → ¬ (tier_of random type ≡ some tier)
unfolding tier_of tier_of_base
missing_tier random type tier e f = ground arith

-- Only the 46 items have one.
pub tier_of-lt :
    (random : Random) (type : ℕ) {tier : ℕ} → tier_of random type ≡ some tier → type < 46
unfolding s_items
tier_of-lt random type {tier} e = elim (Option-cases (get_elem? (s_items random) type)) [
  | inl f ↦ absurd (missing_tier random type tier f e)
  | inr (base, f) ↦ get_elem?-lt_length (s_items random) type f
]

-- No list holds the empty place.
pub s_tier_items_pos :
    (k n : ℕ) {items : List ℕ} {code : ℕ}
    → get_elem? s_tier_items k ≡ some items
    → get_elem? items n ≡ some code
    → 0 < code
s_tier_items_pos k n {items} p q =
    ltb→lt _ _
      (all-get_elem? (ltb 0) items n (all-get_elem? (λ l. all (ltb 0) l) s_tier_items k refl p) q)
