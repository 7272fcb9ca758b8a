-- ===== src/Common/Lists.antt =====
-- Lists measured and indexed by native numbers, under the library's names.
use Prim.Native.Nat.{ℕ, zero, suc, ◌+◌, ◌-◌, ◌<◌, ◌≤◌}
use mathlib.Core.Path.{◌≡◌, refl, sym, ap}
use mathlib.Core.Logic.{◌≢◌, ◌⊎◌, inl, inr}
use mathlib.Core.List.{List, [], ◌∷◌, ◌++◌, map, Perm}
use mathlib.Core.List.Perm
use native.Mathlib.Nat.{suc-add}
use mathlib.Core.Option.{Option, none, some, some_inj}
use mathlib.Core.Bool.{Bool, true, false, ◌&&◌}
use native.Mathlib.Omega.{arith}

module _ {ℓ} {A : Type ℓ} where
  abbrev pub length : List A → ℕ
  length [] = 0
  length (x ∷ xs) = suc (length xs)

  abbrev pub get_elem? : List A → ℕ → Option A
  get_elem? [] i = none
  get_elem? (x ∷ xs) zero = some x
  get_elem? (x ∷ xs) (suc i) = get_elem? xs i

  abbrev pub get_or : List A → ℕ → A → A
  get_or [] i d = d
  get_or (x ∷ xs) zero d = x
  get_or (x ∷ xs) (suc i) d = get_or xs i d

  -- A write out of bounds changes nothing.
  abbrev pub set : List A → ℕ → A → List A
  set [] i v = []
  set (x ∷ xs) zero v = v ∷ xs
  set (x ∷ xs) (suc i) v = x ∷ set xs i v

  abbrev pub replicate : ℕ → A → List A
  replicate zero a = []
  replicate (suc n) a = a ∷ replicate n a

  abbrev pub take : ℕ → List A → List A
  take zero xs = []
  take (suc n) [] = []
  take (suc n) (x ∷ xs) = x ∷ take n xs

  abbrev pub drop : ℕ → List A → List A
  drop zero xs = xs
  drop (suc n) [] = []
  drop (suc n) (x ∷ xs) = drop n xs

  pub take-append-drop : (n : ℕ) (xs : List A) → take n xs ++ drop n xs ≡ xs
  take-append-drop zero xs = refl
  take-append-drop (suc n) [] = refl
  take-append-drop (suc n) (x ∷ xs) = ap (◌∷◌ x) (take-append-drop n xs)

  pub length-take : (n : ℕ) (xs : List A) → n ≤ length xs → length (take n xs) ≡ n
  length-take zero xs h = refl
  length-take (suc n) [] h = absurd (omega arith)
  length-take (suc n) (x ∷ xs) h = ap suc (length-take n xs (omega arith))

  pub length-drop : (n : ℕ) (xs : List A) → length (drop n xs) ≡ length xs - n
  length-drop zero xs = omega arith
  length-drop (suc n) [] = omega arith
  length-drop (suc n) (x ∷ xs) = omega (arith, length-drop n xs)

  pub length-append : (xs ys : List A) → length (xs ++ ys) ≡ length xs + length ys
  length-append [] ys = omega arith
  length-append (x ∷ xs) ys = omega (arith, length-append xs ys)

  pub length-set : (xs : List A) (i : ℕ) (v : A) → length (set xs i v) ≡ length xs
  length-set [] i v = refl
  length-set (x ∷ xs) zero v = refl
  length-set (x ∷ xs) (suc i) v = ap suc (length-set xs i v)

  pub get_elem?-set_self :
      (xs : List A) (i : ℕ) (v : A) {w : A}
      → get_elem? xs i ≡ some w
      → get_elem? (set xs i v) i ≡ some v
  get_elem?-set_self [] i v h = cc
  get_elem?-set_self (x ∷ xs) zero v h = refl
  get_elem?-set_self (x ∷ xs) (suc i) v h = get_elem?-set_self xs i v h

  pub get_elem?-set_ne :
      (xs : List A) (i j : ℕ) (v : A) → i ≢ j → get_elem? (set xs i v) j ≡ get_elem? xs j
  get_elem?-set_ne [] i j v h = refl
  get_elem?-set_ne (x ∷ xs) zero zero v h = absurd (h refl)
  get_elem?-set_ne (x ∷ xs) zero (suc j) v h = refl
  get_elem?-set_ne (x ∷ xs) (suc i) zero v h = refl
  get_elem?-set_ne (x ∷ xs) (suc i) (suc j) v h = get_elem?-set_ne xs i j v (λ e. h (ap suc e))

  pub set-set : (xs : List A) (i : ℕ) (v w : A) → set (set xs i w) i v ≡ set xs i v
  set-set [] i v w = refl
  set-set (x ∷ xs) zero v w = refl
  set-set (x ∷ xs) (suc i) v w = ap (◌∷◌ x) (set-set xs i v w)

  pub set-get_elem? : (xs : List A) (i : ℕ) (v : A) → get_elem? xs i ≡ some v → set xs i v ≡ xs
  set-get_elem? [] i v h = refl
  set-get_elem? (x ∷ xs) zero v h = ap (λ y. y ∷ xs) (ground arith)
  set-get_elem? (x ∷ xs) (suc i) v h = ap (◌∷◌ x) (set-get_elem? xs i v h)

  pub set_comm :
      (xs : List A) (i j : ℕ) (v w : A) → i ≢ j → set (set xs j w) i v ≡ set (set xs i v) j w
  set_comm [] i j v w h = refl
  set_comm (x ∷ xs) zero zero v w h = absurd (h refl)
  set_comm (x ∷ xs) zero (suc j) v w h = refl
  set_comm (x ∷ xs) (suc i) zero v w h = refl
  set_comm (x ∷ xs) (suc i) (suc j) v w h = ap (◌∷◌ x) (set_comm xs i j v w (λ e. h (ap suc e)))

  pub get_elem?_total : (xs : List A) (i : ℕ) → i < length xs → (v : A) × (get_elem? xs i ≡ some v)
  get_elem?_total [] i h = elim h [ ]
  get_elem?_total (x ∷ xs) zero h = (x, refl)
  get_elem?_total (x ∷ xs) (suc i) h = get_elem?_total xs i (omega arith)

  pub get_elem?-lt_length : (xs : List A) (i : ℕ) {v : A} → get_elem? xs i ≡ some v → i < length xs
  get_elem?-lt_length [] i h = cc
  get_elem?-lt_length (x ∷ xs) zero h = omega arith
  get_elem?-lt_length (x ∷ xs) (suc i) h = omega (arith, get_elem?-lt_length xs i h)

  pub get_elem?-append_left :
      (xs ys : List A) (i : ℕ) → i < length xs → get_elem? (xs ++ ys) i ≡ get_elem? xs i
  get_elem?-append_left [] ys i h = elim h [ ]
  get_elem?-append_left (x ∷ xs) ys zero h = refl
  get_elem?-append_left (x ∷ xs) ys (suc i) h = get_elem?-append_left xs ys i (omega arith)

  pub get_elem?-append_right :
      (xs ys : List A) (i : ℕ) → get_elem? (xs ++ ys) (length xs + i) ≡ get_elem? ys i
  get_elem?-append_right [] ys i = ap (get_elem? ys) (omega arith)
  get_elem?-append_right (x ∷ xs) ys i = rw suc-add (get_elem?-append_right xs ys i)

  pub set-append_left :
      (xs ys : List A) (i : ℕ) (v : A) → i < length xs → set (xs ++ ys) i v ≡ set xs i v ++ ys
  set-append_left [] ys i v h = elim h [ ]
  set-append_left (x ∷ xs) ys zero v h = refl
  set-append_left (x ∷ xs) ys (suc i) v h = ap (◌∷◌ x) (set-append_left xs ys i v (omega arith))

  pub set-append_right :
      (xs ys : List A) (i : ℕ) (v : A) → set (xs ++ ys) (length xs + i) v ≡ xs ++ set ys i v
  set-append_right [] ys i v = ap (λ k. set ys k v) (omega arith)
  set-append_right (x ∷ xs) ys i v = rw suc-add (ap (◌∷◌ x) (set-append_right xs ys i v))

  -- Two elements change places.
  perm_exchange :
      (a b : A) (xs : List A) (j : ℕ) → get_elem? xs j ≡ some b → Perm (b ∷ set xs j a) (a ∷ xs)
  perm_exchange a b [] j h = cc
  perm_exchange a b (x ∷ xs) zero h = rw (some_inj.0 h) (Perm.swap a b xs)
  perm_exchange a b (x ∷ xs) (suc j) h =
      Perm.trans (Perm.swap x b _)
        (Perm.trans (Perm.cons x (perm_exchange a b xs j h)) (Perm.swap a x xs))

  pub set-set-perm :
      (xs : List A) (i j : ℕ) (a b : A)
      → get_elem? xs i ≡ some a
      → get_elem? xs j ≡ some b
      → Perm (set (set xs j a) i b) xs
  set-set-perm [] i j a b p q = cc
  set-set-perm (x ∷ xs) zero zero a b p q = rw (some_inj.0 q) (Perm.refl _)
  set-set-perm (x ∷ xs) zero (suc j) a b p q = rw (some_inj.0 p) (perm_exchange a b xs j q)
  set-set-perm (x ∷ xs) (suc i) zero a b p q = rw (some_inj.0 q) (perm_exchange b a xs i p)
  set-set-perm (x ∷ xs) (suc i) (suc j) a b p q = Perm.cons x (set-set-perm xs i j a b p q)

module _ {ℓ κ} {A : Type ℓ} {B : Type κ} where
  pub map-set :
      (f : A → B) (xs : List A) (i : ℕ) (v : A) → map f (set xs i v) ≡ set (map f xs) i (f v)
  map-set f [] i v = refl
  map-set f (x ∷ xs) zero v = refl
  map-set f (x ∷ xs) (suc i) v = ap (◌∷◌ (f x)) (map-set f xs i v)

  pub get_elem?-map :
      (f : A → B) (xs : List A) (i : ℕ) {v : A}
      → get_elem? xs i ≡ some v
      → get_elem? (map f xs) i ≡ some (f v)
  get_elem?-map f [] i h = cc
  get_elem?-map f (x ∷ xs) zero h = ap (λ y. some (f y)) (some_inj.0 h)
  get_elem?-map f (x ∷ xs) (suc i) h = get_elem?-map f xs i h

  pub map-take : (f : A → B) (n : ℕ) (xs : List A) → map f (take n xs) ≡ take n (map f xs)
  map-take f zero xs = refl
  map-take f (suc n) [] = refl
  map-take f (suc n) (x ∷ xs) = ap (◌∷◌ (f x)) (map-take f n xs)

  pub map-drop : (f : A → B) (n : ℕ) (xs : List A) → map f (drop n xs) ≡ drop n (map f xs)
  map-drop f zero xs = refl
  map-drop f (suc n) [] = refl
  map-drop f (suc n) (x ∷ xs) = map-drop f n xs

  pub length-map : (f : A → B) (xs : List A) → length (map f xs) ≡ length xs
  length-map f [] = refl
  length-map f (x ∷ xs) = ap suc (length-map f xs)

module _ {ℓ} {A : Type ℓ} where
  pub List-cases : (xs : List A) → (xs ≡ []) ⊎ ((y : A) × (ys : List A) × (xs ≡ y ∷ ys))
  List-cases [] = inl refl
  List-cases (x ∷ xs) = inr (x, xs, refl)

both : (a b : Bool) → (a && b) ≡ true → (a ≡ true) × (b ≡ true)
both true b h = (refl, h)
both false b h = cc

module _ {ℓ} {A : Type ℓ} where
  abbrev pub all : (A → Bool) → List A → Bool
  all p [] = true
  all p (x ∷ xs) = p x && all p xs

  pub all-get_elem? :
      (p : A → Bool) (xs : List A) (i : ℕ) {x : A}
      → all p xs ≡ true
      → get_elem? xs i ≡ some x
      → p x ≡ true
  all-get_elem? p [] i h e = cc
  all-get_elem? p (x ∷ xs) zero h e = rw (← some_inj.0 e) (both (p x) (all p xs) h).0
  all-get_elem? p (x ∷ xs) (suc i) h e = all-get_elem? p xs i (both (p x) (all p xs) h).1 e

abbrev pub sum : List ℕ → ℕ
sum [] = 0
sum (x ∷ xs) = x + sum xs

module _ {ℓ} {A : Type ℓ} where
  -- What is read after a write is what was written or what was there.
  pub get_elem?-set :
      (xs : List A) (i j : ℕ) (v : A) {w : A}
      → get_elem? (set xs i v) j ≡ some w
      → (w ≡ v) ⊎ (get_elem? xs j ≡ some w)
  get_elem?-set [] i j v h = cc
  get_elem?-set (x ∷ xs) zero zero v h = inl (sym (some_inj.0 h))
  get_elem?-set (x ∷ xs) zero (suc j) v h = inr h
  get_elem?-set (x ∷ xs) (suc i) zero v h = inr h
  get_elem?-set (x ∷ xs) (suc i) (suc j) v h = get_elem?-set xs i j v h
