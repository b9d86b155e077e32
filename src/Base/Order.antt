-- ===== src/Base/Order.antt =====
-- Linear orders as Boolean tests, the lexicographic order of lists, and a sort by an order: the
-- comparison of slices and `sort_unstable_by` of the standard library.
use mathlib.Core.Path.{◌≡◌, refl, subst}
use mathlib.Core.Logic.{inl, inr}
use mathlib.Core.Bool.{Bool, true, false}
use mathlib.Core.List.{List, [], ◌∷◌, ◌++◌}
use native.Mathlib.Omega.{arith}
use omne_runtime.Base.Tests.{if◌then◌else◌, Bool-cases, leb}

pub record IsLinear {ℓ} {A : Type ℓ} (le : A → A → Bool) : Type ℓ where
  pub total : (a b : A) → le a b ≡ false → le b a ≡ true
  pub antisym : (a b : A) → le a b ≡ true → le b a ≡ true → a ≡ b
  pub trans : (a b c : A) → le a b ≡ true → le b c ≡ true → le a c ≡ true

pub leb-IsLinear : IsLinear leb
leb-IsLinear = record {
  total = λ a b h. ground arith;
  antisym = λ a b h g. ground arith;
  trans = λ a b c h g. ground arith;
}

abbrev pub All {ℓ κ} : {A : Type ℓ} → (A → Type κ) → List A → Type κ
All P [] = Unit
All P (x ∷ xs) = P x × All P xs

-- Every two entries at different positions are related, the earlier one first.
abbrev pub Pairs {ℓ κ} : {A : Type ℓ} → (A → A → Type κ) → List A → Type κ
Pairs R [] = Unit
Pairs R (x ∷ xs) = All (R x) xs × Pairs R xs

module _ {ℓ} {A : Type ℓ} (le : A → A → Bool) where
  unfoldable pub lex_le : List A → List A → Bool
  lex_le [] ys = true
  lex_le (x ∷ xs) [] = false
  lex_le (x ∷ xs) (y ∷ ys) =
      let rest = lex_le xs ys in if le x y then (if le y x then rest else true) else false

  unfoldable pub insert : A → List A → List A
  insert x [] = x ∷ []
  insert x (y ∷ ys) = let rest = insert x ys in if le x y then x ∷ y ∷ ys else y ∷ rest

  unfoldable pub sort : List A → List A
  sort [] = []
  sort (x ∷ xs) = insert x (sort xs)

module _ {ℓ} {A : Type ℓ} {le : A → A → Bool} (linear : IsLinear le) where
  lex_le-total : (xs ys : List A) → lex_le le xs ys ≡ false → lex_le le ys xs ≡ true
  unfolding lex_le
  lex_le-total [] ys h = cc
  lex_le-total (x ∷ xs) [] h = refl
  lex_le-total (x ∷ xs) (y ∷ ys) h = ground (arith, lex_le-total xs ys, linear.total x y)

  lex_le-antisym : (xs ys : List A) → lex_le le xs ys ≡ true → lex_le le ys xs ≡ true → xs ≡ ys
  unfolding lex_le
  lex_le-antisym [] [] h g = refl
  lex_le-antisym [] (y ∷ ys) h g = cc
  lex_le-antisym (x ∷ xs) [] h g = cc
  lex_le-antisym (x ∷ xs) (y ∷ ys) h g = ground (arith, lex_le-antisym xs ys, linear.antisym x y)

  lex_le_trans :
      (xs ys zs : List A) → lex_le le xs ys ≡ true → lex_le le ys zs ≡ true → lex_le le xs zs ≡ true
  unfolding lex_le
  lex_le_trans [] ys zs h g = refl
  lex_le_trans (x ∷ xs) [] zs h g = cc
  lex_le_trans (x ∷ xs) (y ∷ ys) [] h g = cc
  lex_le_trans (x ∷ xs) (y ∷ ys) (z ∷ zs) h g =
      ground
        (arith, lex_le_trans xs ys zs, linear.trans x y z, linear.trans y z x, linear.trans z x y)

  pub lex_le-IsLinear : IsLinear (lex_le le)
  lex_le-IsLinear = record { total = lex_le-total; antisym = lex_le-antisym; trans = lex_le_trans }

  pub lex_le-append : (xs ys : List A) → lex_le le xs (xs ++ ys) ≡ true
  unfolding lex_le
  lex_le-append [] ys = refl
  lex_le-append (x ∷ xs) ys = ground (arith, linear.total x x, lex_le-append xs ys)

  -- What lies between a list and one that it starts, starts with that list.
  pub lex_le-between :
      (xs ys zs : List A)
      → lex_le le xs ys ≡ true
      → lex_le le ys (xs ++ zs) ≡ true
      → (rest : List A) × (ys ≡ xs ++ rest)
  unfolding lex_le
  lex_le-between [] ys zs h g = (ys, refl)
  lex_le-between (x ∷ xs) [] zs h g = cc
  lex_le-between (x ∷ xs) (y ∷ ys) zs h g =
      let below : le x y ≡ true = ground arith in
      let above : le y x ≡ true = ground arith in
      let (rest, same) = lex_le-between xs ys zs (ground arith) (ground arith) in
      (rest, ground (arith, same, linear.antisym x y below above))

-- The order of the keys of values.
pub key-IsLinear {ℓ κ} :
    {A : Type ℓ} {K : Type κ} {le : K → K → Bool} (linear : IsLinear le) (key : A → K)
    → (injective : (a b : A) → key a ≡ key b → a ≡ b) → IsLinear (λ a b. le (key a) (key b))
key-IsLinear linear key injective = record {
  total = λ a b. linear.total (key a) (key b);
  antisym = λ a b h g. injective a b (linear.antisym (key a) (key b) h g);
  trans = λ a b c. linear.trans (key a) (key b) (key c);
}

module _ {ℓ κ} {A : Type ℓ} (le : A → A → Bool) (P : A → Type κ) where
  pub All-insert : (x : A) (xs : List A) → P x → All P xs → All P (insert le x xs)
  unfolding insert
  All-insert x [] p ps = (p, tt)
  All-insert x (y ∷ ys) p ps = elim (Bool-cases (le x y)) [
    | inl e ↦ rw e (p, ps)
    | inr e ↦ rw e (ps.0, All-insert x ys p ps.1)
  ]

  pub insert-All : (x : A) (xs : List A) → All P (insert le x xs) → P x × All P xs
  unfolding insert
  insert-All x [] ps = ps
  insert-All x (y ∷ ys) ps = elim (Bool-cases (le x y)) [
    | inl e ↦
        let step : insert le x (y ∷ ys) ≡ x ∷ y ∷ ys = rw e refl in
        let qs : All P (x ∷ y ∷ ys) = subst (All P) step ps in qs
    | inr e ↦
        let step : insert le x (y ∷ ys) ≡ y ∷ insert le x ys = rw e refl in
        let qs : All P (y ∷ insert le x ys) = subst (All P) step ps in
        let (p, rest) = insert-All x ys qs.1 in (p, (qs.0, rest))
  ]

  pub sort-All : (xs : List A) → All P (sort le xs) → All P xs
  unfolding sort
  sort-All [] ps = tt
  sort-All (x ∷ xs) ps = let (p, rest) = insert-All x (sort le xs) ps in (p, sort-All xs rest)

module _ {ℓ κ} {A : Type ℓ} (le : A → A → Bool) (R : A → A → Type κ) where
  insert-Pairs :
      (symmetric : (a b : A) → R a b → R b a) (x : A) (xs : List A)
      → Pairs R (insert le x xs)
      → All (R x) xs × Pairs R xs
  unfolding insert
  insert-Pairs symmetric x [] ps = (tt, tt)
  insert-Pairs symmetric x (y ∷ ys) ps = elim (Bool-cases (le x y)) [
    | inl e ↦
        let step : insert le x (y ∷ ys) ≡ x ∷ y ∷ ys = rw e refl in
        let qs : Pairs R (x ∷ y ∷ ys) = subst (Pairs R) step ps in qs
    | inr e ↦
        let step : insert le x (y ∷ ys) ≡ y ∷ insert le x ys = rw e refl in
        let qs : Pairs R (y ∷ insert le x ys) = subst (Pairs R) step ps in
        let (xy, ry) = insert-All le (R y) x ys qs.0 in
        let (rx, rest) = insert-Pairs symmetric x ys qs.1 in ((symmetric y x xy, rx), (ry, rest))
  ]

  -- A symmetric relation between all entries does not depend on their order.
  pub sort-Pairs :
      (symmetric : (a b : A) → R a b → R b a) (xs : List A) → Pairs R (sort le xs) → Pairs R xs
  unfolding sort
  sort-Pairs symmetric [] ps = tt
  sort-Pairs symmetric (x ∷ xs) ps =
      let (rx, rest) = insert-Pairs symmetric x (sort le xs) ps in
      (sort-All le (R x) xs rx, sort-Pairs symmetric xs rest)

module _ {ℓ} {A : Type ℓ} {le : A → A → Bool} (total : (a b : A) → le a b ≡ false → le b a ≡ true)
    (trans : (a b c : A) → le a b ≡ true → le b c ≡ true → le a c ≡ true) where
  abbrev IsSorted : List A → Type 0
  IsSorted = Pairs (λ a b. le a b ≡ true)

  All-le :
      (x y : A) (ys : List A)
      → le x y ≡ true
      → All (λ b. le y b ≡ true) ys
      → All (λ b. le x b ≡ true) ys
  All-le x y [] h ps = tt
  All-le x y (z ∷ zs) h ps = (trans x y z h ps.0, All-le x y zs h ps.1)

  insert-IsSorted : (x : A) (xs : List A) → IsSorted xs → IsSorted (insert le x xs)
  unfolding insert
  insert-IsSorted x [] ps = (tt, tt)
  insert-IsSorted x (y ∷ ys) ps = elim (Bool-cases (le x y)) [
    | inl e ↦ rw e ((e, All-le x y ys e ps.0), ps)
    | inr e ↦
        rw e (All-insert le (λ b. le y b ≡ true) x ys (total x y e) ps.0, insert-IsSorted x ys ps.1)
  ]

  pub sort-IsSorted : (xs : List A) → Pairs (λ a b. le a b ≡ true) (sort le xs)
  unfolding sort
  sort-IsSorted [] = tt
  sort-IsSorted (x ∷ xs) = insert-IsSorted x (sort le xs) (sort-IsSorted xs)
