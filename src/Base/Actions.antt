-- ===== src/Base/Actions.antt =====
-- Fallible code that changes a state: an error keeps the changes made before it.
use mathlib.Core.Path.{◌≡◌, refl}
use mathlib.Core.Bool.{Bool, true, false}
use omne_runtime.Base.Tests.{if◌then◌else◌}
use omne_runtime.Base.Results.{Result, ok, err}

abbrev pub Action {ℓ κ μ} : Type ℓ → Type κ → Type μ → Type (ℓ ⊔ κ ⊔ μ)
Action S E A = S → Result E A × S

abbrev resume {ℓ κ μ ν} :
    {S : Type ℓ} {E : Type κ} {A : Type μ} {B : Type ν}
    → Result E A × S
    → (A → Action S E B)
    → Result E B × S
resume (ok a, s) f = f a s
resume (err e, s) f = (err e, s)

infixl 5 ◌>>=◌ ◌>>◌
abbrev pub ◌>>=◌ {ℓ κ μ ν} :
    {S : Type ℓ} {E : Type κ} {A : Type μ} {B : Type ν}
    → Action S E A
    → (A → Action S E B)
    → Action S E B
◌>>=◌ m f s = resume (m s) f

abbrev pub ◌>>◌ {ℓ κ ν} :
    {S : Type ℓ} {E : Type κ} {B : Type ν} → Action S E (Unit {0}) → Action S E B → Action S E B
m >> k = m >>= λ _. k

-- Code that changes nothing
abbrev pub lift {ℓ κ μ} : {S : Type ℓ} {E : Type κ} {A : Type μ} → Result E A → Action S E A
lift r s = (r, s)

-- The result as a value, for a `match` on it
abbrev pub attempt {ℓ κ μ ν} :
    {S : Type ℓ} {E : Type κ} {F : Type ν} {A : Type μ} → Action S E A → Action S F (Result E A)
attempt m s = (ok (m s).0, (m s).1)

abbrev convert {ℓ κ μ ν} :
    {S : Type ℓ} {E : Type κ} {F : Type ν} {A : Type μ} → (E → F) → Result E A × S → Result F A × S
convert f (ok a, s) = (ok a, s)
convert f (err e, s) = (err (f e), s)

-- `map_err` on the result
abbrev pub map_error {ℓ κ μ ν} :
    {S : Type ℓ} {E : Type κ} {F : Type ν} {A : Type μ} → Action S E A → (E → F) → Action S F A
map_error m f s = convert f (m s)

-- What holds after an action: `Good` of the result and the state, or `Bad` of the state an error left.
module _ {ℓ κ μ ν} {S : Type ℓ} {E : Type κ} (Bad : S → Type ν) where
  abbrev pub Outcome : {A : Type μ} → (A → S → Type ν) → Result E A × S → Type ν
  Outcome Good (ok a, s) = Good a s
  Outcome Good (err e, s) = Bad s

  abbrev pub Triple : {A : Type μ} → (S → Type ν) → (A → S → Type ν) → Action S E A → Type (ℓ ⊔ ν)
  Triple Before Good m = (s : S) → Before s → Outcome Good (m s)

  pub Outcome-weaken :
      {A : Type μ} (Good Better : A → S → Type ν) (x : Result E A × S)
      → ((a : A) (s : S) → Better a s → Good a s)
      → Outcome Better x
      → Outcome Good x
  Outcome-weaken Good Better (ok a, s) h better = h a s better
  Outcome-weaken Good Better (err e, s) h bad = bad

  pub Outcome-state : {A : Type μ} (x : Result E A × S) → Outcome (λ a s. Bad s) x → Bad x.1
  Outcome-state (ok a, s) h = h
  Outcome-state (err e, s) h = h

  pub Outcome-either :
      {A : Type μ} (Good : A → S → Type ν) (r : Result E A) (s : S)
      → ((a : A) → Good a s)
      → Bad s
      → Outcome Good (r, s)
  Outcome-either Good (ok a) s good bad = good a
  Outcome-either Good (err e) s good bad = bad

  resume-Outcome :
      {A B : Type μ} (Between : A → S → Type ν) (Good : B → S → Type ν) (f : A → Action S E B)
      → ((a : A) → Triple (Between a) Good (f a))
      → (x : Result E A × S) → Outcome Between x
      → Outcome Good (resume x f)
  resume-Outcome Between Good f h (ok a, s) p = h a s p
  resume-Outcome Between Good f h (err e, s) p = p

  pub >>=-Triple :
      {A B : Type μ} {Before : S → Type ν} (Between : A → S → Type ν) (Good : B → S → Type ν)
      (m : Action S E A) (f : A → Action S E B)
      → Triple Before Between m
      → ((a : A) → Triple (Between a) Good (f a))
      → Triple Before Good (m >>= f)
  >>=-Triple Between Good m f first second s p =
      resume-Outcome Between Good f second (m s) (first s p)

  pub lift-Triple :
      {A : Type μ} {Before : S → Type ν} (Good : A → S → Type ν) (r : Result E A)
      → ((s : S) → Before s → Bad s)
      → ((a : A) → r ≡ ok a → (s : S) → Before s → Good a s)
      → Triple Before Good (lift r)
  lift-Triple Good (ok a) bad good s p = good a refl s p
  lift-Triple Good (err e) bad good s p = bad s p

  pub if-Triple :
      {A : Type μ} {Before : S → Type ν} (Good : A → S → Type ν) (b : Bool) (m n : Action S E A)
      → Triple Before Good m
      → Triple Before Good n
      → Triple Before Good (if b then m else n)
  if-Triple Good true m n first second = first
  if-Triple Good false m n first second = second

  -- A check before the rest
  pub lift->>=-Triple :
      {A B : Type μ} (Before : S → Type ν) (Good : B → S → Type ν) (r : Result E A)
      (f : A → Action S E B)
      → ((s : S) → Before s → Bad s)
      → ((a : A) → r ≡ ok a → Triple Before Good (f a))
      → Triple Before Good (lift r >>= f)
  lift->>=-Triple Before Good (ok a) f bad good s p = good a refl s p
  lift->>=-Triple Before Good (err e) f bad good s p = bad s p

module _ {ℓ κ μ ν} {S : Type ℓ} {E : Type κ} {F : Type κ} (Bad : S → Type ν) where
  convert-Outcome :
      {A : Type μ} (Good : A → S → Type ν) (f : E → F) (x : Result E A × S)
      → Outcome {E = E} Bad Good x
      → Outcome {E = F} Bad Good (convert f x)
  convert-Outcome Good f (ok a, s) p = p
  convert-Outcome Good f (err e, s) p = p

  pub map_error-Triple :
      {A : Type μ} {Before : S → Type ν} (Good : A → S → Type ν) (m : Action S E A) (f : E → F)
      → Triple {E = E} Bad Before Good m
      → Triple {E = F} Bad Before Good (map_error m f)
  map_error-Triple Good m f h s p = convert-Outcome Good f (m s) (h s p)

module _ {ℓ κ μ ν} {S : Type ℓ} {E : Type κ} {A : Type μ} {B : Type ν} where
  resume-cong :
      (f g : A → Action S E B)
      → ((a : A) (s : S) → f a s ≡ g a s)
      → (x : Result E A × S) → resume x f ≡ resume x g
  resume-cong f g h (ok a, s) = h a s
  resume-cong f g h (err e, s) = refl

  pub >>=-cong :
      (m : Action S E A) (f g : A → Action S E B)
      → ((a : A) (s : S) → f a s ≡ g a s)
      → (s : S) → (m >>= f) s ≡ (m >>= g) s
  >>=-cong m f g h s = resume-cong f g h (m s)
