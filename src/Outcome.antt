-- ===== src/Outcome.antt =====
-- How a routine ends: with a result, in `Panic::panic` of the kernel (which does not return) or an
-- exception or a trap of user space (which nothing catches), or, in the model only, by running out of the fuel
-- of a loop.
pub mod Missing
use radish_os.Prelude.{◌≡◌, ◌≢◌, refl, ap, ◌⊎◌, inl, inr, Bool, true, false, arith}

pub data Panic : Type 0 where
  out_of_memory double_free new_block_is_null null_pointer index_out_of_range : Panic
  bad_typeid division_trap : Panic

pub data Outcome {ℓ} (A : Type ℓ) : Type ℓ where
  ok : A → Outcome A
  panic : Panic → Outcome A
  out_of_fuel : Outcome A

infixl 5 ◌>>=◌ ◌>>◌
abbrev pub ◌>>=◌ {ℓ κ} : {A : Type ℓ} {B : Type κ} → Outcome A → (A → Outcome B) → Outcome B
ok a >>= f = f a
panic p >>= f = panic p
out_of_fuel >>= f = out_of_fuel

abbrev pub ◌>>◌ {ℓ} : {B : Type ℓ} → Outcome (Unit {0}) → Outcome B → Outcome B
m >> k = m >>= λ _. k

-- A routine that ends returns or panics.
pub ends_cases {ℓ} :
    {A : Type ℓ} (m : Outcome A)
    → m ≢ out_of_fuel
    → ((a : A) × (m ≡ ok a)) ⊎ ((p : Panic) × (m ≡ panic p))
ends_cases (ok a) h = inl (a, refl)
ends_cases (panic p) h = inr (p, refl)
ends_cases out_of_fuel h = absurd (h refl)

-- A routine does not run out of fuel, what it returns satisfies `P`, and what it stops with is one
-- of `E`.
abbrev pub EndsIn {ℓ} : (Panic → Type 0) → {A : Type ℓ} → (A → Type 0) → Outcome A → Type 0
EndsIn E P (ok a) = P a
EndsIn E P (panic p) = E p
EndsIn E P out_of_fuel = ⊥

pub EndsIn->>= {ℓ κ} :
    (E : Panic → Type 0) {A : Type ℓ} {B : Type κ} {P : A → Type 0} (Q : B → Type 0) (m : Outcome A)
    (f : A → Outcome B)
    → EndsIn E P m
    → ((a : A) → P a → EndsIn E Q (f a))
    → EndsIn E Q (m >>= f)
EndsIn->>= E Q (ok a) f h k = k a h
EndsIn->>= E Q (panic p) f h k = h
EndsIn->>= E Q out_of_fuel f h k = absurd h

pub EndsIn-map {ℓ} :
    (E F : Panic → Type 0) {A : Type ℓ} {P Q : A → Type 0} (m : Outcome A)
    → EndsIn E P m
    → ((p : Panic) → E p → F p)
    → ((a : A) → P a → Q a)
    → EndsIn F Q m
EndsIn-map E F (ok a) h e k = k a h
EndsIn-map E F (panic p) h e k = e p h
EndsIn-map E F out_of_fuel h e k = absurd h

-- what can stop a program of user space
abbrev pub IsException : Panic → Type 0
IsException index_out_of_range = Unit {0}
IsException bad_typeid = Unit {0}
IsException division_trap = Unit {0}
IsException _ = ⊥

-- A program of user space ends, and what it returns satisfies `P`.
abbrev pub Ends {ℓ} : {A : Type ℓ} → (A → Type 0) → Outcome A → Type 0
Ends P m = EndsIn IsException P m

pub Ends->>= {ℓ κ} :
    {A : Type ℓ} {B : Type κ} {P : A → Type 0} (Q : B → Type 0) (m : Outcome A) (f : A → Outcome B)
    → Ends P m
    → ((a : A) → P a → Ends Q (f a))
    → Ends Q (m >>= f)
Ends->>= Q m f h k = EndsIn->>= IsException Q m f h k

-- A weaker claim of the result.
pub Ends-map {ℓ} :
    {A : Type ℓ} {P Q : A → Type 0} (m : Outcome A) → Ends P m → ((a : A) → P a → Q a) → Ends Q m
Ends-map m h k = EndsIn-map IsException IsException m h (λ p e. e) k

-- A test whose branches are run only when they are taken.
abbrev pub branch {ℓ} : {A : Type ℓ} → Bool → (Unit {0} → A) → (Unit {0} → A) → A
branch true x y = x tt
branch false x y = y tt

pub Ends-branch {ℓ} :
    {A : Type ℓ} (P : A → Type 0) (b : Bool) (x y : Unit {0} → Outcome A)
    → (b ≡ true → Ends P (x tt))
    → (b ≡ false → Ends P (y tt))
    → Ends P (branch b x y)
Ends-branch P true x y h k = h refl
Ends-branch P false x y h k = k refl

-- Equal computations followed by equal ones.
pub >>=_congr {ℓ κ} :
    {A : Type ℓ} {B : Type κ} (m n : Outcome A) (f g : A → Outcome B)
    → m ≡ n
    → ((a : A) → f a ≡ g a)
    → (m >>= f) ≡ (n >>= g)
>>=_congr m n f g e h = rw e (same n)
  where
    same : (k : Outcome _) → (k >>= f) ≡ (k >>= g)
    same (ok a) = h a
    same (panic p) = refl
    same out_of_fuel = refl

-- The rest need only be equal at results that the first computation can give.
pub Ends->>=_congr {ℓ κ} :
    {A : Type ℓ} {B : Type κ} (P : A → Type 0) (m : Outcome A) (f g : A → Outcome B)
    → Ends P m
    → ((a : A) → P a → f a ≡ g a)
    → (m >>= f) ≡ (m >>= g)
Ends->>=_congr P (ok a) f g h k = k a h
Ends->>=_congr P (panic p) f g h k = refl
Ends->>=_congr P out_of_fuel f g h k = refl

pub branch_congr {ℓ} :
    {A : Type ℓ} (b : Bool) (x y x' y' : Unit {0} → A)
    → x tt ≡ x' tt
    → y tt ≡ y' tt
    → branch b x y ≡ branch b x' y'
branch_congr true x y x' y' h k = h
branch_congr false x y x' y' h k = k

pub branch-true {ℓ} : {A : Type ℓ} (b : Bool) (x y : Unit {0} → A) → b ≡ true → branch b x y ≡ x tt
branch-true true x y h = refl
branch-true false x y h = absurd (ground (arith, h))

pub branch-false {ℓ} :
    {A : Type ℓ} (b : Bool) (x y : Unit {0} → A) → b ≡ false → branch b x y ≡ y tt
branch-false true x y h = absurd (ground (arith, h))
branch-false false x y h = refl

result_or {ℓ} : {A : Type ℓ} → A → Outcome A → A
result_or d (ok a) = a
result_or d (panic p) = d
result_or d out_of_fuel = d

ok_injective {ℓ} : {A : Type ℓ} (a b : A) → ok a ≡ ok b → a ≡ b
unfolding result_or
ok_injective a b h = ap (result_or a) h

-- A computation whose result is seen has returned.
pub seen_returns {ℓ κ} :
    {A : Type ℓ} {B : Type κ} (m : Outcome A) (f : A → B) (b : B)
    → (m >>= λ a. ok (f a)) ≡ ok b
    → (a : A) × (m ≡ ok a) × (f a ≡ b)
seen_returns (ok a) f b h = (a, refl, ok_injective (f a) b h)
seen_returns (panic p) f b h = absurd (ground (arith, h))
seen_returns out_of_fuel f b h = absurd (ground (arith, h))
