-- ===== src/Outcome/Missing.antt =====
-- A routine of the shell that ends, where all that can stop it is an element that is not there.
use radish_os.Prelude.{◌≡◌, refl, Bool, true, false}
use radish_os.Outcome.{
  Outcome, Panic, out_of_memory, double_free, new_block_is_null, null_pointer, index_out_of_range,
  bad_typeid, division_trap, ok, panic, out_of_fuel, ◌>>=◌, EndsIn, EndsIn->>=, EndsIn-map, branch,
  IsException,
}
use radish_os.Outcome

abbrev pub IsMissing : Panic → Type 0
IsMissing index_out_of_range = Unit {0}
IsMissing _ = ⊥

abbrev pub Ends {ℓ} : {A : Type ℓ} → (A → Type 0) → Outcome A → Type 0
Ends P m = EndsIn IsMissing P m

pub Ends->>= {ℓ κ} :
    {A : Type ℓ} {B : Type κ} {P : A → Type 0} (Q : B → Type 0) (m : Outcome A) (f : A → Outcome B)
    → Ends P m
    → ((a : A) → P a → Ends Q (f a))
    → Ends Q (m >>= f)
Ends->>= Q m f h k = EndsIn->>= IsMissing Q m f h k

pub Ends-map {ℓ} :
    {A : Type ℓ} {P Q : A → Type 0} (m : Outcome A) → Ends P m → ((a : A) → P a → Q a) → Ends Q m
Ends-map m h k = EndsIn-map IsMissing IsMissing m h (λ p e. e) k

pub Ends-branch {ℓ} :
    {A : Type ℓ} (P : A → Type 0) (b : Bool) (x y : Unit {0} → Outcome A)
    → (b ≡ true → Ends P (x tt))
    → (b ≡ false → Ends P (y tt))
    → Ends P (branch b x y)
Ends-branch P true x y h k = h refl
Ends-branch P false x y h k = k refl

missing→exception : (p : Panic) → IsMissing p → IsException p
missing→exception index_out_of_range h = tt
missing→exception p h = absurd h

pub Ends-Ends {ℓ} : {A : Type ℓ} (P : A → Type 0) (m : Outcome A) → Ends P m → Outcome.Ends P m
Ends-Ends P m h = EndsIn-map IsMissing IsException m h missing→exception (λ a k. k)
