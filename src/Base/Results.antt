-- ===== src/Base/Results.antt =====
-- What stops the program: a failed ASSERT, an access outside of the memory at hand, a null pointer
-- that is followed, an exception, or a text that is thrown; or, where a loop need not end, the end of
-- the rounds that the model gives it. A fallible operation returns one of these as a value.
use mathlib.Core.Bool.{Bool, true, false}
use mathlib.Core.Path.{◌≡◌, refl}

pub data Fault : Type 0 where
  assertion out_of_bounds null_pointer logic_error out_of_range thrown_text out_of_rounds : Fault

pub data Result {ℓ} (A : Type ℓ) : Type ℓ where
  err : Fault → Result A
  ok : A → Result A

-- A fault ends the run; otherwise what comes next starts from the result.
infixl 5 ◌>>=◌ ◌>>◌
abbrev pub ◌>>=◌ {ℓ κ} : {A : Type ℓ} {B : Type κ} → Result A → (A → Result B) → Result B
err fault >>= next = err fault
ok result >>= next = next result

abbrev pub ◌>>◌ {ℓ} : {B : Type ℓ} → Result (Unit {0}) → Result B → Result B
err fault >> next = err fault
ok done >> next = next

-- The ASSERT macro.
abbrev pub assert : Bool → Result (Unit {0})
assert true = ok tt
assert false = err assertion

pub >>=-assoc {ℓ κ μ} :
    {A : Type ℓ} {B : Type κ} {C : Type μ} (m : Result A) (f : A → Result B) (g : B → Result C)
    → ((m >>= f) >>= g) ≡ (m >>= λ x. f x >>= g)
>>=-assoc (err fault) f g = refl
>>=-assoc (ok result) f g = refl
