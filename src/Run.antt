-- ===== src/Run.antt =====
-- How a call of the extension ends: a value, a thrown PHP exception, a fatal error of the engine
-- (zend_error_noreturn), an assertion of the source that does not hold (ZEND_ASSERT, which aborts a
-- debug build and is promised to the compiler by a release build), or an access outside the memory
-- that was allocated and written.
use pecl_teds.Base.{◌≡◌, refl, Bool, true, false, if◌then◌else◌}

-- The classes of what the methods throw (teds_exceptions.c, spl_exceptions and the ValueError of
-- zend_argument_value_error).
pub data Exception : Type 0 where
  invalid_index underflow runtime unexpected_value invalid_type value_error : Exception

pub data Run {ℓ} (A : Type ℓ) : Type ℓ where
  ok : A → Run A
  throw : Exception → Run A
  fatal asserted fault out_of_fuel : Run A

infixl 5 ◌>>=◌
abbrev pub ◌>>=◌ {ℓa ℓb} : {A : Type ℓa} {B : Type ℓb} → Run A → (A → Run B) → Run B
ok value >>= next = next value
throw e >>= next = throw e
fatal >>= next = fatal
asserted >>= next = asserted
fault >>= next = fault
out_of_fuel >>= next = out_of_fuel

-- The call returns normally, with a value that satisfies `Good`.
pub data Returns {ℓa ℓg} {A : Type ℓa} (Good : A → Type ℓg) : Run A → Type (ℓa ⊔ ℓg) where
  returns : {value : A} → Good value → Returns Good (ok value)

module _ {ℓa ℓg} {A : Type ℓa} {Good : A → Type ℓg} where
  pub Returns-if :
      {yes_run no_run : Run A} (test : Bool)
      → (test ≡ true → Returns Good yes_run)
      → (test ≡ false → Returns Good no_run)
      → Returns Good (if test then yes_run else no_run)
  Returns-if true on_true on_false = on_true refl
  Returns-if false on_true on_false = on_false refl

  pub Returns-inv : {call : Run A} → Returns Good call → (a : A) × (call ≡ ok a) × Good a
  Returns-inv (returns good) = (_, refl, good)

  pub Returns-map {ℓh} :
      {Better : A → Type ℓh} {call : Run A}
      → Returns Good call
      → ((a : A) → Good a → Better a)
      → Returns Better call
  Returns-map (returns good) step = returns (step _ good)

  pub Returns-bind {ℓb ℓh} :
      {B : Type ℓb} {Better : B → Type ℓh} {call : Run A} {next : A → Run B}
      → Returns Good call
      → ((a : A) → Good a → Returns Better (next a))
      → Returns Better (call >>= next)
  Returns-bind (returns good) step = step _ good

-- The first call is known to return a value: the rest goes on from it.
pub Returns-step {ℓa ℓb ℓh} :
    {A : Type ℓa} {B : Type ℓb} {Better : B → Type ℓh} {call : Run A} {value : A} (next : A → Run B)
    → call ≡ ok value
    → Returns Better (next value)
    → Returns Better (call >>= next)
Returns-step next known rest = rw known rest
