-- ===== src/Base/Results.antt =====
-- The error codes of include/libcouchstore/error.h, and the results of fallible code.
use mathlib.Core.Path.{◌≡◌, refl}
use mathlib.Core.Bool.{Bool, true, false}

-- couchstore_error_t, less COUCHSTORE_SUCCESS, which is the `ok` of a result.
pub data Error : Type 0 where
  open_file corrupt alloc_fail read doc_not_found no_header write header_version : Error
  checksum_fail invalid_arguments no_such_file cancel reduction_too_large : Error
  reducer_failure file_closed db_no_longer_valid : Error

-- `fault` is no value of the program: an assertion fails, or memory outside of a buffer is read.
pub data Result {ℓ} (A : Type ℓ) : Type ℓ where
  ok : A → Result A
  err : Error → Result A
  fault : Result A

infixl 5 ◌>>=◌ ◌>>◌
abbrev pub ◌>>=◌ {ℓ κ} : {A : Type ℓ} {B : Type κ} → Result A → (A → Result B) → Result B
ok a >>= f = f a
err e >>= f = err e
fault >>= f = fault

abbrev pub ◌>>◌ {ℓ} : {B : Type ℓ} → Result (Unit {0}) → Result B → Result B
m >> k = m >>= λ _. k

-- `error_unless(C, E)` of util.h
abbrev pub error_unless : Bool → Error → Result (Unit {0})
error_unless true e = ok tt
error_unless false e = err e

-- `assert(C)`
abbrev pub assert : Bool → Result (Unit {0})
assert true = ok tt
assert false = fault

-- The value that a successful call returned.
pub >>=-ok {ℓ κ} :
    {A : Type ℓ} {B : Type κ} {b : B} (run : Result A) (next : A → Result B)
    → run >>= next ≡ ok b
    → (a : A) × (run ≡ ok a) × (next a ≡ ok b)
>>=-ok fault next h = cc
>>=-ok (err code) next h = cc
>>=-ok (ok a) next h = (a, refl, h)
