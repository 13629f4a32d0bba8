-- ===== src/Go/Result.antt =====
-- Go's errors and fallible calls: a call returns a value, returns an error, or panics.
use gpbackman.Base.{String}

-- An `error` value with its text: `errors.New(text)`, `fmt.Errorf(...)`.
pub data Error : Type 0 where
  error_new : String → Error

-- err.Error(), and `%v` of an error.
abbrev pub error_text : Error → String
error_text (error_new text) = text

-- What a call `(value, error)` gives where the value is not used beside an error. A panic unwinds
-- the whole program: no function of it recovers.
pub data Result {ℓ} (A : Type ℓ) : Type ℓ where
  ok : A → Result A
  err : Error → Result A
  panic : String → Result A

-- The same, after the caller has looked at the error: `v, err := f()` where it goes on with both.
pub data Try {ℓ} (A : Type ℓ) : Type ℓ where
  done : A → Try A
  failed : Error → Try A
