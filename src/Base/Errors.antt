-- ===== src/Base/Errors.antt =====
-- What a call that can throw returns. `undefined` marks a run that C++ gives no meaning to, such as
-- a read behind the end of a view, and `endless` a loop that has not ended within the fuel that the
-- model gives it.
use mathlib.Core.Bool.{Bool, true, false}

pub data Error : Type 0 where
  uri_syntax : Error
  out_of_range : Error
  invalid_argument : Error
  bad_optional : Error
  undefined : Error
  endless : Error
  protocol_exception : Error

pub data Result {κ} (X : Type κ) : Type κ where
  err : Error → Result X
  ok : X → Result X

-- `try { ... } catch (...) { ... }` with a fallback value
abbrev pub catch {κ} : {X : Type κ} → Result X → X → X
catch (err e) fallback = fallback
catch (ok x) fallback = x

-- what follows a call that can throw
infixl 5 ◌>>=◌
abbrev pub ◌>>=◌ {κ ι} : {X : Type κ} {Y : Type ι} → Result X → (X → Result Y) → Result Y
err thrown >>= next = err thrown
ok x >>= next = next x

-- `if (!test) throw e;`
abbrev pub guard : (test : Bool) → Error → Result (Unit {0})
guard false thrown = err thrown
guard true thrown = ok tt

infixl 5 ◌>>◌
abbrev pub ◌>>◌ {κ} : {Y : Type κ} → Result (Unit {0}) → Result Y → Result Y
first >> next = first >>= λ _. next
