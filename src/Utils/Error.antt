-- ===== src/Utils/Error.antt =====
-- include/xyco/utils/error.ccm and src/utils/error.cc. `errno` of the C library is an argument.
use Prim.Native.String.{String}
use xyco.Common.{ℤ, negsuc, is_minus_one, if◌then◌else◌}

-- utils::ErrorKind as the number that stands in `errno_`.
abbrev pub uncategorized : ℤ
uncategorized = negsuc 1

abbrev pub unsupported : ℤ
unsupported = negsuc 0

pub record Error : Type 0 where
  pub errno : ℤ
  pub info : String

-- utils::Result
pub data Result {ℓ} (A : Type ℓ) : Type ℓ where
  ok : A → Result A
  err : Error → Result A

abbrev pub transform {ℓ κ} : {A : Type ℓ} {B : Type κ} → (A → B) → Result A → Result B
transform f (ok a) = ok (f a)
transform f (err e) = err e

infixl 5 ◌>>=◌
abbrev pub ◌>>=◌ {ℓ κ} : {A : Type ℓ} {B : Type κ} → Result A → (A → Result B) → Result B
ok a >>= f = f a
err e >>= f = err e

unfoldable pub from_sys_error : ℤ → Error
from_sys_error errno = record { errno = errno; info = "" }

-- `errno` is what the failed call left there.
unfoldable pub into_sys_result : ℤ → ℤ → Result ℤ
unfolding from_sys_error
into_sys_result errno return_value =
    if is_minus_one return_value then err (from_sys_error errno) else ok return_value
