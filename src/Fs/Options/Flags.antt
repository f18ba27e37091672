-- ===== src/Fs/Options/Flags.antt =====
-- Which options are accepted, and the flags that they stand for.
use Prim.Native.Nat.{bit_or}
use xyco.Common.{ℕ, ◌≡◌, Bool, not, ◌&&◌, ◌||◌, arith, if◌then◌else◌}
use xyco.Utils.Error.{ok}
use xyco.Fs.Options.{Codes, Options, get_access_mode, get_creation_mode, open_flags, invalid}

-- The file is read or written, it is created or truncated only if it is written, and it is not
-- truncated and appended to, unless it has to be new.
abbrev pub is_valid : Options → Bool
is_valid o =
    (o.read || o.write || o.append)
    && (o.write || o.append || not (o.truncate || o.create || o.create_new))
    && not (o.append && o.truncate && not o.create_new)

module _ (codes : Codes) where
  abbrev pub access_flags : Options → ℕ
  access_flags o =
      if o.append
      then bit_or (if o.read then codes.rdwr else codes.wronly) codes.append
      else if o.write
      then (if o.read then codes.rdwr else codes.wronly)
      else codes.rdonly

  abbrev pub creation_flags : Options → ℕ
  creation_flags o =
      if o.create_new
      then bit_or codes.creat codes.excl
      else if o.create
      then (if o.truncate then bit_or codes.creat codes.trunc else codes.creat)
      else if o.truncate
      then codes.trunc
      else 0

  -- `open` makes its call exactly with valid options, and passes the close-on-exec flag, the access
  -- flags and the creation flags that these stand for; with others it returns EINVAL.
  pub open_flags-is_valid :
      (o : Options)
      → open_flags codes o ≡ (
          if is_valid o
          then ok (bit_or (bit_or codes.cloexec (access_flags o)) (creation_flags o))
          else invalid codes)
  unfolding open_flags get_access_mode get_creation_mode
  open_flags-is_valid o = ground arith
