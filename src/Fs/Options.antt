-- ===== src/Fs/Options.antt =====
-- include/xyco/fs/file_common.ccm, src/fs/epoll/file.cc: the options that a file is opened with. The
-- flags of open(2) and EINVAL are arguments, as they come from the C library.
pub mod Flags
pub mod Examples
use Prim.Native.Nat.{bit_or}
use xyco.Common.{ℕ, ℤ, Bool, true, false, not, ◌&&◌, ◌||◌, Option, none, some, if◌then◌else◌}
use xyco.Utils.Error.{Error, Result, ok, err}

pub record Codes : Type 0 where
  pub rdonly : ℕ
  pub wronly : ℕ
  pub rdwr : ℕ
  pub append : ℕ
  pub creat : ℕ
  pub trunc : ℕ
  pub excl : ℕ
  pub cloexec : ℕ
  pub einval : ℤ

-- OpenOptionsBase
pub record Options : Type 0 where
  pub read : Bool
  pub write : Bool
  pub append : Bool
  pub truncate : Bool
  pub create : Bool
  pub create_new : Bool
  pub mode : ℕ

-- 0666
abbrev pub default_mode : ℕ
default_mode = 438

unfoldable pub new : Options
new = record {
  read = false;
  write = false;
  append = false;
  truncate = false;
  create = false;
  create_new = false;
  mode = default_mode;
}

-- The setters, which change the options in place.
unfoldable pub with_read : Bool → Options → Options
with_read b o = record o { read = b }

unfoldable pub with_write : Bool → Options → Options
with_write b o = record o { write = b }

unfoldable pub with_truncate : Bool → Options → Options
with_truncate b o = record o { truncate = b }

unfoldable pub with_append : Bool → Options → Options
with_append b o = record o { append = b }

unfoldable pub with_create : Bool → Options → Options
with_create b o = record o { create = b }

unfoldable pub with_create_new : Bool → Options → Options
with_create_new b o = record o { create_new = b }

unfoldable pub with_mode : ℕ → Options → Options
with_mode m o = record o { mode = m }

module _ (codes : Codes) where
  abbrev pub invalid : {A : Type 0} → Result A
  invalid = err (record { errno = codes.einval; info = "" })

  pub get_access_mode : Options → Result ℕ
  get_access_mode o =
      if o.read && not o.write && not o.append
      then ok codes.rdonly
      else if not o.read && o.write && not o.append
      then ok codes.wronly
      else if o.read && o.write && not o.append
      then ok codes.rdwr
      else if not o.read && o.append
      then ok (bit_or codes.wronly codes.append)
      else if o.read && o.append
      then ok (bit_or codes.rdwr codes.append)
      else invalid

  pub get_creation_mode : Options → Result ℕ
  get_creation_mode o =
      if not o.write && not o.append && (o.truncate || o.create || o.create_new)
      then invalid
      else if o.append && o.truncate && not o.create_new
      then invalid
      else if not o.create && not o.truncate && not o.create_new
      then ok 0
      else if o.create && not o.truncate && not o.create_new
      then ok codes.creat
      else if not o.create && o.truncate && not o.create_new
      then ok codes.trunc
      else if o.create && o.truncate && not o.create_new
      then ok (bit_or codes.creat codes.trunc)
      else ok (bit_or codes.creat codes.excl)

  -- The flags that `open` passes to open(2), or the error that it returns without that call.
  abbrev pub combine : Result ℕ → Result ℕ → Result ℕ
  combine (err e) creation_mode = err e
  combine (ok access_mode) (err e) = err e
  combine (ok access_mode) (ok creation_mode) =
      ok (bit_or (bit_or codes.cloexec access_mode) creation_mode)

  pub open_flags : Options → Result ℕ
  open_flags o = combine (get_access_mode o) (get_creation_mode o)

-- The options of File::create and of File::open.
unfoldable pub create_options : Options
unfolding new with_write with_create with_truncate
create_options = with_truncate true (with_create true (with_write true new))

pub read_options : Options
unfolding new with_read
read_options = with_read true new
