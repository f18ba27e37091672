-- ===== src/Fs/File.antt =====
-- src/fs/epoll/file.cc, with src/fs/utils.cc: what a file answers, from what the system calls and
-- std::filesystem answer, which are arguments, as are makedev and the constants.
pub mod Times
pub mod Opening
pub mod Examples
use Prim.Native.Nat.{bit_and}
use Prim.Native.String.{String}
use xyco.Common.{
  ℕ, ℤ, pos, negsuc, Bool, ◌==◌, not, ltb, ◌-◌, ◌^◌, Option, none, some, if◌then◌else◌, eqb,
}
use xyco.Utils.Error.{
  Error, Result, ok, err, transform, into_sys_result, unsupported, uncategorized,
}
use xyco.Fs.Options.{Codes, Options, open_flags}

-- timespec and statx_timestamp.
pub record Timespec : Type 0 where
  pub tv_sec : ℤ
  pub tv_nsec : ℕ

-- What statx(2) writes.
pub record Statx : Type 0 where
  pub stx_mask : ℕ
  pub stx_blksize : ℕ
  pub stx_nlink : ℕ
  pub stx_uid : ℕ
  pub stx_gid : ℕ
  pub stx_mode : ℕ
  pub stx_ino : ℕ
  pub stx_size : ℕ
  pub stx_blocks : ℕ
  pub stx_atime : Timespec
  pub stx_btime : Timespec
  pub stx_ctime : Timespec
  pub stx_mtime : Timespec
  pub stx_rdev_major : ℕ
  pub stx_rdev_minor : ℕ
  pub stx_dev_major : ℕ
  pub stx_dev_minor : ℕ

pub record Stat : Type 0 where
  pub st_dev : ℕ
  pub st_ino : ℕ
  pub st_nlink : ℕ
  pub st_mode : ℕ
  pub st_uid : ℕ
  pub st_gid : ℕ
  pub st_rdev : ℕ
  pub st_size : ℤ
  pub st_blksize : ℕ
  pub st_blocks : ℤ
  pub st_atim : Timespec
  pub st_mtim : Timespec
  pub st_ctim : Timespec

-- StatxExtraFields
pub record Extra : Type 0 where
  pub stx_mask : ℕ
  pub stx_btime : Timespec

-- A number of 64 bits, cast to a signed one.
abbrev pub signed : ℕ → ℤ
signed n = if ltb n (2 ^ 63) then pos n else negsuc (2 ^ 64 - 1 - n)

module _ (makedev : ℕ → ℕ → ℕ) where
  abbrev pub stat_of : Statx → Stat
  stat_of stx = record {
    st_dev = makedev stx.stx_dev_major stx.stx_dev_minor;
    st_ino = stx.stx_ino;
    st_nlink = stx.stx_nlink;
    st_mode = stx.stx_mode;
    st_uid = stx.stx_uid;
    st_gid = stx.stx_gid;
    st_rdev = makedev stx.stx_rdev_major stx.stx_rdev_minor;
    st_size = signed stx.stx_size;
    st_blksize = stx.stx_blksize;
    st_blocks = signed stx.stx_blocks;
    st_atim = stx.stx_atime;
    st_mtim = stx.stx_mtime;
    st_ctim = stx.stx_ctime;
  }

  -- `errno` and `answer` are what statx(2) leaves and returns, `stx` what it writes.
  unfoldable pub get_file_attr : ℤ → ℤ → Statx → Result (Stat × Extra)
  get_file_attr errno answer stx =
      transform (λ n. (stat_of stx, record { stx_mask = stx.stx_mask; stx_btime = stx.stx_btime }))
        (into_sys_result errno answer)

  unfoldable pub modified : ℤ → ℤ → Statx → Result Timespec
  modified errno answer stx =
      transform (λ p. let (stat, ext) = p in stat.st_mtim) (get_file_attr errno answer stx)

  unfoldable pub accessed : ℤ → ℤ → Statx → Result Timespec
  accessed errno answer stx =
      transform (λ p. let (stat, ext) = p in stat.st_atim) (get_file_attr errno answer stx)

  -- `btime` is STATX_BTIME.
  abbrev pub created_of : ℕ → Result (Stat × Extra) → Result Timespec
  created_of btime (err e) = err (record {
    errno = unsupported;
    info = "creation time is not available on this platform currently";
  })
  created_of btime (ok (stat, ext)) =
      if bit_and ext.stx_mask btime == 0
      then err (record {
        errno = uncategorized;
        info = "creation time is not available for the filesystem";
      })
      else ok ext.stx_btime

  unfoldable pub created : ℕ → ℤ → ℤ → Statx → Result Timespec
  created btime errno answer stx = created_of btime (get_file_attr errno answer stx)

-- std::error_code: it is an error unless its value is 0.
pub record ErrorCode : Type 0 where
  pub value : ℤ
  pub message : String

abbrev pub unless_error {ℓ} : {A : Type ℓ} → ErrorCode → A → Result A
unless_error code a =
    if not (eqb code.value (pos 0))
    then err (record { errno = code.value; info = code.message })
    else ok a

-- `len` is what file_size(path_) returns.
unfoldable pub size : ErrorCode → ℕ → Result ℕ
size code len = unless_error code len

-- `link` and `target` are what symlink_status and status give for path_, with their codes; the question
-- whether path_ is a link has no answer where it throws, and then status throws.
unfoldable pub status :
    {A : Type 0} → Option Bool → A × ErrorCode → A × ErrorCode → Option (Result A)
status none link target = none
status (some is_symlink) (link, link_code) (target, target_code) =
    some (if is_symlink then unless_error link_code link else unless_error target_code target)

unfoldable pub set_permissions : ErrorCode → Result (Unit {0})
set_permissions code = unless_error code tt

-- `errno` and `answer` are those of fsync(2).
unfoldable pub flush : ℤ → ℤ → Result (Unit {0})
flush errno answer = transform (λ n. tt) (into_sys_result errno answer)

-- FileBase::resize and FileBase::seek, which returns what lseek64(2) does.
pub resize : ErrorCode → Result (Unit {0})
resize code = unless_error code tt

pub seek : ℤ → ℤ → Result ℤ
seek errno answer = into_sys_result errno answer

-- File::read and File::write, by what read(2) and write(2) answer.
pub read : ℤ → ℤ → Result ℤ
read errno answer = into_sys_result errno answer

pub write : ℤ → ℤ → Result ℤ
write errno answer = into_sys_result errno answer

-- fs::rename, fs::remove and fs::copy_file, by the function of std::filesystem of that name.
unfoldable pub rename : ErrorCode → Result (Unit {0})
rename code = unless_error code tt

unfoldable pub remove : ErrorCode → Bool → Result Bool
remove code exist = unless_error code exist

unfoldable pub copy_file : ErrorCode → Bool → Result Bool
copy_file code ret = unless_error code ret

-- FileBase, with the path as a text.
pub record File : Type 0 where
  pub fd : ℤ
  pub path : String

module _ (codes : Codes) where
  abbrev pub opened : Result ℕ → String → (ℕ → ℕ → ℤ × ℤ) → ℕ → Result File
  opened (err e) path system_open mode = err e
  opened (ok flags) path system_open mode =
      let (errno, answer) = system_open flags mode in
      transform (λ fd. record { fd = fd; path = path }) (into_sys_result errno answer)

  -- OpenOptions::open. `system_open` is open(2) for that path, by flags and mode, with errno.
  unfoldable pub open_file : Options → String → (ℕ → ℕ → ℤ × ℤ) → Result File
  open_file o path system_open = opened (open_flags codes o) path system_open o.mode
