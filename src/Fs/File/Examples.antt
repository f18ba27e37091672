-- ===== src/Fs/File/Examples.antt =====
-- The theorems of files at concrete inputs.
use xyco.Common.{pos, ◌≡◌, refl}
use xyco.Utils.Error.{ok}
use xyco.Fs.Options.{create_options, new, with_write, with_create, with_truncate}
use xyco.Fs.Options.Examples.{linux}
use xyco.Fs.File.{Timespec, Statx, open_file}
use xyco.Fs.File.Opening.{open_file-is_valid}

abbrev stamp : Timespec
stamp = record { tv_sec = pos 7; tv_nsec = 9 }

abbrev fresh_file : Statx
fresh_file = record {
  stx_mask = 2048;
  stx_blksize = 4096;
  stx_nlink = 1;
  stx_uid = 0;
  stx_gid = 0;
  stx_mode = 33188;
  stx_ino = 12;
  stx_size = 3;
  stx_blocks = 8;
  stx_atime = stamp;
  stx_btime = stamp;
  stx_ctime = stamp;
  stx_mtime = stamp;
  stx_rdev_major = 0;
  stx_rdev_minor = 0;
  stx_dev_major = 8;
  stx_dev_minor = 1;
}

open_file-is_valid_example :
    open_file linux create_options "notes" (λ flags mode. (pos 0, pos 5))
    ≡ ok (record { fd = pos 5; path = "notes" })
unfolding create_options new with_write with_create with_truncate
open_file-is_valid_example =
    open_file-is_valid linux create_options "notes" (λ flags mode. (pos 0, pos 5)) (pos 0) (pos 5)
      refl
