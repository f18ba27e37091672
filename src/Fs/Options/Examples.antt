-- ===== src/Fs/Options/Examples.antt =====
-- The options of File::create, with Linux's flags.
use xyco.Common.{pos, ◌≡◌, refl}
use xyco.Utils.Error.{ok}
use xyco.Fs.Options.{Codes, create_options, open_flags, get_access_mode, get_creation_mode}

abbrev pub linux : Codes
linux = record {
  rdonly = 0;
  wronly = 1;
  rdwr = 2;
  append = 1024;
  creat = 64;
  trunc = 512;
  excl = 128;
  cloexec = 524288;
  einval = pos 22;
}

create_flags : open_flags linux create_options ≡ ok 524865
unfolding open_flags get_access_mode get_creation_mode create_options
create_flags = refl
