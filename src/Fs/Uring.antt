-- ===== src/Fs/Uring.antt =====
-- src/fs/io_uring/file.cc and include/xyco/fs/io_uring/file.ccm. What a file answers about itself is
-- computed as over epoll, statement by statement; `read` and `write` go through the registry of io_uring,
-- with an event of their own for each call.
pub mod Offset
use Prim.Native.String.{String}
use xyco.Common.{ℕ, ℤ, Bool, Option, none, Poll}
use xyco.Utils.Error.{Result}
use xyco.Io.Uring.{read, write}
use xyco.Fs.Options.{Codes, Options}
use xyco.Fs.File
use xyco.Fs.File.{Statx, Stat, Extra, Timespec, ErrorCode}
use xyco.Net.Uring.{Reactor, Slots, new_event, submit_or_finish}

module _ (makedev : ℕ → ℕ → ℕ) where
  pub get_file_attr : ℤ → ℤ → Statx → Result (Stat × Extra)
  get_file_attr errno answer stx = File.get_file_attr makedev errno answer stx

  pub modified : ℤ → ℤ → Statx → Result Timespec
  modified errno answer stx = File.modified makedev errno answer stx

  pub accessed : ℤ → ℤ → Statx → Result Timespec
  accessed errno answer stx = File.accessed makedev errno answer stx

  pub created : ℕ → ℤ → ℤ → Statx → Result Timespec
  created btime errno answer stx = File.created makedev btime errno answer stx

pub size : ErrorCode → ℕ → Result ℕ
size code len = File.size code len

pub status : {A : Type 0} → Option Bool → A × ErrorCode → A × ErrorCode → Option (Result A)
status is_symlink link target = File.status is_symlink link target

pub set_permissions : ErrorCode → Result (Unit {0})
set_permissions code = File.set_permissions code

pub flush : ℤ → ℤ → Result (Unit {0})
flush errno answer = File.flush errno answer

pub open_file : Codes → Options → String → (ℕ → ℕ → ℤ × ℤ) → Result File.File
open_file codes o path system_open = File.open_file codes o path system_open

-- The future of a read or a write, with its event.
abbrev pub new_future : ℕ → ℕ → Reactor → Reactor
new_future event fd r = new_event event fd none r

-- The offset_ of IoExtra::Read and IoExtra::Write where it is not set.
abbrev pub default_offset : ℕ
default_offset = 0

unfoldable pub poll_read : ℕ → ℕ → ℕ → ℕ → Slots → Reactor → Option (Reactor × Poll (Result ℤ))
poll_read buf len self event slots r =
    submit_or_finish (λ x. record x { args = read buf len default_offset }) (λ n. n) self event
      slots r

unfoldable pub poll_write : ℕ → ℕ → ℕ → ℕ → Slots → Reactor → Option (Reactor × Poll (Result ℤ))
poll_write buf len self event slots r =
    submit_or_finish (λ x. record x { args = write buf len default_offset }) (λ n. n) self event
      slots r
