-- ===== src/Fs/File/Opening.antt =====
-- What open answers.
use Prim.Native.Nat.{bit_or}
use Prim.Native.String.{String}
use xyco.Common.{ℕ, ℤ, ◌≡◌, Bool-cases, inl, inr, if◌then◌else◌, is_minus_one, ◌∙◌, ap}
use xyco.Utils.Error.{ok, err, into_sys_result, from_sys_error}
use xyco.Fs.Options.{Codes, Options, invalid}
use xyco.Fs.Options.Flags.{is_valid, access_flags, creation_flags, open_flags-is_valid}
use xyco.Fs.File.{open_file, opened}

-- The close-on-exec flag, the access flags and the creation flags that options stand for.
abbrev pub flags_of : Codes → Options → ℕ
flags_of codes o = bit_or (bit_or codes.cloexec (access_flags codes o)) (creation_flags codes o)

-- With valid options, open calls open(2) with the flags that they stand for and their mode, and gives
-- a file with the descriptor that it answers and the path, or its errno; with others it gives EINVAL,
-- whatever that call would answer.
pub open_file-is_valid :
    (codes : Codes) (o : Options) (path : String) (system_open : ℕ → ℕ → ℤ × ℤ) (errno answer : ℤ)
    → system_open (flags_of codes o) o.mode ≡ (errno, answer)
    → open_file codes o path system_open ≡ (
        if is_valid o
        then (if is_minus_one answer
            then err (from_sys_error errno)
            else ok (record { fd = answer; path = path }))
        else invalid codes)
unfolding open_file into_sys_result
open_file-is_valid codes o path system_open errno answer e =
    ap (λ x. opened codes x path system_open o.mode) (open_flags-is_valid codes o)
    ∙ elim (Bool-cases (is_valid o)) [
      | inl v ↦ elim (Bool-cases (is_minus_one answer)) [
        | inl m ↦ rw (v, e, m)
        | inr m ↦ rw (v, e, m)
      ]
      | inr v ↦ rw (v)
    ]
