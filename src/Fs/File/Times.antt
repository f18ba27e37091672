-- ===== src/Fs/File/Times.antt =====
-- The three times of a file.
use Prim.Native.Nat.{bit_and}
use xyco.Common.{ℕ, ℤ, ◌≡◌, Bool-cases, inl, inr, ◌==◌, if◌then◌else◌, is_minus_one}
use xyco.Utils.Error.{
  Error, Result, ok, err, into_sys_result, from_sys_error, unsupported, uncategorized,
}
use xyco.Fs.File.{Statx, get_file_attr, modified, accessed, created}

abbrev pub when {ℓ} : {A : Type ℓ} → ℤ → Error → Result A → Result A
when answer e x = if is_minus_one answer then err e else x

-- Where statx succeeds, modified and accessed return the time of the last change and that of the
-- last access, and created the time of birth, if the mask says that statx has it, and else that the
-- file system has none. Where statx fails, modified and accessed return its errno, but created
-- returns Unsupported, whatever the errno was.
pub created-modified :
    (makedev : ℕ → ℕ → ℕ) (btime : ℕ) (errno answer : ℤ) (stx : Statx)
    → (modified makedev errno answer stx ≡ when answer (from_sys_error errno) (ok stx.stx_mtime))
      × (accessed makedev errno answer stx ≡ when answer (from_sys_error errno) (ok stx.stx_atime))
      × (created makedev btime errno answer stx
          ≡ when answer
              (record {
                errno = unsupported;
                info = "creation time is not available on this platform currently";
              })
              (if bit_and stx.stx_mask btime == 0
                then err (record {
                  errno = uncategorized;
                  info = "creation time is not available for the filesystem";
                })
                else ok stx.stx_btime))
unfolding modified accessed created get_file_attr into_sys_result
created-modified makedev btime errno answer stx = elim (Bool-cases (is_minus_one answer)) [
  | inl e ↦ (rw (e), rw (e), rw (e))
  | inr e ↦ (rw (e), rw (e), rw (e))
]
