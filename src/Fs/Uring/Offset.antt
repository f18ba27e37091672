-- ===== src/Fs/Uring/Offset.antt =====
-- Which part of a file is read and written over io_uring.
use xyco.Common.{ℕ, ℤ, ◌≡◌, refl, some, pending, subst, OnPending}
use xyco.Io.Uring.{IoExtra, request, read, write}
use xyco.Io.Uring.Listed.{IsListed}
use xyco.Io.Uring.Trip.{Ends}
use xyco.Net.Uring.{Reactor, Slots}
use xyco.Net.Uring.Trip.{same, Waits, submit_or_finish-Waits}
use xyco.Fs.Uring.{new_future, poll_read, poll_write}

-- Where the first poll of a read or of a write of a file suspends, what was submitted last is its request,
-- with the offset 0.
pub poll_read-poll_write :
    (buf len fd self event : ℕ) (slots : Slots) (r r' w w' : Reactor)
    → IsListed (new_future event fd r).registry
    → IsListed (new_future event fd w).registry
    → poll_read buf len self event slots (new_future event fd r) ≡ some (r', pending)
    → poll_write buf len self event slots (new_future event fd w) ≡ some (w', pending)
    → Ends (request (read buf len 0) fd event) r'.registry.ring
      × Ends (request (write buf len 0) fd event) w'.registry.ring
unfolding poll_read poll_write
poll_read-poll_write buf len fd self event slots r r' w w' l k e f = (
  subst (λ x. Ends (request (read buf len 0) x event) r'.registry.ring) (fd_of r)
      (subst (OnPending (Waits self event (reads (extra r)))) e (
        submit_or_finish-Waits ℤ reads (λ n. n) self event slots (new_future event fd r) (λ x. refl)
          l)).submitted.sends,
  subst (λ x. Ends (request (write buf len 0) x event) w'.registry.ring) (fd_of w)
      (subst (OnPending (Waits self event (writes (extra w)))) f (
        submit_or_finish-Waits ℤ writes (λ n. n) self event slots (new_future event fd w)
          (λ x. refl) k)).submitted.sends,
)
  where
    reads : IoExtra → IoExtra
    reads x = record x { args = read buf len 0 }

    writes : IoExtra → IoExtra
    writes x = record x { args = write buf len 0 }

    extra : Reactor → IoExtra
    extra v = (new_future event fd v).registry.extras event

    fd_of : (v : Reactor) → (extra v).fd ≡ fd
    fd_of v = rw (same event) refl
