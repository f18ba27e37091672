-- ===== src/Io/Epoll/Register.antt =====
-- What a call of the registry leaves registered.
use xyco.Io.Events.{mem-push, weight, weight-erase_first, weight-push}
use xyco.Common.{
  ℕ, ℤ, ◌+◌, ◌≡◌, refl, [], ◌∷◌, ◌++◌, arith, if◌then◌else◌, Bool-cases, inl, inr, is_minus_one,
}
use xyco.Utils.Error.{ok, err, into_sys_result, from_sys_error}
use xyco.Io.Epoll.{Registry, register, reregister}

-- Registering an event, anew or again, adds it once to the registered ones where epoll_ctl does not
-- answer -1; where it does, they are those of before, with any multiplicity, and the answer is the
-- error with its errno.
pub register-weight :
    (f : ℕ → ℕ) (errno answer : ℤ) (e : ℕ) (r : Registry)
    → let (r', result) = register errno answer e r in
      let (r'', result') = reregister errno answer e r in
      (weight f r'.events ≡ weight f r.events + (if is_minus_one answer then 0 else f e))
      × (weight f r''.events ≡ weight f r'.events)
      × (result ≡ (if is_minus_one answer then err (from_sys_error errno) else ok tt))
      × (result' ≡ result)
unfolding register reregister into_sys_result
register-weight f errno answer e r = elim (Bool-cases (is_minus_one answer)) [
  | inl h ↦ rw h (
    omega (
      arith,
      weight-erase_first f e (r.events ++ (e ∷ [])) (mem-push e r.events),
      weight-push f e r.events,
    ),
    refl,
    refl,
    refl,
  )
  | inr h ↦ rw h (weight-push f e r.events, refl, refl, refl)
]
