-- ===== src/Io/Epoll/Wait.antt =====
-- What `select` hands out.
use xyco.Io.Events.{erase_first, mem, weight, weight-erase_first}
use xyco.Common.{
  ℤ, ap, ◌∙◌, append-nil, sym, ℕ, ◌+◌, ◌≡◌, refl, true, some, List, [], ◌∷◌, ◌++◌, arith,
  append_assoc,
}
use xyco.Utils.Error.{ok}
use xyco.Io.Epoll.{set_state, to_state, Registry, Ready, take_ready, select, gives}

-- Each of the events is registered when its turn comes.
abbrev pub AllRegistered : List (ℕ × Ready) → List ℕ → Type 0
AllRegistered [] es = Unit
AllRegistered ((e, ready) ∷ rest) es = (mem e es ≡ true) × AllRegistered rest (erase_first e es)

abbrev pub names : List (ℕ × Ready) → List ℕ
names [] = []
names ((e, ready) ∷ rest) = e ∷ names rest

pushed : (due : List ℕ) (e : ℕ) (es : List ℕ) → (due ++ (e ∷ [])) ++ es ≡ due ++ (e ∷ es)
pushed due e es = append_assoc due (e ∷ []) es

take_ready-AllRegistered :
    (f : ℕ → ℕ) (ready : List (ℕ × Ready)) (r : Registry) (due : List ℕ)
    → AllRegistered ready r.events
    → (r' : Registry) × (take_ready ready r due ≡ some (r', due ++ names ready))
      × (weight f r'.events + weight f (names ready) ≡ weight f r.events)
unfolding take_ready weight
take_ready-AllRegistered f [] r due a =
    (r, ap (λ d. some (r, d)) (sym (append-nil due)), omega arith)
take_ready-AllRegistered f ((e, s) ∷ rest) r due (m, a) =
    let (r', t, w) =
      take_ready-AllRegistered f rest
        (set_state e (to_state s) (record r { events = erase_first e r.events })) (due ++ (e ∷ []))
        a in
    (
      r',
      rw (m) t ∙ ap (λ d. some (r', d)) (pushed due e (names rest)),
      omega (arith, w, weight-erase_first f e r.events m),
    )

-- Where every event that epoll_wait gives is registered when its turn comes, `select` succeeds: it
-- appends these events in their order, and what stays registered are, with any multiplicity, the others.
pub select-AllRegistered :
    (f : ℕ → ℕ) (eintr : ℤ) (ready : List (ℕ × Ready)) (r : Registry) (due : List ℕ)
    → AllRegistered ready r.events
    → (r' : Registry) × (select eintr (gives ready) r due ≡ some (r', due ++ names ready, ok tt))
      × (weight f r'.events + weight f (names ready) ≡ weight f r.events)
unfolding select
select-AllRegistered f eintr ready r due a =
    let (r', t, w) = take_ready-AllRegistered f ready r due a in (r', rw t refl, w)
