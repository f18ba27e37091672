-- ===== src/Runtime/Core/Launch.antt =====
-- Worker::init_in_thread: the workers wait for one another before they run.
use xyco.Common.{
  ℕ, ◌+◌, ◌<◌, ◌≡◌, List, [], ◌∷◌, ◌++◌, length, arith, ◌==◌, if◌then◌else◌, append-nil,
  append_assoc, sym, ◌∙◌,
}

-- init_worker_num_, the workers that wait on worker_launch_cv_, and those that have come through.
pub record Launch : Type 0 where
  pub init_worker_num : ℕ
  pub waiting : List ℕ
  pub running : List ℕ

pub start : Launch
start = record { init_worker_num = 0; waiting = []; running = [] }

-- A worker that is not in place, with the mutex held from the count to the wait; notify_all releases
-- all that wait.
pub init_in_thread : ℕ → ℕ → Launch → Launch
init_in_thread worker_num thread l =
    if l.init_worker_num + 1 == worker_num
    then record {
      init_worker_num = l.init_worker_num + 1;
      waiting = [];
      running = l.running ++ (l.waiting ++ (thread ∷ []));
    }
    else record l { init_worker_num = l.init_worker_num + 1; waiting = l.waiting ++ (thread ∷ []) }

pub init_all : ℕ → List ℕ → Launch → Launch
init_all worker_num [] l = l
init_all worker_num (t ∷ ts) l = init_all worker_num ts (init_in_thread worker_num t l)

waits :
    (n t : ℕ) (l : Launch)
    → l.init_worker_num + 1 < n
    → init_in_thread n t l
      ≡ record l { init_worker_num = l.init_worker_num + 1; waiting = l.waiting ++ (t ∷ []) }
unfolding init_in_thread
waits n t l h = ground arith

same_wait :
    (l : Launch) (m n : ℕ) (v w : List ℕ)
    → m ≡ n
    → v ≡ w
    → record l { init_worker_num = m; waiting = v } ≡ record l { init_worker_num = n; waiting = w }
same_wait l m n v w e f = cc

all_wait :
    (n : ℕ) (ts : List ℕ) (l : Launch)
    → l.init_worker_num + length ts < n
    → init_all n ts l
      ≡ record l { init_worker_num = l.init_worker_num + length ts; waiting = l.waiting ++ ts }
unfolding init_all
all_wait n [] l h =
    same_wait l l.init_worker_num _ l.waiting _ (omega arith) (sym (append-nil l.waiting))
all_wait n (t ∷ ts) l h =
    let l' = record l {
      init_worker_num = l.init_worker_num + 1;
      waiting = l.waiting ++ (t ∷ []);
    } in
    rw (waits n t l (omega arith)) (
      all_wait n ts l' (omega arith)
      ∙ same_wait l (l.init_worker_num + 1 + length ts) _ ((l.waiting ++ (t ∷ [])) ++ ts) _
          (omega arith) (append_assoc l.waiting (t ∷ []) ts))

-- While fewer workers than there are have come to the wait, none comes through; when the last has
-- come, all of them have, none of them twice, and none is left waiting: no wake-up is lost. This is so
-- where the wait ends by the notification only.
pub init_in_thread-init_all :
    (n : ℕ) (ts : List ℕ) (t : ℕ)
    → length ts + 1 ≡ n
    → let l = init_all n ts start in
      (l.running ≡ [])
      × (l.waiting ≡ ts)
      × ((init_in_thread n t l).running ≡ ts ++ (t ∷ []))
      × ((init_in_thread n t l).waiting ≡ [])
unfolding init_in_thread start
init_in_thread-init_all n ts t h = rw (all_wait n ts start (omega arith)) (ground arith)
