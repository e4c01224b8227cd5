-- ===== src/Coro/Mutex.antt =====
-- The coroutine mutex: mutex_state and mutex_awaiter of runtime/src/coro/mutex.cpp and
-- runtime/include/simple/coro/mutex.h.
use simple.Prelude.{
  ℕ, ◌≡◌, ◌≢◌, Bool, true, false, not, ◌||◌, Option, none, some, List, [], ◌∷◌, ◌++◌, ◌==◌,
  if◌then◌else◌,
}
use simple.Coro.Waiters.{Waiters, no_waiters, add_awaiter, remove_awaiter, elem, erase}
pub mod Order
pub mod Exclusion

pub record Mutex : Type 0 where
  pub locked : Bool
  pub waiters : Waiters

unfoldable pub unlocked_mutex : Mutex
unlocked_mutex = record { locked = false; waiters = no_waiters }

-- Whether the lock is taken at once.
unfoldable pub try_lock : Mutex → ℕ → Mutex × Bool
try_lock m a =
    if not m.locked
    then (record m { locked = true }, true)
    else (record m { waiters = add_awaiter m.waiters a }, false)

-- The mutex, and the awaiter that is woken up with the lock in its hands.
unfoldable pub unlock : Mutex → Mutex × Option ℕ
unlock m =
    if not m.locked
    then (m, none)
    else if m.waiters.header == 0
    then (record m { locked = false }, none)
    else (record m { waiters = remove_awaiter m.waiters m.waiters.header }, some m.waiters.header)

-- The coroutines around a mutex: those that are woken up with the lock and have not gone on
-- yet, those whose lock() has returned, and whether each has a token that can be cancelled,
-- whether that is cancelled, and whether its callback is registered.
pub record Lockers : Type 0 where
  pub mutex : Mutex
  pub granted : List ℕ
  pub holders : List ℕ
  pub cancellable : ℕ → Bool
  pub cancelled : ℕ → Bool
  pub registered : ℕ → Bool

abbrev pub mark : (ℕ → Bool) → ℕ → Bool → ℕ → Bool
mark f a b = λ i. if a == i then b else f i

-- await_resume: it throws when the token is cancelled.
unfoldable pub await_resume : Lockers → ℕ → Lockers
await_resume s a =
    let deregistered = record s { registered = mark s.registered a false } in
    if s.cancelled a then deregistered else record deregistered { holders = a ∷ s.holders }

-- await_suspend, and at once await_resume where it does not suspend.
unfoldable pub await_lock : Lockers → ℕ → Lockers
await_lock s a =
    if s.cancelled a
    then await_resume s a
    else let (m, taken) = try_lock s.mutex a in
      if taken
      then await_resume (record s { mutex = m }) a
      else record s { mutex = m; registered = mark s.registered a (s.cancellable a) }

-- The coroutine a calls unlock, and the one that is woken up loses its registration.
unfoldable pub release : Lockers → ℕ → Lockers
release s a =
    let (m, woken) = unlock s.mutex in
    let left = record s { mutex = m; holders = erase a s.holders } in
    elim woken [
      | none ↦ left
      | some b ↦ record left { granted = b ∷ s.granted; registered = mark s.registered b false }
    ]

-- The token of a is cancelled: a registered callback takes a out of the queue and wakes it up.
unfoldable pub cancel : Lockers → ℕ → Lockers
cancel s a =
    let requested = record s { cancelled = mark s.cancelled a true } in
    if s.registered a
    then record requested {
      mutex = record s.mutex { waiters = remove_awaiter s.mutex.waiters a };
      registered = mark s.registered a false;
    }
    else requested

-- The scheduler goes on with a coroutine that was woken up with the lock.
unfoldable pub resume : Lockers → ℕ → Lockers
resume s a = await_resume (record s { granted = erase a s.granted }) a

-- Only one that has the lock calls unlock.
pub data Step (s : Lockers) : Lockers → Type 0 where
  locks : (a : ℕ) → a ≢ 0 → Step s (await_lock s a)
  unlocks : (a : ℕ) → elem a s.holders ≡ true → Step s (release s a)
  cancels : (a : ℕ) → a ≢ 0 → s.cancellable a ≡ true → Step s (cancel s a)
  resumes : (a : ℕ) → elem a s.granted ≡ true → Step s (resume s a)

pub data Reach (s : Lockers) : Lockers → Type 0 where
  here : Reach s s
  next : {t u : Lockers} → Reach s t → Step t u → Reach s u

unfoldable pub nobody : (ℕ → Bool) → Lockers
nobody cancellable = record {
  cancellable = cancellable;
  mutex = unlocked_mutex;
  granted = [];
  holders = [];
  cancelled = λ i. false;
  registered = λ i. false;
}
