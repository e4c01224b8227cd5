-- ===== src/Coro/Mutex/Exclusion.antt =====
-- Nobody has the lock beside another, and what a cancelled token does to it.
use simple.Prelude.{
  ℕ, ◌+◌, ◌≤◌, ◌≡◌, Bool, true, List, [], ◌∷◌, if◌then◌else◌, arith, length, eq-nil,
}
use simple.Coro.Waiters.{elem, erase}
use simple.Coro.Mutex.{
  Lockers, Step, Reach, locks, unlocks, cancels, resumes, here, next, try_lock, unlock,
  await_resume, await_lock, release, cancel, resume, nobody, unlocked_mutex,
}

length-erase : (a : ℕ) (xs : List ℕ) → elem a xs ≡ true → length xs ≡ length (erase a xs) + 1
length-erase a [] m = ground arith
length-erase a (x ∷ xs) m = ground (arith, length-erase a xs)

-- How many have the lock, or are on the way to it.
abbrev pub owners : Lockers → ℕ
owners s = length s.holders + length s.granted

abbrev capacity : Bool → ℕ
capacity locked = if locked then 1 else 0

-- The lock is taken when somebody waits, and at most one has it.
pub record IsExclusive (s : Lockers) : Type 0 where
  pub at_most : owners s ≤ capacity s.mutex.locked

Step-IsExclusive : {s t : Lockers} → Step s t → IsExclusive s → IsExclusive t
unfolding try_lock unlock await_resume await_lock release cancel resume
Step-IsExclusive {s} (locks a n) h = record { at_most = ground (arith, h.at_most) }
Step-IsExclusive {s} (unlocks a m) h = record {
  at_most = ground (arith, h.at_most, length-erase a s.holders m);
}
Step-IsExclusive {s} (cancels a n c) h = record { at_most = ground (arith, h.at_most) }
Step-IsExclusive {s} (resumes a m) h = record {
  at_most = ground (arith, h.at_most, length-erase a s.granted m);
}

Reach-IsExclusive : {s t : Lockers} → Reach s t → IsExclusive s → IsExclusive t
Reach-IsExclusive here h = h
Reach-IsExclusive (next r st) h = Step-IsExclusive st (Reach-IsExclusive r h)

nobody-IsExclusive : (c : ℕ → Bool) → IsExclusive (nobody c)
unfolding nobody unlocked_mutex
nobody-IsExclusive c = record { at_most = omega arith }

-- However coroutines take the lock, give it back, are cancelled and go on, at most one at a time
-- holds it or has been handed it, and then the mutex is locked.
pub mutual_exclusion :
    (cancellable : ℕ → Bool) (s : Lockers)
    → Reach (nobody cancellable) s
    → owners s ≤ (if s.mutex.locked then 1 else 0)
mutual_exclusion c s r = at_most
  where
    open Reach-IsExclusive r (nobody-IsExclusive c) use {at_most}

-- Locked, and nobody is left who could unlock it.
abbrev pub IsAbandoned : Lockers → Type 0
IsAbandoned s = (s.mutex.locked ≡ true) × (s.holders ≡ []) × (s.granted ≡ [])

Step-IsAbandoned : {s t : Lockers} → Step s t → IsAbandoned s → IsAbandoned t
unfolding try_lock unlock await_resume await_lock release cancel resume
Step-IsAbandoned {s} (locks a n) h = ground (arith, h.0, h.1, h.2)
Step-IsAbandoned {s} (unlocks a m) h = ground (arith, h.1)
Step-IsAbandoned {s} (cancels a n c) h = ground (arith, h.0, h.1, h.2)
Step-IsAbandoned {s} (resumes a m) h = ground (arith, h.2)

Reach-IsAbandoned : {s t : Lockers} → Reach s t → IsAbandoned s → IsAbandoned t
Reach-IsAbandoned here h = h
Reach-IsAbandoned (next r st) h = Step-IsAbandoned st (Reach-IsAbandoned r h)

last_owner-IsAbandoned :
    (s : Lockers) (a : ℕ)
    → elem a s.granted ≡ true
    → s.cancelled a ≡ true
    → IsExclusive s
    → IsAbandoned (resume s a)
unfolding resume await_resume
last_owner-IsAbandoned s a m k h =
    ground
      (arith, h.at_most, length-erase a s.granted m, eq-nil s.holders, eq-nil (erase a s.granted))

-- When the token of a coroutine that was handed the lock is cancelled before it goes on, its
-- lock() throws and the mutex stays locked for ever: in every later state it is locked, nobody
-- holds it and nobody is handed it.
pub resume_cancelled :
    (cancellable : ℕ → Bool) (s t : Lockers) (a : ℕ)
    → Reach (nobody cancellable) s
    → elem a s.granted ≡ true
    → s.cancelled a ≡ true
    → Reach (resume s a) t
    → (t.mutex.locked ≡ true) × (t.holders ≡ []) × (t.granted ≡ [])
resume_cancelled c s t a r m k q =
    Reach-IsAbandoned q
      (last_owner-IsAbandoned s a m k (record { at_most = mutual_exclusion c s r }))
