-- ===== src/Coro/Mutex/Order.antt =====
-- The mutex serves the waiting in the order of their arrival.
use simple.Prelude.{
  ℕ, ◌≡◌, ◌≢◌, refl, sym, ap₂, subst, Bool, true, false, Option, none, some, List, [], ◌∷◌, ◌++◌,
  if◌then◌else◌, arith, All,
}
use simple.Coro.Waiters.{Waiters, Represents, elem, erase, remove_awaiter}
use simple.Coro.Waiters.Removal.{erase_first}
use simple.Coro.Waiters.Refinement.{
  no_waiters-Represents, add_awaiter-Represents, remove_awaiter-Represents,
}
use simple.Coro.Mutex.{Mutex, try_lock, unlock, unlocked_mutex}

-- The calls that reach mutex_state: the last is the callback of a cancelled token.
pub data Call : Type 0 where
  lock : ℕ → Call
  give_back : Call
  withdraw : ℕ → Call

pub data Answer : Type 0 where
  taken : Bool → Answer
  woken : Option ℕ → Answer
  done : Answer

unfoldable pub answer : Mutex → Call → Mutex × Answer
answer m (lock a) = let (n, t) = try_lock m a in (n, taken t)
answer m give_back = let (n, w) = unlock m in (n, woken w)
answer m (withdraw a) = (record m { waiters = remove_awaiter m.waiters a }, done)

-- A lock that is free, or has a queue.
pub data Lock : Type 0 where
  free : Lock
  held : List ℕ → Lock

unfoldable pub reply : Lock → Call → Lock × Answer
reply free (lock a) = (held [], taken true)
reply (held queue) (lock a) = (held (if elem a queue then queue else queue ++ a ∷ []), taken false)
reply free give_back = (free, woken none)
reply (held []) give_back = (free, woken none)
reply (held (x ∷ queue)) give_back = (held queue, woken (some x))
reply free (withdraw a) = (free, done)
reply (held queue) (withdraw a) = (held (erase a queue), done)

unfoldable pub replies {ℓ} : {S : Type ℓ} → (S → Call → S × Answer) → S → List Call → List Answer
replies step s [] = []
replies step s (c ∷ cs) = let (t, r) = step s c in r ∷ replies step t cs

-- An awaiter is not null.
unfoldable pub IsProper : Call → Type 0
IsProper (lock a) = a ≢ 0
IsProper give_back = Unit
IsProper (withdraw a) = a ≢ 0

-- What a mutex keeps of the lock.
IsLock : Mutex → Lock → Type 0
IsLock m free = (m.locked ≡ false) × Represents m.waiters []
IsLock m (held queue) = (m.locked ≡ true) × Represents m.waiters queue

record Same (found : Mutex × Answer) (wanted : Lock × Answer) : Type 0 where
  pub reply_same : found.1 ≡ wanted.1
  pub lock_same : IsLock found.0 wanted.0

IsSame : Mutex → Lock → Call → Type 0
IsSame m l c = Same (answer m c) (reply l c)

locked_by : Waiters → Mutex
locked_by w = record { locked = true; waiters = w }

answer_empty :
    (w : Waiters)
    → w.header ≡ 0
    → answer (locked_by w) give_back ≡ (record { locked = false; waiters = w }, woken none)
unfolding answer unlock locked_by
answer_empty w e = rw e refl

answer_first :
    (w : Waiters) (x : ℕ)
    → w.header ≡ x
    → x ≢ 0
    → answer (locked_by w) give_back ≡ (locked_by (remove_awaiter w x), woken (some x))
unfolding answer unlock locked_by
answer_first w x e n = ground (arith, e)

answer-reply_free :
    (w : Waiters) (c : Call)
    → IsProper c
    → Represents w []
    → IsSame (record { locked = false; waiters = w }) free c
unfolding answer reply IsLock IsProper IsSame locked_by try_lock unlock
answer-reply_free w (lock a) p r = record { reply_same = refl; lock_same = (refl, r) }
answer-reply_free w give_back p r = record { reply_same = refl; lock_same = (refl, r) }
answer-reply_free w (withdraw a) p r = record {
  reply_same = refl;
  lock_same = (refl, remove_awaiter-Represents w [] a r p);
}

answer-reply_held :
    (w : Waiters) (queue : List ℕ) (c : Call)
    → IsProper c
    → Represents w queue
    → IsSame (locked_by w) (held queue) c
unfolding answer reply IsLock IsProper IsSame locked_by try_lock unlock
answer-reply_held w queue (lock a) p r = record {
  reply_same = refl;
  lock_same = (refl, add_awaiter-Represents w queue a r p);
}
answer-reply_held w [] give_back p r =
    subst (λ f. Same f (free, woken none)) (sym (answer_empty w r.header_first))
      (record { reply_same = refl; lock_same = (refl, r) })
answer-reply_held w (x ∷ queue) give_back p r =
    subst (λ f. Same f (held queue, woken (some x)))
      (sym (answer_first w x r.header_first r.distinct.0))
      (record {
        reply_same = refl;
        lock_same = (
          refl,
          subst (Represents (remove_awaiter w x)) (erase_first x queue)
              (remove_awaiter-Represents w (x ∷ queue) x r r.distinct.0),
        );
      })
answer-reply_held w queue (withdraw a) p r = record {
  reply_same = refl;
  lock_same = (refl, remove_awaiter-Represents w queue a r p);
}

answer-reply : (m : Mutex) (l : Lock) (c : Call) → IsProper c → IsLock m l → IsSame m l c
unfolding IsLock locked_by
answer-reply m free c p h =
    subst (λ t. IsSame (record { locked = t; waiters = m.waiters }) free c) (sym h.0)
      (answer-reply_free m.waiters c p h.1)
answer-reply m (held queue) c p h =
    subst (λ t. IsSame (record { locked = t; waiters = m.waiters }) (held queue) c) (sym h.0)
      (answer-reply_held m.waiters queue c p h.1)

IsLock-replies :
    (m : Mutex) (l : Lock) (calls : List Call)
    → All IsProper calls
    → IsLock m l
    → replies answer m calls ≡ replies reply l calls
unfolding replies IsSame
IsLock-replies m l [] p h = refl
IsLock-replies m l (c ∷ cs) p h =
    ap₂ ◌∷◌ reply_same (IsLock-replies (answer m c).0 (reply l c).0 cs p.1 lock_same)
  where
    open answer-reply m l c p.0 h use {reply_same, lock_same}

-- On any sequence of lock, unlock and cancellation calls of awaiters that are not null, the mutex
-- with its linked list answers as a lock with a first-in first-out queue: who takes it at once,
-- and who is woken up with it.
pub answers-replies :
    (calls : List Call)
    → All IsProper calls
    → replies answer unlocked_mutex calls ≡ replies reply free calls
unfolding IsLock unlocked_mutex
answers-replies calls p = IsLock-replies unlocked_mutex free calls p (refl, no_waiters-Represents)
