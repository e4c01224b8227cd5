-- ===== src/Coro/Waiters.antt =====
-- The intrusive list of waiting awaiters that mutex_state (runtime/src/coro/mutex.cpp)
-- and condition_variable_state (runtime/src/coro/condition_variable.cpp) keep. An awaiter
-- is its address, and 0 is the null pointer.
use simple.Prelude.{ℕ, ◌≡◌, ◌≢◌, Bool, true, false, not, ◌||◌, List, [], ◌∷◌, ◌==◌, if◌then◌else◌}
use simple.Prelude.Memory.{Memory, update}
pub mod Order
pub mod Removal
pub mod Refinement

-- header_ and tail_ of the state, next_ and prev_ of every awaiter.
pub record Waiters : Type 0 where
  pub header : ℕ
  pub tail : ℕ
  pub next : Memory
  pub prev : Memory

unfoldable pub no_waiters : Waiters
no_waiters = record { header = 0; tail = 0; next = λ i. 0; prev = λ i. 0 }

unfoldable pub append_awaiter : Waiters → ℕ → Waiters
append_awaiter w a =
    let next_cleared = update w.next a 0 in
    record {
      header = if w.header == 0 then a else w.header;
      tail = a;
      next = if w.tail == 0 then next_cleared else update next_cleared w.tail a;
      prev = update w.prev a w.tail;
    }

unfoldable pub add_awaiter : Waiters → ℕ → Waiters
add_awaiter w a =
    if not (w.next a == 0) || (a == w.header)
    then w
    else if not (w.prev a == 0) || (a == w.tail)
    then w
    else append_awaiter w a

unfoldable pub remove_awaiter : Waiters → ℕ → Waiters
remove_awaiter w a =
    let after = w.next a in
    let before = w.prev a in
    let next = if before == 0 then w.next else update w.next before after in
    let prev = if after == 0 then w.prev else update w.prev after before in
    record {
      header = if w.header == a then after else w.header;
      tail = if w.tail == a then before else w.tail;
      next = update next a 0;
      prev = update prev a 0;
    }

-- The queue that the pointers stand for.
abbrev pub elem : ℕ → List ℕ → Bool
elem a [] = false
elem a (x ∷ xs) = (x == a) || elem a xs

abbrev pub erase : ℕ → List ℕ → List ℕ
erase a [] = []
erase a (x ∷ xs) = let rest = erase a xs in if x == a then xs else x ∷ rest

abbrev pub first : List ℕ → ℕ
first [] = 0
first (x ∷ xs) = x

abbrev pub last : ℕ → List ℕ → ℕ
last b [] = b
last b (x ∷ xs) = last x xs

-- The neighbours of i in the queue, 0 for none.
abbrev pub after : List ℕ → ℕ → ℕ
after [] i = 0
after (x ∷ xs) i = let rest = after xs i in if x == i then first xs else rest

abbrev pub before : ℕ → List ℕ → ℕ → ℕ
before b [] i = 0
before b (x ∷ xs) i = let rest = before x xs i in if x == i then b else rest

-- No awaiter is null or twice in the queue.
abbrev pub IsDistinct : List ℕ → Type 0
IsDistinct [] = Unit
IsDistinct (x ∷ xs) = (x ≢ 0) × (elem x xs ≡ false) × IsDistinct xs

pub record Represents (w : Waiters) (queue : List ℕ) : Type 0 where
  pub distinct : IsDistinct queue
  pub header_first : w.header ≡ first queue
  pub tail_last : w.tail ≡ last 0 queue
  pub next_after : (i : ℕ) → w.next i ≡ after queue i
  pub prev_before : (i : ℕ) → w.prev i ≡ before 0 queue i
