-- ===== src/Coro/Condition.antt =====
-- The coroutine condition variable: condition_variable_state of
-- runtime/src/coro/condition_variable.cpp and the callback that condition_variable_awaiter of
-- runtime/include/simple/coro/condition_variable.h registers. Its list is that of Waiters: both
-- states keep the same fields and have the same add_awaiter and remove_awaiter.
use simple.Prelude.{
  ℕ, zero, suc, ◌≡◌, ◌≢◌, Bool, not, ◌||◌, List, [], ◌∷◌, ◌++◌, ◌==◌, if◌then◌else◌, take, drop,
}
use simple.Prelude.Memory.{update}
use simple.Coro.Waiters.{Waiters, add_awaiter, remove_awaiter, elem, erase}
pub mod Wakes

unfoldable pub has_awaiter : Waiters → ℕ → Bool
has_awaiter w a = not (w.next a == 0) || not (w.prev a == 0) || (w.header == a)

-- The state, and those that are woken up.
unfoldable pub notify_one : Waiters → Waiters × List ℕ
notify_one w = if w.header == 0 then (w, []) else (remove_awaiter w w.header, w.header ∷ [])

-- The loop of notify_all from an awaiter on.
unfoldable pub notify_from : ℕ → Waiters → ℕ → Waiters × List ℕ
notify_from zero w awaiter = (w, [])
notify_from (suc fuel) w awaiter =
    let cleared = record w { next = update w.next awaiter 0; prev = update w.prev awaiter 0 } in
    let (v, woken) = notify_from fuel cleared (w.next awaiter) in
    if awaiter == 0 then (w, []) else (v, awaiter ∷ woken)

unfoldable pub notify_all : ℕ → Waiters → Waiters × List ℕ
notify_all fuel w =
    let (v, woken) = notify_from fuel w w.header in (record v { header = 0; tail = 0 }, woken)

-- The callback of a cancelled token.
unfoldable pub on_cancelled : Waiters → ℕ → Waiters × List ℕ
on_cancelled w a = if has_awaiter w a then (remove_awaiter w a, a ∷ []) else (w, [])

-- The calls that reach the state: an awaiter suspends, a notification, a cancelled token.
pub data Signal : Type 0 where
  suspend : ℕ → Signal
  one : Signal
  all : Signal
  cancelled : ℕ → Signal

unfoldable pub react : ℕ → Waiters → Signal → Waiters × List ℕ
react fuel w (suspend a) = (add_awaiter w a, [])
react fuel w one = notify_one w
react fuel w all = notify_all fuel w
react fuel w (cancelled a) = on_cancelled w a

-- What they do to a queue.
unfoldable pub serve : List ℕ → Signal → List ℕ × List ℕ
serve queue (suspend a) = (if elem a queue then queue else queue ++ a ∷ [], [])
serve queue one = (drop 1 queue, take 1 queue)
serve queue all = ([], queue)
serve queue (cancelled a) = (erase a queue, if elem a queue then a ∷ [] else [])

-- Whom each of the calls wakes up.
unfoldable pub wakes {ℓ} :
    {S : Type ℓ} → (S → Signal → S × List ℕ) → S → List Signal → List (List ℕ)
wakes step s [] = []
wakes step s (c ∷ cs) = let (t, woken) = step s c in woken ∷ wakes step t cs

-- An awaiter is not null.
unfoldable pub IsProper : Signal → Type 0
IsProper (suspend a) = a ≢ 0
IsProper one = Unit
IsProper all = Unit
IsProper (cancelled a) = a ≢ 0
