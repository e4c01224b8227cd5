-- ===== src/Coro/Tests.antt =====
-- Locks, waits and cancellations at small inputs.
use simple.Prelude.{
  ℕ, ◌≡◌, ◌≤◌, refl, Bool, true, false, none, some, List, [], ◌∷◌, arith, All, if◌then◌else◌, ◌==◌,
}
use simple.Coro.Waiters.{no_waiters, add_awaiter, append_awaiter, remove_awaiter, elem}
use simple.Coro.Mutex.{
  Lockers, Reach, here, next, locks, unlocks, cancels, nobody, await_lock, release, cancel, resume,
  try_lock, unlock, await_resume, unlocked_mutex,
}
use simple.Coro.Mutex.Order.{
  Call, lock, give_back, withdraw, answer, reply, replies, free, taken, woken, done,
  answers-replies,
}
use simple.Coro.Mutex.Exclusion.{owners, mutual_exclusion, resume_cancelled}
use simple.Coro.Condition.{
  Signal, suspend, one, all, cancelled, react, serve, wakes, notify_one, notify_all, notify_from,
  on_cancelled, has_awaiter,
}
use simple.Coro.Condition.Wakes.{react-wakes}
use simple.Coro.Condition
use simple.Coro.Mutex.Order
use simple.Coro.Cancellation.{
  new_cancellation, request_cancellation, calls, construct, destroy, call_registered, destroy_each,
  register_callback, deregister_callback, can_be_cancelled,
}
use simple.Coro.Cancellation.Life.{
  Life, begins, ends, live, alive, IsFresh, request_cancellation-calls,
}

abbrev three_calls : List Call
three_calls =
    lock 1 ∷ lock 2 ∷ lock 3 ∷ lock 4 ∷ withdraw 3 ∷ give_back ∷ give_back ∷ give_back ∷ []

three_calls-replies :
    replies answer unlocked_mutex three_calls
    ≡ taken true
      ∷ taken false
      ∷ taken false
      ∷ taken false
      ∷ done
      ∷ woken (some 2)
      ∷ woken (some 4)
      ∷ woken none
      ∷ []
unfolding replies answer unlocked_mutex try_lock unlock add_awaiter append_awaiter remove_awaiter
    no_waiters
three_calls-replies = refl

three_calls-IsProper : All Order.IsProper three_calls
unfolding Order.IsProper
three_calls-IsProper = ground arith

answers-replies_example : replies answer unlocked_mutex three_calls ≡ replies reply free three_calls
answers-replies_example = answers-replies three_calls three_calls-IsProper

abbrev everyone : ℕ → Bool
everyone i = true

abbrev two_lockers : Lockers
two_lockers = await_lock (await_lock (nobody everyone) 1) 2

abbrev handed : Lockers
handed = cancel (release two_lockers 1) 2

two_lockers_reached : Reach (nobody everyone) two_lockers
two_lockers_reached = next (next here (locks 1 (ground arith))) (locks 2 (ground arith))

handed_reached : Reach (nobody everyone) handed
unfolding nobody await_lock release cancel await_resume try_lock unlock unlocked_mutex add_awaiter
    append_awaiter remove_awaiter no_waiters
handed_reached = next (next two_lockers_reached (unlocks 1 refl)) (cancels 2 (ground arith) refl)

mutual_exclusion_example : owners handed ≤ (if handed.mutex.locked then 1 else 0)
mutual_exclusion_example = mutual_exclusion everyone handed handed_reached

handed_granted : elem 2 handed.granted ≡ true
unfolding nobody await_lock release cancel await_resume try_lock unlock unlocked_mutex add_awaiter
    append_awaiter remove_awaiter no_waiters
handed_granted = refl

handed_cancelled : handed.cancelled 2 ≡ true
unfolding nobody await_lock release cancel await_resume try_lock unlock unlocked_mutex add_awaiter
    append_awaiter remove_awaiter no_waiters
handed_cancelled = refl

resume_cancelled_example :
    ((resume handed 2).mutex.locked ≡ true)
    × ((resume handed 2).holders ≡ [])
    × ((resume handed 2).granted ≡ [])
resume_cancelled_example =
    resume_cancelled everyone handed (resume handed 2) 2 handed_reached handed_granted
      handed_cancelled here

abbrev signals : List Signal
signals = suspend 1 ∷ suspend 2 ∷ suspend 3 ∷ one ∷ cancelled 2 ∷ cancelled 1 ∷ suspend 4 ∷ all ∷ []

signals_wake :
    wakes (react 8) no_waiters signals
    ≡ [] ∷ [] ∷ [] ∷ (1 ∷ []) ∷ (2 ∷ []) ∷ [] ∷ [] ∷ (3 ∷ 4 ∷ []) ∷ []
unfolding wakes react notify_one notify_all notify_from on_cancelled has_awaiter add_awaiter
    append_awaiter remove_awaiter no_waiters
signals_wake = refl

signals-IsProper : All Condition.IsProper signals
unfolding Condition.IsProper
signals-IsProper = ground arith

react-wakes_example : wakes (react 8) no_waiters signals ≡ wakes serve [] signals
react-wakes_example = react-wakes 8 signals (omega arith) signals-IsProper

abbrev lives : List Life
lives = begins 1 ∷ begins 2 ∷ begins 3 ∷ begins 4 ∷ ends 2 ∷ []

-- The callback of 4 destroys 3.
abbrev by_four : ℕ → List ℕ
by_four r = if r == 4 then 3 ∷ [] else []

lives_called : (request_cancellation by_four 6 (live new_cancellation lives)).1 ≡ 4 ∷ 1 ∷ []
unfolding live new_cancellation request_cancellation call_registered construct destroy destroy_each
    register_callback deregister_callback can_be_cancelled
lives_called = refl

lives-IsFresh : IsFresh [] lives
unfolding IsFresh
lives-IsFresh = ground arith

request_cancellation-calls_example :
    let (c, called) = request_cancellation by_four 6 (live new_cancellation lives) in
    (called ≡ calls by_four 6 (alive [] lives))
    × (c.registrations ≡ 0)
    × ((i : ℕ) → c.bound i ≡ false)
    × ((request_cancellation by_four 6 c).1 ≡ [])
request_cancellation-calls_example =
    request_cancellation-calls by_four 6 lives lives-IsFresh (omega arith)
