-- ===== src/Containers/TimerQueue.antt =====
-- runtime/src/containers/time_queue.cpp: a binary heap of timers, where each timer knows its place.
-- A timer is a number; `index` and `point` are the fields of the timers, and `heap` the vector,
-- whose slots from `size` on hold nothing of interest. A time is a count of ticks, signed.
pub mod Order
pub mod Contents
pub mod Update
pub mod Ready
pub mod Removal
use simple.Prelude.{
  ℕ, zero, suc, ◌+◌, ◌-◌, ◌*◌, ◌/◌, ◌^◌, Bool, true, false, not, ltb, ◌==◌, ◌&&◌, ◌||◌,
}
use simple.Prelude.{if◌then◌else◌, List, [], ◌∷◌}
use simple.Prelude.Int.{ℤ, pos, ◌-ℤ◌, before}

abbrev pub npos : ℕ
npos = 2 ^ 64 - 1

abbrev pub update {ℓ} : {A : Type ℓ} → (ℕ → A) → ℕ → A → ℕ → A
update f a v i = if a == i then v else f i

pub record TimerQueue : Type 0 where
  pub size : ℕ
  pub heap : ℕ → ℕ
  pub index : ℕ → ℕ
  pub point : ℕ → ℤ

-- heap_[i]->point
abbrev pub point_at : TimerQueue → ℕ → ℤ
point_at q i = q.point (q.heap i)

unfoldable pub swap_heap : TimerQueue → ℕ → ℕ → TimerQueue
swap_heap q i j =
    let t1 = q.heap j in
    let t2 = q.heap i in
    record q { heap = update (update q.heap i t1) j t2; index = update (update q.index t1 i) t2 j }

abbrev pub parent_of : ℕ → ℕ
parent_of i = (i - 1) / 2

-- The loop of `up_heap`; its index falls, so `index` rounds are enough.
unfoldable pub up_loop : ℕ → TimerQueue → ℕ → TimerQueue
up_loop zero q i = q
up_loop (suc f) q i =
    let rest = up_loop f (swap_heap q i (parent_of i)) (parent_of i) in
    if i == 0
    then q
    else (if not (before (point_at q i) (point_at q (parent_of i))) then q else rest)

unfoldable pub up_heap : TimerQueue → ℕ → TimerQueue
up_heap q i = up_loop i q i

unfoldable pub min_child : TimerQueue → ℕ → ℕ
min_child q child =
    if child + 1 == q.size || before (point_at q child) (point_at q (child + 1))
    then child
    else child + 1

-- The loop of `down_heap`; its index grows, so as many rounds as slots behind it are enough.
unfoldable pub down_loop : ℕ → TimerQueue → ℕ → TimerQueue
down_loop zero q i = q
down_loop (suc f) q i =
    let child = i * 2 + 1 in
    let least = min_child q child in
    let rest = down_loop f (swap_heap q i least) least in
    if not (ltb child q.size)
    then q
    else (if before (point_at q i) (point_at q least) then q else rest)

unfoldable pub down_heap : TimerQueue → ℕ → TimerQueue
down_heap q i = down_loop (q.size - i) q i

-- The last slot goes, and its timer is in no queue.
unfoldable pub drop_last : TimerQueue → ℕ → TimerQueue
drop_last q n = record q { size = q.size - 1; index = update q.index n npos }

unfoldable pub repair : TimerQueue → ℕ → TimerQueue
repair q i =
    if ltb 0 i && before (point_at q i) (point_at q (parent_of i))
    then up_heap q i
    else down_heap q i

unfoldable pub remove : TimerQueue → ℕ → Bool × TimerQueue
remove q n =
    let i = q.index n in
    if not (q.size == 0) && ltb i q.size
    then (if i == q.size - 1
        then (true, drop_last q n)
        else (true, repair (drop_last (swap_heap q i (q.size - 1)) n) i))
    else (false, q)

-- The clamped timer at the end of the vector, before it moves up.
unfoldable pub append_timer : TimerQueue → ℕ → TimerQueue
append_timer q n = record q {
  point = update q.point n (if before (q.point n) (pos 0) then pos 0 else q.point n);
  index = update q.index n q.size;
  heap = update q.heap q.size n;
  size = q.size + 1;
}

unfoldable pub enqueue : TimerQueue → ℕ → TimerQueue
enqueue q n = if ltb (q.index n) q.size then q else up_heap (append_timer q n) q.size

abbrev duration_max : ℤ
duration_max = pos (2 ^ 63 - 1)

unfoldable pub wait_duration : TimerQueue → ℤ → ℤ
wait_duration q now = if q.size == 0 then duration_max else point_at q 0 -ℤ now

-- The loop of `get_ready_timers`: each round takes a timer off, so `size` rounds are enough.
unfoldable pub ready_loop : ℕ → TimerQueue → ℤ → List ℕ × TimerQueue
ready_loop zero q now = ([], q)
ready_loop (suc f) q now =
    let n = q.heap 0 in
    let rest = ready_loop f (remove q n).1 now in
    if not (q.size == 0) && not (before now (point_at q 0)) then (n ∷ rest.0, rest.1) else ([], q)

unfoldable pub get_ready_timers : TimerQueue → ℤ → List ℕ × TimerQueue
get_ready_timers q now = ready_loop q.size q now

unfoldable pub slots : (ℕ → ℕ) → ℕ → ℕ → List ℕ
slots heap i zero = []
slots heap i (suc n) = heap i ∷ slots heap (suc i) n

-- The vector is moved out and left empty; the timers keep their indices.
unfoldable pub get_all_timers : TimerQueue → List ℕ × TimerQueue
unfolding slots
get_all_timers q = (slots q.heap 0 q.size, record q { size = 0 })
