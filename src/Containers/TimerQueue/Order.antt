-- ===== src/Containers/TimerQueue/Order.antt =====
-- The heap order, and the two loops that restore it.
use simple.Prelude.{ℕ, zero, suc, ◌+◌, ◌*◌, ◌≤◌, ◌<◌, ◌≡◌, ◌≢◌, refl, sym, subst, arith}
use simple.Prelude.{true, false, ◌==◌, if◌then◌else◌, Bool-cases, inl, inr, ◌⊎◌, ℕ_discrete}
use simple.Prelude.Int.{ℤ, ◌≤ℤ◌, before}
use simple.Containers.TimerQueue.{TimerQueue, point_at, swap_heap, parent_of, up_loop, min_child}
use simple.Containers.TimerQueue.{down_loop}

-- Timers know their places.
pub record IsPlaced (q : TimerQueue) : Type 0 where
  pub at : (i : ℕ) → i < q.size → q.index (q.heap i) ≡ i

abbrev pub IsHeap : TimerQueue → Type 0
IsHeap q = (i : ℕ) → 0 < i → i < q.size → point_at q (parent_of i) ≤ℤ point_at q i

-- Ordered but for the pair of `i` and its parent.
pub record UpInv (q : TimerQueue) (i : ℕ) : Type 0 where
  pub above : (j : ℕ) → 0 < j → j < q.size → j ≢ i → point_at q (parent_of j) ≤ℤ point_at q j
  pub across :
      (j : ℕ)
      → 0 < j
      → j < q.size
      → parent_of j ≡ i
      → 0 < i
      → point_at q (parent_of i) ≤ℤ point_at q j

-- Ordered but for the pairs of `i` and its children.
pub record DownInv (q : TimerQueue) (i : ℕ) : Type 0 where
  pub above :
      (j : ℕ) → 0 < j → j < q.size → parent_of j ≢ i → point_at q (parent_of j) ≤ℤ point_at q j
  pub across :
      (j : ℕ)
      → 0 < j
      → j < q.size
      → parent_of j ≡ i
      → 0 < i
      → point_at q (parent_of i) ≤ℤ point_at q j

pub point_at-swap :
    (q : TimerQueue) (i j k : ℕ)
    → point_at (swap_heap q i j) k
      ≡ (if j == k then point_at q i else if i == k then point_at q j else point_at q k)
unfolding swap_heap
point_at-swap q i j k = ground arith

pub size-swap : (q : TimerQueue) (i j : ℕ) → (swap_heap q i j).size ≡ q.size
unfolding swap_heap
size-swap q i j = refl

pub before_false : (a b : ℤ) → before a b ≡ false → b ≤ℤ a
unfolding before
before_false a b h = ground arith

pub before_true : (a b : ℤ) → before a b ≡ true → a ≤ℤ b
unfolding before
before_true a b h = ground arith

up_above :
    {q : TimerQueue} {i : ℕ}
    → UpInv q i
    → 0 < i
    → i < q.size
    → before (point_at q i) (point_at q (parent_of i)) ≡ true
    → (j : ℕ) → 0 < j
    → j < q.size
    → j ≢ parent_of i
    → point_at (swap_heap q i (parent_of i)) (parent_of j)
      ≤ℤ point_at (swap_heap q i (parent_of i)) j
up_above {q} {i} v hi hs e j hj hjs ne = ground (
  arith,
  point_at-swap q i (parent_of i) j,
  point_at-swap q i (parent_of i) (parent_of j),
  before_true (point_at q i) (point_at q (parent_of i)) e,
  v.above j,
  v.across j,
)

up_across :
    {q : TimerQueue} {i : ℕ}
    → UpInv q i
    → 0 < i
    → i < q.size
    → before (point_at q i) (point_at q (parent_of i)) ≡ true
    → (j : ℕ) → 0 < j
    → j < q.size
    → parent_of j ≡ parent_of i
    → 0 < parent_of i
    → point_at (swap_heap q i (parent_of i)) (parent_of (parent_of i))
      ≤ℤ point_at (swap_heap q i (parent_of i)) j
up_across {q} {i} v hi hs e j hj hjs pj hp = ground (
  arith,
  point_at-swap q i (parent_of i) j,
  point_at-swap q i (parent_of i) (parent_of (parent_of i)),
  before_true (point_at q i) (point_at q (parent_of i)) e,
  v.above j,
  v.above (parent_of i),
)

up_done :
    {q : TimerQueue} {i : ℕ}
    → UpInv q i
    → (i ≡ 0) ⊎ (before (point_at q i) (point_at q (parent_of i)) ≡ false)
    → IsHeap q
up_done {q} {i} v stop j hj hjs = elim (ℕ_discrete j i) [
  | no ne ↦ v.above j hj hjs ne
  | yes e ↦ ground (arith, before_false (point_at q i) (point_at q (parent_of i)))
]

pub up_stop :
    (f : ℕ) (q : TimerQueue) (i : ℕ)
    → (i ≡ 0) ⊎ (before (point_at q i) (point_at q (parent_of i)) ≡ false)
    → up_loop f q i ≡ q
unfolding up_loop
up_stop zero q i h = refl
up_stop (suc f) q i h = ground arith

pub up_go :
    (f : ℕ) (q : TimerQueue) (i : ℕ)
    → 0 < i
    → before (point_at q i) (point_at q (parent_of i)) ≡ true
    → up_loop (suc f) q i ≡ up_loop f (swap_heap q i (parent_of i)) (parent_of i)
unfolding up_loop
up_go f q i h e = ground arith

up_next :
    {q : TimerQueue} {i : ℕ}
    → UpInv q i
    → 0 < i
    → i < q.size
    → before (point_at q i) (point_at q (parent_of i)) ≡ true
    → UpInv (swap_heap q i (parent_of i)) (parent_of i)
unfolding swap_heap
up_next v h hs e = record { above = up_above v h hs e; across = up_across v h hs e }

-- Where the loop stops, or takes one more round.
pub up_cases :
    (q : TimerQueue) (i : ℕ)
    → ((i ≡ 0) ⊎ (before (point_at q i) (point_at q (parent_of i)) ≡ false))
      ⊎ ((0 < i) × (before (point_at q i) (point_at q (parent_of i)) ≡ true))
up_cases q i = ground (arith, Bool-cases (before (point_at q i) (point_at q (parent_of i))))

-- Moving up restores the order, and `i` rounds are enough.
pub up_loop-IsHeap :
    (f : ℕ) (q : TimerQueue) (i : ℕ) → i ≤ f → i < q.size → UpInv q i → IsHeap (up_loop f q i)
up_loop-IsHeap zero q i h hs v =
    subst IsHeap (sym (up_stop zero q i (inl (omega arith)))) (up_done v (inl (omega arith)))
up_loop-IsHeap (suc f) q i h hs v = elim (up_cases q i) [
  | inl stop ↦ subst IsHeap (sym (up_stop (suc f) q i stop)) (up_done v stop)
  | inr (pos, e) ↦ subst IsHeap (sym (up_go f q i pos e)) (
      up_loop-IsHeap f (swap_heap q i (parent_of i)) (parent_of i) (omega arith)
        (omega (arith, size-swap q i (parent_of i))) (up_next v pos hs e))
]

pub least_bounds :
    (q : TimerQueue) (i : ℕ)
    → i * 2 + 1 < q.size
    → (min_child q (i * 2 + 1) < q.size)
      × (parent_of (min_child q (i * 2 + 1)) ≡ i)
      × (i < min_child q (i * 2 + 1))
unfolding min_child
least_bounds q i h = ground arith

least_le :
    (q : TimerQueue) (i j : ℕ)
    → i * 2 + 1 < q.size
    → 0 < j
    → j < q.size
    → parent_of j ≡ i
    → point_at q (min_child q (i * 2 + 1)) ≤ℤ point_at q j
unfolding min_child
least_le q i j h hj hjs e = ground (
  arith,
  before_false (point_at q (i * 2 + 1)) (point_at q (i * 2 + 1 + 1)),
  before_true (point_at q (i * 2 + 1)) (point_at q (i * 2 + 1 + 1)),
)

down_above :
    {q : TimerQueue} {i : ℕ}
    → DownInv q i
    → i * 2 + 1 < q.size
    → before (point_at q i) (point_at q (min_child q (i * 2 + 1))) ≡ false
    → (j : ℕ) → 0 < j
    → j < q.size
    → parent_of j ≢ min_child q (i * 2 + 1)
    → point_at (swap_heap q i (min_child q (i * 2 + 1))) (parent_of j)
      ≤ℤ point_at (swap_heap q i (min_child q (i * 2 + 1))) j
down_above {q} {i} v hs e j hj hjs ne = ground (
  arith,
  point_at-swap q i (min_child q (i * 2 + 1)) j,
  point_at-swap q i (min_child q (i * 2 + 1)) (parent_of j),
  before_false (point_at q i) (point_at q (min_child q (i * 2 + 1))) e,
  least_bounds q i hs,
  least_le q i j hs hj hjs,
  v.above j,
  v.across (min_child q (i * 2 + 1)),
)

down_across :
    {q : TimerQueue} {i : ℕ}
    → DownInv q i
    → i * 2 + 1 < q.size
    → (j : ℕ) → 0 < j
    → j < q.size
    → parent_of j ≡ min_child q (i * 2 + 1)
    → point_at (swap_heap q i (min_child q (i * 2 + 1))) (parent_of (min_child q (i * 2 + 1)))
      ≤ℤ point_at (swap_heap q i (min_child q (i * 2 + 1))) j
down_across {q} {i} v hs j hj hjs pj = ground (
  arith,
  point_at-swap q i (min_child q (i * 2 + 1)) j,
  point_at-swap q i (min_child q (i * 2 + 1)) (parent_of (min_child q (i * 2 + 1))),
  least_bounds q i hs,
  v.above j,
)

down_next :
    {q : TimerQueue} {i : ℕ}
    → DownInv q i
    → i * 2 + 1 < q.size
    → before (point_at q i) (point_at q (min_child q (i * 2 + 1))) ≡ false
    → DownInv (swap_heap q i (min_child q (i * 2 + 1))) (min_child q (i * 2 + 1))
unfolding swap_heap
down_next v h e = record {
  above = down_above v h e;
  across = λ j hj hjs pj _. down_across v h j hj hjs pj;
}

pub down_stop :
    (f : ℕ) (q : TimerQueue) (i : ℕ)
    → (q.size ≤ i * 2 + 1) ⊎ (before (point_at q i) (point_at q (min_child q (i * 2 + 1))) ≡ true)
    → down_loop f q i ≡ q
unfolding down_loop
down_stop zero q i h = refl
down_stop (suc f) q i h = ground arith

pub down_go :
    (f : ℕ) (q : TimerQueue) (i : ℕ)
    → i * 2 + 1 < q.size
    → before (point_at q i) (point_at q (min_child q (i * 2 + 1))) ≡ false
    → down_loop (suc f) q i
      ≡ down_loop f (swap_heap q i (min_child q (i * 2 + 1))) (min_child q (i * 2 + 1))
unfolding down_loop
down_go f q i h e = ground arith

pub down_cases :
    (q : TimerQueue) (i : ℕ)
    → ((q.size ≤ i * 2 + 1) ⊎ (before (point_at q i) (point_at q (min_child q (i * 2 + 1))) ≡ true))
      ⊎ ((i * 2 + 1 < q.size)
          × (before (point_at q i) (point_at q (min_child q (i * 2 + 1))) ≡ false))
down_cases q i =
    ground (arith, Bool-cases (before (point_at q i) (point_at q (min_child q (i * 2 + 1)))))

down_done :
    {q : TimerQueue} {i : ℕ}
    → DownInv q i
    → (q.size ≤ i * 2 + 1) ⊎ (before (point_at q i) (point_at q (min_child q (i * 2 + 1))) ≡ true)
    → IsHeap q
down_done {q} {i} v stop j hj hjs = elim (ℕ_discrete (parent_of j) i) [
  | no ne ↦ v.above j hj hjs ne
  | yes e ↦ ground (
    arith,
    before_true (point_at q i) (point_at q (min_child q (i * 2 + 1))),
    least_le q i j (omega arith) hj hjs e,
  )
]

-- Moving down restores the order, and as many rounds as slots from `i` on are enough.
pub down_loop-IsHeap :
    (f : ℕ) (q : TimerQueue) (i : ℕ) → q.size ≤ i + f → DownInv q i → IsHeap (down_loop f q i)
down_loop-IsHeap zero q i h v =
    subst IsHeap (sym (down_stop zero q i (inl (omega arith)))) (down_done v (inl (omega arith)))
down_loop-IsHeap (suc f) q i h v = elim (down_cases q i) [
  | inl stop ↦ subst IsHeap (sym (down_stop (suc f) q i stop)) (down_done v stop)
  | inr (inside, e) ↦ subst IsHeap (sym (down_go f q i inside e)) (
      down_loop-IsHeap f (swap_heap q i (min_child q (i * 2 + 1))) (min_child q (i * 2 + 1))
        (omega (arith, size-swap q i (min_child q (i * 2 + 1)), least_bounds q i inside))
        (down_next v inside e))
]

-- The first timer is a least one.
pub root_least :
    (f : ℕ) (q : TimerQueue)
    → IsHeap q
    → (i : ℕ) → i ≤ f
    → i < q.size
    → point_at q 0 ≤ℤ point_at q i
root_least zero q v i h hs = let z : i ≡ 0 = omega arith in rw z (omega arith)
root_least (suc f) q v zero h hs = omega arith
root_least (suc f) q v (suc i) h hs =
    let p = root_least f q v (parent_of (suc i)) (omega arith) (omega arith) in
    omega (arith, p, v (suc i) (omega arith) hs)
