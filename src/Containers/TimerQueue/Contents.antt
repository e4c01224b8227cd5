-- ===== src/Containers/TimerQueue/Contents.antt =====
-- Which timers a queue holds, and that the loops of time_queue.cpp only reorder them.
use simple.Prelude.{ℕ, zero, suc, ◌+◌, ◌*◌, ◌<◌, ◌≡◌, refl, sym, ◌∙◌, subst, arith}
use simple.Prelude.{inl, inr}
use simple.Containers.TimerQueue.{TimerQueue, swap_heap, parent_of, up_loop, min_child, down_loop}
use simple.Containers.TimerQueue.Order.{
  IsPlaced, up_stop, up_go, up_cases, down_stop, down_go, down_cases,
}
use simple.Containers.TimerQueue.Order.{least_bounds, size-swap}

-- The timer stands in the slot that it knows.
abbrev pub Holds : TimerQueue → ℕ → Type 0
Holds q n = (q.index n < q.size) × (q.heap (q.index n) ≡ n)

-- The same timers with the same times, in other slots.
pub record Reordered (q q' : TimerQueue) : Type 0 where
  pub same_size : q'.size ≡ q.size
  pub same_points : (n : ℕ) → q'.point n ≡ q.point n
  pub placed : IsPlaced q'
  pub keeps : (n : ℕ) → Holds q n → Holds q' n
  pub adds_none : (n : ℕ) → Holds q' n → Holds q n

pub Reordered-refl : {q : TimerQueue} → IsPlaced q → Reordered q q
Reordered-refl v = record {
  same_size = refl;
  same_points = λ n. refl;
  placed = v;
  keeps = λ n h. h;
  adds_none = λ n h. h;
}

pub Reordered-trans : {p q r : TimerQueue} → Reordered p q → Reordered q r → Reordered p r
Reordered-trans a b = record {
  same_size = b.same_size ∙ a.same_size;
  same_points = λ n. b.same_points n ∙ a.same_points n;
  placed = b.placed;
  keeps = λ n h. b.keeps n (a.keeps n h);
  adds_none = λ n h. a.adds_none n (b.adds_none n h);
}

module _ {q : TimerQueue} (v : IsPlaced q) {i j : ℕ} (hi : i < q.size) (hj : j < q.size) where
  swap-IsPlaced : IsPlaced (swap_heap q i j)
  unfolding swap_heap
  swap-IsPlaced = record { at = λ k hk. ground (arith, v.at i, v.at j, v.at k) }

  swap_keeps : (n : ℕ) → Holds q n → Holds (swap_heap q i j) n
  unfolding swap_heap
  swap_keeps n h = ground (arith, v.at i, v.at j)

  swap_adds_none : (n : ℕ) → Holds (swap_heap q i j) n → Holds q n
  unfolding swap_heap
  swap_adds_none n h = ground (arith, v.at i, v.at j)

pub swap-Reordered :
    {q : TimerQueue}
    → IsPlaced q
    → (i j : ℕ) → i < q.size
    → j < q.size
    → Reordered q (swap_heap q i j)
unfolding swap_heap
swap-Reordered v i j hi hj = record {
  same_size = refl;
  same_points = λ n. refl;
  placed = swap-IsPlaced v hi hj;
  keeps = swap_keeps v hi hj;
  adds_none = swap_adds_none v hi hj;
}

pub up_loop-Reordered :
    (f : ℕ) {q : TimerQueue} → IsPlaced q → (i : ℕ) → i < q.size → Reordered q (up_loop f q i)
up_loop-Reordered zero {q} v i hs = unfold up_loop in Reordered-refl v
up_loop-Reordered (suc f) {q} v i hs = elim (up_cases q i) [
  | inl stop ↦ subst (Reordered q) (sym (up_stop (suc f) q i stop)) (Reordered-refl v)
  | inr (pos, e) ↦
      let s = swap-Reordered v i (parent_of i) hs (omega arith) in
      subst (Reordered q) (sym (up_go f q i pos e)) (
        Reordered-trans s
          (up_loop-Reordered f s.placed (parent_of i) (omega (arith, size-swap q i (parent_of i)))))
]

pub down_loop-Reordered :
    (f : ℕ) {q : TimerQueue} → IsPlaced q → (i : ℕ) → i < q.size → Reordered q (down_loop f q i)
down_loop-Reordered zero {q} v i hs = unfold down_loop in Reordered-refl v
down_loop-Reordered (suc f) {q} v i hs = elim (down_cases q i) [
  | inl stop ↦ subst (Reordered q) (sym (down_stop (suc f) q i stop)) (Reordered-refl v)
  | inr (inside, e) ↦
      let (lb, le, lt) = least_bounds q i inside in
      let s = swap-Reordered v i (min_child q (i * 2 + 1)) hs lb in
      subst (Reordered q) (sym (down_go f q i inside e)) (
        Reordered-trans s (
          down_loop-Reordered f s.placed (min_child q (i * 2 + 1))
            (omega (arith, lb, size-swap q i (min_child q (i * 2 + 1))))))
]
