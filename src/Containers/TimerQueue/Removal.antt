-- ===== src/Containers/TimerQueue/Removal.antt =====
-- What `remove` of time_queue.cpp does to a valid queue that holds the timer.
use simple.Prelude.{ℕ, ◌-◌, ◌≤◌, ◌<◌, ◌≡◌, ◌≢◌, refl, sym, ap, ◌∙◌, subst, arith}
use simple.Prelude.{
  Bool, true, false, ◌==◌, if◌then◌else◌, inl, inr, ◌⊎◌, ◌↔◌, ℕ_discrete, Bool-cases,
}
use simple.Prelude.Int.{◌≤ℤ◌, before}
use simple.Containers.TimerQueue.{
  TimerQueue, npos, point_at, swap_heap, parent_of, up_loop, up_heap, down_loop, down_heap,
}
use simple.Containers.TimerQueue.{drop_last, repair, remove}
use simple.Containers.TimerQueue.Order.{
  IsPlaced, IsHeap, UpInv, DownInv, up_loop-IsHeap, down_loop-IsHeap, before_false, before_true,
}
use simple.Containers.TimerQueue.Contents.{
  Holds, Reordered, up_loop-Reordered, down_loop-Reordered, swap-Reordered,
}
use simple.Containers.TimerQueue.Update.{IsValid, drop-IsPlaced, drop_keeps, drop_adds_none}

-- `repair` moves the timer up where it stands before its parent, and down otherwise.
repair_cases :
    (q : TimerQueue) (i : ℕ)
    → ((0 < i)
        × (before (point_at q i) (point_at q (parent_of i)) ≡ true)
        × (repair q i ≡ up_loop i q i))
      ⊎ (((i ≡ 0) ⊎ (before (point_at q i) (point_at q (parent_of i)) ≡ false))
          × (repair q i ≡ down_loop (q.size - i) q i))
unfolding repair up_heap down_heap
repair_cases q i = ground (arith, Bool-cases (before (point_at q i) (point_at q (parent_of i))))

module _ {q : TimerQueue} (v : IsValid q) (n : ℕ) (held : Holds q n)
    (inner : q.index n ≢ q.size - 1) where
  -- The queue whose slot `index` took the last timer.
  abbrev hole : TimerQueue
  hole = drop_last (swap_heap q (q.index n) (q.size - 1)) n

  swapped : Reordered q (swap_heap q (q.index n) (q.size - 1))
  swapped = swap-Reordered v.placed (q.index n) (q.size - 1) held.0 (omega arith)

  swapped_last : (swap_heap q (q.index n) (q.size - 1)).heap (q.size - 1) ≡ n
  unfolding swap_heap
  swapped_last = ground arith

  swapped_last' :
      (swap_heap q (q.index n) (q.size - 1)).heap ((swap_heap q (q.index n) (q.size - 1)).size - 1)
      ≡ n
  unfolding swap_heap
  swapped_last' = swapped_last

  hole-size : hole.size ≡ q.size - 1
  unfolding drop_last swap_heap
  hole-size = refl

  hole-IsPlaced : IsPlaced hole
  unfolding swap_heap
  hole-IsPlaced = drop-IsPlaced swapped.placed n (omega (arith, swapped.same_size)) swapped_last

  hole-point_at :
      (i : ℕ)
      → i < q.size - 1
      → point_at hole i ≡ (if q.index n == i then point_at q (q.size - 1) else point_at q i)
  unfolding drop_last swap_heap
  hole-point_at i h = ground arith

  hole_above :
      (j : ℕ)
      → 0 < j
      → j < hole.size
      → j ≢ q.index n
      → parent_of j ≢ q.index n
      → point_at hole (parent_of j) ≤ℤ point_at hole j
  hole_above j hj hs ne np =
      let s : j < q.size - 1 = omega (arith, hole-size) in
      ground (
        arith,
        hole-point_at j s,
        hole-point_at (parent_of j) (omega arith),
        v.ordered j hj (omega arith),
      )

  hole_across :
      (j : ℕ)
      → 0 < j
      → j < hole.size
      → parent_of j ≡ q.index n
      → 0 < q.index n
      → point_at hole (parent_of (q.index n)) ≤ℤ point_at hole j
  hole_across j hj hs pj positive =
      let s : j < q.size - 1 = omega (arith, hole-size) in
      ground (
        arith,
        hole-point_at j s,
        hole-point_at (parent_of (q.index n)) (omega arith),
        v.ordered j hj (omega arith),
        v.ordered (q.index n) positive held.0,
      )

  hole-UpInv :
      0 < q.index n
      → before (point_at hole (q.index n)) (point_at hole (parent_of (q.index n))) ≡ true
      → UpInv hole (q.index n)
  hole-UpInv positive e = record {
    above = λ j hj hs ne. elim (ℕ_discrete (parent_of j) (q.index n)) [
      | no np ↦ hole_above j hj hs ne np
      | yes pj ↦ ground (
        arith,
        before_true (point_at hole (q.index n)) (point_at hole (parent_of (q.index n))) e,
        hole_across j hj hs pj positive,
      )
    ];
    across = hole_across;
  }

  hole-DownInv :
      (q.index n ≡ 0)
        ⊎ (before (point_at hole (q.index n)) (point_at hole (parent_of (q.index n))) ≡ false)
      → DownInv hole (q.index n)
  hole-DownInv stop = record {
    above = λ j hj hs np. elim (ℕ_discrete j (q.index n)) [
      | no ne ↦ hole_above j hj hs ne np
      | yes e ↦
          ground (
            arith,
            before_false (point_at hole (q.index n)) (point_at hole (parent_of (q.index n))),
          )
    ];
    across = hole_across;
  }

  pub repaired : Reordered hole (repair hole (q.index n)) × IsHeap (repair hole (q.index n))
  repaired =
      let inside : q.index n < hole.size = omega (arith, hole-size) in
      elim (repair_cases hole (q.index n)) [
        | inl (positive, e, r) ↦ (
          subst (Reordered hole) (sym r)
              (up_loop-Reordered (q.index n) hole-IsPlaced (q.index n) inside),
          subst IsHeap (sym r) (
              up_loop-IsHeap (q.index n) hole (q.index n) (omega arith) inside
                (hole-UpInv positive e)),
        )
        | inr (stop, r) ↦ (
          subst (Reordered hole) (sym r)
              (down_loop-Reordered (hole.size - q.index n) hole-IsPlaced (q.index n) inside),
          subst IsHeap (sym r) (
              down_loop-IsHeap (hole.size - q.index n) hole (q.index n) (omega arith)
                (hole-DownInv stop)),
        )
      ]

  pub hole-Holds : (m : ℕ) → (Holds hole m ↔ (Holds q m × (m ≢ n)))
  hole-Holds m =
      let some_in : 0 < (swap_heap q (q.index n) (q.size - 1)).size =
        omega (arith, swapped.same_size) in
      let small : (swap_heap q (q.index n) (q.size - 1)).size < npos =
        omega (arith, swapped.same_size, v.small) in
      (
        λ h.
            let (there, ne) = drop_adds_none swapped.placed n some_in swapped_last' m small h in
            (swapped.adds_none m there, ne),
        λ h. drop_keeps swapped.placed n some_in swapped_last' m (swapped.keeps m h.0) h.1,
      )

-- A removal of `n` from `q` with the answer `answer` and the queue `after`.
pub record Removed (q : TimerQueue) (n : ℕ) (answer : Bool) (after : TimerQueue) : Type 0 where
  pub success : answer ≡ true
  pub valid : IsValid after
  pub shorter : after.size ≡ q.size - 1
  pub takes : (m : ℕ) → (Holds after m ↔ (Holds q m × (m ≢ n)))
  pub same_points : (m : ℕ) → after.point m ≡ q.point m

-- The timer in the last slot is simply dropped.
drop_last-IsHeap : (q : TimerQueue) → IsHeap q → (n : ℕ) → IsHeap (drop_last q n)
unfolding drop_last
drop_last-IsHeap q v n i h hs = v i h (omega arith)

drop_last-Removed :
    {q : TimerQueue}
    → IsValid q
    → (n : ℕ) → 0 < q.size
    → q.heap (q.size - 1) ≡ n
    → Removed q n true (drop_last q n)
unfolding drop_last
drop_last-Removed {q} v n some_in last = record {
  success = refl;
  valid = record {
    placed = drop-IsPlaced v.placed n some_in last;
    ordered = drop_last-IsHeap q v.ordered n;
    small = omega (arith, v.small);
  };
  shorter = refl;
  takes = λ m. (
    drop_adds_none v.placed n some_in last m v.small,
    λ k. drop_keeps v.placed n some_in last m k.0 k.1,
  );
  same_points = λ m. refl;
}

repair-Removed :
    {q : TimerQueue} (v : IsValid q) (n : ℕ) (held : Holds q n) (inner : q.index n ≢ q.size - 1)
    → Removed q n true (repair (hole v n held inner) (q.index n))
repair-Removed {q} v n held inner =
    let (r, o) = repaired v n held inner in
    record {
      success = refl;
      valid = record {
        placed = r.placed;
        ordered = o;
        small = omega (arith, r.same_size, hole-size v n held inner, v.small);
      };
      shorter = r.same_size ∙ hole-size v n held inner;
      takes = λ m. (
        λ h. (hole-Holds v n held inner m).0 (r.adds_none m h),
        λ k. r.keeps m ((hole-Holds v n held inner m).1 k),
      );
      same_points = λ m. r.same_points m ∙ hole_points m;
    }
  where
    hole_points : (m : ℕ) → (hole v n held inner).point m ≡ q.point m
    hole_points m = unfold drop_last swap_heap in refl

-- Whether a removal touches the heap, and how.
remove_cases :
    (q : TimerQueue) (n : ℕ)
    → Holds q n
    → ((q.index n ≡ q.size - 1) × (remove q n ≡ (true, drop_last q n)))
      ⊎ ((q.index n ≢ q.size - 1)
          × (remove q n
              ≡ (true, repair (drop_last (swap_heap q (q.index n) (q.size - 1)) n) (q.index n))))
unfolding remove
remove_cases q n h = elim (ℕ_discrete (q.index n) (q.size - 1)) [
  | yes e ↦ inl (e, ground arith)
  | no ne ↦ inr (ne, ground arith)
]

-- Removing a timer that a valid queue holds answers true, keeps the queue valid and one shorter,
-- takes that timer off and no other, and changes no time.
pub remove_takes :
    {q : TimerQueue} → IsValid q → (n : ℕ) → Holds q n → Removed q n (remove q n).0 (remove q n).1
remove_takes {q} v n h = elim (remove_cases q n h) [
  | inl (at_end, e) ↦
      subst (λ (r : Bool × TimerQueue). Removed q n r.0 r.1) (sym e)
        (drop_last-Removed v n (omega arith) (ap q.heap (sym at_end) ∙ h.1))
  | inr (inner, e) ↦
      subst (λ (r : Bool × TimerQueue). Removed q n r.0 r.1) (sym e) (repair-Removed v n h inner)
]

-- A timer that no queue holds is left out: nothing happens.
pub remove_absent : (q : TimerQueue) (n : ℕ) → q.size ≤ q.index n → remove q n ≡ (false, q)
unfolding remove
remove_absent q n h = ground arith
