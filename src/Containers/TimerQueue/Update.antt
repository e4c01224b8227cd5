-- ===== src/Containers/TimerQueue/Update.antt =====
-- What `enqueue` and `remove` of time_queue.cpp do to a valid queue.
use simple.Prelude.{ℕ, ◌+◌, ◌-◌, ◌≤◌, ◌<◌, ◌≡◌, ◌≢◌, refl, sym, ◌∙◌, subst, arith}
use simple.Prelude.{inl, inr, ◌⊎◌, ◌↔◌, ℕ_discrete}
use simple.Containers.TimerQueue.{TimerQueue, npos, point_at, parent_of, up_loop, up_heap}
use simple.Containers.TimerQueue.{drop_last, append_timer, enqueue}
use simple.Containers.TimerQueue.Order.{IsPlaced, IsHeap, UpInv, up_loop-IsHeap}
use simple.Containers.TimerQueue.Contents.{Holds, Reordered, up_loop-Reordered}

pub record IsValid (q : TimerQueue) : Type 0 where
  pub placed : IsPlaced q
  pub ordered : IsHeap q
  pub small : q.size < npos

module _ {q : TimerQueue} (v : IsValid q) (n : ℕ) (new : q.size ≤ q.index n) where
  append-IsPlaced : IsPlaced (append_timer q n)
  unfolding append_timer
  append-IsPlaced = record { at = λ i h. ground (arith, v.placed.at i) }

  append-point_at : (i : ℕ) → i < q.size → point_at (append_timer q n) i ≡ point_at q i
  unfolding append_timer
  append-point_at i h = ground (arith, v.placed.at i)

  append-size : (append_timer q n).size ≡ q.size + 1
  unfolding append_timer
  append-size = refl

  append-UpInv : UpInv (append_timer q n) q.size
  append-UpInv = record {
    above = λ j hj hs ne.
        let inside : j < q.size = omega (arith, append-size) in
        ground (
          arith,
          append-point_at j inside,
          append-point_at (parent_of j) (omega arith),
          v.ordered j hj inside,
        );
    across = λ j hj hs pj h. absurd (omega (arith, append-size));
  }

  append_keeps : (m : ℕ) → Holds q m → Holds (append_timer q n) m
  unfolding append_timer
  append_keeps m h = ground arith

  append_adds : (m : ℕ) → Holds (append_timer q n) m → Holds q m ⊎ (m ≡ n)
  unfolding append_timer
  append_adds m h = elim (ℕ_discrete m n) [ yes e ↦ inr e | no ne ↦ inl (ground arith) ]

  append_self : Holds (append_timer q n) n
  unfolding append_timer
  append_self = ground arith

  enqueue_go : enqueue q n ≡ up_loop q.size (append_timer q n) q.size
  unfolding enqueue up_heap
  enqueue_go = ground arith

-- Enqueuing a timer that is in no queue keeps the queue valid and adds that timer and no other.
pub enqueue_adds :
    {q : TimerQueue}
    → IsValid q
    → (n : ℕ) → q.size ≤ q.index n
    → q.size + 1 < npos
    → IsValid (enqueue q n)
      × ((enqueue q n).size ≡ q.size + 1)
      × ((m : ℕ) → (Holds (enqueue q n) m ↔ (Holds q m ⊎ (m ≡ n))))
enqueue_adds {q} v n new room =
    let e = sym (enqueue_go v n new) in
    let inside : q.size < (append_timer q n).size = omega (arith, append-size v n new) in
    let r = up_loop-Reordered q.size (append-IsPlaced v n new) q.size inside in
    let o =
      up_loop-IsHeap q.size (append_timer q n) q.size (omega arith) inside (append-UpInv v n new) in
    let size = r.same_size ∙ append-size v n new in
    (
      subst IsValid e (record { placed = r.placed; ordered = o; small = omega (arith, size) }),
      subst (λ (p : TimerQueue). p.size ≡ q.size + 1) e size,
      subst (λ (p : TimerQueue). (m : ℕ) → (Holds p m ↔ (Holds q m ⊎ (m ≡ n)))) e
          (λ m. (λ h. append_adds v n new m (r.adds_none m h), joined m r)),
    )
  where
    joined :
        (m : ℕ)
        → Reordered (append_timer q n) (up_loop q.size (append_timer q n) q.size)
        → Holds q m ⊎ (m ≡ n)
        → Holds (up_loop q.size (append_timer q n) q.size) m
    joined m r (inl h) = r.keeps m (append_keeps v n new m h)
    joined m r (inr e) = r.keeps m (subst (Holds (append_timer q n)) (sym e) (append_self v n new))

-- The queue without its last slot, where `n` stands there.
module _ {q : TimerQueue} (v : IsPlaced q) (n : ℕ) (some_in : 0 < q.size)
    (last : q.heap (q.size - 1) ≡ n) where
  pub drop-IsPlaced : IsPlaced (drop_last q n)
  unfolding drop_last
  drop-IsPlaced = record { at = λ i h. ground (arith, v.at i, v.at (q.size - 1)) }

  pub drop_keeps : (m : ℕ) → Holds q m → m ≢ n → Holds (drop_last q n) m
  unfolding drop_last
  drop_keeps m h ne = ground (arith, v.at (q.size - 1))

  pub drop_adds_none : (m : ℕ) → q.size < npos → Holds (drop_last q n) m → Holds q m × (m ≢ n)
  unfolding drop_last
  drop_adds_none m small h = elim (ℕ_discrete m n) [
    | yes e ↦ absurd (ground arith)
    | no ne ↦ (ground arith, ne)
  ]
