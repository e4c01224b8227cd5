-- ===== src/Containers/TimerQueue/Ready.antt =====
-- `get_ready_timers` of time_queue.cpp: the timers that are due, earliest first.
use simple.Prelude.{ℕ, zero, suc, ◌≤◌, ◌<◌, ◌≡◌, ◌≢◌, refl, sym, ap, ◌∙◌, subst, arith}
use simple.Prelude.{Bool, true, false, inl, inr, ◌⊎◌, ◌↔◌, ℕ_discrete, Bool-cases}
use simple.Prelude.Int.{ℤ, ◌≤ℤ◌, before}
use simple.Containers.TimerQueue.{TimerQueue, point_at}
use simple.Containers.TimerQueue.{remove}
use simple.Containers.TimerQueue.Contents.{Holds}
use simple.Containers.TimerQueue.Update.{IsValid}
use simple.Containers.TimerQueue.Removal.{Removed, remove_takes}
use simple.Containers.TimerQueue.Order.{root_least}
use simple.Containers.TimerQueue.{ready_loop, get_ready_timers}
use simple.Prelude.{List, [], ◌∷◌, fun_ext}

abbrev pub In : ℕ → List ℕ → Type 0
In m [] = ⊥
In m (x ∷ xs) = (m ≡ x) ⊎ In m xs

-- Each timer is due no later than those behind it.
abbrev pub IsSorted : (ℕ → ℤ) → List ℕ → Type 0
IsSorted point [] = Unit {0}
IsSorted point (x ∷ xs) = ((m : ℕ) → In m xs → point x ≤ℤ point m) × IsSorted point xs

-- No timer twice.
abbrev pub IsOnce : List ℕ → Type 0
IsOnce [] = Unit {0}
IsOnce (x ∷ xs) = (In x xs → ⊥) × IsOnce xs

-- What taking the due timers off `q` returns and leaves.
pub record IsReady (q : TimerQueue) (now : ℤ) (taken : List ℕ) (after : TimerQueue) : Type 0 where
  pub valid : IsValid after
  pub due : (m : ℕ) → (In m taken ↔ (Holds q m × (before now (q.point m) ≡ false)))
  pub waiting : (m : ℕ) → (Holds after m ↔ (Holds q m × (before now (q.point m) ≡ true)))
  pub sorted : IsSorted q.point taken
  pub once : IsOnce taken

root-Holds : {q : TimerQueue} → IsValid q → 0 < q.size → Holds q (q.heap 0)
root-Holds v h = ground (arith, v.placed.at 0)

-- No timer is due before the root.
root_first : {q : TimerQueue} → IsValid q → (m : ℕ) → Holds q m → point_at q 0 ≤ℤ q.point m
root_first {q} v m h =
    subst (λ k. point_at q 0 ≤ℤ q.point k) h.1
      (root_least (q.index m) q v.ordered (q.index m) (omega arith) h.0)

IsReady-stop :
    {q : TimerQueue} (now : ℤ)
    → IsValid q
    → ((m : ℕ) → Holds q m → before now (q.point m) ≡ true)
    → IsReady q now [] q
IsReady-stop now v none_due = record {
  valid = v;
  due = λ m. (λ h. absurd h, λ h. cc (none_due m h.0, h.1));
  waiting = λ m. (λ h. (h, none_due m h), λ h. h.0);
  sorted = tt;
  once = tt;
}

before_mono : (now a b : ℤ) → before now a ≡ true → a ≤ℤ b → before now b ≡ true
unfolding before
before_mono now a b h l = ground arith

ready_cases :
    (f : ℕ) (q : TimerQueue) (now : ℤ)
    → ((q.size ≡ 0) × (ready_loop (suc f) q now ≡ ([], q)))
      ⊎ ((before now (point_at q 0) ≡ true) × (ready_loop (suc f) q now ≡ ([], q)))
      ⊎ ((0 < q.size)
          × (before now (point_at q 0) ≡ false)
          × (ready_loop (suc f) q now ≡ (
            q.heap 0 ∷ (ready_loop f (remove q (q.heap 0)).1 now).0,
            (ready_loop f (remove q (q.heap 0)).1 now).1,
          )))
unfolding ready_loop
ready_cases f q now = elim (ℕ_discrete q.size 0) [
  | yes z ↦ inl (z, ground arith)
  | no nz ↦ elim (Bool-cases (before now (point_at q 0))) [
    | inl later ↦ inr (inl (later, ground arith))
    | inr due ↦ inr (inr (omega arith, due, ground arith))
  ]
]

-- One timer off, and what the rest of the loop takes.
IsReady-more :
    {q : TimerQueue} (now : ℤ) {taken : List ℕ} {after next : TimerQueue}
    → IsValid q
    → 0 < q.size
    → before now (point_at q 0) ≡ false
    → Removed q (q.heap 0) true next
    → IsReady next now taken after
    → IsReady q now (q.heap 0 ∷ taken) after
IsReady-more {q} now {taken} {after} {next} v some_in due r rest = record {
  valid = rest.valid;
  due = λ m. (due_from m, due_to m);
  waiting = λ m. (waiting_from m, waiting_to m);
  sorted = (
    λ m i. root_first v m (due_from m (inr i)).0,
    subst (λ p. IsSorted p taken) (fun_ext r.same_points) rest.sorted,
  );
  once = (root_gone, rest.once);
}
  where
    same : (m : ℕ) (b : Bool) → before now (next.point m) ≡ b → before now (q.point m) ≡ b
    same m b e = ap (before now) (sym (r.same_points m)) ∙ e

    same_back : (m : ℕ) (b : Bool) → before now (q.point m) ≡ b → before now (next.point m) ≡ b
    same_back m b e = ap (before now) (r.same_points m) ∙ e

    due_from : (m : ℕ) → In m (q.heap 0 ∷ taken) → Holds q m × (before now (q.point m) ≡ false)
    due_from m (inl e) =
        (subst (Holds q) (sym e) (root-Holds v some_in), ap (λ k. before now (q.point k)) e ∙ due)
    due_from m (inr i) = let (h, e) = (rest.due m).0 i in (((r.takes m).0 h).0, same m false e)

    due_to : (m : ℕ) → Holds q m × (before now (q.point m) ≡ false) → In m (q.heap 0 ∷ taken)
    due_to m (h, e) = elim (ℕ_discrete m (q.heap 0)) [
      | yes here ↦ inl here
      | no ne ↦ inr ((rest.due m).1 ((r.takes m).1 (h, ne), same_back m false e))
    ]

    root_gone : In (q.heap 0) taken → ⊥
    root_gone i = ((r.takes (q.heap 0)).0 ((rest.due (q.heap 0)).0 i).0).1 refl

    waiting_from : (m : ℕ) → Holds after m → Holds q m × (before now (q.point m) ≡ true)
    waiting_from m h = let (k, e) = (rest.waiting m).0 h in (((r.takes m).0 k).0, same m true e)

    waiting_to : (m : ℕ) → Holds q m × (before now (q.point m) ≡ true) → Holds after m
    waiting_to m (h, e) = (rest.waiting m).1 ((r.takes m).1 (h, not_root e), same_back m true e)
      where
        not_root : before now (q.point m) ≡ true → m ≢ q.heap 0
        not_root e is = cc (e, ap (λ k. before now (q.point k)) is, due)

ready_loop-IsReady :
    (f : ℕ) (q : TimerQueue) (now : ℤ)
    → q.size ≤ f
    → IsValid q
    → IsReady q now (ready_loop f q now).0 (ready_loop f q now).1
ready_loop-IsReady zero q now h v =
    unfold ready_loop in IsReady-stop now v (λ m k. absurd (omega arith))
ready_loop-IsReady (suc f) q now h v = elim (ready_cases f q now) [
  | inl (z, e) ↦
      subst (λ (r : List ℕ × TimerQueue). IsReady q now r.0 r.1) (sym e)
        (IsReady-stop now v (λ m k. absurd (omega arith)))
  | inr (inl (later, e)) ↦
      subst (λ (r : List ℕ × TimerQueue). IsReady q now r.0 r.1) (sym e)
        (IsReady-stop now v (λ m k. before_mono now _ _ later (root_first v m k)))
  | inr (inr (some_in, due, e)) ↦
      let r = remove_takes v (q.heap 0) (root-Holds v some_in) in
      subst (λ (r : List ℕ × TimerQueue). IsReady q now r.0 r.1) (sym e)
        (IsReady-more now v some_in due
          (subst (λ b. Removed q (q.heap 0) b (remove q (q.heap 0)).1) r.success r)
          (ready_loop-IsReady f (remove q (q.heap 0)).1 now (omega (arith, r.shorter)) r.valid))
]

-- From a valid queue `get_ready_timers` returns exactly the timers that are due, each once and in the
-- order of their times, and leaves a valid queue of exactly the others; its loop always ends in time.
pub get_ready_timers-IsReady :
    {q : TimerQueue}
    → IsValid q
    → (now : ℤ) → IsReady q now (get_ready_timers q now).0 (get_ready_timers q now).1
unfolding get_ready_timers
get_ready_timers-IsReady {q} v now = ready_loop-IsReady q.size q now (omega arith) v
