-- ===== src/Coro/Condition/Wakes.antt =====
-- A condition variable wakes up as a queue does.
use simple.Prelude.{
  ℕ, zero, suc, ◌+◌, ◌≤◌, ◌<◌, ◌≡◌, ◌≢◌, refl, sym, ap, ap₂, subst, ◌∙◌, Bool, true, false, List,
  [], ◌∷◌, if◌then◌else◌, arith, Bool-cases, inl, inr, All, length, length-append, length-drop,
}
use simple.Prelude.Memory.{update}
use simple.Coro.Waiters.{
  Waiters, Represents, no_waiters, elem, erase, first, after, before, remove_awaiter, IsDistinct,
}
use simple.Coro.Waiters.Order.{after_absent, before_absent, first-other}
use simple.Coro.Waiters.Removal.{erase_other, erase_first, length-erase_le}
use simple.Coro.Waiters.Refinement.{
  no_waiters-Represents, add_awaiter-Represents, remove_awaiter-Represents,
}
use simple.Coro.Condition.{
  has_awaiter, notify_one, notify_from, notify_all, on_cancelled, Signal, suspend, one, all,
  cancelled, react, serve, wakes, IsProper,
}

-- A null predecessor is that of the first.
before-elem : (b a : ℕ) (xs : List ℕ) → b ≢ 0 → IsDistinct xs → elem a xs ≡ true → before b xs a ≢ 0
before-elem b a [] n d m = ground arith
before-elem b a (x ∷ xs) n d m = ground (arith, before-elem x a xs d.0 d.2)

before-zero_first :
    (a : ℕ) (xs : List ℕ) → IsDistinct xs → elem a xs ≡ true → before 0 xs a ≡ 0 → first xs ≡ a
before-zero_first a [] d m z = ground arith
before-zero_first a (x ∷ xs) d m z = ground (arith, before-elem x a xs d.0 d.2)

-- The test finds exactly those that wait.
has_awaiter-elem :
    (w : Waiters) (queue : List ℕ) (a : ℕ)
    → Represents w queue
    → a ≢ 0
    → has_awaiter w a ≡ elem a queue
unfolding has_awaiter
has_awaiter-elem w queue a r n = elim (Bool-cases (elem a queue)) [
  | inl e ↦
      ground
        (arith, next_after a, prev_before a, header_first, before-zero_first a queue distinct e)
  | inr e ↦ ground (
    arith,
    next_after a,
    prev_before a,
    header_first,
    first-other a queue n e,
    after_absent queue a e,
    before_absent 0 queue a e,
  )
]
  where
    open r use {distinct, header_first, next_after, prev_before}

record IsCleared (w : Waiters) : Type 0 where
  pub no_next : (i : ℕ) → w.next i ≡ 0
  pub no_prev : (i : ℕ) → w.prev i ≡ 0

record Woken (result : Waiters × List ℕ) (xs : List ℕ) : Type 0 where
  pub woken_all : result.1 ≡ xs
  pub all_cleared : IsCleared result.0

cleared : Waiters → ℕ → Waiters
cleared w a = record w { next = update w.next a 0; prev = update w.prev a 0 }

notify_from_more :
    (fuel a : ℕ) (w : Waiters)
    → a ≢ 0
    → notify_from (suc fuel) w a
      ≡ (let (v, woken) = notify_from fuel (cleared w a) (w.next a) in (v, a ∷ woken))
unfolding notify_from cleared
notify_from_more fuel a w n = ground arith

notify_from_done : (fuel a : ℕ) (w : Waiters) → a ≡ 0 → notify_from (suc fuel) w a ≡ (w, [])
unfolding notify_from
notify_from_done fuel a w e = ground (arith, e)

after-first : (x : ℕ) (xs : List ℕ) → after (x ∷ xs) x ≡ first xs
after-first x xs = ground arith

notify_from-Woken :
    (fuel b a : ℕ) (w : Waiters) (xs : List ℕ)
    → a ≡ first xs
    → length xs < fuel
    → IsDistinct xs
    → ((i : ℕ) → w.next i ≡ after xs i)
    → ((i : ℕ) → w.prev i ≡ before b xs i)
    → Woken (notify_from fuel w a) xs
unfolding notify_from cleared
notify_from-Woken zero b a w xs e l d n p = absurd (omega arith)
notify_from-Woken (suc fuel) b a w [] e l d n p =
    subst (λ r. Woken r []) (sym (notify_from_done fuel a w e))
      (record { woken_all = refl; all_cleared = record { no_next = n; no_prev = p } })
notify_from-Woken (suc fuel) b a w (x ∷ xs) e l d n p =
    let rest : Woken (notify_from fuel (cleared w x) (w.next x)) xs =
      notify_from-Woken fuel x (w.next x) (cleared w x) xs (n x ∙ after-first x xs) (omega arith)
        d.2 (λ i. ground (arith, n i, after_absent xs x d.1))
        (λ i. ground (arith, p i, before_absent x xs x d.1)) in
    subst (λ y. Woken (notify_from (suc fuel) w y) (x ∷ xs)) (sym e)
      (subst (λ r. Woken r (x ∷ xs)) (sym (notify_from_more fuel x w d.0))
        (record { woken_all = ap (◌∷◌ x) rest.woken_all; all_cleared = rest.all_cleared }))

record Served (found : Waiters × List ℕ) (wanted : List ℕ × List ℕ) : Type 0 where
  pub woken_same : found.1 ≡ wanted.1
  pub represented : Represents found.0 wanted.0

module _ (w : Waiters) (queue : List ℕ) (r : Represents w queue) where
  open r use {distinct, header_first, next_after, prev_before}

  notify_all-Served : (fuel : ℕ) → length queue < fuel → Served (notify_all fuel w) ([], queue)
  unfolding notify_all
  notify_all-Served fuel l = record {
    woken_same = all_woken.woken_all;
    represented = record {
      distinct = tt;
      header_first = refl;
      tail_last = refl;
      next_after = all_woken.all_cleared.no_next;
      prev_before = all_woken.all_cleared.no_prev;
    };
  }
    where
      all_woken : Woken (notify_from fuel w w.header) queue
      all_woken =
          notify_from-Woken fuel 0 w.header w queue header_first l distinct next_after prev_before

  decided :
      (a : ℕ)
      → a ≢ 0
      → (t : Bool) → elem a queue ≡ t
      → Served
          (if t then (remove_awaiter w a, a ∷ []) else (w, []))
          (erase a queue, if t then a ∷ [] else [])
  decided a n true e = record {
    woken_same = refl;
    represented = remove_awaiter-Represents w queue a r n;
  }
  decided a n false e = record {
    woken_same = refl;
    represented = subst (Represents w) (sym (erase_other a queue e)) r;
  }

  on_cancelled-Served :
      (a : ℕ)
      → a ≢ 0
      → Served (on_cancelled w a) (erase a queue, if elem a queue then a ∷ [] else [])
  unfolding on_cancelled
  on_cancelled-Served a n =
      subst
        (λ t.
          Served (if t then (remove_awaiter w a, a ∷ []) else (w, []))
            (erase a queue, if elem a queue then a ∷ [] else []))
        (sym (has_awaiter-elem w queue a r n)) (decided a n (elem a queue) refl)

  notify_one_none : w.header ≡ 0 → notify_one w ≡ (w, [])
  unfolding notify_one
  notify_one_none e = ground (arith, e)

  notify_one_first : (x : ℕ) → w.header ≡ x → x ≢ 0 → notify_one w ≡ (remove_awaiter w x, x ∷ [])
  unfolding notify_one
  notify_one_first x e n = ground (arith, e)

notify_one-Served :
    (w : Waiters) (queue : List ℕ) → Represents w queue → Served (notify_one w) (serve queue one)
unfolding serve
notify_one-Served w [] r =
    subst (λ f. Served f ([], [])) (sym (notify_one_none w [] r r.header_first))
      (record { woken_same = refl; represented = r })
notify_one-Served w (x ∷ queue) r =
    subst (λ f. Served f (queue, x ∷ []))
      (sym (notify_one_first w (x ∷ queue) r x r.header_first r.distinct.0))
      (record {
        woken_same = refl;
        represented =
            subst (Represents (remove_awaiter w x)) (erase_first x queue)
              (remove_awaiter-Represents w (x ∷ queue) x r r.distinct.0);
      })

react-serve :
    (fuel : ℕ) (w : Waiters) (queue : List ℕ) (c : Signal)
    → length queue < fuel
    → IsProper c
    → Represents w queue
    → Served (react fuel w c) (serve queue c)
unfolding react IsProper serve
react-serve fuel w queue one l p r = notify_one-Served w queue r
react-serve fuel w queue (suspend a) l p r = record {
  woken_same = refl;
  represented = add_awaiter-Represents w queue a r p;
}
react-serve fuel w queue all l p r = notify_all-Served w queue r fuel l
react-serve fuel w queue (cancelled a) l p r = on_cancelled-Served w queue r a p

length-serve : (queue : List ℕ) (c : Signal) → length (serve queue c).0 ≤ length queue + 1
unfolding serve
length-serve queue (suspend a) = ground (arith, length-append queue (a ∷ []))
length-serve queue one = omega (arith, length-drop 1 queue)
length-serve queue all = omega arith
length-serve queue (cancelled a) = omega (arith, length-erase_le a queue)

Represents-wakes :
    (fuel : ℕ) (w : Waiters) (queue : List ℕ) (calls : List Signal)
    → length queue + length calls ≤ fuel
    → All IsProper calls
    → Represents w queue
    → wakes (react fuel) w calls ≡ wakes serve queue calls
unfolding wakes
Represents-wakes fuel w queue [] l p r = refl
Represents-wakes fuel w queue (c ∷ cs) l p r =
    let served : Served (react fuel w c) (serve queue c) =
      react-serve fuel w queue c (omega arith) p.0 r in
    ap₂ ◌∷◌ served.woken_same (
      Represents-wakes fuel (react fuel w c).0 (serve queue c).0 cs
        (omega (arith, length-serve queue c)) p.1 served.represented)

-- On any sequence of waits, notifications and cancellations of awaiters that are not null, with
-- at least as much fuel as calls, each call wakes up whom it does on a first-in first-out queue:
-- notify_one the first, notify_all everybody in order, a cancellation the one that still waits.
pub react-wakes :
    (fuel : ℕ) (calls : List Signal)
    → length calls ≤ fuel
    → All IsProper calls
    → wakes (react fuel) no_waiters calls ≡ wakes serve [] calls
react-wakes fuel calls l p =
    Represents-wakes fuel no_waiters [] calls (omega arith) p no_waiters-Represents
