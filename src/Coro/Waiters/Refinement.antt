-- ===== src/Coro/Waiters/Refinement.antt =====
-- The pointers of a waiting list carry out the operations of a queue: an awaiter is added
-- once, at the end, and leaves from any place.
use simple.Prelude.{
  ℕ, ◌≡◌, ◌≢◌, refl, sym, ap, subst, true, false, ◌||◌, List, [], ◌∷◌, ◌++◌, ◌==◌, if◌then◌else◌,
  arith, Bool-cases, inl, inr,
}
use simple.Coro.Waiters.{
  Waiters, Represents, no_waiters, add_awaiter, append_awaiter, remove_awaiter, elem, erase, first,
  after, before, IsDistinct,
}
use simple.Coro.Waiters.Order.{
  after_absent, before_absent, elem-zero, append-IsDistinct, last-append, after-append,
  before-append, after-last, first-other, last-other,
}
use simple.Coro.Waiters.Removal.{
  erase-IsDistinct, erase-absent, erase_other, first-erase, after-erase, before-erase, last-erase,
}

pub no_waiters-Represents : Represents no_waiters []
unfolding no_waiters
no_waiters-Represents = record {
  distinct = tt;
  header_first = refl;
  tail_last = refl;
  next_after = λ i. refl;
  prev_before = λ i. refl;
}

first-append :
    (a : ℕ) (xs : List ℕ)
    → IsDistinct xs
    → first (xs ++ a ∷ []) ≡ (if first xs == 0 then a else first xs)
first-append a [] d = refl
first-append a (x ∷ xs) d = ground (arith, d.0)

-- Null has nobody beside it.
after-zero : (xs : List ℕ) → IsDistinct xs → after xs 0 ≡ 0
after-zero xs d = after_absent xs 0 (elem-zero xs d)

before-zero : (xs : List ℕ) → IsDistinct xs → before 0 xs 0 ≡ 0
before-zero xs d = before_absent 0 xs 0 (elem-zero xs d)

module _ (w : Waiters) (queue : List ℕ) (a : ℕ) (r : Represents w queue) (some_a : a ≢ 0) where
  open r use {distinct, header_first, tail_last, next_after, prev_before}

  -- An awaiter that does not wait goes to the end.
  append_awaiter-Represents :
      elem a queue ≡ false → Represents (append_awaiter w a) (queue ++ a ∷ [])
  unfolding append_awaiter
  append_awaiter-Represents absent = record {
    distinct = append-IsDistinct a queue some_a absent distinct;
    header_first = ground (arith, header_first, first-append a queue distinct);
    tail_last = sym (last-append 0 a queue);
    next_after = λ i. elim (Bool-cases (i == 0)) [
      | inl e ↦ ground (
        arith,
        after-zero (queue ++ a ∷ []) (append-IsDistinct a queue some_a absent distinct),
        after-zero queue distinct,
        next_after i,
      )
      | inr e ↦ ground (
        arith,
        next_after i,
        tail_last,
        after-append 0 a i queue distinct absent,
        after_absent queue a absent,
      )
    ];
    prev_before = λ i. ground (arith, prev_before i, tail_last, before-append 0 a i queue absent);
  }

  -- One that waits already stays where it is.
  add_awaiter_waiting : elem a queue ≡ true → add_awaiter w a ≡ w
  unfolding add_awaiter
  add_awaiter_waiting waits =
      ground (arith, next_after a, tail_last, after-last 0 a queue distinct waits)

  add_awaiter_new : elem a queue ≡ false → add_awaiter w a ≡ append_awaiter w a
  unfolding add_awaiter
  add_awaiter_new absent = ground (
    arith,
    next_after a,
    prev_before a,
    header_first,
    tail_last,
    after_absent queue a absent,
    before_absent 0 queue a absent,
    first-other a queue some_a absent,
    last-other 0 a queue some_a absent,
  )

  remove_awaiter_waiting : elem a queue ≡ true → Represents (remove_awaiter w a) (erase a queue)
  unfolding remove_awaiter
  remove_awaiter_waiting waits = record {
    distinct = erase-IsDistinct a queue distinct;
    header_first = ground (arith, header_first, next_after a, first-erase a queue);
    tail_last = ground (
      arith,
      tail_last,
      prev_before a,
      last-erase 0 a queue distinct (elem-zero queue distinct) waits some_a,
    );
    next_after = λ i. elim (Bool-cases ((i == a) || (i == 0))) [
      | inl e ↦ ground (
        arith,
        next_after i,
        after-zero (erase a queue) (erase-IsDistinct a queue distinct),
        after-zero queue distinct,
        after_absent (erase a queue) a (erase-absent a queue distinct),
      )
      | inr e ↦ ground (
        arith,
        next_after i,
        next_after a,
        prev_before a,
        after-erase 0 a i queue distinct (elem-zero queue distinct) waits,
      )
    ];
    prev_before = λ i. elim (Bool-cases ((i == a) || (i == 0))) [
      | inl e ↦ ground (
        arith,
        prev_before i,
        before-zero (erase a queue) (erase-IsDistinct a queue distinct),
        before-zero queue distinct,
        before_absent 0 (erase a queue) a (erase-absent a queue distinct),
      )
      | inr e ↦
          ground
            (arith, prev_before i, prev_before a, next_after a, before-erase 0 a i queue distinct)
    ];
  }

  remove_awaiter_absent : elem a queue ≡ false → Represents (remove_awaiter w a) queue
  unfolding remove_awaiter
  remove_awaiter_absent absent = record {
    distinct = distinct;
    header_first = ground (
      arith,
      header_first,
      next_after a,
      first-other a queue some_a absent,
      after_absent queue a,
    );
    tail_last = ground (arith, tail_last, prev_before a, last-other 0 a queue some_a absent);
    next_after = λ i.
        ground (arith, next_after i, prev_before a, after_absent queue a, before_absent 0 queue a);
    prev_before = λ i.
        ground (arith, prev_before i, next_after a, after_absent queue a, before_absent 0 queue a);
  }

  -- An awaiter is added at the end of the queue, unless it waits already.
  pub add_awaiter-Represents :
      Represents (add_awaiter w a) (if elem a queue then queue else queue ++ a ∷ [])
  add_awaiter-Represents = elim (Bool-cases (elem a queue)) [
    | inl e ↦
        subst (Represents (add_awaiter w a))
          (sym (ap (λ t. if t then queue else queue ++ a ∷ []) e))
          (subst (λ v. Represents v queue) (sym (add_awaiter_waiting e)) r)
    | inr e ↦
        subst (Represents (add_awaiter w a))
          (sym (ap (λ t. if t then queue else queue ++ a ∷ []) e))
          (subst (λ v. Represents v (queue ++ a ∷ [])) (sym (add_awaiter_new e))
            (append_awaiter-Represents e))
  ]

  -- One that is removed leaves the queue from any place; one that does not wait changes nothing.
  pub remove_awaiter-Represents : Represents (remove_awaiter w a) (erase a queue)
  remove_awaiter-Represents = elim (Bool-cases (elem a queue)) [
    | inl e ↦ remove_awaiter_waiting e
    | inr e ↦
        subst (Represents (remove_awaiter w a)) (sym (erase_other a queue e))
          (remove_awaiter_absent e)
  ]
