-- ===== src/Coro/Cancellation/Calls.antt =====
-- A cancelled token calls each callback that is registered once, the latest first.
use simple.Prelude.{
  ℕ, zero, suc, ◌≤◌, ◌<◌, ◌≡◌, ◌≢◌, refl, sym, ap, subst, ◌∙◌, Bool, true, false, List, [], ◌∷◌,
  if◌then◌else◌, arith, length,
}
use simple.Prelude.Memory.{update}
use simple.Coro.Waiters.{elem, erase, first, after, before, IsDistinct}
use simple.Coro.Waiters.Order.{elem-zero, first-other}
use simple.Coro.Waiters.Removal.{
  erase_other, length-erase_le, elem-erase, erase-IsDistinct, erase-absent, first-erase,
  after-erase, before-erase, before_other, before_at_first, elem-other,
}
use simple.Coro.Cancellation.{
  Cancellation, new_cancellation, bind, can_be_cancelled, register_callback, deregister_callback,
  construct, destroy, destroy_each, call_registered, erase_each, calls,
}

-- The registrations that are alive and wait for the cancellation. The first still points back to
-- the one called last, b.
pub record Keeps (c : Cancellation) (b : ℕ) (xs : List ℕ) : Type 0 where
  pub distinct : IsDistinct xs
  pub apart : elem b xs ≡ false
  pub head_first : c.registrations ≡ first xs
  pub next_after : (i : ℕ) → elem i xs ≡ true → c.next i ≡ after xs i
  pub prev_before : (i : ℕ) → elem i xs ≡ true → c.prev i ≡ before b xs i
  pub bound_elem : (i : ℕ) → c.bound i ≡ elem i xs

pub new_cancellation-Keeps : Keeps new_cancellation 0 []
unfolding new_cancellation
new_cancellation-Keeps = record {
  distinct = tt;
  apart = refl;
  head_first = refl;
  next_after = λ i m. ground arith;
  prev_before = λ i m. ground arith;
  bound_elem = λ i. refl;
}

elem-erase_other : (a i : ℕ) (xs : List ℕ) → i ≢ a → elem i (erase a xs) ≡ elem i xs
elem-erase_other a i [] n = refl
elem-erase_other a i (x ∷ xs) n = ground (arith, elem-erase_other a i xs)

elem-erase_only :
    (a i : ℕ) (xs : List ℕ)
    → IsDistinct xs
    → elem i (erase a xs) ≡ true
    → (elem i xs ≡ true) × (i ≢ a) × (i ≢ 0)
elem-erase_only a i xs d h = (
  ground (arith, elem-erase a i xs),
  elem-other i a (erase a xs) h (erase-absent a xs d),
  elem-other i 0 (erase a xs) h (elem-zero (erase a xs) (erase-IsDistinct a xs d)),
)

-- The first is a member, if it is not null.
elem-first : (xs : List ℕ) → first xs ≢ 0 → elem (first xs) xs ≡ true
elem-first [] n = ground arith
elem-first (x ∷ xs) n = ground arith

deregister : Cancellation → ℕ → Cancellation
deregister c a = record (deregister_callback c a) { bound = bind c.bound a false }

module _ (c : Cancellation) (b : ℕ) (xs : List ℕ) (k : Keeps c b xs) where
  open k use {distinct, apart, head_first, next_after, prev_before, bound_elem}

  deregister-Keeps : (a : ℕ) → elem a xs ≡ true → Keeps (deregister c a) b (erase a xs)
  unfolding deregister deregister_callback
  deregister-Keeps a m = record {
    distinct = erase-IsDistinct a xs distinct;
    apart = elem-erase a b xs apart;
    head_first = ground (arith, head_first, next_after a m, first-erase a xs);
    next_after = λ i h.
        let o = elem-erase_only a i xs distinct h in
        ground (
          arith,
          next_after i o.0,
          next_after a m,
          prev_before a m,
          o.1,
          o.2,
          after-erase b a i xs distinct apart m o.1 (elem-other i b xs o.0 apart),
        );
    prev_before = λ i h.
        let o = elem-erase_only a i xs distinct h in
        ground (
          arith,
          prev_before i o.0,
          next_after a m,
          prev_before a m,
          o.1,
          o.2,
          before-erase b a i xs distinct o.1 o.2,
        );
    bound_elem =
        λ i. ground (arith, bound_elem i, elem-erase_other a i xs, erase-absent a xs distinct);
  }

  pub destroy-Keeps : (a : ℕ) → Keeps (destroy c a) b (erase a xs)
  unfolding destroy deregister
  destroy-Keeps a =
      subst
        (λ t.
          Keeps (if t then record (deregister_callback c a) { bound = bind c.bound a false } else c)
            b (erase a xs))
        (sym (bound_elem a)) (decided (elem a xs) refl)
    where
      decided :
          (t : Bool)
          → elem a xs ≡ t
          → Keeps
              (if t then record (deregister_callback c a) { bound = bind c.bound a false } else c)
              b
              (erase a xs)
      decided true e = deregister-Keeps a e
      decided false e = subst (Keeps c b) (sym (erase_other a xs e)) k

  -- A fresh registration comes to the front.
  pub construct-Keeps :
      (a : ℕ)
      → b ≡ 0
      → a ≢ 0
      → elem a xs ≡ false
      → c.is_cancelled ≡ false
      → Keeps (construct c a) 0 (a ∷ xs)
  unfolding construct register_callback can_be_cancelled
  construct-Keeps a z n absent active = record {
    distinct = (n, absent, distinct);
    apart = ground (arith, n, elem-zero xs distinct);
    head_first = ground (arith, active, head_first, other);
    next_after = λ i h. ground (arith, active, head_first, other, next_after i, h);
    prev_before = λ i h. ground (
      arith,
      active,
      head_first,
      other,
      prev_before i,
      h,
      z,
      before_other a b i xs,
      before_at_first a i xs,
      elem-first xs,
      elem-zero xs distinct,
    );
    bound_elem = λ i. ground (arith, active, head_first, other, bound_elem i);
  }
    where
      other : first xs ≢ a
      other = first-other a xs n absent

destroy_each-Keeps :
    (c : Cancellation) (b : ℕ) (xs rest : List ℕ)
    → Keeps c b xs
    → Keeps (destroy_each c rest) b (erase_each rest xs)
unfolding destroy_each erase_each
destroy_each-Keeps c b xs [] k = k
destroy_each-Keeps c b xs (a ∷ rest) k =
    destroy_each-Keeps (destroy c a) b (erase a xs) rest (destroy-Keeps c b xs k a)

length-erase_each : (xs rest : List ℕ) → length (erase_each rest xs) ≤ length xs
unfolding erase_each
length-erase_each xs [] = omega arith
length-erase_each xs (a ∷ rest) =
    omega (arith, length-erase_each (erase a xs) rest, length-erase_le a xs)

pub record IsCalled (result : Cancellation × List ℕ) (called : List ℕ) : Type 0 where
  pub called_same : result.1 ≡ called
  pub none_left : (i : ℕ) → result.0.bound i ≡ false
  pub nothing_left : result.0.registrations ≡ 0
  pub stays_cancelled : result.0.is_cancelled ≡ true

popped : Cancellation → ℕ → Cancellation
popped c r = record c {
  registrations = c.next r;
  next = update c.next r 0;
  prev = update c.prev r 0;
  bound = bind c.bound r false;
}

popped-Keeps :
    (c : Cancellation) (b x : ℕ) (xs : List ℕ) → Keeps c b (x ∷ xs) → Keeps (popped c x) x xs
unfolding popped
popped-Keeps c b x xs k = record {
  distinct = k.distinct.2;
  apart = k.distinct.1;
  head_first = ground (arith, k.next_after x);
  next_after = λ i h. ground (arith, k.next_after i, h, k.distinct.1, elem-other i x xs h);
  prev_before = λ i h. ground (arith, k.prev_before i, h, k.distinct.1, elem-other i x xs h);
  bound_elem = λ i. ground (arith, k.bound_elem i, k.distinct.1);
}

pub destroy-is_cancelled : (c : Cancellation) (a : ℕ) → (destroy c a).is_cancelled ≡ c.is_cancelled
unfolding destroy deregister_callback
destroy-is_cancelled c a = ground arith

destroy_each-is_cancelled :
    (c : Cancellation) (rest : List ℕ) → (destroy_each c rest).is_cancelled ≡ c.is_cancelled
unfolding destroy_each
destroy_each-is_cancelled c [] = refl
destroy_each-is_cancelled c (a ∷ rest) =
    destroy_each-is_cancelled (destroy c a) rest ∙ destroy-is_cancelled c a

module _ (destroys : ℕ → List ℕ) where
  called_then : ℕ → Cancellation → ℕ → Cancellation × List ℕ
  called_then fuel c r =
      let (d, called) = call_registered destroys fuel (destroy_each (popped c r) (destroys r)) in
      (d, r ∷ called)

  call_registered_more :
      (fuel : ℕ) (c : Cancellation)
      → c.registrations ≢ 0
      → call_registered destroys (suc fuel) c ≡ called_then fuel c c.registrations
  unfolding call_registered popped called_then
  call_registered_more fuel c n = ground arith

  call_registered_done :
      (fuel : ℕ) (c : Cancellation)
      → c.registrations ≡ 0
      → call_registered destroys (suc fuel) c ≡ (c, [])
  unfolding call_registered
  call_registered_done fuel c e = ground (arith, e)

  pub call_registered-IsCalled :
      (fuel b : ℕ) (c : Cancellation) (xs : List ℕ)
      → length xs < fuel
      → Keeps c b xs
      → c.is_cancelled ≡ true
      → IsCalled (call_registered destroys fuel c) (calls destroys fuel xs)
  unfolding calls called_then popped
  call_registered-IsCalled zero b c xs l k e = absurd (omega arith)
  call_registered-IsCalled (suc fuel) b c [] l k e =
      subst (λ r. IsCalled r []) (sym (call_registered_done fuel c k.head_first))
        (record {
          called_same = refl;
          none_left = k.bound_elem;
          nothing_left = k.head_first;
          stays_cancelled = e;
        })
  call_registered-IsCalled (suc fuel) b c (x ∷ xs) l k e =
      let others : Cancellation = destroy_each (popped c x) (destroys x) in
      let rest : IsCalled (call_registered destroys fuel others)
          (calls destroys fuel (erase_each (destroys x) xs)) =
        call_registered-IsCalled fuel x others (erase_each (destroys x) xs)
          (omega (arith, length-erase_each xs (destroys x)))
          (destroy_each-Keeps (popped c x) x xs (destroys x) (popped-Keeps c b x xs k))
          (destroy_each-is_cancelled (popped c x) (destroys x) ∙ e) in
      subst (λ r. IsCalled r (x ∷ calls destroys fuel (erase_each (destroys x) xs)))
        (sym (
          call_registered_more fuel c (subst (λ r. r ≢ 0) (sym k.head_first) k.distinct.0)
          ∙ ap (called_then fuel c) k.head_first))
        (record {
          called_same = ap (◌∷◌ x) rest.called_same;
          none_left = rest.none_left;
          nothing_left = rest.nothing_left;
          stays_cancelled = rest.stays_cancelled;
        })
