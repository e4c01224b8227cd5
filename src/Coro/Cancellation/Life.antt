-- ===== src/Coro/Cancellation/Life.antt =====
-- Registrations come and go, and then the cancellation is requested.
use simple.Prelude.{
  ℕ, ◌+◌, ◌≤◌, ◌<◌, ◌≡◌, ◌≢◌, refl, sym, ap, subst, ◌∙◌, true, false, List, [], ◌∷◌, arith, length,
}
use simple.Coro.Waiters.{elem, erase}
use simple.Coro.Waiters.Removal.{length-erase_le}
use simple.Coro.Cancellation.{
  Cancellation, new_cancellation, register_callback, can_be_cancelled, construct, destroy,
  request_cancellation, calls, call_registered,
}
use simple.Coro.Cancellation.Calls.{
  Keeps, IsCalled, new_cancellation-Keeps, construct-Keeps, destroy-Keeps, call_registered-IsCalled,
  destroy-is_cancelled,
}

pub data Life : Type 0 where
  begins : ℕ → Life
  ends : ℕ → Life

unfoldable pub live : Cancellation → List Life → Cancellation
live c [] = c
live c (begins a ∷ events) = live (construct c a) events
live c (ends a ∷ events) = live (destroy c a) events

-- The registrations that are alive, the latest first.
unfoldable pub alive : List ℕ → List Life → List ℕ
alive xs [] = xs
alive xs (begins a ∷ events) = alive (a ∷ xs) events
alive xs (ends a ∷ events) = alive (erase a xs) events

-- A new object has an address of its own, which is not null.
unfoldable pub IsFresh : List ℕ → List Life → Type 0
IsFresh xs [] = Unit
IsFresh xs (begins a ∷ events) = (a ≢ 0) × (elem a xs ≡ false) × IsFresh (a ∷ xs) events
IsFresh xs (ends a ∷ events) = IsFresh (erase a xs) events

record IsActive (c : Cancellation) (xs : List ℕ) : Type 0 where
  pub kept : Keeps c 0 xs
  pub active : c.is_cancelled ≡ false

construct-is_cancelled : (c : Cancellation) (a : ℕ) → (construct c a).is_cancelled ≡ c.is_cancelled
unfolding construct register_callback can_be_cancelled
construct-is_cancelled c a = ground arith

live-IsActive :
    (c : Cancellation) (xs : List ℕ) (events : List Life)
    → IsFresh xs events
    → IsActive c xs
    → IsActive (live c events) (alive xs events)
unfolding live alive IsFresh
live-IsActive c xs [] f k = k
live-IsActive c xs (begins a ∷ events) f k =
    live-IsActive (construct c a) (a ∷ xs) events f.2 (record {
      kept = construct-Keeps c 0 xs k.kept a refl f.0 f.1 k.active;
      active = construct-is_cancelled c a ∙ k.active;
    })
live-IsActive c xs (ends a ∷ events) f k =
    live-IsActive (destroy c a) (erase a xs) events f (record {
      kept = destroy-Keeps c 0 xs k.kept a;
      active = destroy-is_cancelled c a ∙ k.active;
    })

length-alive :
    (xs : List ℕ) (events : List Life) → length (alive xs events) ≤ length xs + length events
unfolding alive
length-alive xs [] = omega arith
length-alive xs (begins a ∷ events) = omega (arith, length-alive (a ∷ xs) events)
length-alive xs (ends a ∷ events) =
    omega (arith, length-alive (erase a xs) events, length-erase_le a xs)

with_request : Cancellation → Cancellation
with_request c = record c { is_cancelled = true }

request_active :
    (destroys : ℕ → List ℕ) (fuel : ℕ) (c : Cancellation)
    → c.is_cancelled ≡ false
    → request_cancellation destroys fuel c ≡ call_registered destroys fuel (with_request c)
unfolding request_cancellation with_request
request_active destroys fuel c e = ground (arith, e)

request_again :
    (destroys : ℕ → List ℕ) (fuel : ℕ) (c : Cancellation)
    → c.is_cancelled ≡ true
    → request_cancellation destroys fuel c ≡ (c, [])
unfolding request_cancellation
request_again destroys fuel c e = ground (arith, e)

with_request-Keeps : (c : Cancellation) (xs : List ℕ) → Keeps c 0 xs → Keeps (with_request c) 0 xs
unfolding with_request
with_request-Keeps c xs k = record {
  distinct = k.distinct;
  apart = k.apart;
  head_first = k.head_first;
  next_after = k.next_after;
  prev_before = k.prev_before;
  bound_elem = k.bound_elem;
}

new_cancellation-IsActive : IsActive new_cancellation []
unfolding new_cancellation
new_cancellation-IsActive = record { kept = new_cancellation-Keeps; active = refl }

live-IsCalled :
    (destroys : ℕ → List ℕ) (fuel : ℕ) (events : List Life)
    → IsFresh [] events
    → length events < fuel
    → IsCalled
        (request_cancellation destroys fuel (live new_cancellation events))
        (calls destroys fuel (alive [] events))
unfolding with_request
live-IsCalled destroys fuel events f l =
    subst (λ r. IsCalled r (calls destroys fuel (alive [] events)))
      (sym (request_active destroys fuel c lived.active))
      (call_registered-IsCalled destroys fuel 0 (with_request c) (alive [] events)
        (omega (arith, length-alive [] events)) (with_request-Keeps c (alive [] events) lived.kept)
        refl)
  where
    c : Cancellation
    c = live new_cancellation events

    lived : IsActive (live new_cancellation events) (alive [] events)
    lived = live-IsActive new_cancellation [] events f new_cancellation-IsActive

-- After registrations came and went, each at an address of its own that is not null, a request
-- with more fuel than these events calls the callbacks of those that are alive, the latest
-- first, but none that an earlier callback destroyed; then no registration is left or
-- bound, and a second request calls nothing.
pub request_cancellation-calls :
    (destroys : ℕ → List ℕ) (fuel : ℕ) (events : List Life)
    → IsFresh [] events
    → length events < fuel
    → let (c, called) = request_cancellation destroys fuel (live new_cancellation events) in
      (called ≡ calls destroys fuel (alive [] events))
      × (c.registrations ≡ 0)
      × ((i : ℕ) → c.bound i ≡ false)
      × ((request_cancellation destroys fuel c).1 ≡ [])
request_cancellation-calls destroys fuel events f l = (
  called_same,
  nothing_left,
  none_left,
  ap (λ r. r.1)
      (request_again destroys fuel
        (request_cancellation destroys fuel (live new_cancellation events)).0 stays_cancelled),
)
  where
    open live-IsCalled destroys fuel events f l use {
      called_same, nothing_left, none_left, stays_cancelled,
    }
