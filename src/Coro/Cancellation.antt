-- ===== src/Coro/Cancellation.antt =====
-- Cancellation: cancellation_state and cancellation_registration of
-- runtime/src/coro/cancellation_state.cpp and cancellation_registration.cpp. A registration is
-- its address, and 0 is the null pointer.
use simple.Prelude.{
  ℕ, zero, suc, ◌≡◌, ◌≢◌, Bool, true, false, not, ◌||◌, List, [], ◌∷◌, ◌==◌, if◌then◌else◌,
}
use simple.Prelude.Memory.{Memory, update}
use simple.Coro.Waiters.{elem, erase}
pub mod Calls
pub mod Life

-- state_ and registrations_; next_ and prev_ of every registration, and whether its state_ is
-- set.
pub record Cancellation : Type 0 where
  pub is_cancelled : Bool
  pub registrations : ℕ
  pub next : Memory
  pub prev : Memory
  pub bound : ℕ → Bool

unfoldable pub new_cancellation : Cancellation
new_cancellation = record {
  is_cancelled = false;
  registrations = 0;
  next = λ i. 0;
  prev = λ i. 0;
  bound = λ i. false;
}

abbrev pub bind : (ℕ → Bool) → ℕ → Bool → ℕ → Bool
bind f a b = λ i. if a == i then b else f i

unfoldable pub can_be_cancelled : Cancellation → Bool
can_be_cancelled c = not c.is_cancelled

unfoldable pub register_callback : Cancellation → ℕ → Cancellation
register_callback c a =
    if not (can_be_cancelled c)
    then c
    else if not (c.prev a == 0) || (a == c.registrations)
    then c
    else let prev = update c.prev a 0 in
      record c {
        next = update c.next a c.registrations;
        prev = if c.registrations == 0 then prev else update prev c.registrations a;
        registrations = a;
      }

unfoldable pub deregister_callback : Cancellation → ℕ → Cancellation
deregister_callback c a =
    let after = c.next a in
    let before = c.prev a in
    let next = if before == 0 then c.next else update c.next before after in
    let prev = if after == 0 then c.prev else update c.prev after before in
    record c {
      registrations = if c.registrations == a then after else c.registrations;
      next = update next a 0;
      prev = update prev a 0;
    }

-- The constructor of a registration at the address a, with a token of this state.
unfoldable pub construct : Cancellation → ℕ → Cancellation
construct c a =
    let new = record c {
      next = update c.next a 0;
      prev = update c.prev a 0;
      bound = bind c.bound a false;
    } in
    if can_be_cancelled new
    then register_callback (record new { bound = bind new.bound a true }) a
    else new

-- The destructor.
unfoldable pub destroy : Cancellation → ℕ → Cancellation
destroy c a =
    if c.bound a then record (deregister_callback c a) { bound = bind c.bound a false } else c

unfoldable pub destroy_each : Cancellation → List ℕ → Cancellation
destroy_each c [] = c
destroy_each c (a ∷ rest) = destroy_each (destroy c a) rest

-- The loop of request_cancellation, and the registrations whose callbacks it calls. The
-- callback of r destroys the registrations `destroys r`.
unfoldable pub call_registered : (ℕ → List ℕ) → ℕ → Cancellation → Cancellation × List ℕ
call_registered destroys zero c = (c, [])
call_registered destroys (suc fuel) c =
    let r = c.registrations in
    let popped = record c {
      registrations = c.next r;
      next = update c.next r 0;
      prev = update c.prev r 0;
      bound = bind c.bound r false;
    } in
    let (d, called) = call_registered destroys fuel (destroy_each popped (destroys r)) in
    if r == 0 then (c, []) else (d, r ∷ called)

unfoldable pub request_cancellation : (ℕ → List ℕ) → ℕ → Cancellation → Cancellation × List ℕ
request_cancellation destroys fuel c =
    if c.is_cancelled
    then (c, [])
    else call_registered destroys fuel (record c { is_cancelled = true })

-- The callbacks of the registrations that are left, the latest first.
unfoldable pub erase_each : List ℕ → List ℕ → List ℕ
erase_each [] xs = xs
erase_each (a ∷ rest) xs = erase_each rest (erase a xs)

unfoldable pub calls : (ℕ → List ℕ) → ℕ → List ℕ → List ℕ
calls destroys zero xs = []
calls destroys (suc fuel) [] = []
calls destroys (suc fuel) (x ∷ xs) = x ∷ calls destroys fuel (erase_each (destroys x) xs)
