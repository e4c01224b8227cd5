-- ===== src/Prelude/Memory.antt =====
-- Raw memory: what memcpy and memmove do to it.
use Prim.Native.Nat.{ℕ, zero, suc, ◌+◌, ◌≤◌, ◌<◌}
use mathlib.Core.Path.{◌≡◌, refl, ap, ◌∙◌}
use mathlib.Core.List.{List, [], ◌∷◌}
use mathlib.Core.Logic.{◌⊎◌, inl}
use native.Mathlib.Omega.{arith}
use simple.Prelude.Tests.{◌==◌, if◌then◌else◌}
use simple.Prelude.Lists.{length}

abbrev pub Memory : Type 0
Memory = ℕ → ℕ

abbrev pub update : Memory → ℕ → ℕ → Memory
update m a b = λ i. if a == i then b else m i

-- memcpy(dest, m + a, n): the n bytes from a on.
unfoldable pub load : Memory → ℕ → ℕ → List ℕ
load m a zero = []
load m a (suc n) = m a ∷ load m (suc a) n

-- memcpy(m + a, bs, length bs)
unfoldable pub store : Memory → ℕ → List ℕ → Memory
store m a [] = m
store m a (b ∷ bs) = store (update m a b) (suc a) bs

pub length-load : (m : Memory) (a n : ℕ) → length (load m a n) ≡ n
unfolding load
length-load m a zero = refl
length-load m a (suc n) = ap suc (length-load m (suc a) n)

pub store_outside :
    (m : Memory) (a : ℕ) (bs : List ℕ) (i : ℕ)
    → (i < a) ⊎ (a + length bs ≤ i)
    → store m a bs i ≡ m i
unfolding store
store_outside m a [] i h = refl
store_outside m a (b ∷ bs) i h =
    store_outside (update m a b) (suc a) bs i (ground arith) ∙ ground arith

pub load-store : (m : Memory) (a : ℕ) (bs : List ℕ) → load (store m a bs) a (length bs) ≡ bs
unfolding load store
load-store m a [] = refl
load-store m a (b ∷ bs) = ground (
  arith,
  load-store (update m a b) (suc a) bs,
  store_outside (update m a b) (suc a) bs a (inl (omega arith)),
)

pub load-store_outside :
    (m : Memory) (a : ℕ) (bs : List ℕ) (i n : ℕ)
    → (i + n ≤ a) ⊎ (a + length bs ≤ i)
    → load (store m a bs) i n ≡ load m i n
unfolding load
load-store_outside m a bs i zero h = refl
load-store_outside m a bs i (suc n) h =
    ground (arith, load-store_outside m a bs (suc i) n, store_outside m a bs i)
