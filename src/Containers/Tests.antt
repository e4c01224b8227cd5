-- ===== src/Containers/Tests.antt =====
-- Runs of the containers, and the theorems at concrete inputs.
use simple.Prelude.{◌++◌, drop, true}
use simple.Containers.Buffer.{MemoryBuffer, append, skip, shrink, prepend}
use simple.Containers.Buffer.Contents.{
  IsBuffer, unread, append-unread, skip-unread, shrink-unread, prepend-unread,
}
use simple.Prelude.{ℕ, zero, suc, ◌+◌, ◌≡◌, refl, arith, [], ◌∷◌, ◌↔◌, ◌⊎◌}
use simple.Prelude.Int.{ℤ, pos, negsuc, before}
use simple.Containers.TimerQueue.{
  TimerQueue, npos, swap_heap, up_loop, up_heap, min_child, down_loop, down_heap, drop_last, repair,
  remove, append_timer, enqueue, ready_loop, get_ready_timers,
}
use simple.Containers.TimerQueue.Contents.{Holds}
use simple.Containers.TimerQueue.Update.{IsValid, enqueue_adds}
use simple.Containers.TimerQueue.Removal.{Removed, remove_takes}
use simple.Containers.TimerQueue.Ready.{IsReady, get_ready_timers-IsReady}

-- Timer 0 is due at 30, timer 1 at 10, timer 2 before the epoch, and the others at 20.
abbrev times : ℕ → ℤ
times zero = pos 30
times (suc zero) = pos 10
times (suc (suc zero)) = negsuc 4
times _ = pos 20

abbrev no_timers : TimerQueue
no_timers = record { size = 0; heap = λ i. 0; index = λ n. npos; point = times }

no_timers-IsValid : IsValid no_timers
no_timers-IsValid = record {
  placed = record { at = λ i h. absurd (omega arith) };
  ordered = λ i h k. absurd (omega arith);
  small = omega arith;
}

abbrev two_timers : TimerQueue
two_timers = enqueue (enqueue no_timers 0) 1

two_timers-IsValid : IsValid two_timers
unfolding enqueue before up_heap up_loop append_timer swap_heap
two_timers-IsValid =
    (enqueue_adds (enqueue_adds no_timers-IsValid 0 (omega arith) (omega arith)).0 1 (omega arith)
      (omega arith)).0

enqueue_adds_example :
    IsValid (enqueue two_timers 2)
    × ((enqueue two_timers 2).size ≡ two_timers.size + 1)
    × ((m : ℕ) → (Holds (enqueue two_timers 2) m ↔ (Holds two_timers m ⊎ (m ≡ 2))))
unfolding enqueue before up_heap up_loop append_timer swap_heap
enqueue_adds_example = enqueue_adds two_timers-IsValid 2 (omega arith) (omega arith)

abbrev three_timers : TimerQueue
three_timers = enqueue two_timers 2

-- The timer before the epoch counts as due at the epoch, and comes first.
ready_at_15 : (get_ready_timers three_timers (pos 15)).0 ≡ 2 ∷ 1 ∷ []
unfolding enqueue before up_heap up_loop append_timer swap_heap get_ready_timers ready_loop remove
    repair drop_last down_heap down_loop min_child
ready_at_15 = refl

three_timers-IsValid : IsValid three_timers
unfolding enqueue before up_heap up_loop append_timer swap_heap
three_timers-IsValid = (enqueue_adds two_timers-IsValid 2 (omega arith) (omega arith)).0

three_timers_hold : Holds three_timers 1
unfolding enqueue before up_heap up_loop append_timer swap_heap
three_timers_hold = (omega arith, refl)

remove_takes_example : Removed three_timers 1 (remove three_timers 1).0 (remove three_timers 1).1
remove_takes_example = remove_takes three_timers-IsValid 1 three_timers_hold

get_ready_timers-IsReady_example :
    IsReady three_timers
      (pos 15)
      (get_ready_timers three_timers (pos 15)).0
      (get_ready_timers three_timers (pos 15)).1
get_ready_timers-IsReady_example = get_ready_timers-IsReady three_timers-IsValid (pos 15)

-- A buffer of eight bytes, of which the third to the sixth are to be read.
abbrev four_bytes : MemoryBuffer
four_bytes = record { bytes = λ i. i; capacity = 8; read_at = 2; write_at = 6 }

four_bytes-IsBuffer : IsBuffer four_bytes
four_bytes-IsBuffer = record { read_le = omega arith; write_le = omega arith }

append-unread_example :
    IsBuffer (append (λ i. 0) four_bytes (7 ∷ 8 ∷ 9 ∷ []))
    × (unread (append (λ i. 0) four_bytes (7 ∷ 8 ∷ 9 ∷ [])) ≡ unread four_bytes ++ (7 ∷ 8 ∷ 9 ∷ []))
append-unread_example =
    append-unread (λ i. 0) four_bytes (7 ∷ 8 ∷ 9 ∷ []) four_bytes-IsBuffer (omega arith)

skip-unread_example :
    IsBuffer (skip four_bytes 3) × (unread (skip four_bytes 3) ≡ drop 3 (unread four_bytes))
skip-unread_example = skip-unread four_bytes 3 four_bytes-IsBuffer

shrink-unread_example :
    IsBuffer (shrink four_bytes)
    × (((shrink four_bytes).read_at ≡ 0) × (unread (shrink four_bytes) ≡ unread four_bytes))
shrink-unread_example = shrink-unread four_bytes four_bytes-IsBuffer

prepend-unread_example :
    ((prepend four_bytes (7 ∷ [])).0 ≡ true)
    × (IsBuffer (prepend four_bytes (7 ∷ [])).1
        × (unread (prepend four_bytes (7 ∷ [])).1 ≡ (7 ∷ []) ++ unread four_bytes))
prepend-unread_example = prepend-unread four_bytes (7 ∷ []) four_bytes-IsBuffer (omega arith)
