-- ===== src/Shm/Tests.antt =====
-- Runs of the ring buffer and the channel, and the theorems at concrete inputs.
use simple.Prelude.{
  ℕ, ◌≤◌, ◌<◌, ◌+◌, ◌⊎◌, ◌≡◌, refl, true, false, arith, List, [], ◌∷◌, ◌++◌, take, drop, length,
  min, inl, leb, if◌then◌else◌, ◌-◌,
}
use simple.Prelude.Memory.{store}
use simple.Shm.Circular.{window, next, advance}
use simple.Shm.Buffer.{
  ShmBuffer, create, readable, writable, write, read, read_len, fill, peek, write_impl, start,
  finish, copy_in,
}
use simple.Shm.Buffer.Queue.{IsValid, contents, create-IsValid, push}
use simple.Shm.Buffer.Reading.{read-refines, read_len-refines, peek_lem}
use simple.Shm.Buffer.Writing.{staged, fill-refines, write-refines}
use simple.Shm.Channel.{
  ShmChannel, try_write, try_receive, u32_bytes, store_length, store_body, publish,
}
use simple.Shm.Channel.{write_round, written, read_round, received, at_length}
use simple.Shm.Channel.Wire.{frame, frames}
use simple.Shm.Channel.Messages.{
  try_receive-front, try_receive_partial, try_write-refines, write_round-progress, read_round-front,
}
use simple.Shm.Channel.Link.{
  Link, fresh, Reach, here, next as then_step, begin, fill_body, finish as finish_step, receive,
  reader_step, link_fifo, idle, length_stored, body_stored,
}

-- Six bytes in, four out: the next write runs past the end of the eight.
abbrev used : ShmBuffer
used = read_len (write (create 8) (1 ∷ 2 ∷ 3 ∷ 4 ∷ 5 ∷ 6 ∷ [])).1 4

used-IsValid : IsValid used
used-IsValid =
    (read_len-refines
      (write-refines (create-IsValid 8 (omega arith) (omega arith)) (1 ∷ 2 ∷ 3 ∷ 4 ∷ 5 ∷ 6 ∷ [])).0
      4).0

used-contents : contents used ≡ 5 ∷ 6 ∷ []
unfolding contents window next advance create readable writable write read_len write_impl start
    finish copy_in store
used-contents = refl

wraps : contents (write used (7 ∷ 8 ∷ 9 ∷ [])).1 ≡ 5 ∷ 6 ∷ 7 ∷ 8 ∷ 9 ∷ []
unfolding contents window next advance create readable writable write read_len write_impl start
    finish copy_in store
wraps = refl

used-writable : writable used ≡ 6
unfolding create readable writable write read_len write_impl start finish copy_in store
used-writable = refl

write-refines_example :
    IsValid (write used (7 ∷ 8 ∷ 9 ∷ [])).1
    × (((write used (7 ∷ 8 ∷ 9 ∷ [])).0, contents (write used (7 ∷ 8 ∷ 9 ∷ [])).1)
        ≡ push used.size (contents used) (7 ∷ 8 ∷ 9 ∷ []))
write-refines_example = write-refines used-IsValid (7 ∷ 8 ∷ 9 ∷ [])

read-refines_example :
    IsValid (read used 1).after
    × ((read used 1).copied ≡ take 1 (contents used))
    × ((read used 1).count ≡ min 1 (length (contents used)))
    × (contents (read used 1).after ≡ drop 1 (contents used))
read-refines_example = read-refines used-IsValid 1

peek_lem_example :
    ((peek used 1 1).copied ≡ take 1 (drop 1 (contents used)))
    × ((peek used 1 1).count ≡ min 1 (length (contents used) - 1))
peek_lem_example = peek_lem used-IsValid 1 1

fill-refines_example :
    ((2 < writable used)
      × (2 + 2 ≤ writable used)
      × ((fill used (7 ∷ 8 ∷ []) 2).0 ≡ true)
      × IsValid (fill used (7 ∷ 8 ∷ []) 2).1
      × (contents (fill used (7 ∷ 8 ∷ []) 2).1 ≡ contents used)
      × (writable (fill used (7 ∷ 8 ∷ []) 2).1 ≡ writable used)
      × (staged (fill used (7 ∷ 8 ∷ []) 2).1 4 ≡ staged used 2 ++ (7 ∷ 8 ∷ [])))
    ⊎ (((writable used ≤ 2) ⊎ (writable used < 2 + 2)) × (fill used (7 ∷ 8 ∷ []) 2 ≡ (false, used)))
fill-refines_example = fill-refines used-IsValid (7 ∷ 8 ∷ []) 2

-- A channel whose reader's ring holds one message and the length of a second.
abbrev inbox : ShmBuffer
inbox = (write (create 16) (frame (7 ∷ 8 ∷ 9 ∷ []) ++ u32_bytes 5)).1

inbox-IsValid : IsValid inbox
inbox-IsValid =
    (write-refines (create-IsValid 16 (omega arith) (omega arith))
      (frame (7 ∷ 8 ∷ 9 ∷ []) ++ u32_bytes 5)).0

inbox_front : contents inbox ≡ frame (7 ∷ 8 ∷ 9 ∷ []) ++ u32_bytes 5
unfolding contents window next advance create readable writable write read_len write_impl start
    finish copy_in store u32_bytes
inbox_front = refl

try_receive-front_example :
    ((try_receive inbox true 3).count ≡ 3)
    × ((try_receive inbox true 3).copied ≡ 7 ∷ 8 ∷ 9 ∷ [])
    × IsValid (try_receive inbox true 3).after
    × (contents (try_receive inbox true 3).after ≡ u32_bytes 5)
try_receive-front_example =
    try_receive-front inbox-IsValid (7 ∷ 8 ∷ 9 ∷ []) (u32_bytes 5) 3 (omega arith) inbox_front
      (omega arith)

-- The second message has lost its front, and waits for its body.
abbrev half : ShmBuffer
half = (write (create 16) (u32_bytes 5 ++ (1 ∷ 2 ∷ []))).1

half-IsValid : IsValid half
half-IsValid =
    (write-refines (create-IsValid 16 (omega arith) (omega arith)) (u32_bytes 5 ++ (1 ∷ 2 ∷ []))).0

half-contents : contents half ++ (3 ∷ 4 ∷ 5 ∷ []) ≡ frame (1 ∷ 2 ∷ 3 ∷ 4 ∷ 5 ∷ [])
unfolding contents window next advance create readable writable write read_len write_impl start
    finish copy_in store u32_bytes
half-contents = refl

try_receive_partial_example :
    try_receive half true 9 ≡ record { count = 0; copied = []; after = half }
try_receive_partial_example =
    try_receive_partial half-IsValid (1 ∷ 2 ∷ 3 ∷ 4 ∷ 5 ∷ []) (3 ∷ 4 ∷ 5 ∷ []) true 9 (omega arith)
      (λ e. cc) half-contents

abbrev channel : ShmChannel
channel = record { writer = used; reader = inbox }

try_write-refines_example :
    IsValid (try_write channel (7 ∷ [])).1.writer
    × ((try_write channel (7 ∷ [])).1.reader ≡ inbox)
    × ((try_write channel (7 ∷ [])).0 ≡ leb 5 (writable used))
    × (contents (try_write channel (7 ∷ [])).1.writer
        ≡ (if leb 5 (writable used) then contents used ++ frame (7 ∷ []) else contents used))
try_write-refines_example = try_write-refines {c = channel} used-IsValid (7 ∷ [])

write_round-progress_example :
    write_round (record channel { writer = create 8 }) (1 ∷ 2 ∷ 3 ∷ 4 ∷ [])
    ≡ written (try_write (record channel { writer = create 8 }) (1 ∷ 2 ∷ 3 ∷ 4 ∷ [])).1
unfolding create readable writable write read_len write_impl start finish copy_in store write_round
    try_write
write_round-progress_example =
    write_round-progress channel (record channel { writer = create 8 }) (1 ∷ 2 ∷ 3 ∷ 4 ∷ []) 8 refl
      (omega arith)

read_round-front_example :
    read_round channel at_length
    ≡ received (7 ∷ 8 ∷ 9 ∷ []) (record channel { reader = read_len inbox 7 })
read_round-front_example =
    read_round-front {c = channel} inbox-IsValid (7 ∷ 8 ∷ 9 ∷ []) (u32_bytes 5) at_length
      (omega arith) inbox_front (inl refl)

-- The reader runs between the writer's stores, and once more after the message is published.
abbrev begun : Link
begun = record (fresh 8) { ring = store_length (create 8) 1; writer = length_stored (5 ∷ []) }

abbrev peeked : Link
peeked = reader_step begun 9

abbrev stored : Link
stored = record peeked { ring = store_body peeked.ring (5 ∷ []); writer = body_stored (5 ∷ []) }

abbrev ended : Link
ended = record stored {
  ring = publish stored.ring 1;
  writer = idle;
  sent = stored.sent ++ ((5 ∷ []) ∷ []);
}

room_for_one : 5 ≤ writable (create 8)
unfolding create writable
room_for_one = omega arith

ended-Reach : Reach (fresh 8) (reader_step ended 9)
unfolding reader_step
ended-Reach =
    then_step
      (then_step
        (then_step
          (then_step (then_step here (begin (fresh 8) (5 ∷ []) refl (omega arith) room_for_one))
            (receive begun 9))
          (fill_body peeked (5 ∷ []) refl))
        (finish_step stored (5 ∷ []) refl))
      (receive ended 9)

link_fifo_example :
    (pending : List (List ℕ)) × ((reader_step ended 9).sent ≡ (reader_step ended 9).got ++ pending)
    × (contents (reader_step ended 9).ring ≡ frames pending)
link_fifo_example = link_fifo (omega arith) (omega arith) ended-Reach
