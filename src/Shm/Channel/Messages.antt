-- ===== src/Shm/Channel/Messages.antt =====
-- What the calls of shm_channel.cpp promise about whole messages, and that a coroutine which was
-- woken in time gets on.
use simple.Prelude.{ℕ, ◌+◌, ◌≤◌, ◌<◌, Bool, true, false, ltb, leb, if◌then◌else◌}
use simple.Prelude.{List, [], ◌∷◌, ◌++◌, length, take, ◌≡◌, refl, sym, ap, subst, ◌∙◌, arith}
use simple.Prelude.{length-append, ◌≢◌, ◌⊎◌, take-append_le}
use simple.Prelude.{take-append_length, dec_lt, dec_le}
use simple.Shm.Buffer.{ShmBuffer, readable, writable, peek, read_len}
use simple.Shm.Buffer.Queue.{IsValid, contents, length-contents}
use simple.Shm.Buffer.Reading.{peek_lem, read_len-refines}
use simple.Shm.Channel.{ShmChannel, u32_bytes, u32_value}
use simple.Shm.Channel.{
  try_write, try_receive, read_round, read_body, write_round, ReadPhase, at_length, at_body,
}
use simple.Shm.Channel.{received, wait_writable, written}
use simple.Shm.Channel.Wire.{u32_max, frame, length-frame, send_lem, readable_front, peeked_length}
use simple.Shm.Channel.Wire.{peeked_count, peek_body, consumed, length-u32_bytes, u32_value-bytes}

module _ {b : ShmBuffer} (v : IsValid b) (msg rest : List ℕ) (small : length msg < u32_max)
    (front : contents b ≡ frame msg ++ rest) where
  pub receive_at :
      (has_buf : Bool) (size : ℕ)
      → try_receive b has_buf size ≡ (
          if has_buf
          then (if ltb size (length msg)
              then record { count = 0; copied = []; after = b }
              else record {
                count = length msg;
                copied = (peek b (length msg) 4).copied;
                after = read_len b (length msg + 4);
              })
          else record { count = length msg; copied = []; after = b })
  unfolding try_receive
  receive_at has_buf size = ground (
    arith,
    peeked_count v msg rest small front,
    peeked_length v msg rest small front,
    readable_front v msg rest small front,
  )

pub try_receive_empty :
    {b : ShmBuffer}
    → IsValid b
    → (has_buf : Bool) (size : ℕ) → contents b ≡ []
    → try_receive b has_buf size ≡ record { count = 0; copied = []; after = b }
unfolding try_receive
try_receive_empty {b} v has_buf size e =
    let none_there : readable b ≡ 0 = omega (arith, length-contents b, ap length e) in
    ground (arith, (peek_lem v 4 0).1, length-contents b)

-- A whole message in front is returned, with its length, into a buffer that is large enough, and
-- taken off the queue.
pub try_receive-front :
    {b : ShmBuffer}
    → IsValid b
    → (msg rest : List ℕ) (size : ℕ) → length msg < u32_max
    → contents b ≡ frame msg ++ rest
    → length msg ≤ size
    → ((try_receive b true size).count ≡ length msg)
      × ((try_receive b true size).copied ≡ msg)
      × IsValid (try_receive b true size).after
      × (contents (try_receive b true size).after ≡ rest)
try_receive-front {b} v msg rest size small front room =
    let e : try_receive b true size ≡ record {
      count = length msg;
      copied = (peek b (length msg) 4).copied;
      after = read_len b (length msg + 4);
    } =
      receive_at v msg rest small front true size ∙ ground arith in
    let s : length msg + 4 ≡ 4 + length msg = omega arith in
    (
      ap (λ r. r.count) e,
      ap (λ r. r.copied) e ∙ peek_body v msg rest small front,
      subst IsValid (sym (ap (λ r. r.after) e)) (read_len-refines v (length msg + 4)).0,
      ap (λ r. contents r.after) e
          ∙ ap (λ n. contents (read_len b n)) s
          ∙ consumed v msg rest small front,
    )

pub try_receive_small :
    {b : ShmBuffer}
    → IsValid b
    → (msg rest : List ℕ) (size stated : ℕ) → length msg < u32_max
    → contents b ≡ frame msg ++ rest
    → size < length msg
    → (try_receive b true size ≡ record { count = 0; copied = []; after = b })
      × (try_receive b false stated ≡ record { count = length msg; copied = []; after = b })
try_receive_small {b} v msg rest size stated small front short = (
  receive_at v msg rest small front true size ∙ ground arith,
  receive_at v msg rest small front false stated,
)

-- A message of which a part is still missing is neither returned nor touched.
pub try_receive_partial :
    {b : ShmBuffer}
    → IsValid b
    → (msg missing : List ℕ) (has_buf : Bool) (size : ℕ) → length msg < u32_max
    → missing ≢ []
    → contents b ++ missing ≡ frame msg
    → try_receive b has_buf size ≡ record { count = 0; copied = []; after = b }
unfolding try_receive
try_receive_partial {b} v msg [] has_buf size small some e = absurd (some refl)
try_receive_partial {b} v msg (c ∷ missing) has_buf size small some e =
    elim (dec_lt (readable b) 4) [
      | yes short ↦ ground (arith, (peek_lem v 4 0).1, length-contents b)
      | no enough ↦ ground (arith, (peek_lem v 4 0).1, length-contents b, header_value, shorter)
    ]
  where
    shorter : readable b + 1 + length missing ≡ 4 + length msg
    shorter = omega (
      arith,
      length-contents b,
      ap length e,
      length-append (contents b) (c ∷ missing),
      length-frame msg,
    )

    header_value : 4 ≤ readable b → u32_value (peek b 4 0).copied ≡ length msg
    header_value h =
        ap u32_value (
          (peek_lem v 4 0).0
          ∙ sym (take-append_le 4 (contents b) (c ∷ missing) (omega (arith, length-contents b)))
          ∙ ap (take 4) e
          ∙ ap (λ n. take n (frame msg)) (sym (length-u32_bytes (length msg)))
          ∙ take-append_length (u32_bytes (length msg)) msg)
        ∙ u32_value-bytes (length msg) small

-- `try_write` with room for the length and the message adds one frame behind the writer's queue;
-- without it it changes nothing. The reader's side is never touched.
pub try_write-refines :
    {c : ShmChannel}
    → IsValid c.writer
    → (buf : List ℕ)
    → IsValid (try_write c buf).1.writer
      × ((try_write c buf).1.reader ≡ c.reader)
      × ((try_write c buf).0 ≡ leb (length buf + 4) (writable c.writer))
      × (contents (try_write c buf).1.writer ≡ (
          if leb (length buf + 4) (writable c.writer)
          then contents c.writer ++ frame buf
          else contents c.writer))
unfolding try_write
try_write-refines {c} v buf = elim (dec_le (length buf + 4) (writable c.writer)) [
  | yes room ↦ ground (arith, send_lem v buf (omega arith))
  | no full ↦ ground arith
]

-- Once `wait` has seen the bytes that the coroutine asked for, the next round of `write` succeeds:
-- a round that waits asks for exactly the room that a round needs.
pub write_round-progress :
    (c c' : ShmChannel) (buf : List ℕ) (need : ℕ)
    → write_round c buf ≡ wait_writable need
    → need ≤ writable c'.writer
    → write_round c' buf ≡ written (try_write c' buf).1
unfolding write_round try_write
write_round-progress c c' buf need e h = ground arith

module _ (c : ShmChannel) (v : IsValid c.reader) (msg rest : List ℕ) (small : length msg < u32_max)
    (front : contents c.reader ≡ frame msg ++ rest) where
  read_body-front :
      read_body c (length msg)
      ≡ received msg (record c { reader = read_len c.reader (4 + length msg) })
  unfolding read_body
  read_body-front =
      ground (arith, readable_front v msg rest small front, peek_body v msg rest small front)

  read_length-front : read_round c at_length ≡ read_body c (length msg)
  unfolding read_round
  read_length-front =
      ground (arith, peeked_count v msg rest small front, peeked_length v msg rest small front)

-- A round of `read` that finds a whole message in front returns it, whether it starts afresh or
-- resumes before the body.
pub read_round-front :
    {c : ShmChannel}
    → IsValid c.reader
    → (msg rest : List ℕ) (phase : ReadPhase) → length msg < u32_max
    → contents c.reader ≡ frame msg ++ rest
    → (phase ≡ at_length) ⊎ (phase ≡ at_body (length msg))
    → read_round c phase ≡ received msg (record c { reader = read_len c.reader (4 + length msg) })
read_round-front {c} v msg rest at_length small front p =
    read_length-front c v msg rest small front ∙ read_body-front c v msg rest small front
read_round-front {c} v msg rest (at_body n) small front p =
    resumed n p ∙ read_body-front c v msg rest small front
  where
    resumed :
        (n : ℕ)
        → (at_body n ≡ at_length) ⊎ (at_body n ≡ at_body (length msg))
        → read_round c (at_body n) ≡ read_body c (length msg)
    resumed n p = unfold read_round in ground arith
