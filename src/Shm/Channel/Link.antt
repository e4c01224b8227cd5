-- ===== src/Shm/Channel/Link.antt =====
-- One ring shared by two processes: the one that calls `try_write` and the one that calls
-- `try_read`, shm_channel.cpp. Between the writer's three stores the reader may run, any number of
-- times. Each process's accesses to the counters are taken as atomic and in program order.
use simple.Prelude.{
  ℕ, ◌+◌, ◌≤◌, ◌<◌, true, List, [], ◌∷◌, ◌++◌, length, ◌≡◌, refl, sym, ap, ◌∙◌, subst, arith,
}
use simple.Prelude.{
  append_assoc, append-nil, All, ap₂, Bool, Bool-cases, inl, inr, not, ◌==◌, if◌then◌else◌, min,
  length-drop, false, ltb, dec_le,
}
use simple.Shm.Channel.Messages.{receive_at, try_receive_empty, try_receive_small}
use simple.Shm.Channel.Wire.{readable_front, peek_body, consumed}
use native.Mathlib.Nat.{add_comm}
use simple.Shm.Buffer.{size_max, create}
use simple.Shm.Buffer.Queue.{create-IsValid, create-contents}
use simple.Prelude.{All-append}
use simple.Shm.Buffer.Reading.{read_len-refines}
use simple.Shm.Buffer.{ShmBuffer, readable, writable, read_len}
use simple.Shm.Buffer.Queue.{IsValid, contents, length-contents, writable_lem}
use simple.Shm.Buffer.Writing.{staged}
use simple.Shm.Channel.{u32_bytes, store_length, store_body, publish, try_receive}
use simple.Shm.Channel.Wire.{
  u32_max, frame, frames, frames-append, store_length_lem, store_body_lem, publish_lem,
}

-- Where the writer stands in `try_write`.
pub data WriterState : Type 0 where
  idle : WriterState
  length_stored : List ℕ → WriterState
  body_stored : List ℕ → WriterState

-- `sent` and `got` are the histories of the two sides.
pub record Link : Type 0 where
  pub ring : ShmBuffer
  pub writer : WriterState
  pub sent : List (List ℕ)
  pub got : List (List ℕ)

-- The reader has a message exactly when `try_read` moved the ring's read counter.
took : ShmBuffer → ℕ → Bool
took b size = not ((try_receive b true size).after.read_total == b.read_total)

unfoldable pub reader_step : Link → ℕ → Link
unfolding took
reader_step l size =
    let r = try_receive l.ring true size in
    record l { ring = r.after; got = if took l.ring size then l.got ++ (r.copied ∷ []) else l.got }

-- One store of the writer, or one call of `try_read` with a buffer of `size` bytes.
pub data Step : Link → Link → Type 0 where
  begin :
      (l : Link) (buf : List ℕ)
      → l.writer ≡ idle
      → length buf < u32_max
      → 4 + length buf ≤ writable l.ring
      → Step l (record l { ring = store_length l.ring (length buf); writer = length_stored buf })
  fill_body :
      (l : Link) (buf : List ℕ)
      → l.writer ≡ length_stored buf
      → Step l (record l { ring = store_body l.ring buf; writer = body_stored buf })
  finish :
      (l : Link) (buf : List ℕ)
      → l.writer ≡ body_stored buf
      → Step l (record l {
        ring = publish l.ring (length buf);
        writer = idle;
        sent = l.sent ++ (buf ∷ []);
      })
  receive : (l : Link) (size : ℕ) → Step l (reader_step l size)

pub data Reach (s : Link) : Link → Type 0 where
  here : Reach s s
  next : {t u : Link} → Reach s t → Step t u → Reach s u

-- What the writer has stored behind the queue, and the room that it has checked.
abbrev pub Staged : WriterState → ShmBuffer → Type 0
Staged idle b = Unit {0}
Staged (length_stored buf) b =
    (length buf < u32_max) × (4 + length buf ≤ writable b) × (staged b 4 ≡ u32_bytes (length buf))
Staged (body_stored buf) b =
    (length buf < u32_max) × (4 + length buf ≤ writable b) × (staged b (4 + length buf) ≡ frame buf)

pub record LinkInv (l : Link) : Type 0 where
  pub valid : IsValid l.ring
  pub pending : List (List ℕ)
  pub small : All (λ m. length m < u32_max) pending
  pub queued : contents l.ring ≡ frames pending
  pub history : l.sent ≡ l.got ++ pending
  pub stage : Staged l.writer l.ring

read_len-staged : (b : ShmBuffer) (n k : ℕ) → staged (read_len b n) k ≡ staged b k
unfolding read_len staged
read_len-staged b n k = elim (Bool-cases (min n (readable b) == 0)) [ inl e ↦ rw e | inr e ↦ rw e ]

read_len-size : (b : ShmBuffer) (n : ℕ) → (read_len b n).size ≡ b.size
unfolding read_len
read_len-size b n = elim (Bool-cases (min n (readable b) == 0)) [ inl e ↦ rw e | inr e ↦ rw e ]

-- Reading never takes room from the writer.
read_len-writable : {b : ShmBuffer} → IsValid b → (n : ℕ) → writable b ≤ writable (read_len b n)
read_len-writable {b} v n =
    let (rv, rc) = read_len-refines v n in
    omega (
      arith,
      writable_lem v,
      writable_lem rv,
      length-contents b,
      length-contents (read_len b n),
      ap length rc,
      length-drop n (contents b),
      read_len-size b n,
    )

read_len-Staged :
    {b : ShmBuffer} (w : WriterState) → IsValid b → (n : ℕ) → Staged w b → Staged w (read_len b n)
read_len-Staged idle v n s = tt
read_len-Staged {b} (length_stored buf) v n (h, r, e) =
    (h, omega (arith, read_len-writable v n), read_len-staged b n 4 ∙ e)
read_len-Staged {b} (body_stored buf) v n (h, r, e) =
    (h, omega (arith, read_len-writable v n), read_len-staged b n (4 + length buf) ∙ e)

-- The read counter moves exactly when bytes are dropped.
moved :
    {b : ShmBuffer}
    → IsValid b
    → (n : ℕ) → 0 < n
    → n ≤ readable b
    → ((read_len b n).read_total == b.read_total) ≡ false
unfolding read_len
moved {b} v n p h = ground arith

reader_step_nothing :
    (l : Link) (size : ℕ)
    → try_receive l.ring true size ≡ record { count = 0; copied = []; after = l.ring }
    → reader_step l size ≡ l
unfolding reader_step
reader_step_nothing l size e = rw e (ap (λ g. record l { got = g }) (same l.ring.read_total))
  where
    same : (n : ℕ) → (if not (n == n) then l.got ++ ([] ∷ []) else l.got) ≡ l.got
    same n = ground arith

reader_step_message :
    (l : Link) (size : ℕ)
    → IsValid l.ring
    → (msg rest : List ℕ) → length msg < u32_max
    → contents l.ring ≡ frame msg ++ rest
    → length msg ≤ size
    → reader_step l size
      ≡ record l { ring = read_len l.ring (length msg + 4); got = l.got ++ (msg ∷ []) }
unfolding reader_step
reader_step_message l size v msg rest small front room =
    let e = receive_at v msg rest small front true size in
    let m =
      moved v (length msg + 4) (omega arith)
        (omega (arith, readable_front v msg rest small front)) in
    let body = peek_body v msg rest small front in
    let fits : ltb size (length msg) ≡ false = ground arith in
    rw (e, fits, m)
      (ap (λ c. record l { ring = read_len l.ring (length msg + 4); got = l.got ++ (c ∷ []) }) body)

receive_pending :
    (l : Link) (size : ℕ) (v : IsValid l.ring) (pending : List (List ℕ))
    → All (λ m. length m < u32_max) pending
    → contents l.ring ≡ frames pending
    → l.sent ≡ l.got ++ pending
    → Staged l.writer l.ring
    → LinkInv (reader_step l size)
receive_pending l size v [] small queued history stage =
    subst LinkInv (sym (reader_step_nothing l size (try_receive_empty v true size queued)))
      (record {
        valid = v;
        pending = [];
        small = small;
        queued = queued;
        history = history;
        stage = stage;
      })
receive_pending l size v (m ∷ ms) small queued history stage = elim (dec_le (length m) size) [
  | yes room ↦
      subst LinkInv (sym (reader_step_message l size v m (frames ms) small.0 queued room)) (record {
        valid = (read_len-refines v (length m + 4)).0;
        pending = ms;
        small = small.1;
        queued =
            ap (λ n. contents (read_len l.ring n)) (add_comm (length m) 4)
            ∙ consumed v m (frames ms) small.0 queued;
        history = history ∙ sym (append_assoc l.got (m ∷ []) ms);
        stage = read_len-Staged l.writer v (length m + 4) stage;
      })
  | no short ↦
      subst LinkInv
        (sym (
          reader_step_nothing l size
            (try_receive_small v m (frames ms) size size small.0 queued (omega arith)).0))
        (record {
          valid = v;
          pending = m ∷ ms;
          small = small;
          queued = queued;
          history = history;
          stage = stage;
        })
]

-- Every step of either side keeps the invariant.
Step-LinkInv : {l l' : Link} → Step l l' → LinkInv l → LinkInv l'
Step-LinkInv (receive l size) i =
    receive_pending l size i.valid i.pending i.small i.queued i.history i.stage
Step-LinkInv (begin l buf at small room) i =
    let (sv, sc, sw, ss) = store_length_lem i.valid (length buf) (omega arith) in
    record {
      valid = sv;
      pending = i.pending;
      small = i.small;
      queued = sc ∙ i.queued;
      history = i.history;
      stage = (small, omega (arith, sw), ss);
    }
Step-LinkInv (fill_body l buf at) i =
    let (small, room, staged_length) = subst (λ w. Staged w l.ring) at i.stage in
    let (sv, sc, sw, ss) = store_body_lem i.valid buf room in
    record {
      valid = sv;
      pending = i.pending;
      small = i.small;
      queued = sc ∙ i.queued;
      history = i.history;
      stage = (small, omega (arith, sw), ss ∙ ap (λ s. s ++ buf) staged_length);
    }
Step-LinkInv (finish l buf at) i =
    let (small, room, staged_frame) = subst (λ w. Staged w l.ring) at i.stage in
    let (pv, pc) = publish_lem i.valid (length buf) room in
    record {
      valid = pv;
      pending = i.pending ++ (buf ∷ []);
      small = All-append (λ m. length m < u32_max) i.pending (buf ∷ []) i.small (small, tt);
      queued =
          pc
          ∙ ap₂ ◌++◌ i.queued (staged_frame ∙ sym (append-nil (frame buf)))
          ∙ sym (frames-append i.pending (buf ∷ []));
      history = ap (λ s. s ++ (buf ∷ [])) i.history ∙ append_assoc l.got i.pending (buf ∷ []);
      stage = tt;
    }

abbrev pub fresh : ℕ → Link
fresh size = record { ring = create size; writer = idle; sent = []; got = [] }

fresh-LinkInv : (size : ℕ) → 0 < size → size < size_max → LinkInv (fresh size)
fresh-LinkInv size h k = record {
  valid = create-IsValid size h k;
  pending = [];
  small = tt;
  queued = create-contents size;
  history = refl;
  stage = tt;
}

Reach-LinkInv : {s l : Link} → LinkInv s → Reach s l → LinkInv l
Reach-LinkInv i here = i
Reach-LinkInv i (next r st) = Step-LinkInv st (Reach-LinkInv i r)

-- However the writer's stores and the reader's calls interleave on a new ring, the messages that
-- were sent are those that were received followed by those that wait, in order, and the bytes in
-- the ring are exactly the frames of the waiting ones: none is lost, doubled, torn or reordered.
pub link_fifo :
    {size : ℕ} {l : Link}
    → 0 < size
    → size < size_max
    → Reach (fresh size) l
    → (pending : List (List ℕ)) × (l.sent ≡ l.got ++ pending) × (contents l.ring ≡ frames pending)
link_fifo {size} h k r =
    let i = Reach-LinkInv (fresh-LinkInv size h k) r in (i.pending, i.history, i.queued)
