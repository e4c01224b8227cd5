-- ===== src/Web/Websocket/Messages.antt =====
-- Messages, whole or in pieces, written by one side and read by the other.
use simple.Prelude.{
  ℕ, zero, suc, ◌+◌, ◌^◌, ◌<◌, ◌≤◌, ◌≡◌, refl, ap, subst, ◌∙◌, arith, true, false, not, ltb, leb,
  ◌==◌, ◌||◌, Bool-cases, inl, inr, List, [], ◌++◌, length, length-append, take, drop, length-take,
  length-drop, All-take, All-drop, take-append-drop, All, if◌then◌else◌, append_assoc, some,
}
use simple.Web.Websocket.{
  WebsocketType, no_opcode, is_websocket_control, write_frame, write_message, split_loop,
  write_split, received, equal, Frame, read_frame, read_loop, read_message,
}
use simple.Web.Websocket.Frames.{peer, IsKey, read_frame-write_frame, length-write_frame}

-- A turn of the loop on the last frame of a message.
last_turn :
    (f : ℕ) (tp : WebsocketType) (last : ℕ) (buf input : List ℕ) (frame : Frame)
    → read_frame tp last input ≡ received frame
    → frame.fin ≡ true
    → read_loop (suc f) tp last buf input
      ≡ received
          ((if frame.opcode == 0 then last else frame.opcode), (buf ++ frame.payload, frame.rest))
unfolding read_loop
last_turn f tp last buf input frame e fin = rw (e, fin)

-- A turn of the loop on another frame.
next_turn :
    (f : ℕ) (tp : WebsocketType) (last : ℕ) (buf input : List ℕ) (frame : Frame)
    → read_frame tp last input ≡ received frame
    → frame.fin ≡ false
    → read_loop (suc f) tp last buf input
      ≡ read_loop f tp
          (if frame.opcode == 0 then last else frame.opcode)
          (buf ++ frame.payload)
          frame.rest
unfolding read_loop
next_turn f tp last buf input frame e fin = rw (e, fin)

-- The end of a message, with enough rounds.
pub last_piece :
    (f : ℕ) (tp : WebsocketType) (last : ℕ) (key : List ℕ) (op : ℕ) (buf text tail : List ℕ)
    → op < 16
    → IsKey key
    → All (λ x. x < 256) text
    → length text < 2 ^ 64
    → (if is_websocket_control op then not true else equal (op == 0) (last == no_opcode)) ≡ false
    → length (write_frame tp key op true text ++ tail) ≤ f
    → read_loop f (peer tp) last buf (write_frame tp key op true text ++ tail)
      ≡ received ((if op == 0 then last else op), (buf ++ text, tail))
last_piece zero tp last key op buf text tail ho hk ht hl fits enough = absurd (
    omega (
      arith,
      length-append (write_frame tp key op true text) tail,
      length-write_frame tp key op true text hl,
    ))
last_piece (suc f) tp last key op buf text tail ho hk ht hl fits enough =
    last_turn f (peer tp) last buf _
      (record { fin = true; opcode = op; payload = text; rest = tail })
      (read_frame-write_frame tp last key op true text tail ho hk ht hl fits) refl

-- Another piece, with enough rounds, leaves a round fewer.
pub next_piece :
    (f : ℕ) (tp : WebsocketType) (last : ℕ) (key : List ℕ) (op : ℕ) (buf text tail : List ℕ)
    → op < 16
    → IsKey key
    → All (λ x. x < 256) text
    → length text < 2 ^ 64
    → (if is_websocket_control op then not false else equal (op == 0) (last == no_opcode)) ≡ false
    → length (write_frame tp key op false text ++ tail) ≤ f
    → (g : ℕ) × ((length tail ≤ g)
        × (read_loop f (peer tp) last buf (write_frame tp key op false text ++ tail)
            ≡ read_loop g (peer tp) (if op == 0 then last else op) (buf ++ text) tail))
next_piece zero tp last key op buf text tail ho hk ht hl fits enough = absurd (
    omega (
      arith,
      length-append (write_frame tp key op false text) tail,
      length-write_frame tp key op false text hl,
    ))
next_piece (suc f) tp last key op buf text tail ho hk ht hl fits enough = (
  f,
  (
    omega (
      arith,
      length-append (write_frame tp key op false text) tail,
      length-write_frame tp key op false text hl,
    ),
    next_turn f (peer tp) last buf _
        (record { fin = false; opcode = op; payload = text; rest = tail })
        (read_frame-write_frame tp last key op false text tail ho hk ht hl fits) refl,
  ),
)

whole_fits :
    (op : ℕ)
    → (op == 0) ≡ false
    → (if is_websocket_control op then false else equal (op == 0) (no_opcode == no_opcode)) ≡ false
whole_fits op h = elim (Bool-cases (is_websocket_control op)) [ inl e ↦ rw (e) | inr e ↦ rw (e, h) ]

-- A message in one frame is read whole by the other side.
pub read-write_message :
    (tp : WebsocketType) (key : List ℕ) (op : ℕ) (text tail : List ℕ)
    → op < 16
    → (op == 0) ≡ false
    → IsKey key
    → All (λ x. x < 256) text
    → length text < 2 ^ 64
    → read_message (peer tp) (write_message tp key op text ++ tail) ≡ received (op, (text, tail))
unfolding read_message write_message
read-write_message tp key op text tail ho h0 hk ht hl =
    last_piece (length (write_frame tp key op true text ++ tail)) tp no_opcode key op [] text tail
      ho hk ht hl (whole_fits op h0) (omega arith)
    ∙ ap (λ b. received ((if b then no_opcode else op), (text, tail))) h0

module _ (tp : WebsocketType) (keys : ℕ → List ℕ) (good : (n : ℕ) → IsKey (keys n))
    (payload_max : ℕ) (positive : 0 < payload_max) where
  -- `bytes` ends a message that began with `last`, for a reader that has enough rounds.
  EndsMessage : ℕ → List ℕ → List ℕ → List ℕ → Type 0
  EndsMessage last text tail bytes =
      (f : ℕ) (buf : List ℕ)
      → length (bytes ++ tail) ≤ f
      → read_loop f (peer tp) last buf (bytes ++ tail) ≡ received (last, (buf ++ text, tail))

  -- A piece in front of frames that end the message.
  prepend :
      (n last : ℕ) (text tail bytes : List ℕ)
      → (last == no_opcode) ≡ false
      → All (λ x. x < 256) text
      → length text < 2 ^ 64
      → EndsMessage last (drop payload_max text) tail bytes
      → EndsMessage last text tail
          (write_frame tp (keys n) 0 false (take payload_max text) ++ bytes)
  unfolding EndsMessage is_websocket_control
  prepend n last text tail bytes hl ht hs ends f buf h =
      ap (read_loop f (peer tp) last buf) flat
      ∙ step.1.1
      ∙ ends step.0 (buf ++ front) step.1.0
      ∙ ap (λ t. received (last, (t, tail)))
          (append_assoc buf front (drop payload_max text)
            ∙ ap (◌++◌ buf) (take-append-drop payload_max text))
    where
      front : List ℕ
      front = take payload_max text

      wire : List ℕ
      wire = write_frame tp (keys n) 0 false front

      flat : (wire ++ bytes) ++ tail ≡ wire ++ (bytes ++ tail)
      flat = append_assoc wire bytes tail

      step :
          (g : ℕ) × ((length (bytes ++ tail) ≤ g)
            × (read_loop f (peer tp) last buf (wire ++ (bytes ++ tail))
                ≡ read_loop g (peer tp) last (buf ++ front) (bytes ++ tail)))
      step =
          next_piece f tp last (keys n) 0 buf front (bytes ++ tail) (omega arith) (good n)
            (All-take (λ x. x < 256) payload_max text ht)
            (omega (arith, length-take payload_max text)) (rw (hl))
            (subst (λ t. length t ≤ f) flat h)

  -- The loop of the second write ends, and its frames end the message.
  continued :
      (fuel n last : ℕ) (text tail : List ℕ)
      → (last == no_opcode) ≡ false
      → All (λ x. x < 256) text
      → length text < 2 ^ 64
      → length text + 1 ≤ fuel
      → (bytes : List ℕ) × ((split_loop fuel tp keys n payload_max text ≡ some bytes)
          × EndsMessage last text tail bytes)
  unfolding split_loop is_websocket_control EndsMessage
  continued zero n last text tail hl ht hs enough = absurd (omega arith)
  continued (suc fuel) n last text tail hl ht hs enough =
      elim (Bool-cases (ltb payload_max (length text))) [
        | inl e ↦
            let rest =
              continued fuel (suc n) last (drop payload_max text) tail hl
                (All-drop (λ x. x < 256) payload_max text ht)
                (omega (arith, length-drop payload_max text))
                (ground (arith, length-drop payload_max text)) in
            (
              write_frame tp (keys n) 0 false (take payload_max text) ++ rest.0,
              (rw (e, rest.1.0), prepend n last text tail rest.0 hl ht hs rest.1.1),
            )
        | inr e ↦ (
          write_frame tp (keys n) 0 true text,
          (
            rw (e),
            λ f buf h.
                last_piece f tp last (keys n) 0 buf text tail (omega arith) (good n) ht hs (rw (hl))
                  h,
          ),
        )
      ]

  -- The first piece in front of frames that end the message.
  begun :
      (op : ℕ) (text tail bytes : List ℕ)
      → op < 16
      → (op == 0) ≡ false
      → is_websocket_control op ≡ false
      → All (λ x. x < 256) text
      → length text < 2 ^ 64
      → EndsMessage op (drop payload_max text) tail bytes
      → read_message
          (peer tp)
          ((write_frame tp (keys 0) op false (take payload_max text) ++ bytes) ++ tail)
        ≡ received (op, (text, tail))
  unfolding EndsMessage read_message
  begun op text tail bytes ho h0 hc ht hs ends =
      ap (read_loop (length ((wire ++ bytes) ++ tail)) (peer tp) no_opcode []) flat
      ∙ step.1.1
      ∙ ap (λ b. read_loop step.0 (peer tp) (if b then no_opcode else op) front (bytes ++ tail)) h0
      ∙ ends step.0 front step.1.0
      ∙ ap (λ t. received (op, (t, tail))) (take-append-drop payload_max text)
    where
      front : List ℕ
      front = take payload_max text

      wire : List ℕ
      wire = write_frame tp (keys 0) op false front

      flat : (wire ++ bytes) ++ tail ≡ wire ++ (bytes ++ tail)
      flat = append_assoc wire bytes tail

      step :
          (g : ℕ) × ((length (bytes ++ tail) ≤ g)
            × (read_loop
                  (length ((wire ++ bytes) ++ tail))
                  (peer tp)
                  no_opcode
                  []
                  (wire ++ (bytes ++ tail))
                ≡ read_loop g (peer tp) (if op == 0 then no_opcode else op) front (bytes ++ tail)))
      step =
          next_piece (length ((wire ++ bytes) ++ tail)) tp no_opcode (keys 0) op [] front
            (bytes ++ tail) ho (good 0) (All-take (λ x. x < 256) payload_max text ht)
            (omega (arith, length-take payload_max text)) (rw (hc, h0))
            (subst (λ t. length t ≤ length ((wire ++ bytes) ++ tail)) flat (omega arith))

  -- With keys of four bytes and a positive payload_max the second write of fewer than 2 ^ 64 bytes,
  -- under an opcode below 16 that is not continuation, ends within one round more than there are
  -- bytes, and the other side reads the same opcode and bytes, with the bytes behind left.
  pub read-write_split :
      (op : ℕ) (text tail : List ℕ)
      → op < 16
      → (op == 0) ≡ false
      → All (λ x. x < 256) text
      → length text < 2 ^ 64
      → (bytes : List ℕ) × ((write_split (length text + 1) tp keys op text payload_max ≡ some bytes)
          × (read_message (peer tp) (bytes ++ tail) ≡ received (op, (text, tail))))
  unfolding write_split
  read-write_split op text tail ho h0 ht hs =
      elim (Bool-cases (leb (length text) payload_max || is_websocket_control op)) [
        | inl e ↦ (
          write_message tp (keys 0) op text,
          (rw (e), read-write_message tp (keys 0) op text tail ho h0 (good 0) ht hs),
        )
        | inr e ↦
            let rest =
              continued (length text + 1) 1 op (drop payload_max text) tail (ground arith)
                (All-drop (λ x. x < 256) payload_max text ht)
                (omega (arith, length-drop payload_max text))
                (omega (arith, length-drop payload_max text)) in
            (
              write_frame tp (keys 0) op false (take payload_max text) ++ rest.0,
              (rw (e, rest.1.0), begun op text tail rest.0 ho h0 (ground arith) ht hs rest.1.1),
            )
      ]
