-- ===== src/Web/Websocket/Limits.antt =====
-- Two inputs on which websocket.cpp does not do what a peer expects.
use simple.Prelude.{
  ℕ, zero, suc, ◌^◌, ◌<◌, ◌≤◌, ◌≡◌, refl, ap, ◌∙◌, arith, true, false, lt→ltb, leb, ◌==◌, List, [],
  ◌++◌, length, All, if◌then◌else◌, none,
}
use simple.Web.Websocket.{
  WebsocketType, no_opcode, is_websocket_control, write_frame, split_loop, write_split, received,
  read_message, read_loop,
}
use simple.Web.Websocket.Frames.{peer, IsKey}
use simple.Web.Websocket.Messages.{last_piece, next_piece}

split_loop_endless :
    (fuel : ℕ) (tp : WebsocketType) (keys : ℕ → List ℕ) (n : ℕ) (text : List ℕ)
    → 0 < length text
    → split_loop fuel tp keys n 0 text ≡ none
unfolding split_loop
split_loop_endless zero tp keys n text h = refl
split_loop_endless (suc fuel) tp keys n text h =
    rw (lt→ltb 0 (length text) h, split_loop_endless fuel tp keys (suc n) text h)

-- With a payload_max of 0 the second write of a message that is not empty and no control message
-- ends after no number of rounds.
pub write_split_endless :
    (fuel : ℕ) (tp : WebsocketType) (keys : ℕ → List ℕ) (op : ℕ) (text : List ℕ)
    → is_websocket_control op ≡ false
    → 0 < length text
    → write_split fuel tp keys op text 0 ≡ none
unfolding write_split
write_split_endless fuel tp keys op text hc h =
    rw (over, hc, split_loop_endless fuel tp keys 1 text h)
  where
    over : leb (length text) 0 ≡ false
    over = ground arith

-- A control frame between the pieces of a message is returned with the pieces before it, which are
-- then lost to the message.
pub read_message-control :
    (tp : WebsocketType) (k1 k2 : List ℕ) (op control : ℕ) (text note tail : List ℕ)
    → op < 16
    → (op == 0) ≡ false
    → is_websocket_control op ≡ false
    → control < 16
    → is_websocket_control control ≡ true
    → IsKey k1
    → IsKey k2
    → All (λ x. x < 256) text
    → All (λ x. x < 256) note
    → length text < 2 ^ 64
    → length note < 2 ^ 64
    → read_message
        (peer tp)
        (write_frame tp k1 op false text ++ (write_frame tp k2 control true note ++ tail))
      ≡ received (control, (text ++ note, tail))
unfolding read_message is_websocket_control
read_message-control tp k1 k2 op control text note tail ho h0 hc hk hl g1 g2 t1 t2 s1 s2 =
    first.1.1
    ∙ last_piece first.0 tp (if op == 0 then no_opcode else op) k2 control text note tail hk g2 t2
        s2 (rw (hl)) first.1.0
    ∙ ap
        (λ b.
          received
            ((if b then (if op == 0 then no_opcode else op) else control), (text ++ note, tail)))
        (not_zero control hl)
  where
    not_zero : (n : ℕ) → is_websocket_control n ≡ true → (n == 0) ≡ false
    not_zero n e = ground arith

    first :
        (g : ℕ) × ((length (write_frame tp k2 control true note ++ tail) ≤ g)
          × (read_loop
                (length (
                  write_frame tp k1 op false text ++ (write_frame tp k2 control true note ++ tail)))
                (peer tp)
                no_opcode
                []
                (write_frame tp k1 op false text ++ (write_frame tp k2 control true note ++ tail))
              ≡ read_loop g
                  (peer tp)
                  (if op == 0 then no_opcode else op)
                  text
                  (write_frame tp k2 control true note ++ tail)))
    first =
        next_piece _ tp no_opcode k1 op [] text (write_frame tp k2 control true note ++ tail) ho g1
          t1 s1 (rw (hc, h0)) (omega arith)
