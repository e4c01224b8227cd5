-- ===== src/Crypt/Blocks.antt =====
-- How md5_context::update and sha1_context::update of runtime/src/utils/crypt.cpp take bytes in, which
-- is the same code in both: full blocks go to `transform`, and the rest waits in the buffer.
pub mod Absorb
pub mod Pad
use simple.Prelude.{
  ℕ, zero, suc, ◌+◌, ◌-◌, Bool, leb, ltb, ◌==◌, if◌then◌else◌, List, [], ◌∷◌, ◌++◌, length, take,
  drop, replicate,
}

-- memcpy(buff + at, text, text.size())
unfoldable pub overwrite : List ℕ → ℕ → List ℕ → List ℕ
overwrite buff at text = take at buff ++ (text ++ drop (at + length text) buff)

-- md5_sha1_padding
abbrev pub padding : List ℕ
padding = 0x80 ∷ replicate 127 0

-- The length of the padding and the count together, from the bytes in the buffer.
unfoldable pub pad_length : ℕ → ℕ
pad_length have = let len = 64 - have in if ltb len 9 then len + 64 else len

module _ {ℓ} {S : Type ℓ} (transform : S → List ℕ → S) where
  -- The loop over full blocks; each round takes bytes off, so their number is enough.
  unfoldable pub block_loop : ℕ → S → List ℕ → S × List ℕ
  block_loop zero s text = (s, text)
  block_loop (suc f) s text =
      let rest = block_loop f (transform s (take 64 text)) (drop 64 text) in
      if leb 64 (length text) then rest else (s, text)

  -- Any remaining bytes.
  unfoldable pub keep_rest : List ℕ → ℕ → S × List ℕ → S × List ℕ
  keep_rest buff have r = if length r.1 == 0 then (r.0, buff) else (r.0, overwrite buff have r.1)

  -- The state and the buffer after the bytes `text`, where the buffer holds `have` bytes.
  unfoldable pub absorb : S → List ℕ → ℕ → List ℕ → S × List ℕ
  absorb s buff have text =
      let need = 64 - have in
      let filled = overwrite buff have (take need text) in
      if leb need (length text)
      then (if have == 0
          then keep_rest buff 0 (block_loop (length text) s text)
          else keep_rest filled 0 (block_loop (length text) (transform s filled) (drop need text)))
      else keep_rest buff have (s, text)
