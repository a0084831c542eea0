-- ===== src/Doubler.antt =====
-- lab06/channel/ops-double-processor.c: every byte of the input channel, twice, to the output one.
pub mod Laws
mod Tests
use sop.Prelude.{
  ℕ, ◌+◌, ◌≡◌, List, [], ◌∷◌, ◌++◌, arith, length, take, set, if◌then◌else◌, ◌==◌, ltb,
}
use sop.Channel.{channel_size}

-- The locals of `main`, and the blocks that `channel_produce` was called with, in order.
pub record Doubler : Type 0 where
  pub out_buf : List ℕ
  pub out_len : ℕ
  pub produced : List (List ℕ)

-- `out_buf[out_len++] = b`, and a full buffer is handed to the output channel.
pub put_byte : ℕ → Doubler → Doubler
put_byte b d =
    let buf = set d.out_buf d.out_len b in
    let n = d.out_len + 1 in
    if n == channel_size
    then record { out_buf = buf; out_len = 0; produced = d.produced ++ take n buf ∷ [] }
    else record d { out_buf = buf; out_len = n }

-- The `for` loop over the bytes of one consumed block.
pub double_bytes : List ℕ → Doubler → Doubler
double_bytes [] d = d
double_bytes (b ∷ bs) d = double_bytes bs (put_byte b (put_byte b d))

-- After the `for` loop, what is left over is sent.
pub send_rest : Doubler → Doubler
send_rest d =
    if ltb 0 d.out_len
    then record d { produced = d.produced ++ take d.out_len d.out_buf ∷ [] }
    else d

-- The body of the `while` loop: `out_len` is a local of it and starts at 0.
pub double_block : List ℕ → Doubler → Doubler
double_block bs d = send_rest (double_bytes bs (record d { out_len = 0 }))

-- The `while` loop, over the blocks that `channel_consume` delivers before it returns 1.
pub double_blocks : List (List ℕ) → Doubler → Doubler
double_blocks [] d = d
double_blocks (bs ∷ rest) d = double_blocks rest (double_block bs d)
