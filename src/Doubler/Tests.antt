-- ===== src/Doubler/Tests.antt =====
use sop.Prelude.{ℕ, ◌≡◌, refl, List, [], ◌∷◌, flatten, replicate, length-replicate}
use sop.Channel.{channel_size}
use sop.Doubler.{double_blocks, double_block, double_bytes, put_byte, send_rest}
use sop.Doubler.Laws.{duplicate, All, Fits, doubler, double_blocks_lem}

abbrev two_blocks : List (List ℕ)
two_blocks = (1 ∷ 2 ∷ []) ∷ (3 ∷ []) ∷ []

abbrev zeros : List ℕ
zeros = replicate channel_size 0

double_blocks_lem_example :
    (flatten (double_blocks two_blocks (doubler zeros)).produced ≡ duplicate (flatten two_blocks))
    × All Fits (double_blocks two_blocks (doubler zeros)).produced
double_blocks_lem_example =
    double_blocks_lem two_blocks zeros (length-replicate {A = ℕ} channel_size 0)

-- Each block is sent on its own.
two_blocks_doubled :
    (double_blocks two_blocks (doubler (0 ∷ 0 ∷ 0 ∷ 0 ∷ []))).produced
    ≡ (1 ∷ 1 ∷ 2 ∷ 2 ∷ []) ∷ (3 ∷ 3 ∷ []) ∷ []
unfolding double_blocks double_block double_bytes put_byte send_rest
two_blocks_doubled = refl
