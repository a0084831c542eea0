-- ===== src/Factory.antt =====
-- lab05/sop-factory/sop-factory.c: three brigades of workers that pass letters on through pipes.
pub mod Laws
mod Tests
use sop.Prelude.{
  ℕ, zero, suc, ◌+◌, ◌%◌, List, [], ◌∷◌, ◌++◌, Bool, true, false, ◌||◌, if◌then◌else◌, ltb, ◌==◌,
  set, take,
}

-- What `read` of one letter reports, EINTR put aside: a letter, the end, an error.
pub data Input : Type 0 where
  letter : ℕ → Input
  ended failed : Input

-- What `write` of one letter reports, EINTR put aside.
pub data Written : Type 0 where
  delivered epipe broken : Written

-- What a worker has done: the letters it wrote, `items_processed`, and whether it came to its report
-- to the boss, ERR having ended it otherwise.
pub record Work : Type 0 where
  pub out : List ℕ
  pub items : ℕ
  pub reported : Bool

abbrev pub idle : Bool → Work
idle b = record { out = []; items = 0; reported = b }

abbrev pub after : List ℕ → ℕ → Work → Work
after ls n w = record { out = ls ++ w.out; items = n + w.items; reported = w.reported }

abbrev pub is_letter : ℕ → Bool
is_letter c = if ltb c b'a' || ltb b'z' c then false else true

-- The loop of `first_brigade_work`, over the rounds until the signal clears `keep_running`.
pub first_brigade : List (Input × Written) → Work
first_brigade [] = idle true
first_brigade ((ended, w) ∷ rest) = idle true
first_brigade ((failed, w) ∷ rest) = idle false
first_brigade ((letter c, w) ∷ rest) =
    let later = first_brigade rest in
    if is_letter c
    then elim w [ delivered ↦ after (c ∷ []) 1 later | epipe ↦ idle true | broken ↦ idle false ]
    else later

-- The copies of one letter: those written, and how the loop over them ended.
pub write_copies : ℕ → ℕ → (ℕ → Written) → List ℕ × Written
write_copies c zero write = ([], delivered)
write_copies c (suc n) write =
    let (ls, w) = write_copies c n (λ i. write (suc i)) in
    elim (write zero) [ delivered ↦ (c ∷ ls, w) | epipe ↦ ([], epipe) | broken ↦ ([], broken) ]

-- One round: what is read, what `rand` gives for the copies, what the writes report.
pub record Round : Type 0 where
  pub input : Input
  pub rand : ℕ
  pub write : ℕ → Written

-- After the copies of one letter: EPIPE clears `keep_running`, the letter being counted.
pub copied : Work → List ℕ × Written → Work
copied later (ls, delivered) = after ls 1 later
copied later (ls, epipe) = after ls 1 (idle true)
copied later (ls, broken) = after ls 0 (idle false)

-- The loop of `second_brigade_work`.
pub second_brigade : List Round → Work
second_brigade [] = idle true
second_brigade (r ∷ rest) =
    let later = second_brigade rest in
    elim r.input [
      | ended ↦ idle true
      | failed ↦ idle false
      | letter c ↦ copied later (write_copies c (r.rand % 4 + 1) r.write)
    ]

-- `word` (its first five bytes) and `count`, and the words printed.
pub record Assembly : Type 0 where
  pub word : List ℕ
  pub count : ℕ
  pub words : List (List ℕ)

-- A letter comes in.
pub add_letter : ℕ → Assembly → Assembly
add_letter c a =
    let word = set a.word a.count c in
    if a.count + 1 == 5
    then record { word = word; count = 0; words = a.words ++ take 5 word ∷ [] }
    else record a { word = word; count = a.count + 1 }

-- The loop of `third_brigade_work` over the letters that come before the end.
pub third_brigade : List ℕ → Assembly → Assembly
third_brigade [] a = a
third_brigade (c ∷ cs) a = third_brigade cs (add_letter c a)
