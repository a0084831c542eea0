-- ===== src/Factory/Laws.antt =====
-- What the brigades make of what they read.
use sop.Prelude.{
  ℕ, zero, suc, ◌+◌, ◌*◌, ◌%◌, ◌<◌, ◌≡◌, refl, sym, ap, ◌∙◌, List, [], ◌∷◌, ◌++◌, arith, true,
  if◌then◌else◌, ◌==◌, length, set, take, replicate, length-set, length-append, flatten,
  flatten-append_one, append_assoc, append-nil, take-set_end, Bool-cases, inl, inr,
}
use sop.Factory.{
  Input, letter, ended, failed, Written, delivered, is_letter, first_brigade, write_copies, Round,
  copied, second_brigade, Assembly, add_letter, third_brigade, after,
}

-- The letters before the end, and those that count.
pub incoming : List Input → List ℕ
incoming [] = []
incoming (letter c ∷ rest) = c ∷ incoming rest
incoming (ended ∷ rest) = []
incoming (failed ∷ rest) = []

pub only_letters : List ℕ → List ℕ
only_letters [] = []
only_letters (c ∷ cs) = let rest = only_letters cs in if is_letter c then c ∷ rest else rest

abbrev pub NoError : List Input → Type 0
NoError [] = Unit
NoError (letter c ∷ rest) = NoError rest
NoError (ended ∷ rest) = Unit
NoError (failed ∷ rest) = ⊥

-- Rounds in which every `write` succeeds.
abbrev pub all_written : List Input → List (Input × Written)
all_written [] = []
all_written (i ∷ is) = (i, delivered) ∷ all_written is

-- If no `read` fails and every `write` succeeds, a worker of the first brigade passes on, in order,
-- the small letters among what it reads before the end, counts them, and reports.
pub first_brigade_lem :
    (is : List Input)
    → NoError is
    → first_brigade (all_written is) ≡ record {
      out = only_letters (incoming is);
      items = length (only_letters (incoming is));
      reported = true;
    }
unfolding first_brigade only_letters incoming
first_brigade_lem [] h = refl
first_brigade_lem (ended ∷ is) h = refl
first_brigade_lem (failed ∷ is) h = absurd h
first_brigade_lem (letter c ∷ is) h = elim (Bool-cases (is_letter c)) [
  | inl small ↦
      rw (small, first_brigade_lem is h)
        (λ i. record {
          out = c ∷ only_letters (incoming is);
          items =
              (let e : 1 + length (only_letters (incoming is))
                      ≡ suc (length (only_letters (incoming is))) =
                    omega arith in
                  e)
                i;
          reported = true;
        })
  | inr other ↦ rw other (first_brigade_lem is h)
]

-- The letters with their numbers of copies.
pub copies : List (ℕ × ℕ) → List ℕ
copies [] = []
copies ((c, r) ∷ rest) = replicate (r % 4 + 1) c ++ copies rest

abbrev pub rounds : List (ℕ × ℕ) → List Round
rounds [] = []
rounds ((c, r) ∷ rest) = record { input = letter c; rand = r; write = λ _. delivered } ∷ rounds rest

write_copies-all : (c n : ℕ) → write_copies c n (λ _. delivered) ≡ (replicate n c, delivered)
unfolding write_copies
write_copies-all c zero = refl
write_copies-all c (suc n) = ap (λ (p : List ℕ × Written). (c ∷ p.0, p.1)) (write_copies-all c n)

-- If every `write` succeeds, a worker of the second brigade writes each letter that it reads between
-- one and four times, in order, counts the letters that it read, and reports.
pub second_brigade_lem :
    (cs : List (ℕ × ℕ))
    → second_brigade (rounds cs) ≡ record { out = copies cs; items = length cs; reported = true }
unfolding second_brigade copies copied
second_brigade_lem [] = refl
second_brigade_lem ((c, r) ∷ cs) =
    ap (copied (second_brigade (rounds cs))) (write_copies-all c (r % 4 + 1))
    ∙ ap (after (replicate (r % 4 + 1) c) 1) (second_brigade_lem cs)
    ∙ (λ i. record {
      out = replicate (r % 4 + 1) c ++ copies cs;
      items = (let e : 1 + length cs ≡ suc (length cs) = omega arith in e) i;
      reported = true;
    })

record Assembling (a : Assembly) (seen : List ℕ) : Type 0 where
  room : length a.word ≡ 5
  short : a.count < 5
  all : flatten a.words ++ take a.count a.word ≡ seen
  counted : 5 * length a.words + a.count ≡ length seen

add_letter-Assembling :
    (c : ℕ) (a : Assembly) (seen : List ℕ)
    → Assembling a seen
    → Assembling (add_letter c a) (seen ++ c ∷ [])
unfolding add_letter
add_letter-Assembling c a seen h = elim (Bool-cases (a.count + 1 == 5)) [
  | inl full ↦ rw full (record {
    room = size;
    short = omega arith;
    all =
        append-nil _
        ∙ flatten-append_one a.words _
        ∙ ap (λ k. flatten a.words ++ take k word) (let e : 5 ≡ a.count + 1 = ground arith in e)
        ∙ extended;
    counted =
        ground
          (arith, length-append a.words (take 5 word ∷ []), length-append seen (c ∷ []), h.counted);
  })
  | inr more ↦ rw more (record {
    room = size;
    short = ground (arith, h.short);
    all = extended;
    counted = omega (arith, length-append seen (c ∷ []), h.counted);
  })
]
  where
    word : List ℕ
    word = set a.word a.count c

    size : length word ≡ 5
    size = length-set a.word a.count c ∙ h.room

    extended : flatten a.words ++ take (a.count + 1) word ≡ seen ++ c ∷ []
    extended =
        ap (λ t. flatten a.words ++ t)
          (take-set_end a.count a.word c (omega (arith, h.room, h.short)))
        ∙ sym (append_assoc (flatten a.words) (take a.count a.word) (c ∷ []))
        ∙ ap (λ t. t ++ c ∷ []) h.all

third_brigade-Assembling :
    (cs : List ℕ) (a : Assembly) (seen : List ℕ)
    → Assembling a seen
    → Assembling (third_brigade cs a) (seen ++ cs)
unfolding third_brigade
third_brigade-Assembling [] a seen h = rw (append-nil seen) h
third_brigade-Assembling (c ∷ cs) a seen h = rw (sym (append_assoc seen (c ∷ []) cs)) (
    third_brigade-Assembling cs (add_letter c a) (seen ++ c ∷ [])
      (add_letter-Assembling c a seen h))

-- A worker of the third brigade, with five bytes for a word and none of them used: the words that it
-- prints, put together, and the letters of the word begun are the letters read, in order; the words
-- are as many as there are fives in them, and fewer than five letters are in the word begun.
pub third_brigade_lem :
    (cs word : List ℕ)
    → length word ≡ 5
    → let a = third_brigade cs (record { word = word; count = 0; words = [] }) in
      (flatten a.words ++ take a.count a.word ≡ cs)
      × (5 * length a.words + a.count ≡ length cs)
      × (a.count < 5)
unfolding flatten
third_brigade_lem cs word e =
    let done =
      third_brigade-Assembling cs (record { word = word; count = 0; words = [] }) []
        (record { room = e; short = omega arith; all = nothing; counted = refl }) in
    (done.all, done.counted, done.short)
  where
    nothing : flatten {A = ℕ} [] ++ take 0 word ≡ []
    nothing = refl
