-- ===== src/Factory/Tests.antt =====
-- A few letters.
use sop.Prelude.{
  ℕ, ◌+◌, ◌*◌, ◌<◌, ◌≡◌, refl, List, [], ◌∷◌, ◌++◌, true, length, take, flatten, replicate,
}
use sop.Factory.{Input, letter, ended, first_brigade, second_brigade, third_brigade}
use sop.Factory.Laws.{
  incoming, only_letters, all_written, first_brigade_lem, copies, rounds, second_brigade_lem,
  third_brigade_lem,
}

abbrev typed : List Input
typed = letter b'a' ∷ letter b'7' ∷ letter b'z' ∷ ended ∷ letter b'q' ∷ []

typed_passed : first_brigade (all_written typed) ≡ record {
  out = only_letters (incoming typed);
  items = length (only_letters (incoming typed));
  reported = true;
}
typed_passed = first_brigade_lem typed tt

letters_copied :
    second_brigade (rounds ((b'a', 6) ∷ (b'z', 0) ∷ []))
    ≡ record { out = copies ((b'a', 6) ∷ (b'z', 0) ∷ []); items = 2; reported = true }
letters_copied = second_brigade_lem ((b'a', 6) ∷ (b'z', 0) ∷ [])

abbrev sent : List ℕ
sent = 1 ∷ 2 ∷ 3 ∷ 4 ∷ 5 ∷ 6 ∷ 7 ∷ []

words_made :
    let a = third_brigade sent (record { word = replicate 5 0; count = 0; words = [] }) in
    (flatten a.words ++ take a.count a.word ≡ sent)
    × (5 * length a.words + a.count ≡ length sent)
    × (a.count < 5)
words_made = third_brigade_lem sent (replicate 5 0) refl
