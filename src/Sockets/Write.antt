-- ===== src/Sockets/Write.antt =====
-- `bulk_write` ends, and writes the whole buffer.
use sop.Prelude.{
  ℕ, zero, suc, ◌+◌, ◌-◌, ◌<◌, ◌≡◌, refl, ap, ◌∙◌, List, ◌++◌, arith, true, false, Option, some,
  length, take, drop, ltb, Bool-cases, inl, inr, length-drop, append_assoc, take-append-drop,
  take-length,
}
use Prim.Native.Nat.{min}
use sop.Sockets.{Writing, bulk_write}

-- A file or connection with the bytes written to it so far, whose `write` transfers at most `suc
-- (size w)` bytes, `w` being these, and at least one of a buffer that is not empty.
pub sink : (List ℕ → ℕ) → Writing (List ℕ)
sink size w buf =
    (some (min (length buf) (suc (size w))), w ++ take (min (length buf) (suc (size w))) buf)

take-drop_rest : (m : ℕ) (w buf : List ℕ) → (w ++ take m buf) ++ drop m buf ≡ w ++ buf
take-drop_rest m w buf =
    append_assoc w (take m buf) (drop m buf) ∙ ap (λ t. w ++ t) (take-append-drop m buf)

abbrev wrote : ℕ → List ℕ → Option (Option ℕ × List ℕ)
wrote n w = some (some n, w)

whole :
    (m len : ℕ) (w buf : List ℕ)
    → m ≡ length buf
    → wrote (len + m) (w ++ take m buf) ≡ wrote (len + length buf) (w ++ buf)
whole m len w buf e = rw (e, take-length buf) refl

module _ {ℓ} {W : Type ℓ} (write : Writing W) where
  bulk_write_more :
      (fuel : ℕ) (w : W) (buf : List ℕ) (len n : ℕ)
      → (write w buf).0 ≡ some n
      → ltb 0 (length buf - n) ≡ true
      → bulk_write write (suc fuel) w buf len
        ≡ bulk_write write fuel (write w buf).1 (drop n buf) (len + n)
  unfolding bulk_write
  bulk_write_more fuel w buf len n e l = rw (e, bulk_write) (rw l)

  bulk_write_last :
      (fuel : ℕ) (w : W) (buf : List ℕ) (len n : ℕ)
      → (write w buf).0 ≡ some n
      → ltb 0 (length buf - n) ≡ false
      → bulk_write write (suc fuel) w buf len ≡ some (some (len + n), (write w buf).1)
  unfolding bulk_write
  bulk_write_last fuel w buf len n e l = rw (e, bulk_write) (rw l)

-- With fuel above the length of the buffer, `bulk_write` to a file or connection that takes at least
-- one byte of each `write` returns the length and has written the whole buffer, in order, however
-- few bytes each `write` takes.
pub bulk_write-sink :
    (size : List ℕ → ℕ) (fuel : ℕ) (w buf : List ℕ) (len : ℕ)
    → length buf < fuel
    → bulk_write (sink size) fuel w buf len ≡ some (some (len + length buf), w ++ buf)
unfolding sink
bulk_write-sink size zero w buf len lt = elim lt [ ]
bulk_write-sink size (suc fuel) w buf len lt = elim (Bool-cases (ltb 0 (length buf - m))) [
  | inl left ↦
      bulk_write_more (sink size) fuel w buf len m refl left
      ∙ bulk_write-sink size fuel (w ++ take m buf) (drop m buf) (len + m) (ground (arith, shorter))
      ∙ (λ i. some (some (sum i), take-drop_rest m w buf i))
  | inr full ↦ bulk_write_last (sink size) fuel w buf len m refl full ∙ whole m len w buf (all full)
]
  where
    m : ℕ
    m = min (length buf) (suc (size w))

    shorter : length (drop m buf) ≡ length buf - m
    shorter = length-drop m buf

    sum : (len + m) + length (drop m buf) ≡ len + length buf
    sum = omega (arith, shorter)

    all : ltb 0 (length buf - m) ≡ false → m ≡ length buf
    all full = ground arith
