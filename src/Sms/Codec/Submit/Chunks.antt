-- ===== src/Sms/Codec/Submit/Chunks.antt =====
-- The cutting of a long message into parts, of src/sms/codec.rs.
use smsgate.Base.{
  ℕ, zero, suc, ◌≤◌, ◌<◌, ◌≡◌, refl, ◌∙◌, ap, List, [], ◌∷◌, ◌++◌, length, take, drop, concat, All,
  take-append-drop, length-take, length-drop, arith,
}
use smsgate.Sms.Codec.Submit.{chunks, gsm7_chunk, ucs2_chunk, gsm7_chunks, ucs2_chunks}

module _ (size : List ℕ → ℕ) (limit : ℕ)
    (bounds : (x : ℕ) (xs : List ℕ) → (0 < size (x ∷ xs)) × (size (x ∷ xs) ≤ limit)) where
  chunks-concat : (fuel : ℕ) (xs : List ℕ) → length xs ≤ fuel → concat (chunks size fuel xs) ≡ xs
  unfolding chunks
  chunks-concat fuel [] h = refl
  chunks-concat zero (x ∷ xs) h = absurd (omega arith)
  chunks-concat (suc fuel) (x ∷ xs) h =
      let n = size (x ∷ xs) in
      ap (◌++◌ (take n (x ∷ xs))) (
        chunks-concat fuel (drop n (x ∷ xs))
          (omega (arith, length-drop n (x ∷ xs), (bounds x xs).0)))
      ∙ take-append-drop n (x ∷ xs)

  chunks-lengths :
      (fuel : ℕ) (xs : List ℕ)
      → All (λ chunk. (0 < length chunk) × (length chunk ≤ limit)) (chunks size fuel xs)
  unfolding chunks
  chunks-lengths fuel [] = tt
  chunks-lengths zero (x ∷ xs) = tt
  chunks-lengths (suc fuel) (x ∷ xs) =
      let n = size (x ∷ xs) in
      (
        (
          omega (arith, length-take n (x ∷ xs), (bounds x xs).0),
          omega (arith, length-take n (x ∷ xs), (bounds x xs).1),
        ),
        chunks-lengths fuel (drop n (x ∷ xs)),
      )

gsm7_chunk-bounds : (x : ℕ) (xs : List ℕ) → (0 < gsm7_chunk (x ∷ xs)) × (gsm7_chunk (x ∷ xs) ≤ 153)
unfolding gsm7_chunk
gsm7_chunk-bounds x xs = ground arith

ucs2_chunk-bounds : (x : ℕ) (xs : List ℕ) → (0 < ucs2_chunk (x ∷ xs)) × (ucs2_chunk (x ∷ xs) ≤ 134)
unfolding ucs2_chunk
ucs2_chunk-bounds x xs = ground arith

-- The parts of a long message in septets are the septets in order, none is empty and none is
-- longer than the 153 that fit beside a header.
pub gsm7_chunks-concat :
    (septets : List ℕ)
    → (concat (gsm7_chunks septets) ≡ septets)
      × All (λ chunk. (0 < length chunk) × (length chunk ≤ 153)) (gsm7_chunks septets)
unfolding gsm7_chunks
gsm7_chunks-concat septets = (
  chunks-concat gsm7_chunk 153 gsm7_chunk-bounds (length septets) septets (omega arith),
  chunks-lengths gsm7_chunk 153 gsm7_chunk-bounds (length septets) septets,
)

-- The same for a message in UCS-2, with parts of at most 134 bytes.
pub ucs2_chunks-concat :
    (bs : List ℕ)
    → (concat (ucs2_chunks bs) ≡ bs)
      × All (λ chunk. (0 < length chunk) × (length chunk ≤ 134)) (ucs2_chunks bs)
unfolding ucs2_chunks
ucs2_chunks-concat bs = (
  chunks-concat ucs2_chunk 134 ucs2_chunk-bounds (length bs) bs (omega arith),
  chunks-lengths ucs2_chunk 134 ucs2_chunk-bounds (length bs) bs,
)
