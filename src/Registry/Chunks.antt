-- ===== src/Registry/Chunks.antt =====
-- `chunkSlice` (utils/types.go), which splits a list of validators for the look-up of their indexes.
use proof_relay.Base.{
  ℕ, zero, suc, ◌≤◌, ◌<◌, ◌≡◌, refl, List, [], ◌∷◌, ◌++◌, arith, length, take, drop, ltb,
  if◌then◌else◌, All, ap, ◌∙◌, length-take, length-drop, none, some, slice_to, slice_from,
  slice_to-take, slice_from-drop,
}

-- How the loop ends: with the chunks, or in a panic at a bound of a slice that is out of range; `running`
-- is a loop that has not ended.
pub data Chunked {ℓ} (A : Type ℓ) : Type ℓ where
  chunked : List (List A) → Chunked A
  panicked : Chunked A
  running : Chunked A

abbrev pub add_chunk {ℓ} : {A : Type ℓ} → List A → Chunked A → Chunked A
add_chunk c (chunked cs) = chunked (c ∷ cs)
add_chunk c panicked = panicked
add_chunk c running = running

-- The loop, on fuel.
unfoldable pub chunk_slice {ℓ} : {A : Type ℓ} → ℕ → List A → ℕ → Chunked A
chunk_slice fuel [] chunk_size = chunked []
chunk_slice zero (x ∷ xs) chunk_size = running
chunk_slice (suc fuel) (x ∷ xs) chunk_size =
    let slice = x ∷ xs in
    let size = if ltb (length slice) chunk_size then length slice else chunk_size in
    elim (slice_to size slice) [
      | none ↦ panicked
      | some chunk ↦ elim (slice_from size slice) [
        | none ↦ panicked
        | some rest ↦ add_chunk chunk (chunk_slice fuel rest size)
      ]
    ]

abbrev pub concat {ℓ} : {A : Type ℓ} → List (List A) → List A
concat [] = []
concat (c ∷ cs) = c ++ concat cs

take-drop {ℓ} : {A : Type ℓ} (n : ℕ) (xs : List A) → take n xs ++ drop n xs ≡ xs
take-drop zero xs = refl
take-drop (suc n) [] = refl
take-drop (suc n) (x ∷ xs) = ap (λ l. x ∷ l) (take-drop n xs)

-- Chunks that together are the list, none of them empty or above the size.
abbrev pub IsChunking : {A : Type 0} → ℕ → List A → Chunked A → Type 0
IsChunking size xs running = ⊥
IsChunking size xs panicked = ⊥
IsChunking size xs (chunked chunks) =
    (concat chunks ≡ xs) × All (λ c. (0 < length c) × (length c ≤ size)) chunks

module _ {A : Type 0} where
  All-weaken :
      (n m : ℕ) (cs : List (List A))
      → n ≤ m
      → All (λ c. (0 < length c) × (length c ≤ n)) cs
      → All (λ c. (0 < length c) × (length c ≤ m)) cs
  All-weaken n m [] le h = tt
  All-weaken n m (c ∷ cs) le h = ((h.0.0, omega (arith, h.0.1)), All-weaken n m cs le h.1)

  one_more :
      (n size : ℕ) (xs : List A) (rest : Chunked A)
      → 0 < n
      → n ≤ length xs
      → n ≤ size
      → IsChunking n (drop n xs) rest
      → IsChunking size xs (add_chunk (take n xs) rest)
  one_more n size xs running pos le fits h = absurd h
  one_more n size xs panicked pos le fits h = absurd h
  one_more n size xs (chunked chunks) pos le fits h = (
    ap (λ l. take n xs ++ l) h.0 ∙ take-drop n xs,
    (
      (omega (arith, length-take n xs), omega (arith, length-take n xs)),
      All-weaken n size chunks fits h.1,
    ),
  )

  -- With as much fuel as the list is long and a positive size, the loop ends, and no bound of a slice is
  -- out of range: the chunks together are the list, in its order, and each has between one entry and as many as the size.
  pub chunk_slice_lem :
      (fuel : ℕ) (xs : List A) (size : ℕ)
      → 0 < size
      → length xs ≤ fuel
      → IsChunking size xs (chunk_slice fuel xs size)
  unfolding chunk_slice
  chunk_slice_lem fuel [] size pos enough = (refl, tt)
  chunk_slice_lem zero (x ∷ xs) size pos enough = absurd (omega (arith, enough))
  chunk_slice_lem (suc fuel) (x ∷ xs) size pos enough =
      let slice = x ∷ xs in
      let n = if ltb (length slice) size then length slice else size in
      let n_pos : 0 < n = ground arith in
      let n_le : n ≤ length slice = ground arith in
      let n_fits : n ≤ size = ground arith in
      rw (slice_to-take n slice n_le, slice_from-drop n slice n_le, chunk_slice)
        (one_more n size slice (chunk_slice fuel (drop n slice) n) n_pos n_le n_fits
          (chunk_slice_lem fuel (drop n slice) n n_pos (omega (arith, length-drop n slice))))
