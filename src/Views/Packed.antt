-- ===== src/Views/Packed.antt =====
-- The loops that src/views/values.c and src/views/reductions.c share: a buffer is a sequence of
-- entries up to its end, which a first loop counts and checks, and a second one copies.
-- A failure of an allocation is not modelled.
pub mod RoundTrip
use couchstore.Base.{
  ℕ, zero, suc, ◌+◌, ◌%◌, leb, List, [], ◌∷◌, ◌++◌, length, take, drop, Result, ok, fault, assert,
  ◌>>=◌, ◌>>◌,
}

module _ (width : ℕ) (dec : List ℕ → ℕ) where
  -- `sz = dec(bs)` with the assertions of the first loop: the bytes behind an entry.
  unfoldable pub skip_sized : List ℕ → Result (List ℕ)
  skip_sized bs = do
    assert (leb width (length bs))
    assert (leb (dec bs) (length (drop width bs)))
    ok (drop (dec bs) (drop width bs))

  -- What the second loop copies, and the bytes behind it.
  unfoldable pub copy_sized : List ℕ → List ℕ × List ℕ
  copy_sized bs = (take (dec bs) (drop width bs), drop (dec bs) (drop width bs))

  -- The inner `for` loops over the keys of a mapping.
  unfoldable pub skip_keys : ℕ → List ℕ → Result (List ℕ)
  skip_keys zero bs = ok bs
  skip_keys (suc num_keys) bs = do rest ← skip_sized bs; skip_keys num_keys rest

  unfoldable pub copy_keys : ℕ → List ℕ → List (List ℕ) × List ℕ
  copy_keys zero bs = ([], bs)
  copy_keys (suc num_keys) bs =
      let (key, rest) = copy_sized bs in
      let (keys, rest') = copy_keys num_keys rest in (key ∷ keys, rest')

-- What an encoder writes for a buffer: its size and its bytes.
unfoldable pub print_sized : (ℕ → List ℕ) → List ℕ → List ℕ
print_sized enc value = enc (length value) ++ value

unfoldable pub print_all {ℓ} : {A : Type ℓ} → (A → List ℕ) → List A → List ℕ
print_all print [] = []
print_all print (a ∷ entries) = print a ++ print_all print entries

-- The first `while (len > 0)` loop, with a counter of `cells` values that wraps around. An entry
-- has a byte at least, so as many rounds as bytes are enough.
unfoldable pub count_entries : (List ℕ → Result (List ℕ)) → ℕ → ℕ → List ℕ → ℕ → Result ℕ
count_entries skip cells fuel [] n = ok n
count_entries skip cells zero (b ∷ bs) n = fault
count_entries skip cells (suc fuel) (b ∷ bs) n = do
  rest ← skip (b ∷ bs)
  count_entries skip cells fuel rest ((n + 1) % cells)

-- The second one, into an array with room for `room` entries more.
unfoldable pub copy_entries {ℓ} :
    {A : Type ℓ} → (List ℕ → A × List ℕ) → ℕ → ℕ → List ℕ → Result (List A)
copy_entries copy fuel room [] = ok []
copy_entries copy zero room (b ∷ bs) = fault
copy_entries copy (suc fuel) zero (b ∷ bs) = fault
copy_entries copy (suc fuel) (suc room) (b ∷ bs) = do
  let (entry, rest) = copy (b ∷ bs)
  entries ← copy_entries copy fuel room rest
  ok (entry ∷ entries)

-- Both loops.
unfoldable pub decode_entries {ℓ} :
    {A : Type ℓ} → (List ℕ → Result (List ℕ)) → (List ℕ → A × List ℕ) → ℕ → List ℕ → Result (List A)
unfolding count_entries copy_entries
decode_entries skip copy cells bytes = do
  n ← count_entries skip cells (length bytes) bytes 0
  copy_entries copy (length bytes) n bytes
