-- ===== src/BTree/Lookup.antt =====
-- btree_lookup of src/btree_read.cc. The keys from `current` up to `end` are a list. What the
-- callbacks do to their context is a state that they pass on; their other effect is an error.
-- The value of an item is a buffer of its own.
pub mod Answers
pub mod Rounds
pub mod Leaf
pub mod Absent
pub mod Children
pub mod Descents
pub mod Nodes
pub mod Folds
pub mod Tours
use couchstore.Base.{
  ℕ, zero, suc, ◌+◌, ◌==◌, if◌then◌else◌, ◌&&◌, ◌||◌, not, Bool, true, false, List, [], ◌∷◌, length,
  take, drop, leb, get_or, Result, ok, err, fault, assert, ◌>>=◌, ◌>>◌, Option, none, some,
}
use couchstore.Base.Order.{Cmp, less, equal, greater}
use couchstore.Bitfield.{decode_raw16, decode_raw48}
use couchstore.NodeTypes.{Item, read_kv}
use couchstore.File.{Disk, FileOps}
use couchstore.Chunk.{Snappy, pread_compressed}

-- couchfile_lookup_request, without the keys and the two flags.
pub record LookupRequest (S : Type 0) : Type 0 where
  pub compare : List ℕ → List ℕ → Cmp
  pub fetch_callback : S → List ℕ → Option (List ℕ) → Result S
  pub node_callback : Option (S → ℕ → Option (List ℕ) → Result S)

-- The flags of a request, and the context of its callbacks.
pub record LookupState (S : Type 0) : Type 0 where
  pub fold : Bool
  pub in_fold : Bool
  pub ctx : S

unfoldable pub lookup_compare : (List ℕ → List ℕ → Cmp) → List ℕ → List ℕ → Cmp
lookup_compare compare [] key2 = less
lookup_compare compare (b ∷ key1) [] = greater
lookup_compare compare (b ∷ key1) (c ∷ key2) = compare (b ∷ key1) (c ∷ key2)

-- `cmp >= 0`
abbrev pub not_below : Cmp → Bool
not_below less = false
not_below equal = true
not_below greater = true

abbrev pub is_above : Cmp → Bool
is_above less = false
is_above equal = false
is_above greater = true

abbrev pub is_zero : Cmp → Bool
is_zero equal = true
is_zero _ = false

module _ {S : Type 0} (rq : LookupRequest S) where
  -- The `do` loop over `last_item`: the keys that are not above an item's, and the others.
  unfoldable pub last_item : List ℕ → List (List ℕ) → List (List ℕ) × List (List ℕ)
  last_item cmp_key [] = ([], [])
  last_item cmp_key (k ∷ ks) =
      let (here, beyond) = last_item cmp_key ks in
      if not_below (lookup_compare rq.compare cmp_key k) then (k ∷ here, beyond) else ([], k ∷ ks)

  unfoldable pub call_node : S → ℕ → Option (List ℕ) → Result S
  call_node s subtreesize reduce_value = elim rq.node_callback [
    | none ↦ ok s
    | some callback ↦ callback s subtreesize reduce_value
  ]

  -- The first call of the node callback, with what the pointer `raw` says of its subtree.
  unfoldable pub enter_node : S → List ℕ → Result S
  enter_node s raw = elim rq.node_callback [
    | none ↦ ok s
    | some callback ↦ (do
      assert (leb 14 (length raw))
      callback s (decode_raw48 (drop 6 raw))
          (some (take (decode_raw16 (drop 12 raw)) (drop 14 raw))))
  ]

  -- What a round of the loop over a node of pointers does where the item's key is not below the
  -- current key; `descend` is the recursive call.
  unfoldable pub kp_descend :
      (ℕ → List (List ℕ) → LookupState S → Result (LookupState S))
      → Item
      → List ℕ
      → List (List ℕ)
      → LookupState S
      → Result (List (List ℕ) × LookupState S)
  unfolding last_item call_node enter_node
  kp_descend descend item k ks st = do
    let (here, beyond) = last_item item.key ks
    entered ← enter_node st.ctx item.value
    assert (leb 6 (length item.value))
    st' ←
        descend (decode_raw48 item.value) (k ∷ here)
          (record { fold = st.fold; in_fold = st.in_fold || st.fold; ctx = entered })
    left ← call_node st'.ctx 0 none
    ok (if st'.in_fold then k ∷ ks else beyond, record st' { ctx = left })

  -- The loop over the items of a node of pointers, from `bufpos` on.
  unfoldable pub kp_loop :
      (ℕ → List (List ℕ) → LookupState S → Result (LookupState S))
      → ℕ
      → List ℕ
      → List (List ℕ)
      → LookupState S
      → Result (List (List ℕ) × LookupState S)
  kp_loop descend fuel [] ks st = ok (ks, st)
  kp_loop descend fuel (b ∷ bs) [] st = ok ([], st)
  kp_loop descend zero (b ∷ bs) (k ∷ ks) st = fault
  kp_loop descend (suc fuel) (b ∷ bs) (k ∷ ks) st = do
    (item, rest) ← read_kv (b ∷ bs)
    (ks', st') ←
        (if not_below (lookup_compare rq.compare item.key k)
          then kp_descend descend item k ks st
          else ok (k ∷ ks, st))
    kp_loop descend fuel rest ks' st'

  -- `(current + 1) < end` and the item's key is above the one there
  unfoldable pub past_range : List ℕ → List (List ℕ) → Bool
  past_range cmp_key [] = false
  past_range cmp_key (k ∷ ks) = is_above (lookup_compare rq.compare cmp_key k)

  -- The two flags and the keys after the first tests of a round in a leaf.
  unfoldable pub kv_flags :
      Cmp → Item → List ℕ → List (List ℕ) → LookupState S → List (List ℕ) × LookupState S
  unfolding past_range
  kv_flags cmp_val item k ks st =
      if not_below cmp_val && st.fold && not st.in_fold
      then (k ∷ ks, record st { in_fold = true })
      else if st.in_fold && past_range item.key ks
      then ([], record st { in_fold = false; fold = false })
      else (k ∷ ks, st)

  unfoldable pub kv_round :
      Item → List ℕ → List (List ℕ) → LookupState S → Result (List (List ℕ) × LookupState S)
  unfolding kv_flags
  kv_round item k ks st = do
    let cmp_val = lookup_compare rq.compare item.key k
    let (ks', st') = kv_flags cmp_val item k ks st
    let found = (do
      ctx ← rq.fetch_callback st'.ctx item.key (some item.value)
      ok (if st'.in_fold then ks' else drop 1 ks', record st' { ctx = ctx }))
    if is_zero cmp_val || (is_above cmp_val && st'.in_fold) then found else ok (ks', st')

  -- The loop over the items of a leaf.
  unfoldable pub kv_loop :
      ℕ → List ℕ → List (List ℕ) → LookupState S → Result (List (List ℕ) × LookupState S)
  unfolding kv_round
  kv_loop fuel [] ks st = ok (ks, st)
  kv_loop fuel (b ∷ bs) [] st = ok ([], st)
  kv_loop zero (b ∷ bs) (k ∷ ks) st = fault
  kv_loop (suc fuel) (b ∷ bs) (k ∷ ks) st = do
    (item, rest) ← read_kv (b ∷ bs)
    (ks', st') ← kv_round item k ks st
    kv_loop fuel rest ks' st'

  -- "Any remaining items are not found."
  unfoldable pub not_found : List (List ℕ) → LookupState S → Result (LookupState S)
  not_found [] st = ok st
  not_found (k ∷ ks) st =
      if st.fold
      then ok st
      else do ctx ← rq.fetch_callback st.ctx k none; not_found ks (record st { ctx = ctx })

  module _ (ops : FileOps) (snappy : Snappy) (d : Disk) where
    -- btree_lookup_inner. A descent is a level of the tree, of which `depth` are left: nothing in a
    -- corrupt file keeps pointers from going round.
    unfoldable pub btree_lookup_inner :
        ℕ → ℕ → List (List ℕ) → LookupState S → Result (LookupState S)
    btree_lookup_inner depth diskpos [] st = ok st
    btree_lookup_inner zero diskpos (k ∷ ks) st = fault
    btree_lookup_inner (suc depth) diskpos (k ∷ ks) st = do
      nodebuf ← pread_compressed ops snappy d diskpos
      assert (leb 1 (length nodebuf))
      let bytes = drop 1 nodebuf
      (ks', st') ←
          (if get_or nodebuf 0 0 == 0
            then kp_loop (btree_lookup_inner depth) (length bytes) bytes (k ∷ ks) st
            else if get_or nodebuf 0 0 == 1
            then kv_loop (length bytes) bytes (k ∷ ks) st
            else ok (k ∷ ks, st))
      not_found ks' st'

    unfoldable pub btree_lookup : ℕ → ℕ → List (List ℕ) → Bool → S → Result S
    unfolding btree_lookup_inner
    btree_lookup depth root_pointer keys fold ctx = do
      st ←
          btree_lookup_inner depth root_pointer keys
            (record { fold = fold; in_fold = false; ctx = ctx })
      ok st.ctx
