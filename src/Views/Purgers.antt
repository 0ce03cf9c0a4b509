-- ===== src/Views/Purgers.antt =====
-- src/views/purgers.c: what a purge does with the items and the subtrees of a view's B-trees.
-- An error of a decoder is a negative action there, and the `err` of a result here.
use couchstore.Base.{
  ℕ, ◌+◌, ◌^◌, ◌%◌, ◌<◌, ◌≡◌, refl, arith, if◌then◌else◌, Bool, List, [], ◌∷◌, length, replicate,
  All, Result, ok, ◌>>=◌, true, false, Bool-cases, inl, inr, ◌≢◌, subst,
}
use couchstore.Views.Bitmap.{IsBitmap, is_bit_set, intersect_bitmaps, is_equal_bitmap}
use couchstore.Views.Bitmap.Common.{HaveBit, intersect-none, intersect-some}
use couchstore.Views.Values.{
  ViewBtreeValue, ViewIdBtreeValue, MappingFits, encode_view_btree_value,
  encode_view_id_btree_value, decode_view_btree_value, decode_view_id_btree_value,
  decode-encode_view_btree_value, decode-encode_view_id_btree_value,
}
use couchstore.Views.Reductions.{
  ViewBtreeReduction, encode_view_btree_reduction, decode_view_btree_reduction,
  decode_view_id_btree_reduction, decode-encode_view_btree_reduction,
}

-- PURGE_ITEM, PURGE_STOP, PURGE_KEEP and PURGE_PARTIAL of couch_btree.h
pub data PurgeAction : Type 0 where
  purge_item purge_stop purge_keep purge_partial : PurgeAction

-- view_purger_ctx_t
pub record ViewPurgerCtx : Type 0 where
  pub cbitmask : List ℕ
  pub count : ℕ

unfoldable pub view_purgekv_action :
    List ℕ → ℕ → ℕ → ViewPurgerCtx → Result (PurgeAction × ViewPurgerCtx)
view_purgekv_action bm part_id valcount ctx = do
  found ← is_bit_set bm part_id
  ok (
      if found
      then (PurgeAction.purge_item, record ctx { count = (ctx.count + valcount) % 2 ^ 64 })
      else (PurgeAction.purge_keep, ctx))

unfoldable pub view_purgekp_action :
    List ℕ → List ℕ → ℕ → ViewPurgerCtx → PurgeAction × ViewPurgerCtx
view_purgekp_action clearbm redbm kvcount ctx =
    if is_equal_bitmap redbm clearbm
    then (PurgeAction.purge_item, record ctx { count = (ctx.count + kvcount) % 2 ^ 64 })
    else if is_equal_bitmap (intersect_bitmaps clearbm redbm) (replicate 128 0)
    then (PurgeAction.purge_keep, ctx)
    else (PurgeAction.purge_partial, ctx)

unfoldable pub view_id_btree_purge_kv :
    List ℕ → ViewPurgerCtx → Result (PurgeAction × ViewPurgerCtx)
view_id_btree_purge_kv val ctx = do
  v ← decode_view_id_btree_value val
  view_purgekv_action ctx.cbitmask v.partition 1 ctx

-- The argument is the reduction of a node pointer.
unfoldable pub view_id_btree_purge_kp :
    List ℕ → ViewPurgerCtx → Result (PurgeAction × ViewPurgerCtx)
view_id_btree_purge_kp reduce_value ctx = do
  r ← decode_view_id_btree_reduction reduce_value
  ok (view_purgekp_action ctx.cbitmask r.partitions_bitmap r.kv_count ctx)

unfoldable pub view_btree_purge_kv : List ℕ → ViewPurgerCtx → Result (PurgeAction × ViewPurgerCtx)
view_btree_purge_kv val ctx = do
  v ← decode_view_btree_value val
  view_purgekv_action ctx.cbitmask v.partition (length v.values) ctx

unfoldable pub view_btree_purge_kp : List ℕ → ViewPurgerCtx → Result (PurgeAction × ViewPurgerCtx)
view_btree_purge_kp reduce_value ctx = do
  r ← decode_view_btree_reduction reduce_value
  ok (view_purgekp_action ctx.cbitmask r.partitions_bitmap r.kv_count ctx)

-- For entries that their encoders can hold, of one partition below 1024, a purge takes out the value
-- of a view's B-tree and the entry of the B-tree of ids exactly if the partition is to be cleared,
-- and then adds to the count the number of parts of the value, or one for the entry, modulo 2^64;
-- otherwise it keeps both and the count.
pub purge_kv-encode :
    (ctx : ViewPurgerCtx) (value : ViewBtreeValue) (entry : ViewIdBtreeValue) (cleared : Bool)
    → value.partition < 1024
    → length value.values < 2 ^ 16
    → All (λ v. length v < 2 ^ 24) value.values
    → entry.partition ≡ value.partition
    → length entry.view_keys_map < 2 ^ 16
    → All MappingFits entry.view_keys_map
    → is_bit_set ctx.cbitmask value.partition ≡ ok cleared
    → (view_btree_purge_kv (encode_view_btree_value value) ctx
        ≡ ok (
            if cleared
            then (
              PurgeAction.purge_item,
              record ctx { count = (ctx.count + length value.values) % 2 ^ 64 },
            )
            else (PurgeAction.purge_keep, ctx)))
      × (view_id_btree_purge_kv (encode_view_id_btree_value entry) ctx
          ≡ ok (
              if cleared
              then (PurgeAction.purge_item, record ctx { count = (ctx.count + 1) % 2 ^ 64 })
              else (PurgeAction.purge_keep, ctx)))
unfolding view_btree_purge_kv view_id_btree_purge_kv view_purgekv_action
purge_kv-encode ctx value entry cleared p n sizes same m fits set = (
  rw (decode-encode_view_btree_value value (omega arith) n sizes, set) refl,
  rw (decode-encode_view_id_btree_value entry (omega arith) m fits, same, set) refl,
)

view_btree_purge_kp-encode :
    (ctx : ViewPurgerCtx) (r : ViewBtreeReduction) (bytes : List ℕ)
    → encode_view_btree_reduction r ≡ ok bytes
    → r.kv_count < 2 ^ 40
    → length r.partitions_bitmap ≡ 128
    → length r.reduce_values < 2 ^ 8
    → view_btree_purge_kp bytes ctx
      ≡ ok (view_purgekp_action ctx.cbitmask r.partitions_bitmap r.kv_count ctx)
unfolding view_btree_purge_kp
view_btree_purge_kp-encode ctx r bytes e c n few =
    rw (decode-encode_view_btree_reduction r bytes e c n few) refl

is_equal_bitmap_same : (a b : List ℕ) → is_equal_bitmap a b ≡ true → a ≡ b
unfolding is_equal_bitmap
is_equal_bitmap_same [] [] h = refl
is_equal_bitmap_same [] (y ∷ b) h = cc
is_equal_bitmap_same (x ∷ a) [] h = cc
is_equal_bitmap_same (x ∷ a) (y ∷ b) h = ground (arith, is_equal_bitmap_same a b)

is_equal_bitmap_refl : (a : List ℕ) → is_equal_bitmap a a ≡ true
unfolding is_equal_bitmap
is_equal_bitmap_refl [] = refl
is_equal_bitmap_refl (x ∷ a) = ground (arith, is_equal_bitmap_refl a)

is_equal_bitmap_different : (a b : List ℕ) → is_equal_bitmap a b ≡ false → a ≢ b
is_equal_bitmap_different a b h q =
    let r : is_equal_bitmap a b ≡ true =
      subst (λ (t : List ℕ). is_equal_bitmap a t ≡ true) q (is_equal_bitmap_refl a) in
    cc

-- What became of a subtree whose reduction has the bitmap `redbm` and counts `kvcount` entries.
pub data Purged (ctx : ViewPurgerCtx) (redbm : List ℕ) (kvcount : ℕ)
    (after : PurgeAction × ViewPurgerCtx) : Type 0 where
  taken_out :
      redbm ≡ ctx.cbitmask
      → after ≡ (PurgeAction.purge_item, record ctx { count = (ctx.count + kvcount) % 2 ^ 64 })
      → Purged ctx redbm kvcount after
  left_alone :
      redbm ≢ ctx.cbitmask
      → ((bit : ℕ) → HaveBit ctx.cbitmask redbm bit → ⊥)
      → after ≡ (PurgeAction.purge_keep, ctx)
      → Purged ctx redbm kvcount after
  entered :
      redbm ≢ ctx.cbitmask
      → ((bit : ℕ) × HaveBit ctx.cbitmask redbm bit)
      → after ≡ (PurgeAction.purge_partial, ctx)
      → Purged ctx redbm kvcount after

purgekp_outcome :
    (ctx : ViewPurgerCtx) (redbm : List ℕ) (kvcount : ℕ)
    → IsBitmap ctx.cbitmask
    → IsBitmap redbm
    → Purged ctx redbm kvcount (view_purgekp_action ctx.cbitmask redbm kvcount ctx)
unfolding view_purgekp_action
purgekp_outcome ctx redbm kvcount v w = elim (Bool-cases (is_equal_bitmap redbm ctx.cbitmask)) [
  | inl e ↦ taken_out (is_equal_bitmap_same redbm ctx.cbitmask e) (rw e refl)
  | inr e ↦
      let common = intersect_bitmaps ctx.cbitmask redbm in
      let other = is_equal_bitmap_different redbm ctx.cbitmask e in
      elim (Bool-cases (is_equal_bitmap common (replicate 128 0))) [
        | inl z ↦
            left_alone other
              (λ bit.
                intersect-none ctx.cbitmask redbm bit v w
                  (is_equal_bitmap_same common (replicate 128 0) z))
              (rw (e, z) refl)
        | inr z ↦
            entered other
              (intersect-some ctx.cbitmask redbm v w
                (is_equal_bitmap_different common (replicate 128 0) z))
              (rw (e, z) refl)
      ]
]

-- Where the bitmap to be cleared is one of 128 bytes, a subtree whose reduction was encoded, with a
-- count below 2^40, such a bitmap and at most 255 values, is taken out as a whole, and its entries
-- counted modulo 2^64, exactly if its bitmap is the one to be cleared. It is left alone exactly if
-- its bitmap is another one and is_bit_set finds no bit set in both, and is entered otherwise, the
-- count unchanged.
pub purge_kp-Purged :
    (ctx : ViewPurgerCtx) (r : ViewBtreeReduction) (bytes : List ℕ)
    → IsBitmap ctx.cbitmask
    → IsBitmap r.partitions_bitmap
    → encode_view_btree_reduction r ≡ ok bytes
    → r.kv_count < 2 ^ 40
    → length r.reduce_values < 2 ^ 8
    → (after : PurgeAction × ViewPurgerCtx) × (view_btree_purge_kp bytes ctx ≡ ok after)
      × Purged ctx r.partitions_bitmap r.kv_count after
purge_kp-Purged ctx r bytes v w e c few = (
  view_purgekp_action ctx.cbitmask r.partitions_bitmap r.kv_count ctx,
  view_btree_purge_kp-encode ctx r bytes e c w.chunks few,
  purgekp_outcome ctx r.partitions_bitmap r.kv_count v w,
)
