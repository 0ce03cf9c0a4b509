-- ===== src/BTree/Writer/Lengths.antt =====
-- Pushes and moves of src/btree_modify.cc keep the lengths of a couchfile_modify_result right and
-- lose none of its elements.
use couchstore.Base.{
  ◌≡◌, refl, sym, ap, subst, ◌∙◌, List, [], ◌∷◌, Result, ok, err, fault, Error, ◌>>=◌, >>=-ok,
  Option, none, some, ◌++◌, append_assoc, append-nil,
}
use couchstore.NodeTypes.{NodePointer, Item}
use couchstore.File.{FileOps, TreeFile}
use couchstore.Chunk.{Snappy}
use couchstore.BTree.Writer.{
  Entry, ModifyResult, WriteRequest, Outcome, maybe_flush, appended, mr_push_item,
  mr_push_pointerinfo, move_loop, mr_move_pointers, pointer_entry,
}
use couchstore.BTree.Writer.Quota.{IsValid}
use couchstore.BTree.Writer.Delivery.{Delivered, Delivered-nothing, Delivered-then}
use couchstore.BTree.Writer.Flushes.{appended-IsValid, Good, maybe_flush-Good}

module _ (ops : FileOps) (snappy : Snappy) (rq : WriteRequest) where
  pub mr_push_item-Good :
      (file : TreeFile) (item : Item) (dst : ModifyResult)
      → IsValid dst
      → Good ops snappy file
          (appended ops snappy rq dst (record { item = item; pointer = none }))
          (mr_push_item ops snappy rq file item dst)
  unfolding mr_push_item
  mr_push_item-Good file item dst v =
      maybe_flush-Good ops snappy rq file
        (appended ops snappy rq dst (record { item = item; pointer = none }))
        (appended-IsValid ops snappy rq dst (record { item = item; pointer = none }) v)

  pub mr_push_pointerinfo-Good :
      (file : TreeFile) (ptr : NodePointer) (dst : ModifyResult)
      → IsValid dst
      → Good ops snappy file
          (appended ops snappy rq dst (pointer_entry ptr))
          (mr_push_pointerinfo ops snappy rq file ptr dst)
  unfolding mr_push_pointerinfo
  mr_push_pointerinfo-Good file ptr dst v =
      maybe_flush-Good ops snappy rq file (appended ops snappy rq dst (pointer_entry ptr))
        (appended-IsValid ops snappy rq dst (pointer_entry ptr) v)

  -- Whether a loop went through all of the pointers, and all of them came to the result.
  abbrev AllMoved : TreeFile → ModifyResult → List Entry → Result (List Entry × Outcome) → Type 0
  AllMoved start dst ptrs r =
      (p : List Entry × Outcome)
      → r ≡ ok p
      → p.1.error ≡ none
      → (p.0 ≡ [])
        × IsValid p.1.result
        × Delivered ops snappy start dst.node_type (dst.values ++ ptrs) dst.pointers p.1

  none_left :
      (file : TreeFile) (dst : ModifyResult)
      → IsValid dst
      → AllMoved file dst [] (ok ([], record { file = file; result = dst; error = none }))
  none_left file dst v p h e =
      let same : record { file = file; result = dst; error = none } ≡ p.1 = cc in
      let nothing : p.0 ≡ [] = cc in
      subst
        (λ (o : Outcome).
          (p.0 ≡ [])
          × IsValid o.result
          × Delivered ops snappy file dst.node_type (dst.values ++ []) dst.pointers o)
        same
        (
          nothing,
          v,
          subst
              (λ t.
                Delivered ops snappy file dst.node_type t dst.pointers
                  (record { file = file; result = dst; error = none }))
              (sym (append-nil dst.values)) (Delivered-nothing ops snappy file dst),
        )

  move_loop-AllMoved :
      (file : TreeFile) (ptrs : List Entry) (dst : ModifyResult)
      → IsValid dst
      → AllMoved file dst ptrs (move_loop ops snappy rq file ptrs dst)
  unfolding move_loop
  move_loop-AllMoved file [] dst v = none_left file dst v
  move_loop-AllMoved file (ptr ∷ next) dst v =
      by_case (maybe_flush ops snappy rq file (appended ops snappy rq dst ptr))
        (maybe_flush-Good ops snappy rq file (appended ops snappy rq dst ptr)
          (appended-IsValid ops snappy rq dst ptr v))
        (λ moved valid. move_loop-AllMoved moved.file next moved.result valid)
    where
      Rest : Outcome → Type 0
      Rest moved =
          AllMoved moved.file moved.result next
            (move_loop ops snappy rq moved.file next moved.result)

      through :
          (moved : Outcome)
          → Delivered ops snappy file dst.node_type (dst.values ++ ptr ∷ []) dst.pointers moved
          → Rest moved
          → AllMoved file dst (ptr ∷ next) (move_loop ops snappy rq moved.file next moved.result)
      through moved d ih p h e =
          let (nothing, valid, rest) = ih p h e in
          (
            nothing,
            valid,
            subst (λ t. Delivered ops snappy file dst.node_type t dst.pointers p.1)
                (append_assoc dst.values (ptr ∷ []) next)
                (Delivered-then ops snappy file dst.node_type (dst.values ++ ptr ∷ []) dst.pointers
                  next moved p.1 d rest),
          )

      by_error :
          (moved : Outcome) (x : Option Error)
          → x ≡ moved.error
          → (x ≡ none
              → AllMoved file dst
                  (ptr ∷ next)
                  (move_loop ops snappy rq moved.file next moved.result))
          → AllMoved file dst (ptr ∷ next) (elim x [
            | some e ↦ ok (next, moved)
            | none ↦ move_loop ops snappy rq moved.file next moved.result
          ])
      by_error moved (some code) same ih = λ p h e. cc
      by_error moved none same ih = ih refl

      by_case :
          (r : Result Outcome)
          → Good ops snappy file (appended ops snappy rq dst ptr) r
          → ((moved : Outcome) → IsValid moved.result → Rest moved)
          → AllMoved file dst (ptr ∷ next) (
              r >>= λ moved. elim moved.error [
                | some e ↦ ok (next, moved)
                | none ↦ move_loop ops snappy rq moved.file next moved.result
              ])
      by_case (ok moved) g ih =
          by_error moved moved.error refl
            (λ e. through moved (g moved refl e).1 (ih moved (g moved refl e).0))
      by_case (err code) g ih = λ p h e. cc
      by_case fault g ih = λ p h e. cc

  -- If mr_move_pointers ends without an error and the destination's node_len and count were those of
  -- its values, then the source has no pointers left and is otherwise unchanged, and the
  -- destination's node_len and count are again those of its values. The destination's old values and
  -- then all pointers of the source are, in this order, the elements of the nodes that were written
  -- on the way, one after the other, of the destination's type, and then the destination's new
  -- values. Its pointers are the old ones and then one for each of these nodes, with the node's
  -- position and its last key.
  pub mr_move_pointers-Delivered :
      (file : TreeFile) (src dst src' : ModifyResult) (o : Outcome)
      → IsValid dst
      → mr_move_pointers ops snappy rq file src dst ≡ ok (src', o)
      → o.error ≡ none
      → (src' ≡ record src { pointers = [] })
        × IsValid o.result
        × Delivered ops snappy file dst.node_type (dst.values ++ src.pointers) dst.pointers o
  unfolding mr_move_pointers
  mr_move_pointers-Delivered file src dst src' o v h e =
      let (p, run, same) =
        >>=-ok (move_loop ops snappy rq file src.pointers dst)
          (λ (p : List Entry × Outcome). ok (record src { pointers = p.0 }, p.1)) h in
      let out : p.1 ≡ o = cc in
      let (nothing, valid, all) =
        move_loop-AllMoved file src.pointers dst v p run (ap (λ (x : Outcome). x.error) out ∙ e) in
      let first : record src { pointers = p.0 } ≡ src' = cc in
      subst
        (λ (x : Outcome).
          (src' ≡ record src { pointers = [] })
          × IsValid x.result
          × Delivered ops snappy file dst.node_type (dst.values ++ src.pointers) dst.pointers x)
        out (sym first ∙ ap (λ t. record src { pointers = t }) nothing, valid, all)
