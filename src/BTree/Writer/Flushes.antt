-- ===== src/BTree/Writer/Flushes.antt =====
-- Flushes of src/btree_modify.cc keep the lengths of a couchfile_modify_result right and lose no
-- element of it.
use couchstore.Base.{
  ℕ, ◌*◌, ◌/◌, ◌%◌, ◌^◌, suc, ◌+◌, ◌≡◌, refl, ap, subst, arith, ◌==◌, not, ltb, if◌then◌else◌, ◌||◌,
  ◌&&◌, Bool, true, false, List, [], ◌∷◌, ◌++◌, length, length-append, map, Result, ok, err, fault,
  Error, leb, assert, ◌>>◌, none, append-nil, ◌∙◌,
}
use couchstore.NodeTypes.{NodePointer}
use couchstore.NodeTypes.Items.{write_items}
use couchstore.File.{FileOps, TreeFile}
use couchstore.Chunk.{Snappy, Written, db_write_buf_compressed}
use couchstore.BTree.Writer.{
  NodeType, Entry, ModifyResult, WriteRequest, Outcome, entry_size, minus, is_kp, type_byte,
  take_quota, flushed, failed, reduction, add_pointer, write_node, flush_mr_partial, flush_mr,
  threshold, maybe_flush, appended, max_reduction_size, subtree_sizes, final_key,
}
use couchstore.BTree.Writer.Delivery.{Delivered, Delivered-nothing, all_taken, all_pointers}
use couchstore.BTree.Writer.Quota.{total, IsValid, length-write_items}

take_quota-append :
    (y : NodeType) (n quota : ℕ) (es : List Entry)
    → (take_quota y n quota es).0 ++ (take_quota y n quota es).1 ≡ es
unfolding take_quota
take_quota-append y n quota [] = refl
take_quota-append y n quota (e ∷ es) =
    by_case (not (quota == 0) || (ltb n 2 && is_kp y))
      (take_quota y (suc n) (minus quota (entry_size e)) es)
      (take_quota-append y (suc n) (minus quota (entry_size e)) es)
  where
    by_case :
        (b : Bool) (p : List Entry × List Entry)
        → p.0 ++ p.1 ≡ es
        → (if◌then◌else◌ {A = List Entry × List Entry} b (e ∷ p.0, p.1) ([], e ∷ es)).0
            ++ (if◌then◌else◌ {A = List Entry × List Entry} b (e ∷ p.0, p.1) ([], e ∷ es)).1
          ≡ e ∷ es
    by_case true p h = ap (λ t. e ∷ t) h
    by_case false p h = refl

total-append : (xs ys : List Entry) → total (xs ++ ys) ≡ total xs + total ys
unfolding total
total-append [] ys = omega arith
total-append (x ∷ xs) ys = omega (arith, total-append xs ys)

flushed-IsValid :
    (res : ModifyResult) (taken left : List Entry) (ptr : NodePointer)
    → taken ++ left ≡ res.values
    → IsValid res
    → IsValid (flushed res taken left ptr)
unfolding flushed
flushed-IsValid res taken left ptr e v = record {
  node_len =
      omega (arith, v.node_len, ap total e, total-append taken left, length-write_items taken);
  count = omega (arith, v.count, ap (λ (t : List Entry). length t) e, length-append taken left);
}

pub appended-IsValid :
    (ops : FileOps) (snappy : Snappy) (rq : WriteRequest) (res : ModifyResult) (e : Entry)
    → IsValid res
    → IsValid (appended ops snappy rq res e)
unfolding total
appended-IsValid ops snappy rq res e v = record {
  node_len = omega (arith, v.node_len, total-append res.values (e ∷ []));
  count = omega (arith, v.count, length-append res.values (e ∷ []));
}

-- An outcome without an error has a result whose lengths are right, with nothing of `base` lost.
module _ (ops : FileOps) (snappy : Snappy) where
  abbrev pub Good : TreeFile → ModifyResult → Result Outcome → Type 0
  Good start base r =
      (o : Outcome)
      → r ≡ ok o
      → o.error ≡ none
      → IsValid o.result × Delivered ops snappy start base.node_type base.values base.pointers o

  ok-Good :
      (start : TreeFile) (base : ModifyResult) (o : Outcome)
      → IsValid o.result
      → Delivered ops snappy start base.node_type base.values base.pointers o
      → Good start base (ok o)
  ok-Good start base o v d o' h e =
      subst
        (λ (t : Outcome).
          IsValid t.result × Delivered ops snappy start base.node_type base.values base.pointers t)
        (cc) (v, d)

  err-Good :
      (start : TreeFile) (base : ModifyResult) (file : TreeFile) (res : ModifyResult)
      (taken : List Entry) (code : Error)
      → Good start base (ok (failed file res taken code))
  err-Good start base file res taken code o h e = cc

  fault-Good : (start : TreeFile) (base : ModifyResult) → Good start base fault
  fault-Good start base o h e = cc

  if-Good :
      (start : TreeFile) (base : ModifyResult) (b : Bool) (x y : Result Outcome)
      → Good start base x
      → Good start base y
      → Good start base (if b then x else y)
  if-Good start base true x y g h = g
  if-Good start base false x y g h = h

  unchanged-Good :
      (file : TreeFile) (res : ModifyResult)
      → IsValid res
      → Good file res (ok (record { file = file; result = res; error = none }))
  unchanged-Good file res v =
      ok-Good file res (record { file = file; result = res; error = none }) v
        (Delivered-nothing ops snappy file res)

module _ (ops : FileOps) (snappy : Snappy) (rq : WriteRequest) where
  add_pointer-Good :
      (file : TreeFile) (res : ModifyResult) (taken left : List Entry) (w : Written)
      → db_write_buf_compressed ops snappy file
          (type_byte res.node_type ∷ write_items (map (λ (x : Entry). x.item) taken))
        ≡ ok w
      → taken ++ left ≡ res.values
      → IsValid res
      → Good ops snappy file res (add_pointer rq res taken left w)
  unfolding add_pointer flushed all_taken all_pointers
  add_pointer-Good file res taken left w written e v =
      by_case (reduction rq res.node_type res.values (length taken))
    where
      ptr : List ℕ → NodePointer
      ptr reduced = record {
        key = final_key taken;
        pointer = w.pos;
        reduce_value = reduced;
        subtreesize = (subtree_sizes taken + w.disk_size) % 2 ^ 64;
      }

      after : List ℕ → Outcome
      after reduced = record {
        file = w.file;
        result = flushed res taken left (ptr reduced);
        error = none;
      }

      delivered :
          (reduced : List ℕ)
          → Delivered ops snappy file res.node_type res.values res.pointers (after reduced)
      delivered reduced = record {
        nodes =
            record {
              node_type = res.node_type;
              taken = taken;
              pointer = ptr reduced;
              before = file;
              written = w;
              is_written = written;
              position = refl;
              last_key = refl;
            }
            ∷ [];
        node_type = refl;
        elements = ap (λ t. t ++ left) (append-nil taken) ∙ e;
        pointers = refl;
        chain = (refl, refl, refl);
      }

      tested :
          (b : Bool) (reduced : List ℕ) → Good ops snappy file res (assert b >> ok (after reduced))
      tested true reduced =
          ok-Good ops snappy file res (after reduced)
            (flushed-IsValid res taken left (ptr reduced) e v) (delivered reduced)
      tested false reduced = fault-Good ops snappy file res

      by_case :
          (r : Result (List ℕ))
          → Good ops snappy file res (elim r [
            | fault ↦ fault
            | err code ↦ ok (failed w.file res taken code)
            | ok reduced ↦ (assert (leb (length reduced) max_reduction_size) >> ok (after reduced))
          ])
      by_case (ok reduced) = tested (leb (length reduced) max_reduction_size) reduced
      by_case (err code) = err-Good ops snappy file res w.file res taken code
      by_case fault = fault-Good ops snappy file res

  write_node-Good :
      (file : TreeFile) (res : ModifyResult) (p : List Entry × List Entry)
      → p.0 ++ p.1 ≡ res.values
      → IsValid res
      → Good ops snappy file res (write_node ops snappy rq file res p)
  unfolding write_node
  write_node-Good file res p e v =
      by_case
        (db_write_buf_compressed ops snappy file
          (type_byte res.node_type ∷ write_items (map (λ (x : Entry). x.item) p.0)))
        refl
    where
      by_case :
          (r : Result Written)
          → db_write_buf_compressed ops snappy file
              (type_byte res.node_type ∷ write_items (map (λ (x : Entry). x.item) p.0))
            ≡ r
          → Good ops snappy file res (elim r [
            | fault ↦ fault
            | err code ↦ ok (failed file res p.0 code)
            | ok w ↦ add_pointer rq res p.0 p.1 w
          ])
      by_case (ok w) written = add_pointer-Good file res p.0 p.1 w written e v
      by_case (err code) written = err-Good ops snappy file res file res p.0 code
      by_case fault written = fault-Good ops snappy file res

  flush_mr_partial-Good :
      (file : TreeFile) (res : ModifyResult) (quota : ℕ)
      → IsValid res
      → Good ops snappy file res (flush_mr_partial ops snappy rq file res quota)
  unfolding flush_mr_partial
  flush_mr_partial-Good file res quota v =
      if-Good ops snappy file res (length res.values == 0 || not res.modified) _ _
        (unchanged-Good ops snappy file res v)
        (write_node-Good file res (take_quota res.node_type 0 quota res.values)
          (take_quota-append res.node_type 0 quota res.values) v)

  pub maybe_flush-Good :
      (file : TreeFile) (res : ModifyResult)
      → IsValid res
      → Good ops snappy file res (maybe_flush ops snappy rq file res)
  unfolding maybe_flush flush_mr
  maybe_flush-Good file res v =
      let keep = unchanged-Good ops snappy file res v in
      if-Good ops snappy file res rq.compacting _ _
        (if-Good ops snappy file res
          (res.modified && ltb (threshold ops snappy rq res.node_type * 2 / 3) res.node_len) _ _
          (flush_mr_partial-Good file res res.node_len v) keep)
        (if-Good ops snappy file res
          (res.modified
            && ltb 3 res.count
            && ltb (threshold ops snappy rq res.node_type) res.node_len)
          _ _ (flush_mr_partial-Good file res (threshold ops snappy rq res.node_type * 2 / 3) v)
          keep)
