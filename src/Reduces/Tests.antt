-- ===== src/Reduces/Tests.antt =====
-- Three documents in two nodes, one of them deleted.
use couchstore.Base.{ℕ, ◌≡◌, arith, List, [], ◌∷◌, ◌++◌, length, replicate, map}
use couchstore.Bitfield.{ntoh_of_memory, decode_raw, decode_raw32, decode_raw48}
use couchstore.Reduces.{encode_by_id_reduce, is_deleted, leaf_size, by_id_reduce, by_id_rereduce}
use couchstore.Reduces.Totals.{Fits, totals, concat, by_id_rereduce-by_id_reduce}

abbrev live : List ℕ
live = replicate 9 0 ++ (50 ∷ replicate 13 0)

abbrev gone : List ℕ
gone = replicate 9 0 ++ (20 ∷ 128 ∷ replicate 12 0)

abbrev leaves : List (List ℕ)
leaves = live ∷ gone ∷ []

leaves-Fits : Fits (totals leaves)
unfolding totals is_deleted leaf_size decode_raw48 decode_raw ntoh_of_memory decode_raw32
leaves-Fits = record { notdeleted = omega arith; deleted = omega arith; size = omega arith }

abbrev nodes : List (List (List ℕ))
nodes = leaves ∷ (live ∷ []) ∷ []

nodes-Fits : Fits (totals (concat nodes))
unfolding totals concat is_deleted leaf_size decode_raw48 decode_raw ntoh_of_memory decode_raw32
nodes-Fits = record { notdeleted = omega arith; deleted = omega arith; size = omega arith }

by_id_rereduce-by_id_reduce_example :
    by_id_rereduce (map encode_by_id_reduce (map totals nodes)) 2
    ≡ by_id_reduce (concat nodes) (length (concat nodes))
by_id_rereduce-by_id_reduce_example =
    by_id_rereduce-by_id_reduce nodes
      (unfold concat in (omega arith, (omega arith, (omega arith, tt)))) nodes-Fits
