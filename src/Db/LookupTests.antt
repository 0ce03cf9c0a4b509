-- ===== src/Db/LookupTests.antt =====
-- Lookups and iterations in the two sample trees.
use couchstore.Base.{
  ℕ, ◌≡◌, refl, arith, leb, ◌&&◌, not, true, false, List, [], ◌∷◌, map, Result, ok, Option, none,
  some,
}
use couchstore.Base.Order.{Cmp, less, equal, greater}
use couchstore.Bitfield.{
  encode_raw48, encode_raw, decode_raw48, decode_raw, memory_of_hton, ntoh_of_memory,
}
use couchstore.KeyOrder.{ebin_cmp, memcmp, lexicographic, seq_cmp-IsComparator, seq_cmp}
use couchstore.NodeTypes.{decode_sequence_key}
use couchstore.File.Memory.{memory_ops}
use couchstore.BTree.Lookup.{LookupRequest, btree_lookup, not_below}
use couchstore.BTree.Lookup.Answers.{find_item, answers}
use couchstore.BTree.Lookup.Folds.{walk}
use couchstore.BTree.Stored.{btree_lookup-answers}
use couchstore.BTree.Stored.Walk.{btree_lookup-walk}
use couchstore.BTree.Stored.Missing.{btree_lookup-missing}
use couchstore.Db.DocInfo.{
  DocInfo, id_item, seq_item, assemble_id_index_value, assemble_seq_index_value, by_id_read_docinfo,
  by_seq_read_docinfo,
}
use couchstore.Db.DocInfo.RoundTrip.{
  by_id_read_docinfo-assemble_id_index_value, by_seq_read_docinfo-assemble_seq_index_value,
}
use couchstore.Db.Lookups.{docinfo_by_id, found, is_left_out, has_option}
use couchstore.Db.Lookups.Stored.{find_document, docinfo_by_id-stored}
use couchstore.Db.Iterate.{changes_since, all_docs, docinfos_by_id}
use couchstore.Db.Iterate.Shown.{show_each}
use couchstore.Db.Iterate.Stored.{changes_since-stored, all_docs-stored}
use couchstore.Db.Iterate.Infos.{show_found, docinfos_by_id-stored}
use couchstore.Db.Count.{changes_count}
use couchstore.Db.Count.Stored.{count_changes, changes_count-stored}
use couchstore.Db.Samples.{stored, sample, disk, doc_a, doc_b, doc_c, id_leaf, seq_node, root_at}
use couchstore.Db.SampleTrees.{
  id_IsLeaf, id_tree, seq_tree, counted_tree, a_IsStorable, b_IsStorable, c_IsStorable,
}

abbrev docs : List DocInfo
docs = doc_a ∷ doc_b ∷ doc_c ∷ []

-- Each answer is added to a list.
abbrev note : List (List ℕ) → List ℕ → Option (List ℕ) → Result (List (List ℕ))
note seen k none = ok (k ∷ seen)
note seen k (some v) = ok (v ∷ seen)

abbrev by_id_request : LookupRequest (List (List ℕ))
by_id_request = record { compare = ebin_cmp; fetch_callback = note; node_callback = none }

abbrev by_seq_request : LookupRequest (List (List ℕ))
by_seq_request = record { compare = seq_cmp; fetch_callback = note; node_callback = none }

abbrev two_keys : List (List ℕ)
two_keys = encode_raw48 3 ∷ encode_raw48 9 ∷ []

btree_lookup-answers_example :
    btree_lookup by_seq_request memory_ops stored disk 2 seq_node.pos two_keys false []
    ≡ answers seq_cmp note (map seq_item docs) two_keys []
unfolding seq_cmp decode_sequence_key decode_raw48 decode_raw ntoh_of_memory encode_raw48 encode_raw
    memory_of_hton seq_item find_item
btree_lookup-answers_example =
    btree_lookup-answers by_seq_request seq_cmp-IsComparator refl memory_ops stored disk 2 2
      seq_node.pos (map seq_item docs) two_keys [] (omega arith) seq_tree
      (record {
        sorted = ((refl, tt), (tt, tt));
        no_empty = (omega arith, (omega arith, tt));
        present = ((seq_item doc_b, refl), tt);
      })

btree_lookup-walk_example :
    btree_lookup by_seq_request memory_ops stored disk 3 seq_node.pos (encode_raw48 3 ∷ []) true []
    ≡ walk by_seq_request (encode_raw48 3) (map seq_item docs) []
btree_lookup-walk_example =
    btree_lookup-walk by_seq_request (encode_raw48 3) seq_cmp-IsComparator refl memory_ops stored
      disk 2 3 seq_node.pos (map seq_item docs) [] (omega arith) seq_tree

-- The id 98 is there, and is not found after the id 97 0.
btree_lookup-missing_example :
    btree_lookup by_id_request memory_ops stored disk 1 id_leaf.pos
      ((97 ∷ 0 ∷ []) ∷ (98 ∷ []) ∷ [])
      false
      []
    ≡ answers ebin_cmp note [] ((97 ∷ 0 ∷ []) ∷ (98 ∷ []) ∷ []) []
unfolding ebin_cmp memcmp id_item
btree_lookup-missing_example =
    btree_lookup-missing by_id_request memory_ops stored disk 0 id_leaf.pos (map id_item docs)
      (97 ∷ 0 ∷ []) ((98 ∷ []) ∷ []) [] id_IsLeaf (omega arith)
      ((λ e. cc), ((λ e. cc), ((λ e. cc), tt)))

docinfo_by_id-stored_example :
    docinfo_by_id memory_ops stored 1 sample (98 ∷ []) none ≡ found (find_document (98 ∷ []) docs)
docinfo_by_id-stored_example =
    docinfo_by_id-stored memory_ops stored 1 sample refl 1 (root_at id_leaf) docs (98 ∷ []) none
      refl (omega arith) id_tree (a_IsStorable, (b_IsStorable, (c_IsStorable, tt))) (omega arith)

abbrev list_ids : List (List ℕ) → DocInfo → Result (List (List ℕ))
list_ids seen d = ok (d.id ∷ seen)

changes_since-stored_example :
    changes_since memory_ops stored 2 sample 3 4 list_ids []
    ≡ show_each (λ d. leb 3 d.db_seq && not (is_left_out 4 d)) list_ids docs []
changes_since-stored_example =
    changes_since-stored memory_ops stored 2 sample 4 list_ids refl 2 (root_at seq_node) docs 3 []
      refl (omega arith) seq_tree (a_IsStorable, (b_IsStorable, (c_IsStorable, tt))) (omega arith)

all_docs-stored_example :
    all_docs memory_ops stored 2 sample (98 ∷ []) 0 list_ids []
    ≡ show_each
        (λ d. not_below (lexicographic d.id (98 ∷ [])) && not (is_left_out 0 d))
        list_ids
        docs
        []
all_docs-stored_example =
    all_docs-stored memory_ops stored 2 sample 0 list_ids refl 1 (root_at id_leaf) docs (98 ∷ []) []
      refl (omega arith) id_tree
      (
        (a_IsStorable, omega arith),
        ((b_IsStorable, omega arith), ((c_IsStorable, omega arith), tt)),
      )

-- An insertion sort.
unfoldable insert : (List ℕ → List ℕ → Cmp) → List ℕ → List (List ℕ) → List (List ℕ)
insert compare k [] = k ∷ []
insert compare k (k' ∷ ks) = elim (compare k k') [
  | less ↦ k ∷ k' ∷ ks
  | equal ↦ k ∷ k' ∷ ks
  | greater ↦ k' ∷ insert compare k ks
]

unfoldable insertion_sort : (List ℕ → List ℕ → Cmp) → List (List ℕ) → List (List ℕ)
insertion_sort compare [] = []
insertion_sort compare (k ∷ ks) = insert compare k (insertion_sort compare ks)

docinfos_by_id-stored_example :
    docinfos_by_id memory_ops stored 1 sample insertion_sort
      ((98 ∷ 98 ∷ []) ∷ (97 ∷ []) ∷ [])
      0
      list_ids
      []
    ≡ show_found list_ids docs (insertion_sort ebin_cmp ((98 ∷ 98 ∷ []) ∷ (97 ∷ []) ∷ [])) []
unfolding insertion_sort insert ebin_cmp memcmp id_item find_item
docinfos_by_id-stored_example =
    docinfos_by_id-stored list_ids memory_ops stored 1 sample refl insertion_sort 1
      (root_at id_leaf) docs (98 ∷ 98 ∷ []) ((97 ∷ []) ∷ []) 0 [] refl (omega arith) id_tree
      (a_IsStorable, (b_IsStorable, (c_IsStorable, tt))) (unfold has_option in refl)
      (record {
        sorted = ((refl, tt), (tt, tt));
        no_empty = (omega arith, (omega arith, tt));
        present = ((id_item doc_a, refl), tt);
      })

changes_count-stored_example :
    changes_count memory_ops stored 2 sample 3 7 ≡ ok (count_changes 3 7 docs)
unfolding count_changes
changes_count-stored_example =
    changes_count-stored memory_ops stored 2 sample 2 (root_at seq_node) docs 3 7 refl (omega arith)
      counted_tree (a_IsStorable, (b_IsStorable, (c_IsStorable, tt))) (omega arith) (omega arith)
      (omega arith)

by_id_read_docinfo-assemble_id_index_value_example :
    by_id_read_docinfo (99 ∷ []) (assemble_id_index_value doc_c) ≡ ok doc_c
by_id_read_docinfo-assemble_id_index_value_example =
    by_id_read_docinfo-assemble_id_index_value doc_c c_IsStorable

by_seq_read_docinfo-assemble_seq_index_value_example :
    by_seq_read_docinfo (encode_raw48 7) (assemble_seq_index_value doc_c) ≡ ok doc_c
by_seq_read_docinfo-assemble_seq_index_value_example =
    by_seq_read_docinfo-assemble_seq_index_value doc_c c_IsStorable
