-- ===== src/BTree/Writer/Delivery.antt =====
-- What became of the elements of a couchfile_modify_result of src/btree_modify.cc: the nodes that
-- were written of them, and those that still wait.
use couchstore.Base.{
  ◌≡◌, refl, sym, ap, ◌∙◌, List, [], ◌∷◌, ◌++◌, append_assoc, append-nil, map, subst, none, ok,
}
use couchstore.NodeTypes.{NodePointer}
use couchstore.NodeTypes.Items.{write_items}
use couchstore.File.{FileOps, TreeFile}
use couchstore.Chunk.{Snappy, Written, db_write_buf_compressed}
use couchstore.BTree.Writer.{
  Entry, ModifyResult, NodeType, Outcome, pointer_entry, type_byte, final_key,
}

module _ (ops : FileOps) (snappy : Snappy) where
  -- A node of these elements was written to the file, and this is its pointer.
  pub record Node : Type 0 where
    pub node_type : NodeType
    pub taken : List Entry
    pub pointer : NodePointer
    pub before : TreeFile
    pub written : Written
    pub is_written :
        db_write_buf_compressed ops snappy before
          (type_byte node_type ∷ write_items (map (λ (e : Entry). e.item) taken))
        ≡ ok written
    pub position : pointer.pointer ≡ written.pos
    pub last_key : pointer.key ≡ final_key taken

  -- The elements of all nodes, and their pointers.
  unfoldable pub all_taken : List Node → List Entry
  all_taken [] = []
  all_taken (n ∷ nodes) = n.taken ++ all_taken nodes

  unfoldable pub all_pointers : List Node → List Entry
  all_pointers [] = []
  all_pointers (n ∷ nodes) = pointer_entry n.pointer ∷ all_pointers nodes

  -- Each node is of this type and was written to the file that the one before left behind.
  abbrev pub IsChain : NodeType → TreeFile → List Node → TreeFile → Type 0
  IsChain y start [] end = start ≡ end
  IsChain y start (n ∷ nodes) end =
      (n.node_type ≡ y) × (n.before ≡ start) × IsChain y n.written.file nodes end

  all_taken-append : (xs ys : List Node) → all_taken (xs ++ ys) ≡ all_taken xs ++ all_taken ys
  unfolding all_taken
  all_taken-append [] ys = refl
  all_taken-append (x ∷ xs) ys =
      ap (λ t. x.taken ++ t) (all_taken-append xs ys)
      ∙ sym (append_assoc x.taken (all_taken xs) (all_taken ys))

  all_pointers-append :
      (xs ys : List Node) → all_pointers (xs ++ ys) ≡ all_pointers xs ++ all_pointers ys
  unfolding all_pointers
  all_pointers-append [] ys = refl
  all_pointers-append (x ∷ xs) ys =
      ap (λ t. pointer_entry x.pointer ∷ t) (all_pointers-append xs ys)

  IsChain-append :
      (y : NodeType) (xs ys : List Node) (start mid end : TreeFile)
      → IsChain y start xs mid
      → IsChain y mid ys end
      → IsChain y start (xs ++ ys) end
  IsChain-append y [] ys start mid end c d = subst (λ (f : TreeFile). IsChain y f ys end) (sym c) d
  IsChain-append y (x ∷ xs) ys start mid end c d =
      (c.0, c.1, IsChain-append y xs ys x.written.file mid end c.2 d)

  -- These elements are, in their order, those of new nodes of this type and those that the outcome
  -- still has, and the pointers of the new nodes follow the old ones.
  pub record Delivered (start : TreeFile) (y : NodeType) (all old : List Entry) (o : Outcome)
      : Type 0 where
    pub nodes : List Node
    pub node_type : o.result.node_type ≡ y
    pub elements : all_taken nodes ++ o.result.values ≡ all
    pub pointers : o.result.pointers ≡ old ++ all_pointers nodes
    pub chain : IsChain y start nodes o.file

  pub Delivered-nothing :
      (file : TreeFile) (res : ModifyResult)
      → Delivered file res.node_type res.values res.pointers
          (record { file = file; result = res; error = none })
  unfolding all_taken all_pointers
  Delivered-nothing file res = record {
    nodes = [];
    node_type = refl;
    elements = refl;
    pointers = sym (append-nil res.pointers);
    chain = refl;
  }

  -- More elements after those of an outcome.
  pub Delivered-then :
      (start : TreeFile) (y : NodeType) (all old next : List Entry) (mid end : Outcome)
      → Delivered start y all old mid
      → Delivered mid.file mid.result.node_type (mid.result.values ++ next) mid.result.pointers end
      → Delivered start y (all ++ next) old end
  unfolding all_taken
  Delivered-then start y all old next mid end d d' = record {
    nodes = d.nodes ++ d'.nodes;
    node_type = d'.node_type ∙ d.node_type;
    elements =
        ap (λ t. t ++ end.result.values) (all_taken-append d.nodes d'.nodes)
        ∙ append_assoc (all_taken d.nodes) (all_taken d'.nodes) end.result.values
        ∙ ap (λ t. all_taken d.nodes ++ t) d'.elements
        ∙ sym (append_assoc (all_taken d.nodes) mid.result.values next)
        ∙ ap (λ t. t ++ next) d.elements;
    pointers =
        d'.pointers
        ∙ ap (λ t. t ++ all_pointers d'.nodes) d.pointers
        ∙ append_assoc old (all_pointers d.nodes) (all_pointers d'.nodes)
        ∙ ap (λ t. old ++ t) (sym (all_pointers-append d.nodes d'.nodes));
    chain =
        IsChain-append y d.nodes d'.nodes start mid.file end.file d.chain
          (subst (λ t. IsChain t mid.file d'.nodes end.file) d.node_type d'.chain);
  }
