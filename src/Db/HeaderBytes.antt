-- ===== src/Db/HeaderBytes.antt =====
-- A header's bytes give the header back.
use couchstore.Base.{
  ℕ, ◌+◌, ◌%◌, ◌^◌, ◌≤◌, ◌<◌, ◌≡◌, refl, sym, ap, ◌∙◌, arith, List, [], ◌++◌, length, length-append,
  drop, drop-add, drop-append_length, ok, Option, none, some, append-nil,
}
use couchstore.Bitfield.{
  encode_raw08, encode_raw16, encode_raw48, decode_raw08, decode_raw16, decode_raw48,
}
use couchstore.Bitfield.Widths.{
  length-encode_raw08, length-encode_raw16, length-encode_raw48, drop-encode_raw08,
  decode-encode_raw08, decode-encode_raw16, decode-encode_raw48,
}
use couchstore.NodeTypes.{NodePointer, read_root, encode_root}
use couchstore.NodeTypes.Roots.{root_size, stored_root, length-encode_root, read_root-encode_root}
use couchstore.Db.{DbHeader, read_db_root, parse_header, header_bytes}

-- A root that a header at `position` can hold: its size fits its field, and it lies below.
abbrev pub RootFits : ℕ → Option NodePointer → Type 0
RootFits position none = Unit
RootFits position (some p) = (p.pointer % 2 ^ 48 < position) × (12 + length p.reduce_value < 2 ^ 16)

-- A header that can be written at `position` and read back.
pub record Storable (position : ℕ) (h : DbHeader) : Type 0 where
  pub by_seq : RootFits position h.by_seq_root
  pub by_id : RootFits position h.by_id_root
  pub local_docs : RootFits position h.local_docs_root
  pub purge : h.purge_ptr % 2 ^ 48 ≤ position

-- What the file keeps of a header that is written at `position`.
unfoldable pub stored_header : ℕ → DbHeader → DbHeader
stored_header position h = record {
  disk_version = 11;
  update_seq = h.update_seq % 2 ^ 48;
  by_id_root = stored_root h.by_id_root;
  by_seq_root = stored_root h.by_seq_root;
  local_docs_root = stored_root h.local_docs_root;
  purge_seq = h.purge_seq % 2 ^ 48;
  purge_ptr = h.purge_ptr % 2 ^ 48;
  position = position;
}

root_size_lt :
    (position : ℕ) (root : Option NodePointer)
    → RootFits position root
    → root_size root % 2 ^ 16 ≡ root_size root
unfolding root_size
root_size_lt position none f = refl
root_size_lt position (some p) f = omega (arith, f.1)

read_db_root_found :
    (position : ℕ) (buf : List ℕ) (size : ℕ) {p : NodePointer}
    → 12 ≤ size
    → read_root buf size ≡ ok (some p)
    → p.pointer < position
    → read_db_root position buf size ≡ ok (some p)
unfolding read_db_root
read_db_root_found position buf size h e lt = ground arith

read_db_root-encode_root :
    (position : ℕ) (root : Option NodePointer) (rest : List ℕ)
    → RootFits position root
    → read_db_root position (encode_root root ++ rest) (root_size root) ≡ ok (stored_root root)
unfolding read_db_root root_size stored_root
read_db_root-encode_root position none rest f = refl
read_db_root-encode_root position (some p) rest f =
    read_db_root_found position (encode_root (some p) ++ rest) (12 + length p.reduce_value)
      (omega arith) (read_root-encode_root (some p) rest) f.0

parse_fields :
    (pos : ℕ) (buf : List ℕ) (u q p s i l : ℕ) (rs ri rl : Option NodePointer)
    → length buf ≡ 25 + s + i + l
    → decode_raw08 buf ≡ 11
    → decode_raw48 (drop 1 buf) ≡ u
    → decode_raw48 (drop 7 buf) ≡ q
    → decode_raw48 (drop 13 buf) ≡ p
    → p ≤ pos
    → decode_raw16 (drop 19 buf) ≡ s
    → decode_raw16 (drop 21 buf) ≡ i
    → decode_raw16 (drop 23 buf) ≡ l
    → read_db_root pos (drop 25 buf) s ≡ ok rs
    → read_db_root pos (drop s (drop 25 buf)) i ≡ ok ri
    → read_db_root pos (drop i (drop s (drop 25 buf))) l ≡ ok rl
    → parse_header pos buf
      ≡ ok (record {
        disk_version = 11;
        update_seq = u;
        by_id_root = ri;
        by_seq_root = rs;
        local_docs_root = rl;
        purge_seq = q;
        purge_ptr = p;
        position = pos;
      })
unfolding parse_header
parse_fields pos buf u q p s i l rs ri rl len v eu eq ep le es ei el er ei' el' = ground arith

-- A field behind the part of a buffer that has been read.
next_field :
    (n k : ℕ) (buf field rest : List ℕ)
    → drop n buf ≡ field ++ rest
    → length field ≡ k
    → drop (n + k) buf ≡ rest
next_field n k buf field rest e h =
    drop-add n k buf ∙ ap (drop k) e ∙ drop-append_length k field rest h

fixed_length :
    (a b c d e f g t : List ℕ)
    → length a ≡ 1
    → length b ≡ 6
    → length c ≡ 6
    → length d ≡ 6
    → length e ≡ 2
    → length f ≡ 2
    → length g ≡ 2
    → length (a ++ (b ++ (c ++ (d ++ (e ++ (f ++ (g ++ t))))))) ≡ 25 + length t
fixed_length a b c d e f g t ha hb hc hd he hf hg = omega (
  arith,
  length-append a (b ++ (c ++ (d ++ (e ++ (f ++ (g ++ t)))))),
  length-append b (c ++ (d ++ (e ++ (f ++ (g ++ t))))),
  length-append c (d ++ (e ++ (f ++ (g ++ t)))),
  length-append d (e ++ (f ++ (g ++ t))),
  length-append e (f ++ (g ++ t)),
  length-append f (g ++ t),
  length-append g t,
)

pub length-header_bytes :
    (h : DbHeader)
    → length (header_bytes h)
      ≡ 25 + root_size h.by_seq_root + root_size h.by_id_root + root_size h.local_docs_root
unfolding header_bytes
length-header_bytes h =
    let roots =
      encode_root h.by_seq_root ++ (encode_root h.by_id_root ++ encode_root h.local_docs_root) in
    fixed_length (encode_raw08 11) _ _ _ _ _ _ roots (length-encode_raw08 11)
      (length-encode_raw48 h.update_seq) (length-encode_raw48 h.purge_seq)
      (length-encode_raw48 h.purge_ptr) (length-encode_raw16 (root_size h.by_seq_root))
      (length-encode_raw16 (root_size h.by_id_root))
      (length-encode_raw16 (root_size h.local_docs_root))
    ∙ omega (
      arith,
      length-append (encode_root h.by_seq_root)
          (encode_root h.by_id_root ++ encode_root h.local_docs_root),
      length-append (encode_root h.by_id_root) (encode_root h.local_docs_root),
      length-encode_root h.by_seq_root,
      length-encode_root h.by_id_root,
      length-encode_root h.local_docs_root,
    )

-- The bytes of a header whose roots lie below its position and fit their fields give the header
-- back, its numbers modulo 2^48, its roots as they are stored, and the version and position set.
pub parse_header-header_bytes :
    (pos : ℕ) (h : DbHeader)
    → Storable pos h
    → parse_header pos (header_bytes h) ≡ ok (stored_header pos h)
unfolding header_bytes stored_header
parse_header-header_bytes pos h f =
    let s = h.by_seq_root in
    let i = h.by_id_root in
    let l = h.local_docs_root in
    let t9 = encode_root l in
    let t8 = encode_root i ++ t9 in
    let t7 = encode_root s ++ t8 in
    let t6 = encode_raw16 (root_size l) ++ t7 in
    let t5 = encode_raw16 (root_size i) ++ t6 in
    let t4 = encode_raw16 (root_size s) ++ t5 in
    let t3 = encode_raw48 h.purge_ptr ++ t4 in
    let t2 = encode_raw48 h.purge_seq ++ t3 in
    let t1 = encode_raw48 h.update_seq ++ t2 in
    let buf = encode_raw08 11 ++ t1 in
    let at1 : drop 1 buf ≡ t1 = drop-encode_raw08 11 t1 in
    let at7 : drop 7 buf ≡ t2 =
      next_field 1 6 buf (encode_raw48 h.update_seq) t2 at1 (length-encode_raw48 h.update_seq) in
    let at13 : drop 13 buf ≡ t3 =
      next_field 7 6 buf (encode_raw48 h.purge_seq) t3 at7 (length-encode_raw48 h.purge_seq) in
    let at19 : drop 19 buf ≡ t4 =
      next_field 13 6 buf (encode_raw48 h.purge_ptr) t4 at13 (length-encode_raw48 h.purge_ptr) in
    let at21 : drop 21 buf ≡ t5 =
      next_field 19 2 buf (encode_raw16 (root_size s)) t5 at19
        (length-encode_raw16 (root_size s)) in
    let at23 : drop 23 buf ≡ t6 =
      next_field 21 2 buf (encode_raw16 (root_size i)) t6 at21
        (length-encode_raw16 (root_size i)) in
    let at25 : drop 25 buf ≡ t7 =
      next_field 23 2 buf (encode_raw16 (root_size l)) t7 at23
        (length-encode_raw16 (root_size l)) in
    let at_id : drop (root_size s) (drop 25 buf) ≡ t8 =
      ap (drop (root_size s)) at25
      ∙ drop-append_length (root_size s) (encode_root s) t8 (length-encode_root s) in
    let at_local : drop (root_size i) (drop (root_size s) (drop 25 buf)) ≡ t9 =
      ap (drop (root_size i)) at_id
      ∙ drop-append_length (root_size i) (encode_root i) t9 (length-encode_root i) in
    parse_fields pos buf (h.update_seq % 2 ^ 48) (h.purge_seq % 2 ^ 48) (h.purge_ptr % 2 ^ 48)
      (root_size s) (root_size i) (root_size l) (stored_root s) (stored_root i) (stored_root l)
      (unfold header_bytes in length-header_bytes h) (decode-encode_raw08 11 t1)
      (ap decode_raw48 at1 ∙ decode-encode_raw48 h.update_seq t2)
      (ap decode_raw48 at7 ∙ decode-encode_raw48 h.purge_seq t3)
      (ap decode_raw48 at13 ∙ decode-encode_raw48 h.purge_ptr t4) f.purge
      (ap decode_raw16 at19 ∙ decode-encode_raw16 (root_size s) t5 ∙ root_size_lt pos s f.by_seq)
      (ap decode_raw16 at21 ∙ decode-encode_raw16 (root_size i) t6 ∙ root_size_lt pos i f.by_id)
      (ap decode_raw16 at23
        ∙ decode-encode_raw16 (root_size l) t7
        ∙ root_size_lt pos l f.local_docs)
      (ap (λ (x : List ℕ). read_db_root pos x (root_size s)) at25
        ∙ read_db_root-encode_root pos s t8 f.by_seq)
      (ap (λ (x : List ℕ). read_db_root pos x (root_size i)) at_id
        ∙ read_db_root-encode_root pos i t9 f.by_id)
      (ap (λ (x : List ℕ). read_db_root pos x (root_size l)) (at_local ∙ sym (append-nil t9))
        ∙ read_db_root-encode_root pos l [] f.local_docs)
