-- ===== src/Db/DocInfo/RoundTrip.antt =====
-- What couch_save.cc wrote for the indexes, couch_db.cc reads.
use Prim.Native.Nat.{bit_or}
use couchstore.Base.{
  ℕ, ◌+◌, ◌-◌, ◌^◌, ◌%◌, ◌<◌, ◌≡◌, refl, ap, sym, ◌∙◌, arith, leb, if◌then◌else◌, Bool, true, false,
  List, [], ◌++◌, length, length-append, drop-append_length, drop-next, take-append_length,
  append-nil, ok,
}
use couchstore.Base.Flags.{
  all_but, bit_or-zero, bit_or-flag, bit_and-flag_unset, bit_and-flag_set, bit_and-all_but_unset,
  bit_and-all_but_set,
}
use couchstore.Bitfield.{encode_raw08, encode_raw32, encode_raw48, decode_raw48}
use couchstore.Bitfield.Widths.{
  length-encode_raw08, length-encode_raw32, length-encode_raw48, decode-encode_raw08,
  decode-encode_raw32, decode-encode_raw48,
}
use couchstore.NodeTypes.{encode_kv_length, decode_sequence_key}
use couchstore.NodeTypes.Lengths.{length-encode_kv_length, decode-encode_kv_length}
use couchstore.Db.DocInfo.{
  DocInfo, flagged_bp, plain_bp, has_deleted_flag, assemble_seq_index_value,
  assemble_id_index_value, by_seq_read_docinfo, by_id_read_docinfo,
}

-- The fields of a document info fit in the fields of both values.
pub record IsStorable (d : DocInfo) : Type 0 where
  pub id : length d.id < 2 ^ 12
  pub db_seq : d.db_seq < 2 ^ 48
  pub rev_seq : d.rev_seq < 2 ^ 48
  pub content_meta : d.content_meta < 256
  pub bp : d.bp < 2 ^ 47
  pub size : d.size < 2 ^ 28

-- A number and its bit 47, set or not.
flagged : (deleted : Bool) (bp : ℕ) → ℕ
flagged true bp = bp + 2 ^ 47
flagged false bp = bp

flagged_bp-eq : (d : DocInfo) → d.bp < 2 ^ 47 → flagged_bp d ≡ flagged d.deleted d.bp
unfolding flagged_bp flagged
flagged_bp-eq d h = by_case d.deleted d.bp h
  where
    by_case : (b : Bool) (bp : ℕ) → bp < 2 ^ 47 → bit_or bp (if b then 2 ^ 47 else 0) ≡ flagged b bp
    by_case true bp small = bit_or-flag 47 bp small
    by_case false bp small = bit_or-zero bp

flagged-small : (b : Bool) (bp : ℕ) → bp < 2 ^ 47 → flagged b bp % 2 ^ 48 ≡ flagged b bp
unfolding flagged
flagged-small true bp h = omega arith
flagged-small false bp h = omega arith

has_deleted_flag-flagged : (b : Bool) (bp : ℕ) → bp < 2 ^ 47 → has_deleted_flag (flagged b bp) ≡ b
unfolding has_deleted_flag flagged
has_deleted_flag-flagged true bp h = rw (bit_and-flag_set 47 bp h) refl
has_deleted_flag-flagged false bp h = rw (bit_and-flag_unset 47 bp h) refl

plain_bp-flagged : (b : Bool) (bp : ℕ) → bp < 2 ^ 47 → plain_bp (flagged b bp) ≡ bp
unfolding plain_bp flagged all_but
plain_bp-flagged true bp h = bit_and-all_but_set 47 (2 ^ 16 - 1) bp h
plain_bp-flagged false bp h = bit_and-all_but_unset 47 (2 ^ 16 - 1) bp h

-- What comes back from the field for the position of a document's body.
bp_read :
    (d : DocInfo) (rest : List ℕ)
    → IsStorable d
    → decode_raw48 (encode_raw48 (flagged_bp d) ++ rest) ≡ flagged d.deleted d.bp
bp_read d rest st =
    decode-encode_raw48 (flagged_bp d) rest
    ∙ ap (λ (t : ℕ). t % 2 ^ 48) (flagged_bp-eq d st.bp)
    ∙ flagged-small d.deleted d.bp st.bp

-- For a document info whose fields fit, reading the value that the index by id holds for it, under
-- its id, gives the info back.
pub by_id_read_docinfo-assemble_id_index_value :
    (d : DocInfo) → IsStorable d → by_id_read_docinfo d.id (assemble_id_index_value d) ≡ ok d
unfolding by_id_read_docinfo assemble_id_index_value
by_id_read_docinfo-assemble_id_index_value d st =
    let v4 = encode_raw08 d.content_meta ++ d.rev_meta in
    let v3 = encode_raw48 d.rev_seq ++ v4 in
    let v2 = encode_raw48 (flagged_bp d) ++ v3 in
    let v1 = encode_raw32 (d.size % 2 ^ 32) ++ v2 in
    let v = encode_raw48 d.db_seq ++ v1 in
    let at_size = drop-append_length 6 (encode_raw48 d.db_seq) v1 (length-encode_raw48 d.db_seq) in
    let at_bp =
      drop-next 6 4 v (encode_raw32 (d.size % 2 ^ 32)) v2 at_size
        (length-encode_raw32 (d.size % 2 ^ 32)) in
    let at_rev =
      drop-next 10 6 v (encode_raw48 (flagged_bp d)) v3 at_bp
        (length-encode_raw48 (flagged_bp d)) in
    let at_meta =
      drop-next 16 6 v (encode_raw48 d.rev_seq) v4 at_rev (length-encode_raw48 d.rev_seq) in
    let at_rest =
      drop-next 22 1 v (encode_raw08 d.content_meta) d.rev_meta at_meta
        (length-encode_raw08 d.content_meta) in
    let long : leb 23 (length v) ≡ true = ground (
      arith,
      length-append (encode_raw48 d.db_seq) v1,
      length-append (encode_raw32 (d.size % 2 ^ 32)) v2,
      length-append (encode_raw48 (flagged_bp d)) v3,
      length-append (encode_raw48 d.rev_seq) v4,
      length-append (encode_raw08 d.content_meta) d.rev_meta,
      length-encode_raw48 d.db_seq,
      length-encode_raw32 (d.size % 2 ^ 32),
      length-encode_raw48 (flagged_bp d),
      length-encode_raw08 d.content_meta,
      length-encode_raw48 d.rev_seq,
    ) in
    let seq_fits : d.db_seq % 2 ^ 48 ≡ d.db_seq = omega (arith, st.db_seq) in
    let size_fits : d.size % 2 ^ 32 % 2 ^ 32 ≡ d.size = omega (arith, st.size) in
    let meta_fits : d.content_meta % 256 ≡ d.content_meta = omega (arith, st.content_meta) in
    let rev_fits : d.rev_seq % 2 ^ 48 ≡ d.rev_seq = omega (arith, st.rev_seq) in
    rw
      (
        long,
        at_size,
        at_bp,
        at_meta,
        at_rev,
        at_rest,
        bp_read d v3 st,
        decode-encode_raw48 d.db_seq v1,
        decode-encode_raw32 (d.size % 2 ^ 32) v2,
        decode-encode_raw48 d.rev_seq v4,
        decode-encode_raw08 d.content_meta d.rev_meta,
        has_deleted_flag-flagged d.deleted d.bp st.bp,
        plain_bp-flagged d.deleted d.bp st.bp,
        seq_fits,
        size_fits,
        meta_fits,
        rev_fits,
      )
      refl

-- For a document info whose fields fit, reading the value that the index by sequence holds for it,
-- under the encoded sequence number, gives the info back.
pub by_seq_read_docinfo-assemble_seq_index_value :
    (d : DocInfo)
    → IsStorable d
    → by_seq_read_docinfo (encode_raw48 d.db_seq) (assemble_seq_index_value d) ≡ ok d
unfolding by_seq_read_docinfo assemble_seq_index_value decode_sequence_key
by_seq_read_docinfo-assemble_seq_index_value d st =
    let v4 = d.id ++ d.rev_meta in
    let v3 = encode_raw08 d.content_meta ++ v4 in
    let v2 = encode_raw48 d.rev_seq ++ v3 in
    let v1 = encode_raw48 (flagged_bp d) ++ v2 in
    let v = encode_kv_length (length d.id) d.size ++ v1 in
    let at_bp =
      drop-append_length 5 (encode_kv_length (length d.id) d.size) v1
        (length-encode_kv_length (length d.id) d.size) in
    let at_rev =
      drop-next 5 6 v (encode_raw48 (flagged_bp d)) v2 at_bp (length-encode_raw48 (flagged_bp d)) in
    let at_meta =
      drop-next 11 6 v (encode_raw48 d.rev_seq) v3 at_rev (length-encode_raw48 d.rev_seq) in
    let at_id =
      drop-next 17 1 v (encode_raw08 d.content_meta) v4 at_meta
        (length-encode_raw08 d.content_meta) in
    let long : leb 18 (length v) ≡ true = ground (
      arith,
      length-append (encode_kv_length (length d.id) d.size) v1,
      length-append (encode_raw48 (flagged_bp d)) v2,
      length-append (encode_raw48 d.rev_seq) v3,
      length-append (encode_raw08 d.content_meta) v4,
      length-encode_kv_length (length d.id) d.size,
      length-encode_raw48 (flagged_bp d),
      length-encode_raw08 d.content_meta,
      length-encode_raw48 d.rev_seq,
    ) in
    let key_long : leb 6 (length (encode_raw48 d.db_seq)) ≡ true =
      ground (arith, length-encode_raw48 d.db_seq) in
    let room : leb (length d.id) (length (d.id ++ d.rev_meta)) ≡ true =
      ground (arith, length-append d.id d.rev_meta) in
    let seq_read : decode_raw48 (encode_raw48 d.db_seq) ≡ d.db_seq =
      ap decode_raw48 (sym (append-nil (encode_raw48 d.db_seq)))
      ∙ decode-encode_raw48 d.db_seq []
      ∙ omega (arith, st.db_seq) in
    let id_fits : length d.id % 4096 ≡ length d.id = omega (arith, st.id) in
    let meta_fits : d.content_meta % 256 ≡ d.content_meta = omega (arith, st.content_meta) in
    let rev_fits : d.rev_seq % 2 ^ 48 ≡ d.rev_seq = omega (arith, st.rev_seq) in
    rw
      (
        long,
        at_bp,
        at_meta,
        at_rev,
        at_id,
        decode-encode_kv_length (length d.id) d.size v1 st.size,
        id_fits,
        key_long,
        room,
        bp_read d v2 st,
        decode-encode_raw48 d.rev_seq v3,
        decode-encode_raw08 d.content_meta v4,
        has_deleted_flag-flagged d.deleted d.bp st.bp,
        plain_bp-flagged d.deleted d.bp st.bp,
        seq_read,
        meta_fits,
        rev_fits,
        take-append_length (length d.id) d.id d.rev_meta refl,
        drop-append_length (length d.id) d.id d.rev_meta refl,
      )
      refl
