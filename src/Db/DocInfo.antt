-- ===== src/Db/DocInfo.antt =====
-- Document infos as values of the two indexes: the readers of src/couch_db.cc and the writers of
-- src/couch_save.cc. A failure of an allocation is not modelled.
pub mod RoundTrip
use Prim.Native.Nat.{bit_and, bit_or}
use couchstore.Base.{
  ℕ, ◌+◌, ◌-◌, ◌^◌, ◌%◌, ltb, leb, ◌==◌, if◌then◌else◌, not, Bool, List, ◌++◌, length, take, drop,
  Result, ok, err, Error, assert, error_unless, ◌>>=◌, ◌>>◌,
}
use couchstore.Bitfield.{
  encode_raw08, encode_raw32, encode_raw48, decode_raw08, decode_raw32, decode_raw48,
}
use couchstore.NodeTypes.{Item, encode_kv_length, decode_kv_length, decode_sequence_key}
use couchstore.Reduces.{bp_deleted_flag}

-- DocInfo of libcouchstore/couch_common.h; its buffers are lists of their bytes.
pub record DocInfo : Type 0 where
  pub id : List ℕ
  pub db_seq : ℕ
  pub rev_seq : ℕ
  pub rev_meta : List ℕ
  pub deleted : Bool
  pub content_meta : ℕ
  pub bp : ℕ
  pub size : ℕ

-- sizeof(raw_seq_index_value): sizes, bp, rev_seq and content_meta
abbrev pub raw_seq_index_value_size : ℕ
raw_seq_index_value_size = 18

-- sizeof(raw_id_index_value): db_seq, size, bp, rev_seq and content_meta
abbrev pub raw_id_index_value_size : ℕ
raw_id_index_value_size = 23

-- `docinfo->bp | (docinfo->deleted ? 1LL<<47 : 0)`
unfoldable pub flagged_bp : DocInfo → ℕ
flagged_bp docinfo = bit_or docinfo.bp (if docinfo.deleted then 2 ^ 47 else 0)

-- `bp & ~BP_DELETED_FLAG`, in 64 bits
unfoldable pub plain_bp : ℕ → ℕ
plain_bp bp = bit_and bp (2 ^ 64 - 1 - bp_deleted_flag)

-- `(bp & BP_DELETED_FLAG) != 0`
unfoldable pub has_deleted_flag : ℕ → Bool
has_deleted_flag bp = not (bit_and bp bp_deleted_flag == 0)

-- The bytes that assemble_seq_index_value puts at `dst`; it returns their number.
unfoldable pub assemble_seq_index_value : DocInfo → List ℕ
assemble_seq_index_value docinfo =
    encode_kv_length (length docinfo.id) docinfo.size
    ++ (encode_raw48 (flagged_bp docinfo)
        ++ (encode_raw48 docinfo.rev_seq
            ++ (encode_raw08 docinfo.content_meta ++ (docinfo.id ++ docinfo.rev_meta))))

unfoldable pub assemble_id_index_value : DocInfo → List ℕ
assemble_id_index_value docinfo =
    encode_raw48 docinfo.db_seq
    ++ (encode_raw32 (docinfo.size % 2 ^ 32)
        ++ (encode_raw48 (flagged_bp docinfo)
            ++ (encode_raw48 docinfo.rev_seq
                ++ (encode_raw08 docinfo.content_meta ++ docinfo.rev_meta))))

-- An id that is longer than what follows the fixed part makes the size of `rev_meta` wrap around,
-- and the copy of it read beyond the value.
unfoldable pub by_seq_read_docinfo : List ℕ → List ℕ → Result DocInfo
by_seq_read_docinfo k v = do
  error_unless (leb raw_seq_index_value_size (length v)) Error.corrupt
  let extra = drop 18 v
  let (idsize, datasize) = decode_kv_length (take 5 v)
  let bp = decode_raw48 (drop 5 v)
  assert (leb 6 (length k))
  assert (leb idsize (length extra))
  ok (record {
    id = take idsize extra;
    db_seq = decode_sequence_key k;
    rev_seq = decode_raw48 (drop 11 v);
    rev_meta = drop idsize extra;
    deleted = has_deleted_flag bp;
    content_meta = decode_raw08 (drop 17 v);
    bp = plain_bp bp;
    size = datasize;
  })

unfoldable pub by_id_read_docinfo : List ℕ → List ℕ → Result DocInfo
by_id_read_docinfo k v = do
  error_unless (leb raw_id_index_value_size (length v)) Error.corrupt
  let bp = decode_raw48 (drop 10 v)
  ok (record {
    id = k;
    db_seq = decode_raw48 v;
    rev_seq = decode_raw48 (drop 16 v);
    rev_meta = drop 23 v;
    deleted = has_deleted_flag bp;
    content_meta = decode_raw08 (drop 22 v);
    bp = plain_bp bp;
    size = decode_raw32 (drop 6 v);
  })

-- The items of a document in the two indexes: add_doc_to_update_list of src/couch_save.cc gives the
-- sequence number in six bytes as the key of the one, and the id as that of the other.
unfoldable pub id_item : DocInfo → Item
id_item d = record { key = d.id; value = assemble_id_index_value d }

unfoldable pub seq_item : DocInfo → Item
seq_item d = record { key = encode_raw48 d.db_seq; value = assemble_seq_index_value d }
