-- ===== src/NodeTypes/Roots.antt =====
-- Roots of B-trees, as file headers and view headers hold them.
use couchstore.Base.{
  ℕ, ◌+◌, ◌-◌, ◌%◌, ◌^◌, ◌≤◌, ◌≡◌, refl, sym, ap, ◌∙◌, arith, List, [], ◌++◌, append_assoc, length,
  length-append, take, drop, take-append_length, drop-append_length, ok, Option, none, some,
}
use couchstore.Bitfield.{encode_raw48, decode_raw48}
use couchstore.Bitfield.Widths.{length-encode_raw48, decode-encode_raw48, drop-encode_raw48}
use couchstore.NodeTypes.{NodePointer, read_root, encode_root}

-- What the file keeps of a root: no key, and the low 48 bits of its two numbers.
unfoldable pub stored_root : Option NodePointer → Option NodePointer
stored_root none = none
stored_root (some p) =
    some (record p { key = []; pointer = p.pointer % 2 ^ 48; subtreesize = p.subtreesize % 2 ^ 48 })

-- `ROOT_BASE_SIZE + root->reduce_value.size`, or 0 if there is no root.
unfoldable pub root_size : Option NodePointer → ℕ
root_size none = 0
root_size (some p) = 12 + length p.reduce_value

-- encode_root returns the number of the bytes that it writes.
pub length-encode_root : (root : Option NodePointer) → length (encode_root root) ≡ root_size root
unfolding encode_root root_size
length-encode_root none = refl
length-encode_root (some p) = omega (
  arith,
  length-append (encode_raw48 p.pointer) (encode_raw48 p.subtreesize ++ p.reduce_value),
  length-append (encode_raw48 p.subtreesize) p.reduce_value,
  length-encode_raw48 p.pointer,
  length-encode_raw48 p.subtreesize,
)

read_root-some :
    (buf : List ℕ) (size : ℕ)
    → 12 ≤ size
    → size ≤ length buf
    → read_root buf size
      ≡ ok (
          some (record {
            key = [];
            pointer = decode_raw48 buf;
            reduce_value = take (size - 12) (drop 12 buf);
            subtreesize = decode_raw48 (drop 6 buf);
          }))
unfolding read_root
read_root-some buf size h k = ground arith

-- The fields of a root that lie one behind the other.
read_parts :
    (pointer subtreesize : ℕ) (reduce rest : List ℕ)
    → read_root
        (encode_raw48 pointer ++ (encode_raw48 subtreesize ++ (reduce ++ rest)))
        (12 + length reduce)
      ≡ ok (
          some (record {
            key = [];
            pointer = pointer % 2 ^ 48;
            reduce_value = reduce;
            subtreesize = subtreesize % 2 ^ 48;
          }))
read_parts pointer subtreesize reduce rest =
    let a = encode_raw48 pointer in
    let b = encode_raw48 subtreesize in
    let la = length-encode_raw48 pointer in
    let lb = length-encode_raw48 subtreesize in
    let behind : drop 12 (a ++ (b ++ (reduce ++ rest))) ≡ reduce ++ rest =
      ap (drop 12) (sym (append_assoc a b (reduce ++ rest)))
      ∙ drop-append_length 12 (a ++ b) (reduce ++ rest)
          (omega (arith, length-append a b, la, lb)) in
    let size : 12 + length reduce - 12 ≡ length reduce = omega arith in
    read_root-some (a ++ (b ++ (reduce ++ rest))) (12 + length reduce) (omega arith) (
      omega (
        arith,
        length-append a (b ++ (reduce ++ rest)),
        length-append b (reduce ++ rest),
        length-append reduce rest,
        la,
        lb,
      ))
    ∙ rw (
      behind,
      size,
      take-append_length (length reduce) reduce rest refl,
      decode-encode_raw48 pointer (b ++ (reduce ++ rest)),
      drop-encode_raw48 pointer (b ++ (reduce ++ rest)),
      decode-encode_raw48 subtreesize (reduce ++ rest),
    )

-- A root is read back from its bytes and their number, whatever follows: without its key, and its
-- numbers modulo 2^48.
pub read_root-encode_root :
    (root : Option NodePointer) (rest : List ℕ)
    → read_root (encode_root root ++ rest) (root_size root) ≡ ok (stored_root root)
unfolding read_root encode_root root_size stored_root
read_root-encode_root none rest = refl
read_root-encode_root (some p) rest =
    ap (λ (t : List ℕ). read_root t (12 + length p.reduce_value))
      (append_assoc (encode_raw48 p.pointer) _ rest
        ∙ ap (λ (t : List ℕ). encode_raw48 p.pointer ++ t)
            (append_assoc (encode_raw48 p.subtreesize) p.reduce_value rest))
    ∙ read_parts p.pointer p.subtreesize p.reduce_value rest
