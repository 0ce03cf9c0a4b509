-- ===== src/BTree/Writer/Quota.antt =====
-- Which elements flush_mr_partial of src/btree_modify.cc writes.
use couchstore.Base.{
  ℕ, zero, suc, ◌+◌, ◌-◌, ◌%◌, ◌^◌, ◌<◌, ◌≡◌, ◌≢◌, refl, sym, ap, ◌∙◌, arith, ◌==◌, not,
  if◌then◌else◌, ◌||◌, true, List, [], ◌∷◌, length, length-append, take, map, ok, none,
}
use couchstore.NodeTypes.{write_kv}
use couchstore.NodeTypes.Items.{write_items, length-write_kv}
use couchstore.File.{FileOps, TreeFile}
use couchstore.Chunk.{Snappy}
use couchstore.BTree.Writer.{
  NodeType, kv_node, Entry, ModifyResult, WriteRequest, entry_size, minus, take_quota, write_node,
  flush_mr_partial, flush_mr,
}

-- The size of a node of these elements, without its first byte.
unfoldable pub total : List Entry → ℕ
total [] = 0
total (e ∷ es) = entry_size e + total es

-- The lengths that a result keeps are those of its values.
pub record IsValid (res : ModifyResult) : Type 0 where
  pub node_len : res.node_len ≡ total res.values
  pub count : res.count ≡ length res.values

pub length-write_items :
    (es : List Entry) → length (write_items (map (λ (e : Entry). e.item) es)) ≡ total es
unfolding write_items total
length-write_items [] = refl
length-write_items (e ∷ es) = omega (
  arith,
  length-append (write_kv e.item) (write_items (map (λ (x : Entry). x.item) es)),
  length-write_kv e.item,
  length-write_items es,
)

-- No proper prefix has exactly this size.
abbrev pub IsMissed : ℕ → ℕ → List Entry → Type 0
IsMissed before quota es = (k : ℕ) → k < length es → before + total (take k es) ≢ quota

-- In a leaf the loop ends early only where the quota is met exactly; else it wraps around.
take_quota-IsMissed :
    (n before quota : ℕ) (es : List Entry)
    → quota < 2 ^ 64
    → before + total es < 2 ^ 64
    → IsMissed before quota es
    → take_quota kv_node n ((quota + (2 ^ 64 - before)) % 2 ^ 64) es ≡ (es, [])
unfolding take_quota total
take_quota-IsMissed n before quota [] q b m = refl
take_quota-IsMissed n before quota (e ∷ es) q b m =
    let here : before ≢ quota = λ same. m 0 (omega arith) (omega (arith, ap (λ (t : ℕ). t) same)) in
    let open_quota : not ((quota + (2 ^ 64 - before)) % 2 ^ 64 == 0) ≡ true =
      ground (arith, here) in
    let less_quota : minus ((quota + (2 ^ 64 - before)) % 2 ^ 64) (entry_size e)
        ≡ (quota + (2 ^ 64 - (before + entry_size e))) % 2 ^ 64 =
      omega arith in
    rw
      (
        less_quota,
        take_quota-IsMissed (suc n) (before + entry_size e) quota es q (omega arith)
            (λ k small same. m (suc k) (omega arith) (omega (arith, same))),
        open_quota,
      )
      refl

total-take : (k : ℕ) (es : List Entry) → k < length es → total (take k es) < total es
unfolding total
total-take k [] h = absurd (omega arith)
total-take zero (e ∷ es) h = omega arith
total-take (suc k) (e ∷ es) h = omega (arith, total-take k es (omega arith))

take_all :
    (quota : ℕ) (es : List Entry)
    → quota < 2 ^ 64
    → total es < 2 ^ 64
    → IsMissed 0 quota es
    → take_quota kv_node 0 quota es ≡ (es, [])
take_all quota es q b m =
    let start : (quota + (2 ^ 64 - 0)) % 2 ^ 64 ≡ quota = omega arith in
    ap (λ (t : ℕ). take_quota kv_node 0 t es) (sym start)
    ∙ take_quota-IsMissed 0 0 quota es q (omega arith) m

module _ (ops : FileOps) (snappy : Snappy) (rq : WriteRequest) where
  -- On a leaf whose lengths are right and below 2^64, with a quota below 2^64, flush_mr_partial
  -- writes all values into one node, as flush_mr does, with the same outcome, unless a proper prefix
  -- of the values (the empty one included) has exactly the size of the quota.
  pub flush_mr_partial-flush_mr :
      (file : TreeFile) (res : ModifyResult) (quota : ℕ)
      → IsValid res
      → res.node_type ≡ kv_node
      → res.node_len < 2 ^ 64
      → quota < 2 ^ 64
      → IsMissed 0 quota res.values
      → flush_mr_partial ops snappy rq file res quota ≡ flush_mr ops snappy rq file res
  unfolding flush_mr_partial flush_mr
  flush_mr_partial-flush_mr file res quota v t n q m =
      let part : take_quota res.node_type 0 quota res.values ≡ (res.values, []) =
        ap (λ (y : NodeType). take_quota y 0 quota res.values) t
        ∙ take_all quota res.values q (omega (arith, v.node_len)) m in
      let whole : take_quota res.node_type 0 res.node_len res.values ≡ (res.values, []) =
        ap (λ (y : NodeType). take_quota y 0 res.node_len res.values) t
        ∙ take_all res.node_len res.values n (omega (arith, v.node_len))
            (λ k small same. omega (arith, total-take k res.values small, same, v.node_len)) in
      ap
        (λ (p : List Entry × List Entry).
          if length res.values == 0 || not res.modified
          then ok (record { file = file; result = res; error = none })
          else write_node ops snappy rq file res p)
        (part ∙ sym whole)
