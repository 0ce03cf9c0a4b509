-- ===== src/Db/Iterate/Shown.antt =====
-- What the callbacks of an iteration of src/couch_db.cc do on the items of documents.
use couchstore.Base.{
  ℕ, ◌^◌, ◌%◌, ◌<◌, ◌≡◌, refl, ap, ap₂, sym, ◌∙◌, arith, leb, not, if◌then◌else◌, Bool, true, false,
  ◌&&◌, List, [], ◌∷◌, append-nil, map, All, Result, ok, err, fault, ◌>>=◌, none, some,
}
use couchstore.Base.Order.{Cmp, cmp_ℕ}
use couchstore.Bitfield.{encode_raw48}
use couchstore.BTree.Lookup.Answers.{HasByte}
use couchstore.BTree.Lookup.Rounds.{lookup_compare-eq}
use couchstore.Bitfield.Widths.{length-encode_raw48}
use couchstore.KeyOrder.{
  lexicographic, ebin_cmp-lexicographic, ebin_cmp, seq_cmp, seq_cmp-encode_raw48,
}
use couchstore.NodeTypes.{Item}
use couchstore.BTree.Lookup.{lookup_compare, not_below}
use couchstore.BTree.Lookup.Folds.{walk}
use couchstore.Db.DocInfo.{DocInfo, by_id_read_docinfo, by_seq_read_docinfo}
use couchstore.Db.Lookups.{
  LookupContext, Walk, request, visit, lookup_callback, show_corrupt, is_left_out,
}

-- The callback on the documents that satisfy a test, in their order.
unfoldable pub show_each :
    {S : Type 0} → (DocInfo → Bool) → (S → DocInfo → Result S) → List DocInfo → S → Result S
show_each test callback [] s = ok s
show_each test callback (d ∷ ds) s =
    if test d
    then (callback s d >>= λ s'. show_each test callback ds s')
    else show_each test callback ds s

-- The callbacks of an iteration without a walk, outside of every node.
abbrev pub outside : {S : Type 0} → S → Walk S
outside s = record { depth = 0; state = s }

abbrev pub inside : {S : Type 0} → Result S → Result (Walk S)
inside r = r >>= λ s. ok (outside s)

pub shown :
    {S : Type 0} (cx : LookupContext S) (d : DocInfo) (s : S) (k v : List ℕ)
    → cx.walk_callback ≡ none
    → (if cx.by_id then by_id_read_docinfo k v else by_seq_read_docinfo k v) ≡ ok d
    → lookup_callback cx (outside s) k (some v)
      ≡ inside (if not (is_left_out cx.options d) then cx.callback s d else ok s)
unfolding lookup_callback show_corrupt visit
shown cx d s k v silent e = rw e (by_case (is_left_out cx.options d))
  where
    by_case :
        (b : Bool)
        → (if b then ok (outside s) else visit cx (outside s) d)
          ≡ inside (if not b then cx.callback s d else ok s)
    by_case true = refl
    by_case false = ground (arith, silent)

-- A walk over the items of documents that shows those from a key on.
module _ {S : Type 0} (cx : LookupContext S) (compare : List ℕ → List ℕ → Cmp)
    (item : DocInfo → Item) (k : List ℕ) (from : DocInfo → Bool) where
  -- How a document's item answers the comparison and the callback.
  pub record IsShown (d : DocInfo) : Type 0 where
    pub compared : not_below (lookup_compare compare (item d).key k) ≡ from d
    pub read :
        (s : S)
        → lookup_callback cx (outside s) (item d).key (some (item d).value)
          ≡ inside (if not (is_left_out cx.options d) then cx.callback s d else ok s)

  pub walk-show_each :
      (ds : List DocInfo) (s : S)
      → All IsShown ds
      → walk (request compare (lookup_callback cx)) k (map item ds) (outside s)
        ≡ inside (show_each (λ d. from d && not (is_left_out cx.options d)) cx.callback ds s)
  unfolding walk show_each
  walk-show_each [] s sh = refl
  walk-show_each (d ∷ ds) s sh =
      rw (sh.0.compared, sh.0.read s)
        (by_case (from d) (not (is_left_out cx.options d)) (cx.callback s d)
          (λ s'. walk-show_each ds s' sh.1))
    where
      tail_walk : Walk S → Result (Walk S)
      tail_walk w = walk (request compare (lookup_callback cx)) k (map item ds) w

      tail_show : S → Result S
      tail_show s' = show_each (λ d'. from d' && not (is_left_out cx.options d')) cx.callback ds s'

      by_case :
          (b c : Bool) (r : Result S)
          → ((s' : S) → tail_walk (outside s') ≡ inside (tail_show s'))
          → (if b then (inside (if c then r else ok s) >>= tail_walk) else tail_walk (outside s))
            ≡ inside (if b && c then (r >>= tail_show) else tail_show s)
      by_case true true (ok s') ih = ih s'
      by_case true true (err e) ih = refl
      by_case true true fault ih = refl
      by_case true false r ih = ih s
      by_case false true r ih = ih s
      by_case false false r ih = ih s

pub seq_compared :
    (since seq : ℕ)
    → since < 2 ^ 48
    → seq < 2 ^ 48
    → not_below (lookup_compare seq_cmp (encode_raw48 seq) (encode_raw48 since)) ≡ leb since seq
seq_compared since seq h k =
    let fits : since % 2 ^ 48 ≡ since = omega arith in
    let fits' : seq % 2 ^ 48 ≡ seq = omega arith in
    ap not_below (
      lookup_compare-eq seq_cmp (encode_raw48 seq) (encode_raw48 since)
        (omega (arith, length-encode_raw48 seq)) (omega (arith, length-encode_raw48 since))
      ∙ ap₂ seq_cmp (sym (append-nil (encode_raw48 seq))) (sym (append-nil (encode_raw48 since)))
      ∙ seq_cmp-encode_raw48 seq since [] []
      ∙ ap₂ cmp_ℕ fits' fits)
    ∙ turned
  where
    turned : not_below (cmp_ℕ seq since) ≡ leb since seq
    turned = ground arith

pub id_compared :
    (start id : List ℕ)
    → HasByte id
    → not_below (lookup_compare ebin_cmp id start) ≡ not_below (lexicographic id start)
unfolding lookup_compare lexicographic
id_compared start [] h = absurd (omega arith)
id_compared [] (b ∷ id) h = refl
id_compared (c ∷ start) (b ∷ id) h = ap not_below (ebin_cmp-lexicographic (b ∷ id) (c ∷ start))
