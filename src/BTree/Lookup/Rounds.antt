-- ===== src/BTree/Lookup/Rounds.antt =====
-- The rounds of btree_lookup_inner in a leaf, and what follows its loop, where nothing is folded.
use couchstore.Base.{
  ℕ, suc, ◌<◌, ◌≡◌, refl, arith, false, List, [], ◌∷◌, length, Result, ok, err, fault, ◌>>=◌, none,
  some,
}
use couchstore.Base.Order.{Cmp, less, equal, greater}
use couchstore.NodeTypes.{Item, read_kv}
use couchstore.BTree.Lookup.{
  LookupRequest, LookupState, lookup_compare, kv_round, kv_loop, not_found,
}
use couchstore.BTree.Lookup.Answers.{HasByte, find_item, answer, answers}

abbrev pub ByKey : (List ℕ → List ℕ → Cmp) → Item → Item → Cmp
ByKey cmp i j = cmp i.key j.key

pub lookup_compare-eq :
    (compare : List ℕ → List ℕ → Cmp) (a b : List ℕ)
    → HasByte a
    → HasByte b
    → lookup_compare compare a b ≡ compare a b
unfolding lookup_compare
lookup_compare-eq compare [] b h k = absurd (omega arith)
lookup_compare-eq compare (x ∷ a) [] h k = absurd (omega arith)
lookup_compare-eq compare (x ∷ a) (y ∷ b) h k = refl

module _ {S : Type 0} where
  -- The state of a lookup that does not fold.
  abbrev pub plain : S → LookupState S
  plain s = record { fold = false; in_fold = false; ctx = s }

  abbrev pub done : Result S → Result (LookupState S)
  done r = r >>= λ s. ok (plain s)

  -- A loop's end.
  abbrev pub left_with : List (List ℕ) → S → Result (List (List ℕ) × LookupState S)
  left_with ks s = ok (ks, plain s)

module _ {S : Type 0} (rq : LookupRequest S) where
  -- What follows a loop: the keys that are left are not found.
  abbrev pub finish : Result (List (List ℕ) × LookupState S) → Result (LookupState S)
  finish r = r >>= λ p. not_found rq p.0 p.1

  pub not_found-answers :
      (ks : List (List ℕ)) (s : S)
      → not_found rq ks (plain s) ≡ done (answers rq.compare rq.fetch_callback [] ks s)
  unfolding not_found answers answer find_item
  not_found-answers [] s = refl
  not_found-answers (k ∷ ks) s = after (rq.fetch_callback s k none) (λ s'. not_found-answers ks s')
    where
      after :
          (r : Result S)
          → ((s' : S)
              → not_found rq ks (plain s') ≡ done (answers rq.compare rq.fetch_callback [] ks s'))
          → (r >>= λ s'. not_found rq ks (plain s'))
            ≡ done (r >>= λ s'. answers rq.compare rq.fetch_callback [] ks s')
      after (ok s') e = e s'
      after (err code) e = refl
      after fault e = refl

  -- A round, by the comparison of the item's key with the current one.
  pub kv_round_less :
      (i : Item) (k : List ℕ) (ks : List (List ℕ)) (s : S)
      → lookup_compare rq.compare i.key k ≡ less
      → kv_round rq i k ks (plain s) ≡ ok (k ∷ ks, plain s)
  unfolding kv_round
  kv_round_less i k ks s c = rw c refl

  pub kv_round_greater :
      (i : Item) (k : List ℕ) (ks : List (List ℕ)) (s : S)
      → lookup_compare rq.compare i.key k ≡ greater
      → kv_round rq i k ks (plain s) ≡ ok (k ∷ ks, plain s)
  unfolding kv_round
  kv_round_greater i k ks s c = rw c refl

  pub kv_round_equal :
      (i : Item) (k : List ℕ) (ks : List (List ℕ)) (s : S)
      → lookup_compare rq.compare i.key k ≡ equal
      → kv_round rq i k ks (plain s)
        ≡ (rq.fetch_callback s i.key (some i.value) >>= λ s'. left_with ks s')
  unfolding kv_round
  kv_round_equal i k ks s c = rw c refl

  pub kv_step :
      (fuel : ℕ) (bytes rest : List ℕ) (i : Item) (k : List ℕ) (ks : List (List ℕ))
      (st : LookupState S)
      → 0 < length bytes
      → read_kv bytes ≡ ok (i, rest)
      → kv_loop rq (suc fuel) bytes (k ∷ ks) st
        ≡ (kv_round rq i k ks st >>= λ p. kv_loop rq fuel rest p.0 p.1)
  unfolding kv_loop
  kv_step fuel [] rest i k ks st h e = absurd (omega arith)
  kv_step fuel (b ∷ bs) rest i k ks st h e = rw e refl

  pub kv_no_keys :
      (fuel : ℕ) (bytes : List ℕ) (st : LookupState S) → kv_loop rq fuel bytes [] st ≡ ok ([], st)
  unfolding kv_loop
  kv_no_keys fuel [] st = refl
  kv_no_keys fuel (b ∷ bs) st = refl
