-- ===== src/Bitfield/RoundTrip.antt =====
-- Encoding and decoding of integers undo one another.
use couchstore.Base.{
  ℕ, zero, suc, ◌+◌, ◌-◌, ◌*◌, ◌/◌, ◌%◌, ◌^◌, ◌<◌, ◌≡◌, refl, sym, ap, ap₂, ◌∙◌, arith, List, [],
  ◌∷◌, ◌++◌, length, take, drop, replicate, All, take-all, take-append_length,
}
use couchstore.Bitfield.{IsByte, memory_of_hton, ntoh_of_memory, encode_raw, decode_raw}
use native.Mathlib.Nat.{
  pow-suc, div-add-mod, mod-lt, mul-add-mod_self_left, mod-eq_of_lt, zero-add, suc-add,
  add-mul-div_right, div-eq_of_lt, add_comm,
}

pow256_pos : (n : ℕ) → 0 < 256 ^ n
pow256_pos zero = omega arith
pow256_pos (suc n) = omega (arith, pow-suc 256 n, pow256_pos n)

pub length-memory_of_hton : (w v : ℕ) → length (memory_of_hton w v) ≡ w
unfolding memory_of_hton
length-memory_of_hton zero v = refl
length-memory_of_hton (suc w) v = ap suc (length-memory_of_hton w v)

pub All-memory_of_hton : (w v : ℕ) → All IsByte (memory_of_hton w v)
unfolding memory_of_hton
All-memory_of_hton zero v = tt
All-memory_of_hton (suc w) v = (omega arith, All-memory_of_hton w v)

drop-memory_of_hton : (k n v : ℕ) → drop k (memory_of_hton (k + n) v) ≡ memory_of_hton n v
unfolding memory_of_hton
drop-memory_of_hton zero n v = rw zero-add
drop-memory_of_hton (suc k) n v =
    ap (λ (w : ℕ). drop (suc k) (memory_of_hton w v)) (suc-add k n) ∙ drop-memory_of_hton k n v

-- The lowest digit to the base 256 above `m`, and what is below it.
mod_split : (v m : ℕ) → 0 < m → v / m % 256 * m + v % m ≡ v % (m * 256)
mod_split v m h =
    let q = v / m / 256 in
    let r = v / m % 256 in
    let low : r * m + v % m < m * 256 = grind (arith, mod-lt v h) in
    let whole : v ≡ m * 256 * q + (r * m + v % m) =
      omega (arith, div-add-mod v m, ap (λ (t : ℕ). m * t) (div-add-mod (v / m) 256)) in
    sym
      (ap (λ (t : ℕ). t % (m * 256)) whole ∙ mul-add-mod_self_left (m * 256) q _ ∙ mod-eq_of_lt low)

pub ntoh-hton : (w v : ℕ) → ntoh_of_memory (memory_of_hton w v) ≡ v % 256 ^ w
unfolding ntoh_of_memory memory_of_hton
ntoh-hton zero v = omega arith
ntoh-hton (suc w) v =
    rw (length-memory_of_hton, ntoh-hton w v, pow-suc) (mod_split v (256 ^ w) (pow256_pos w))

pub ntoh_lt : (bs : List ℕ) → All IsByte bs → ntoh_of_memory bs < 256 ^ length bs
unfolding ntoh_of_memory
ntoh_lt [] h = omega arith
ntoh_lt (b ∷ bs) h = rw pow-suc (grind (arith, ntoh_lt bs h.1, h.0))

split_power : (w c v : ℕ) → c * 256 ^ suc w + v ≡ c * 256 * 256 ^ w + v
split_power w c v = rw pow-suc (omega arith)

-- The digit at place `w`, below what is added above it.
hton_digit : (w c v : ℕ) → (c * 256 * 256 ^ w + v) / 256 ^ w % 256 ≡ v / 256 ^ w % 256
hton_digit w c v =
    rw (add_comm (c * 256 * 256 ^ w) v, add-mul-div_right v (c * 256) (pow256_pos w)) (omega arith)

-- Digits above the first `w` are dropped.
hton-add : (w c v : ℕ) → memory_of_hton w (c * 256 ^ w + v) ≡ memory_of_hton w v
unfolding memory_of_hton
hton-add zero c v = refl
hton-add (suc w) c v =
    rw (split_power w c v) (ap₂ (λ x xs. x ∷ xs) (hton_digit w c v) (hton-add w (c * 256) v))

top_digit : (b m r : ℕ) → b < 256 → r < m → (b * m + r) / m % 256 ≡ b
top_digit b m r hb hr =
    rw (add_comm (b * m) r, add-mul-div_right r b {z = m} (omega arith), div-eq_of_lt hr)
      (omega arith)

pub hton-ntoh : (bs : List ℕ) → All IsByte bs → memory_of_hton (length bs) (ntoh_of_memory bs) ≡ bs
unfolding ntoh_of_memory memory_of_hton
hton-ntoh [] h = refl
hton-ntoh (b ∷ bs) h =
    ap₂ (λ x xs. x ∷ xs) (top_digit b _ _ h.0 (ntoh_lt bs h.1))
      (hton-add (length bs) b (ntoh_of_memory bs) ∙ hton-ntoh bs h.1)

-- `encode_raw` keeps the low bytes: it writes the big-endian form of `n` bytes.
pub encode_raw-eq : (k n w v : ℕ) → w ≡ k + n → encode_raw w n v ≡ memory_of_hton n v
unfolding encode_raw
encode_raw-eq k n w v e =
    let gap : w - n ≡ k = omega arith in rw (gap, e) (drop-memory_of_hton k n v)

ntoh-zeros : (k : ℕ) (bs : List ℕ) → ntoh_of_memory (replicate k 0 ++ bs) ≡ ntoh_of_memory bs
unfolding ntoh_of_memory
ntoh-zeros zero bs = refl
ntoh-zeros (suc k) bs = omega (arith, ntoh-zeros k bs)

pub decode_raw-eq : (w n : ℕ) (raw : List ℕ) → decode_raw w n raw ≡ ntoh_of_memory (take n raw)
unfolding decode_raw
decode_raw-eq w n raw = ntoh-zeros (w - n) (take n raw)

-- Reading what was written, whatever follows it, gives the value modulo the size of the field.
pub decode_raw-encode_raw :
    (k n w v : ℕ) (rest : List ℕ)
    → w ≡ k + n
    → decode_raw w n (encode_raw w n v ++ rest) ≡ v % 256 ^ n
decode_raw-encode_raw k n w v rest e =
    decode_raw-eq w n _
    ∙ ap ntoh_of_memory (
        ap (λ (x : List ℕ). take n (x ++ rest)) (encode_raw-eq k n w v e)
        ∙ take-append_length n _ rest (length-memory_of_hton n v))
    ∙ ntoh-hton n v

-- Writing what was read from as many bytes gives these bytes back.
pub encode_raw-decode_raw :
    (k n w : ℕ) (raw : List ℕ)
    → w ≡ k + n
    → All IsByte raw
    → length raw ≡ n
    → encode_raw w n (decode_raw w n raw) ≡ raw
encode_raw-decode_raw k n w raw e h len =
    encode_raw-eq k n w _ e
    ∙ ap (memory_of_hton n)
        (decode_raw-eq w n raw ∙ ap ntoh_of_memory (take-all n raw (omega arith)))
    ∙ ap (λ (x : ℕ). memory_of_hton x (ntoh_of_memory raw)) (sym len)
    ∙ hton-ntoh raw h
