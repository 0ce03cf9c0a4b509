-- ===== src/Views/Collate.antt =====
-- src/views/collate_json.c: the collation of two JSON texts, token by token.
-- A text is its bytes from a position on; a read behind its end is a fault. strtod and the
-- comparison of doubles are parameters, and so is ICU. A failure of an allocation is not modelled,
-- nor what is printed to stderr. The `char` type is signed.
pub mod Arrays
pub mod Strings
pub mod Turned
use couchstore.Base.{
  ℕ, zero, suc, ◌+◌, ◌-◌, ◌*◌, ◌%◌, ◌==◌, ltb, leb, if◌then◌else◌, not, Bool, true, false, ◌&&◌,
  ◌||◌, List, [], ◌∷◌, ◌++◌, length, drop, Result, ok, fault, ◌>>=◌, Option, none, some,
}
use couchstore.Base.Order.{Cmp, less, equal, greater, cmp_ℕ}

pub data CollateJsonMode : Type 0 where
  unicode raw ascii : CollateJsonMode

pub data ValueType : Type 0 where
  end_array end_object comma colon null_value false_value true_value number string array object
        illegal :
      ValueType

abbrev pub type_number : ValueType → ℕ
type_number end_array = 0
type_number end_object = 1
type_number comma = 2
type_number colon = 3
type_number null_value = 4
type_number false_value = 5
type_number true_value = 6
type_number number = 7
type_number string = 8
type_number array = 9
type_number object = 10
type_number illegal = 11

-- kRawOrderOfValueType, each number plus 4
abbrev pub raw_order_of_value_type : ValueType → ℕ
raw_order_of_value_type end_array = 0
raw_order_of_value_type end_object = 1
raw_order_of_value_type comma = 2
raw_order_of_value_type colon = 3
raw_order_of_value_type null_value = 6
raw_order_of_value_type false_value = 5
raw_order_of_value_type true_value = 7
raw_order_of_value_type number = 4
raw_order_of_value_type string = 10
raw_order_of_value_type array = 9
raw_order_of_value_type object = 8
raw_order_of_value_type illegal = 11

abbrev pub is_digit : ℕ → Bool
is_digit c = leb 48 c && leb c 57

unfoldable pub value_type_of : ℕ → ValueType
value_type_of c =
    if c == 110
    then null_value
    else if c == 102
    then false_value
    else if c == 116
    then true_value
    else if is_digit c || c == 45
    then number
    else if c == 34
    then string
    else if c == 93
    then end_array
    else if c == 125
    then end_object
    else if c == 44
    then comma
    else if c == 58
    then colon
    else if c == 91
    then array
    else if c == 123
    then object
    else illegal

unfoldable pub digit_to_int : ℕ → ℕ
digit_to_int c =
    if is_digit c
    then c - 48
    else if leb 97 c && leb c 102
    then 10 + c - 97
    else if leb 65 c && leb c 70
    then 10 + c - 65
    else 0

-- The character of an escape, and the text behind it. The text starts after the backslash.
unfoldable pub convert_json_escape : List ℕ → Option (ℕ × List ℕ)
unfolding digit_to_int
convert_json_escape [] = none
convert_json_escape (c ∷ s) =
    if c == 117
    then escape_digits s
    else some (
      if c == 98
          then 8
          else if c == 110
          then 10
          else if c == 114
          then 13
          else if c == 116
          then 9
          else c,
      s,
    )
  where
    escape_digits : List ℕ → Option (ℕ × List ℕ)
    escape_digits (a ∷ b ∷ c ∷ d ∷ s) = some (
      (digit_to_int a * 4096 + digit_to_int b * 256 + digit_to_int c * 16 + digit_to_int d) % 256,
      s,
    )
    escape_digits _ = none

-- What two reads find, where neither of them is behind an end.
unfoldable pub both {ℓ} : {A B : Type ℓ} → Option A → Option A → (A → A → Result B) → Result B
both (some x) (some y) k = k x y
both (some x) none k = fault
both none y k = fault

abbrev pub Compared : Type 0
Compared = Cmp × List ℕ × List ℕ

-- The order of a signed `char`.
abbrev pub signed_char : ℕ → ℕ
signed_char c = (c + 128) % 256

-- A character of a string that has not ended, with the text behind it.
unfoldable pub string_char : List ℕ → Option (ℕ × List ℕ)
string_char [] = none
string_char (c ∷ s) = if c == 92 then convert_json_escape s else some (c, s)

-- The texts start behind the opening quotes. The fuel is their length: each round reads a byte.
unfoldable pub compare_strings_ascii : ℕ → List ℕ → List ℕ → Result Compared
compare_strings_ascii zero str1 str2 = fault
compare_strings_ascii (suc fuel) [] str2 = fault
compare_strings_ascii (suc fuel) (c1 ∷ s1) [] = fault
compare_strings_ascii (suc fuel) (c1 ∷ s1) (c2 ∷ s2) =
    if c1 == 34
    then ok (if c2 == 34 then equal else less, s1, s2)
    else if c2 == 34
    then ok (greater, s1, s2)
    else both (string_char (c1 ∷ s1)) (string_char (c2 ∷ s2)) (λ p q.
      elim (cmp_ℕ (signed_char p.0) (signed_char q.0)) [
        | less ↦ ok (less, p.1, q.1)
        | greater ↦ ok (greater, p.1, q.1)
        | equal ↦ compare_strings_ascii fuel p.1 q.1
      ])

-- A string without its escapes, whether it had any, and the text behind the closing quote.
unfoldable pub create_string_from_json : ℕ → List ℕ → Option (List ℕ × Bool × List ℕ)
create_string_from_json zero s = none
create_string_from_json (suc fuel) [] = none
create_string_from_json (suc fuel) (c ∷ s) =
    if c == 34 then some ([], false, s) else elim (string_char (c ∷ s)) [
      | none ↦ none
      | some p ↦ elim (create_string_from_json fuel p.1) [
        | none ↦ none
        | some r ↦ some (p.0 ∷ r.0, (c == 92 || r.1), r.2)
      ]
    ]

-- ICU: whether its collator opens; the conversion of UTF-8, which may fail; the comparison of UTF-16
-- texts, and that of UTF-8 texts, which may fail.
pub record Icu : Type 0 where
  pub opens : Bool
  pub to_unicode : List ℕ → Option (List ℕ)
  pub strcoll : List ℕ → List ℕ → Cmp
  pub strcoll_iter : List ℕ → List ℕ → Option Cmp

-- What strtod finds in a text that ends with a zero byte: a double, the length of its text, and how
-- many bytes, the zero byte included, were looked at.
pub record Strtod (D : Type 0) : Type 0 where
  pub value : D
  pub consumed : ℕ
  pub looked : ℕ

unfoldable pub compare_unicode_slow : Icu → List ℕ → List ℕ → Cmp
compare_unicode_slow icu str1 str2 = elim (icu.strcoll_iter str1 str2) [ none ↦ less | some c ↦ c ]

-- From the first byte on that is not ASCII, the bytes up to and including the one behind the string
-- are converted: it is the closing quote in the text, and is not there in a copy without escapes.
unfoldable pub convert_utf8_to_uchar : Icu → Bool → List ℕ → Option (Option (List ℕ))
convert_utf8_to_uchar icu copied [] = some (some [])
convert_utf8_to_uchar icu copied (ch ∷ s) =
    if ltb ch 128
    then elim (convert_utf8_to_uchar icu copied s) [
      | none ↦ none
      | some none ↦ some none
      | some (some u) ↦ some (some (ch ∷ u))
    ]
    else if copied
    then none
    else some (icu.to_unicode (ch ∷ s ++ 34 ∷ []))

-- A string that could not be converted is compared as it is.
unfoldable pub compare_converted : Icu → List ℕ → List ℕ → Option (List ℕ) → Option (List ℕ) → Cmp
unfolding compare_unicode_slow
compare_converted icu str1 str2 (some b1) (some b2) = icu.strcoll b1 b2
compare_converted icu str1 str2 (some b1) none = compare_unicode_slow icu str1 str2
compare_converted icu str1 str2 none u2 = compare_unicode_slow icu str1 str2

unfoldable pub compare_unicode : Icu → List ℕ → Bool → List ℕ → Bool → Result Cmp
compare_unicode icu str1 copied1 str2 copied2 =
    if not icu.opens
    then ok less
    else if ltb 256 (length str1) || ltb 256 (length str2)
    then ok (compare_unicode_slow icu str1 str2)
    else both (convert_utf8_to_uchar icu copied1 str1) (convert_utf8_to_uchar icu copied2 str2)
        (λ u1 u2. ok (compare_converted icu str1 str2 u1 u2))

module _ {D : Type 0} (strtod : List ℕ → Strtod D) (double_less : D → D → Bool) (icu : Icu) where
  abbrev pub dcmp : D → D → Cmp
  dcmp n1 n2 = if double_less n2 n1 then greater else if double_less n1 n2 then less else equal

  -- At depth 0 the rest of the text is copied and a zero byte put behind it. Deeper, strtod reads the
  -- text as it stands.
  unfoldable pub read_number : Bool → List ℕ → Option (D × List ℕ)
  read_number at_top s =
      let n = strtod s in
      if at_top || leb n.looked (length s) then some (n.value, drop n.consumed s) else none

  unfoldable pub compare_strings_unicode : List ℕ → List ℕ → Result Compared
  compare_strings_unicode s1 s2 =
      both (create_string_from_json (suc (length s1)) s1)
        (create_string_from_json (suc (length s2)) s2)
        (λ p q. compare_unicode icu p.0 p.1 q.0 q.1 >>= λ c. ok (c, p.2, q.2))

  unfoldable pub compare_strings : CollateJsonMode → List ℕ → List ℕ → Result Compared
  compare_strings unicode s1 s2 = compare_strings_unicode s1 s2
  compare_strings raw s1 s2 = compare_strings_ascii (length s1 + length s2) s1 s2
  compare_strings ascii s1 s2 = compare_strings_ascii (length s1 + length s2) s1 s2

  -- Two tokens of one type, each with its first byte.
  unfoldable pub compare_tokens :
      CollateJsonMode → ℕ → ValueType → List ℕ → List ℕ → Result Compared
  compare_tokens mode depth null_value s1 s2 = ok (equal, drop 4 s1, drop 4 s2)
  compare_tokens mode depth true_value s1 s2 = ok (equal, drop 4 s1, drop 4 s2)
  compare_tokens mode depth false_value s1 s2 = ok (equal, drop 5 s1, drop 5 s2)
  compare_tokens mode depth number s1 s2 =
      both (read_number (depth == 0) s1) (read_number (depth == 0) s2)
        (λ p q. ok (dcmp p.0 q.0, p.1, q.1))
  compare_tokens mode depth string s1 s2 = compare_strings mode (drop 1 s1) (drop 1 s2)
  compare_tokens mode depth _ s1 s2 = ok (equal, drop 1 s1, drop 1 s2)

  -- A depth below 0 ends the loop as 0 does, and so does a byte that starts no token.
  abbrev pub depth_after : ValueType → ℕ → ℕ
  depth_after array depth = depth + 1
  depth_after object depth = depth + 1
  depth_after end_array depth = depth - 1
  depth_after end_object depth = depth - 1
  depth_after illegal depth = 0
  depth_after _ depth = depth

  abbrev pub type_order : CollateJsonMode → ValueType → ℕ
  type_order raw t = raw_order_of_value_type t
  type_order _ t = type_number t

  -- The fuel bounds the rounds.
  unfoldable pub collate_json : CollateJsonMode → ℕ → ℕ → List ℕ → List ℕ → Result Cmp
  collate_json mode zero depth str1 str2 = fault
  collate_json mode (suc fuel) depth [] str2 = fault
  collate_json mode (suc fuel) depth (c1 ∷ s1) [] = fault
  collate_json mode (suc fuel) depth (c1 ∷ s1) (c2 ∷ s2) =
      let type1 = value_type_of c1 in
      let type2 = value_type_of c2 in
      if type_number type1 == type_number type2
      then (compare_tokens mode depth type1 (c1 ∷ s1) (c2 ∷ s2) >>= λ r. elim r.0 [
        | less ↦ ok less
        | greater ↦ ok greater
        | equal ↦ elim (depth_after type1 depth) [
          | zero ↦ ok equal
          | suc d ↦ collate_json mode fuel (suc d) r.1 r.2
        ]
      ])
      else ok (cmp_ℕ (type_order mode type1) (type_order mode type2))
