-- ===== src/Pack/Reader.antt =====
-- The readers of softether_pack.c. A read pointer `p` bounded by `end` is the list of the bytes
-- from `p` up to `end`, so `*p + n > end` is a length below `n`, and NULL pointers inside the
-- module do not occur. The result of a getter is what it stores through its out pointer, which
-- callers pass non-NULL; `none` is -1, and then nothing is stored.
use softether_android_client.Base.{
  ℕ, zero, suc, ◌-◌, Option, none, some, List, [], ◌∷◌, ltb, leb, ◌==◌, ◌&&◌, if◌then◌else◌, length,
  take, drop, Bool, true, false,
}
use softether_android_client.Bytes.{read_u32, fold_bytes}
use softether_android_client.Pack.Element.{type_int, type_data, type_str, type_unistr, type_int64}

infixl 5 ◌>>=◌
abbrev pub ◌>>=◌ {ℓ κ} : {A : Type ℓ} {B : Type κ} → Option A → (A → Option B) → Option B
none >>= k = none
some a >>= k = k a

-- `pack_read_uint32_safe`
unfoldable pub read_uint32 : List ℕ → Option (ℕ × List ℕ)
read_uint32 (a ∷ (b ∷ (c ∷ (d ∷ rest)))) = some (read_u32 a b c d, rest)
read_uint32 _ = none

-- `pack_read_uint64_safe`
unfoldable pub read_uint64 : List ℕ → Option (ℕ × List ℕ)
read_uint64 p = if ltb (length p) 8 then none else some (fold_bytes 0 (take 8 p), drop 8 p)

-- `pack_skip_bytes_safe`
unfoldable pub skip_bytes : List ℕ → ℕ → Option (List ℕ)
skip_bytes p n = if ltb (length p) n then none else some (drop n p)

-- `pack_read_string_safe` into a buffer of `out_size` bytes: what it holds before the final NUL.
-- `(uint32_t)(out_size - 1)` is exact for the sizes of type uint32_t that are passed.
unfoldable pub read_string : ℕ → List ℕ → Option (List ℕ)
read_string out_size p = do
  (len, q) ← read_uint32 p
  let copy_len = if ltb len (out_size - 1) then len else out_size - 1
  if ltb (length q) len then none else some (take copy_len q)

abbrev pub read_counted : List ℕ → Option (List ℕ)
read_counted p = do (len, q) ← read_uint32 p; skip_bytes q len

-- `pack_skip_value_safe`
unfoldable pub skip_value : ℕ → List ℕ → Option (List ℕ)
skip_value type p =
    if type == type_int
    then skip_bytes p 4
    else if type == type_int64
    then skip_bytes p 8
    else if type == type_str
    then read_counted p
    else if type == type_unistr
    then read_counted p
    else if type == type_data
    then read_counted p
    else none

unfoldable pub skip_values : ℕ → ℕ → List ℕ → Option (List ℕ)
skip_values zero type p = some p
skip_values (suc n) type p = skip_value type p >>= λ q. skip_values n type q

-- The characters of a C string: those before the first NUL.
unfoldable pub c_string : List ℕ → List ℕ
c_string [] = []
c_string (c ∷ cs) = let rest = c ∷ c_string cs in if c == 0 then [] else rest

-- `strcmp(a, b) == 0`
unfoldable pub list_eq : List ℕ → List ℕ → Bool
list_eq [] [] = true
list_eq [] (y ∷ ys) = false
list_eq (x ∷ xs) [] = false
list_eq (x ∷ xs) (y ∷ ys) = (x == y) && list_eq xs ys

abbrev pub max_elements : ℕ
max_elements = 4096

abbrev pub max_values : ℕ
max_values = 65535

-- What `pack_match_element` returns, with the pointer that it leaves: -1, 0 and 1.
pub data Match : Type 0 where
  malformed : Match
  skipped : List ℕ → Match
  matched : List ℕ → Match

abbrev pub as_skipped : Option (List ℕ) → Match
as_skipped none = malformed
as_skipped (some q) = skipped q

-- The part behind the name: type, number of values, then the test or the values.
abbrev pub match_values : List ℕ → List ℕ → ℕ → ℕ → Option (ℕ × List ℕ) → Match
match_values elem field type elem_type none = malformed
match_values elem field type elem_type (some (num_values, q)) =
    if ltb max_values num_values
    then malformed
    else if list_eq elem field && (elem_type == type) && leb 1 num_values
    then matched q
    else as_skipped (skip_values num_values elem_type q)

abbrev pub match_type : List ℕ → List ℕ → ℕ → Option (ℕ × List ℕ) → Match
match_type elem field type none = malformed
match_type elem field type (some (elem_type, q)) =
    match_values elem field type elem_type (read_uint32 q)

-- `elem` is a zeroed buffer of 64 bytes that gets at most 63 of the name.
abbrev pub match_name : List ℕ → ℕ → Option (ℕ × List ℕ) → Match
match_name field type none = malformed
match_name field type (some (name_len_plus1, q)) =
    if name_len_plus1 == 0
    then malformed
    else if ltb (length q) (name_len_plus1 - 1)
    then malformed
    else match_type
        (c_string (take (if ltb (name_len_plus1 - 1) 63 then name_len_plus1 - 1 else 63) q)) field
        type (read_uint32 (drop (name_len_plus1 - 1) q))

unfoldable pub match_element : List ℕ → List ℕ → ℕ → Match
match_element p field type = match_name field type (read_uint32 p)

-- The loop of every getter over the elements; `read` is what it does at a match.
unfoldable pub get_loop {ℓ} :
    {A : Type ℓ} → (List ℕ → Option A) → ℕ → List ℕ → ℕ → List ℕ → Option A
get_loop read type field zero p = none
get_loop read type field (suc n) p = elim (match_element p field type) [
  | malformed ↦ none
  | matched q ↦ read q
  | skipped q ↦ get_loop read type field n q
]

-- The guards before that loop, which every getter repeats.
abbrev pub get_field {ℓ} :
    {A : Type ℓ} → (List ℕ → Option A) → ℕ → Option (List ℕ) → Option (List ℕ) → Option A
get_field read type none field = none
get_field read type (some body) none = none
get_field read type (some body) (some field) =
    if ltb (length body) 4
    then none
    else read_uint32 body >>= λ (num_elements, p).
        if ltb max_elements num_elements then none else get_loop read type field num_elements p

unfoldable pub pack_get_int : Option (List ℕ) → Option (List ℕ) → Option ℕ
pack_get_int body field = get_field (λ p. read_uint32 p >>= λ (v, q). some v) type_int body field

unfoldable pub pack_get_int64 : Option (List ℕ) → Option (List ℕ) → Option ℕ
pack_get_int64 body field =
    get_field (λ p. read_uint64 p >>= λ (v, q). some v) type_int64 body field

-- The string that ends up in `out_str`.
unfoldable pub pack_get_str : Option (List ℕ) → Option (List ℕ) → ℕ → Option (List ℕ)
pack_get_str body field out_size =
    if out_size == 0 then none else get_field (read_string out_size) type_str body field

-- The bytes copied to `out_data`; `*out_len` is their number.
unfoldable pub read_data : ℕ → List ℕ → Option (List ℕ)
read_data out_size p = do
  (data_len, q) ← read_uint32 p
  if ltb (length q) data_len
      then none
      else some (take (if ltb data_len out_size then data_len else out_size) q)

unfoldable pub pack_get_data : Option (List ℕ) → Option (List ℕ) → ℕ → Option (List ℕ)
pack_get_data body field out_size =
    if out_size == 0 then none else get_field (read_data out_size) type_data body field
