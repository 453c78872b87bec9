-- ===== src/Pack/Element.antt =====
-- What a PACK body means: a list of named values, and the bytes of each (include/softether_pack.h).
use softether_android_client.Base.{
  ℕ, ◌+◌, ◌≤◌, ◌≡◌, arith, List, [], ◌∷◌, ◌++◌, append_assoc, length, length-append, ap, ◌∙◌, refl,
  sym,
}
use softether_android_client.Bytes.{write_u32, write_u64}
use softether_android_client.Bytes.RoundTrip.{length-write_u32}

-- The four kinds of value that the writer stores.
pub data Value : Type 0 where
  int : ℕ → Value
  int64 : ℕ → Value
  str : List ℕ → Value
  bytes : List ℕ → Value

pub record Element : Type 0 where
  pub name : List ℕ
  pub value : Value

-- PACK_TYPE_INT, PACK_TYPE_DATA, PACK_TYPE_STR, PACK_TYPE_UNISTR, PACK_TYPE_INT64
abbrev pub type_int : ℕ
type_int = 0

abbrev pub type_data : ℕ
type_data = 1

abbrev pub type_str : ℕ
type_str = 2

abbrev pub type_unistr : ℕ
type_unistr = 3

abbrev pub type_int64 : ℕ
type_int64 = 4

abbrev pub type_of : Value → ℕ
type_of (int v) = type_int
type_of (int64 v) = type_int64
type_of (str s) = type_str
type_of (bytes d) = type_data

abbrev pub encode_value : Value → List ℕ
encode_value (int v) = write_u32 v
encode_value (int64 v) = write_u64 v
encode_value (str s) = write_u32 (length s) ++ s
encode_value (bytes d) = write_u32 (length d) ++ d

-- The name is preceded by its length plus one, the value by its type and the count 1.
abbrev pub encode_header : List ℕ → ℕ → List ℕ
encode_header name type = write_u32 (length name + 1) ++ (name ++ (write_u32 type ++ write_u32 1))

abbrev pub encode : Element → List ℕ
encode e = encode_header e.name (type_of e.value) ++ encode_value e.value

abbrev pub encode_all : List Element → List ℕ
encode_all [] = []
encode_all (e ∷ es) = encode e ++ encode_all es

pub encode_all-append :
    (es fs : List Element) → encode_all (es ++ fs) ≡ encode_all es ++ encode_all fs
encode_all-append [] fs = refl
encode_all-append (e ∷ es) fs =
    ap (λ t. encode e ++ t) (encode_all-append es fs)
    ∙ sym (append_assoc (encode e) (encode_all es) (encode_all fs))

pub length-encode_header :
    (name : List ℕ) (type : ℕ) → length (encode_header name type) ≡ length name + 12
length-encode_header name type = omega (
  arith,
  length-append (write_u32 (length name + 1)) (name ++ (write_u32 type ++ write_u32 1)),
  length-append name (write_u32 type ++ write_u32 1),
  length-append (write_u32 type) (write_u32 1),
  length-write_u32 (length name + 1),
  length-write_u32 type,
  length-write_u32 1,
)

pub length-le-encode_all : (es : List Element) → length es ≤ length (encode_all es)
length-le-encode_all [] = omega arith
length-le-encode_all (e ∷ es) = omega (
  arith,
  length-append (encode e) (encode_all es),
  length-append (encode_header e.name (type_of e.value)) (encode_value e.value),
  length-encode_header e.name (type_of e.value),
  length-le-encode_all es,
)
