-- ===== src/Pack/Read/Getters.antt =====
-- The getters against the list of elements: each finds the first element that has its name and its
-- kind.
use softether_android_client.Base.{
  ℕ, suc, ◌-◌, ◌≤◌, ◌≡◌, ◌≢◌, arith, refl, sym, ap, ◌∙◌, Option, none, some, List, [], ◌∷◌, ◌++◌,
  append_assoc, length, length-append, take, take-append_le, take-all, All, ltb, ◌==◌,
  if◌then◌else◌, Bool-cases, inl, inr, ne→==, ge→ltb, Bool, true, false,
}
use softether_android_client.Bytes.{write_u32}
use softether_android_client.Bytes.RoundTrip.{length-write_u32}
use softether_android_client.Pack.Element.{
  Element, Value, int, int64, str, bytes, encode, encode_all, encode_value, type_of, type_int,
  type_int64, type_str, type_data,
}
use softether_android_client.Pack.Reader.{
  ◌>>=◌, read_uint32, read_uint64, read_string, read_data, list_eq, get_loop, get_field,
  pack_get_int, pack_get_int64, pack_get_str, pack_get_data, max_elements,
}
use softether_android_client.Pack.Read.Elements.{
  Fits, IsReadable, read_uint32-write_u32, read_uint64-write_u64, match_element-encode,
}

-- The specification: the first element of that name whose value is of the kind that `pick` takes.
abbrev pub first_named {ℓ} : {A : Type ℓ} → (Value → Option A) → List ℕ → List Element → Option A
first_named pick field [] = none
first_named pick field (e ∷ es) = elim (pick e.value) [
  | none ↦ first_named pick field es
  | some a ↦ if list_eq e.name field then some a else first_named pick field es
]

-- A reader takes the values of its own type code as `pick` does.
data Kind {ℓ} {A : Type ℓ} (pick : Value → Option A) (type : ℕ) (read : List ℕ → Option A)
    (v : Value) : Type ℓ where
  mine :
      (a : A)
      → (type_of v == type) ≡ true
      → pick v ≡ some a
      → ((rest : List ℕ) → read (encode_value v ++ rest) ≡ some a)
      → Kind pick type read v
  other : (type_of v == type) ≡ false → pick v ≡ none → Kind pick type read v

module _ {ℓ} {A : Type ℓ} (pick : Value → Option A) (type : ℕ) (read : List ℕ → Option A)
    (kind : (v : Value) → Fits v → Kind pick type read v) (field : List ℕ) where
  get_loop-step :
      (e : Element) (es : List Element) (n : ℕ) (rest : List ℕ)
      → IsReadable e
      → get_loop read type field n rest ≡ first_named pick field es
      → get_loop read type field (suc n) (encode e ++ rest) ≡ first_named pick field (e ∷ es)
  unfolding get_loop
  get_loop-step e es n rest r ih = go (kind e.value r.fits) (list_eq e.name field) refl
    where
      go :
          Kind pick type read e.value
          → (b : Bool) → list_eq e.name field ≡ b
          → get_loop read type field (suc n) (encode e ++ rest) ≡ first_named pick field (e ∷ es)
      go (mine a t p h) true b =
          rw (get_loop, first_named, match_element-encode e rest field type r, b, t, p, b) (h rest)
      go (mine a t p h) false b =
          rw (get_loop, first_named, match_element-encode e rest field type r, b, p, b) ih
      go (other t p) true b =
          rw (get_loop, first_named, match_element-encode e rest field type r, b, t, p) ih
      go (other t p) false b =
          rw (get_loop, first_named, match_element-encode e rest field type r, b, p) ih

  get_loop-encode_all :
      (es : List Element)
      → All IsReadable es
      → get_loop read type field (length es) (encode_all es) ≡ first_named pick field es
  get_loop-encode_all [] r = unfold get_loop in refl
  get_loop-encode_all (e ∷ es) r =
      get_loop-step e es (length es) (encode_all es) r.0 (get_loop-encode_all es r.1)

  get_field-encode_all :
      (es : List Element)
      → All IsReadable es
      → length es ≤ max_elements
      → get_field read type (some (write_u32 (length es) ++ encode_all es)) (some field)
        ≡ first_named pick field es
  get_field-encode_all es r few =
      rw
        (ge→ltb (length (write_u32 (length es) ++ encode_all es)) 4 (
          omega (
            arith,
            length-append (write_u32 (length es)) (encode_all es),
            length-write_u32 (length es),
          )))
        (rw
          (
            read_uint32-write_u32 (length es) (encode_all es) (omega arith),
            ge→ltb max_elements (length es) few,
          )
          (get_loop-encode_all es r))

abbrev pub pick_int : Value → Option ℕ
pick_int (int v) = some v
pick_int _ = none

abbrev pub pick_int64 : Value → Option ℕ
pick_int64 (int64 v) = some v
pick_int64 _ = none

-- What fits the buffer, in front of the final NUL.
abbrev pub pick_str : ℕ → Value → Option (List ℕ)
pick_str out_size (str s) = some (take (out_size - 1) s)
pick_str out_size _ = none

abbrev pub pick_data : ℕ → Value → Option (List ℕ)
pick_data out_size (bytes d) = some (take out_size d)
pick_data out_size _ = none

int-Kind : (v : Value) → Fits v → Kind pick_int type_int (λ p. read_uint32 p >>= λ (v, q). some v) v
int-Kind (int v) h = mine v refl refl (λ rest. rw (read_uint32-write_u32 v rest h))
int-Kind (int64 v) h = other refl refl
int-Kind (str s) h = other refl refl
int-Kind (bytes d) h = other refl refl

int64-Kind :
    (v : Value) → Fits v → Kind pick_int64 type_int64 (λ p. read_uint64 p >>= λ (v, q). some v) v
int64-Kind (int v) h = other refl refl
int64-Kind (int64 v) h = mine v refl refl (λ rest. rw (read_uint64-write_u64 v rest h))
int64-Kind (str s) h = other refl refl
int64-Kind (bytes d) h = other refl refl

-- Copying the smaller of two lengths is taking the second.
take_smaller :
    (n : ℕ) (s rest : List ℕ)
    → take (if ltb (length s) n then length s else n) (s ++ rest) ≡ take n s
take_smaller n s rest = elim (Bool-cases (ltb (length s) n)) [
  | inl shorter ↦ rw shorter (
      take-append_le (length s) s rest (omega arith)
      ∙ take-all (length s) s (omega arith)
      ∙ sym (take-all n s (ground arith)))
  | inr longer ↦ rw longer (take-append_le n s rest (ground arith))
]

str-Kind : (n : ℕ) (v : Value) → Fits v → Kind (pick_str n) type_str (read_string n) v
unfolding read_string
str-Kind n (int v) h = other refl refl
str-Kind n (int64 v) h = other refl refl
str-Kind n (str s) h = mine (take (n - 1) s) refl refl (λ rest.
    rw
      (
        append_assoc (write_u32 (length s)) s rest,
        read_uint32-write_u32 (length s) (s ++ rest) h,
        ge→ltb (length (s ++ rest)) (length s) (omega (arith, length-append s rest)),
      )
      (ap some (take_smaller (n - 1) s rest)))
str-Kind n (bytes d) h = other refl refl

data-Kind : (n : ℕ) (v : Value) → Fits v → Kind (pick_data n) type_data (read_data n) v
unfolding read_data
data-Kind n (int v) h = other refl refl
data-Kind n (int64 v) h = other refl refl
data-Kind n (str s) h = other refl refl
data-Kind n (bytes d) h = mine (take n d) refl refl (λ rest.
    rw
      (
        append_assoc (write_u32 (length d)) d rest,
        read_uint32-write_u32 (length d) (d ++ rest) h,
        ge→ltb (length (d ++ rest)) (length d) (omega (arith, length-append d rest)),
      )
      (ap some (take_smaller n d rest)))

module _ (es : List Element) (field : List ℕ) (r : All IsReadable es)
    (few : length es ≤ max_elements) where
  abbrev body : Option (List ℕ)
  body = some (write_u32 (length es) ++ encode_all es)

  pub pack_get_int-encode_all : pack_get_int body (some field) ≡ first_named pick_int field es
  unfolding pack_get_int
  pack_get_int-encode_all = get_field-encode_all pick_int type_int _ int-Kind field es r few

  pub pack_get_int64-encode_all : pack_get_int64 body (some field) ≡ first_named pick_int64 field es
  unfolding pack_get_int64
  pack_get_int64-encode_all = get_field-encode_all pick_int64 type_int64 _ int64-Kind field es r few

  pub pack_get_str-encode_all :
      (n : ℕ) → n ≢ 0 → pack_get_str body (some field) n ≡ first_named (pick_str n) field es
  unfolding pack_get_str
  pack_get_str-encode_all n h =
      rw (ne→== n 0 h) (get_field-encode_all (pick_str n) type_str _ (str-Kind n) field es r few)

  pub pack_get_data-encode_all :
      (n : ℕ) → n ≢ 0 → pack_get_data body (some field) n ≡ first_named (pick_data n) field es
  unfolding pack_get_data
  pack_get_data-encode_all n h =
      rw (ne→== n 0 h) (get_field-encode_all (pick_data n) type_data _ (data-Kind n) field es r few)
