-- ===== src/Pack/Read/Elements.antt =====
-- Reading the elements that the format encodes.
use softether_android_client.Base.{
  ℕ, ◌+◌, ◌-◌, ◌≤◌, ◌<◌, ◌≡◌, ◌^◌, arith, refl, sym, ap, ◌∙◌, some, List, [], ◌∷◌, ◌++◌,
  append_assoc, length, length-append, take-append, drop-append, All, ltb, ◌==◌, ◌&&◌,
  if◌then◌else◌, ne→==, ge→ltb, Bool, true, false,
}
use softether_android_client.Bytes.{write_u32, write_u64}
use softether_android_client.Bytes.RoundTrip.{
  read_u32-write_u32, length-write_u32, length-write_u64, fold_bytes-write_u64,
}
use softether_android_client.Pack.Element.{
  Element, Value, int, int64, str, bytes, encode, encode_value, type_of,
}
use softether_android_client.Pack.Reader.{
  ◌>>=◌, read_uint32, read_uint64, skip_bytes, skip_value, skip_values, c_string, list_eq, skipped,
  matched, match_element, match_name,
}

-- The characters of a C string are not NUL.
abbrev pub IsText : List ℕ → Type 0
IsText s = All (λ c. 0 < c) s

abbrev pub Fits : Value → Type 0
Fits (int v) = v < 2 ^ 32
Fits (int64 v) = v < 2 ^ 64
Fits (str s) = length s < 2 ^ 32
Fits (bytes d) = length d < 2 ^ 32

-- The reader compares 63 characters of a name at most.
pub record IsReadable (e : Element) : Type 0 where
  pub short : length e.name ≤ 63
  pub text : IsText e.name
  pub fits : Fits e.value

pub read_uint32-write_u32 :
    (v : ℕ) (rest : List ℕ) → v < 2 ^ 32 → read_uint32 (write_u32 v ++ rest) ≡ some (v, rest)
unfolding read_uint32 write_u32
read_uint32-write_u32 v rest h = ap (λ (n : ℕ). some (n, rest)) (read_u32-write_u32 v h)

pub read_uint64-write_u64 :
    (v : ℕ) (rest : List ℕ) → v < 2 ^ 64 → read_uint64 (write_u64 v ++ rest) ≡ some (v, rest)
unfolding read_uint64
read_uint64-write_u64 v rest h =
    rw
      (ge→ltb (length (write_u64 v ++ rest)) 8
        (omega (arith, length-append (write_u64 v) rest, length-write_u64 v)))
      (rw
        (
          take-append 8 (write_u64 v) rest (sym (length-write_u64 v)),
          drop-append 8 (write_u64 v) rest (sym (length-write_u64 v)),
          fold_bytes-write_u64 v h,
        )
        refl)

pub skip_bytes-append :
    (bs rest : List ℕ) (n : ℕ) → n ≡ length bs → skip_bytes (bs ++ rest) n ≡ some rest
unfolding skip_bytes
skip_bytes-append bs rest n e =
    rw (ge→ltb (length (bs ++ rest)) n (omega (arith, length-append bs rest)))
      (ap some (drop-append n bs rest e))

-- Skipping a value by its type leaves what follows it.
skip_counted :
    (s rest : List ℕ)
    → length s < 2 ^ 32
    → (read_uint32 ((write_u32 (length s) ++ s) ++ rest) >>= λ (len, q). skip_bytes q len)
      ≡ some rest
skip_counted s rest h =
    rw (append_assoc (write_u32 (length s)) s rest, read_uint32-write_u32 (length s) (s ++ rest) h)
      (skip_bytes-append s rest (length s) refl)

pub skip_value-encode_value :
    (v : Value) (rest : List ℕ)
    → Fits v
    → skip_value (type_of v) (encode_value v ++ rest) ≡ some rest
unfolding skip_value
skip_value-encode_value (int v) rest h =
    skip_bytes-append (write_u32 v) rest 4 (sym (length-write_u32 v))
skip_value-encode_value (int64 v) rest h =
    skip_bytes-append (write_u64 v) rest 8 (sym (length-write_u64 v))
skip_value-encode_value (str s) rest h = skip_counted s rest h
skip_value-encode_value (bytes d) rest h = skip_counted d rest h

pub c_string-text : (s : List ℕ) → IsText s → c_string s ≡ s
unfolding c_string
c_string-text [] h = refl
c_string-text (c ∷ cs) h =
    rw (ne→== c 0 (omega (arith, h.0))) (ap (λ t. c ∷ t) (c_string-text cs h.1))

if-and_true {ℓ} :
    {A : Type ℓ} (a b : Bool) (x y : A)
    → (if a && b && true then x else y) ≡ (if a && b then x else y)
if-and_true true true x y = refl
if-and_true true false x y = refl
if-and_true false b x y = refl

-- On an encoded element the reader stops at the value, or passes over the element.
pub match_element-encode :
    (e : Element) (rest field : List ℕ) (type : ℕ)
    → IsReadable e
    → match_element (encode e ++ rest) field type ≡ (
        if list_eq e.name field && (type_of e.value == type)
        then matched (encode_value e.value ++ rest)
        else skipped rest)
unfolding match_element skip_values
match_element-encode e rest field type r =
    ap (λ p. match_name field type (read_uint32 p)) laid_out
    ∙ rw (read_uint32-write_u32 (length e.name + 1) (e.name ++ tail) (omega (arith, r.short))) (
        rw (ne→== (length e.name + 1) 0 (omega arith), plus_minus, name_fits)
          (rw
            (
              same_take,
              take-append (length e.name) e.name tail refl,
              drop-append (length e.name) e.name tail refl,
              c_string-text e.name r.text,
              read_uint32-write_u32 (type_of e.value) (write_u32 1 ++ value) (type_small e.value),
              read_uint32-write_u32 1 value (omega arith),
              skip_value-encode_value e.value rest r.fits,
            )
            (if-and_true (list_eq e.name field) (type_of e.value == type) (matched value)
              (skipped rest))))
  where
    value : List ℕ
    value = encode_value e.value ++ rest

    tail : List ℕ
    tail = write_u32 (type_of e.value) ++ (write_u32 1 ++ value)

    laid_out : encode e ++ rest ≡ write_u32 (length e.name + 1) ++ (e.name ++ tail)
    laid_out = simp append_assoc

    plus_minus : length e.name + 1 - 1 ≡ length e.name
    plus_minus = omega arith

    name_fits : ltb (length (e.name ++ tail)) (length e.name) ≡ false
    name_fits = ge→ltb _ _ (omega (arith, length-append e.name tail))

    same_take : (if ltb (length e.name) 63 then length e.name else 63) ≡ length e.name
    same_take = ground (arith, r.short)

    type_small : (v : Value) → type_of v < 2 ^ 32
    type_small (int v) = omega arith
    type_small (int64 v) = omega arith
    type_small (str v) = omega arith
    type_small (bytes v) = omega arith
