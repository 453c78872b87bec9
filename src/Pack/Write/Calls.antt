-- ===== src/Pack/Write/Calls.antt =====
-- The public calls of the writer: `pack_new` and the four `pack_add_*`.
use softether_android_client.Base.{
  ℕ, ◌+◌, ◌≤◌, ◌<◌, ◌≡◌, ◌⊎◌, inl, inr, arith, refl, ap, Option, none, some, List, [], ◌∷◌, ◌++◌,
  append-nil, length, length-append, length-take, take, drop, take-append-drop, ◌^◌, u32, ne→==,
  Option-cases,
}
use softether_android_client.Bytes.{write_u32, write_u64}
use softether_android_client.Bytes.RoundTrip.{length-write_u32, length-write_u64}
use softether_android_client.Pack.Element.{
  Element, Value, int, int64, str, bytes, encode, encode_header, encode_value, type_of,
  length-encode_header,
}
use softether_android_client.Pack.Writer.{
  Pack, Memory, Cursor, put, ◌>>=◌, write_header, write_str_val, write_data_val, copy, copy_data,
  pack_new, pack_add_int, pack_add_int64, pack_add_str, pack_add_data,
}
use softether_android_client.Pack.Reserve.{IsMemory}
use softether_android_client.Pack.Write.Cursor.{
  IsAt, Wrote, keep-Wrote, put-Wrote, copy-Wrote, >>=-Wrote, write_header-Wrote,
}
use softether_android_client.Pack.Write.Adds.{Represents, Adds, Writes, write_reserved-Adds}

module _ (mem : Memory) (lawful : IsMemory mem) where
  -- `pack_new` returns NULL when malloc does, and else a pack that stands for no element.
  pub pack_new-Represents :
      (pack_new mem ≡ none) ⊎ ((p : Pack) × (pack_new mem ≡ some p) × Represents p [])
  unfolding pack_new
  pack_new-Represents = elim (Option-cases (mem.malloc 256)) [
    | inl e ↦ inl (rw (e, pack_new) refl)
    | inr (buf, e) ↦ inr (_, rw (e, pack_new) refl, fresh buf (lawful.malloc_size 256 buf e))
  ]
    where
      fresh :
          (buf : List ℕ)
          → length buf ≡ 256
          → Represents (record { buf = buf; len = 4; cap = 256; num_elements = 0 }) []
      fresh buf h = record {
        head = take 4 buf;
        head_size = omega (arith, length-take 4 buf);
        allocated = record {
          room = drop 4 buf;
          contents = rw (append-nil, take-append-drop);
          used_size = omega (arith, length-take 4 buf, ap length (append-nil (take 4 buf)));
          whole = h;
          cap_fits = omega arith;
        };
        count = refl;
        patched = inl refl;
      }

-- A header, then the value.
element-Writes :
    (name : List ℕ) (v : Value) (rest : Cursor → Option Cursor)
    → length name + 12 < 2 ^ 32
    → ((c : Cursor) (front : List ℕ) (n : ℕ)
        → IsAt c front n
        → length (encode_value v) ≤ n
        → Wrote front n (encode_value v) (rest c))
    → Writes (record { name = name; value = v }) (λ c. write_header name (type_of v) c >>= rest)
element-Writes name v rest short value c front n a h =
    >>=-Wrote (encode_header name (type_of v)) (encode_value v) rest
      (write_header-Wrote name (type_of v) (omega arith) a (omega (arith, sizes)))
      (λ c a. value c _ _ a (omega (arith, sizes, length-encode_header name (type_of v))))
  where
    sizes : length name + 12 + length (encode_value v) ≤ n
    sizes = omega (
      arith,
      length-append (encode_header name (type_of v)) (encode_value v),
      length-encode_header name (type_of v),
    )

size_of :
    (name : List ℕ) (v : Value)
    → length (encode (record { name = name; value = v }))
      ≡ length name + 12 + length (encode_value v)
size_of name v = omega (
  arith,
  length-append (encode_header name (type_of v)) (encode_value v),
  length-encode_header name (type_of v),
)

counted_size :
    (s : List ℕ) (n : ℕ)
    → length (write_u32 (length s) ++ s) ≤ n
    → (length (write_u32 (length s)) ≡ 4) × (4 + length s ≤ n)
counted_size s n h = (
  length-write_u32 (length s),
  omega (arith, length-append (write_u32 (length s)) s, length-write_u32 (length s)),
)

copy_data-Wrote :
    (d : List ℕ) {c : Cursor} {front : List ℕ} {n : ℕ}
    → IsAt c front n
    → length d ≤ n
    → Wrote front n d (copy_data (some d) (length d) c)
copy_data-Wrote [] a h = keep-Wrote a
copy_data-Wrote (x ∷ d) a h =
    rw (ne→== (length (x ∷ d)) 0 (omega arith)) (copy-Wrote (x ∷ d) _ refl a h)

counted-Wrote :
    (s : List ℕ) (k : ℕ) {c : Cursor} {front : List ℕ} {n : ℕ}
    → k ≡ length s
    → IsAt c front n
    → length (write_u32 (length s) ++ s) ≤ n
    → Wrote front n (write_u32 (length s) ++ s) (put (write_u32 k) c >>= copy s k)
counted-Wrote s k {n} e a h = rw e (
    >>=-Wrote (write_u32 (length s)) s (copy s (length s))
      (put-Wrote (write_u32 (length s)) a (omega (arith, counted_size s n h)))
      (λ c a. copy-Wrote s (length s) refl a (omega (arith, counted_size s n h))))

module _ (mem : Memory) (lawful : IsMemory mem) (p : Pack) (es : List Element) (name : List ℕ)
    (r : Represents p es) where
  -- On a pack that stands for some elements, with a malloc and a realloc that keep their
  -- promises and a name whose element has a size of 32 bits, `pack_add_int` appends the element
  -- of that name with the number, or returns an error and leaves the pack as it was.
  pub pack_add_int-Adds :
      (v : ℕ)
      → length name + 16 < 2 ^ 32
      → Adds mem p es
          (record { name = name; value = int v })
          (pack_add_int mem (some p) (some name) v)
  unfolding pack_add_int
  pack_add_int-Adds v short =
      write_reserved-Adds mem lawful p es (record { name = name; value = int v }) _ _ r
        (omega (arith, size_of name (int v), length-write_u32 v))
        (element-Writes name (int v) (put (write_u32 v)) (omega arith)
          (λ c front n a h. put-Wrote (write_u32 v) a h))

  -- Under the same promises and a size of 32 bits, `pack_add_int64` appends the element of that
  -- name with the number of eight bytes, or returns an error and leaves the pack as it was.
  pub pack_add_int64-Adds :
      (v : ℕ)
      → length name + 20 < 2 ^ 32
      → Adds mem p es
          (record { name = name; value = int64 v })
          (pack_add_int64 mem (some p) (some name) v)
  unfolding pack_add_int64
  pack_add_int64-Adds v short =
      write_reserved-Adds mem lawful p es (record { name = name; value = int64 v }) _ _ r
        (omega (arith, size_of name (int64 v), length-write_u64 v))
        (element-Writes name (int64 v) (put (write_u64 v)) (omega arith)
          (λ c front n a h. put-Wrote (write_u64 v) a h))

  -- Under the same promises and a size of 32 bits, `pack_add_str` appends the element of that
  -- name with the characters of the string, or returns an error and leaves the pack as it was.
  pub pack_add_str-Adds :
      (s : List ℕ)
      → length name + 16 + length s < 2 ^ 32
      → Adds mem p es
          (record { name = name; value = str s })
          (pack_add_str mem (some p) (some name) (some s))
  unfolding pack_add_str
  pack_add_str-Adds s short =
      write_reserved-Adds mem lawful p es (record { name = name; value = str s }) _ _ r
        (omega (
          arith,
          size_of name (str s),
          length-append (write_u32 (length s)) s,
          length-write_u32 (length s),
        ))
        (element-Writes name (str s) (write_str_val s) (omega arith)
          (λ c front n a h. unfold write_str_val in rw same (counted-Wrote s (length s) refl a h)))
    where
      same : u32 (length s) ≡ length s
      same = omega arith

  -- Under the same promises and a size of 32 bits, `pack_add_data` with a buffer and its size
  -- appends the element of that name with the bytes, or returns an error and leaves the pack as it
  -- was.
  pub pack_add_data-Adds :
      (d : List ℕ)
      → length name + 16 + length d < 2 ^ 32
      → Adds mem p es
          (record { name = name; value = bytes d })
          (pack_add_data mem (some p) (some name) (some d) (length d))
  unfolding pack_add_data
  pack_add_data-Adds d short =
      write_reserved-Adds mem lawful p es (record { name = name; value = bytes d }) _ _ r
        (omega (
          arith,
          size_of name (bytes d),
          length-append (write_u32 (length d)) d,
          length-write_u32 (length d),
        ))
        (element-Writes name (bytes d) (write_data_val (some d) (length d)) (omega arith)
          (λ c front n a h. data_writes d a h))
    where
      data_writes :
          (d : List ℕ) {c : Cursor} {front : List ℕ} {n : ℕ}
          → IsAt c front n
          → length (write_u32 (length d) ++ d) ≤ n
          → Wrote front n (write_u32 (length d) ++ d) (write_data_val (some d) (length d) c)
      data_writes d {n = n} a h =
          unfold write_data_val in
          >>=-Wrote (write_u32 (length d)) d (copy_data (some d) (length d))
            (put-Wrote (write_u32 (length d)) a (omega (arith, counted_size d n h)))
            (λ c a. copy_data-Wrote d a (omega (arith, counted_size d n h)))
