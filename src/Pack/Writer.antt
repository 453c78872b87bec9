-- ===== src/Pack/Writer.antt =====
-- The writer of softether_pack.c. A fallible call returns its status beside the pack that the
-- pointer then refers to; NULL is `none`.
use softether_android_client.Base.{
  ℕ, zero, suc, ◌+◌, ◌-◌, ◌*◌, ◌^◌, u32, Option, none, some, List, ◌++◌, ltb, leb, ◌==◌,
  if◌then◌else◌, length, take, drop,
}
use softether_android_client.Bytes.{write_u32, write_u64}
use softether_android_client.Pack.Element.{type_int, type_data, type_str, type_int64}

-- `softether_pack_t`. `buf` is the allocation behind `data`, which is never NULL in a pack that
-- `pack_new` returned, so that check of `pack_reserve` has no counterpart.
pub record Pack : Type 0 where
  pub buf : List ℕ
  pub len : ℕ
  pub cap : ℕ
  pub num_elements : ℕ

-- malloc and realloc of the C library; `none` is NULL. The contents of fresh memory are any bytes.
pub record Memory : Type 0 where
  pub malloc : ℕ → Option (List ℕ)
  pub realloc : List ℕ → ℕ → Option (List ℕ)

-- 0 and -1
pub data Status : Type 0 where
  ok failed : Status

-- `fault` is an access outside an allocation, or a loop that ran out of the model's fuel.
pub data Outcome : Type 0 where
  returns : Status → Option Pack → Outcome
  fault : Outcome

-- A write pointer into a buffer: `pos` bytes past its start.
pub record Cursor : Type 0 where
  pub mem : List ℕ
  pub pos : ℕ

infixl 5 ◌>>=◌
abbrev pub ◌>>=◌ : Option Cursor → (Cursor → Option Cursor) → Option Cursor
none >>= k = none
some c >>= k = k c

-- Stores bytes at the pointer and moves it past them; outside the buffer this is undefined.
unfoldable pub put : List ℕ → Cursor → Option Cursor
put bs c =
    if ltb (length c.mem) (c.pos + length bs)
    then none
    else some (record {
      mem = take c.pos c.mem ++ (bs ++ drop (c.pos + length bs) c.mem);
      pos = c.pos + length bs;
    })

-- `memcpy` of `n` bytes from an object that must hold as many.
unfoldable pub copy : List ℕ → ℕ → Cursor → Option Cursor
copy src n c = if ltb (length src) n then none else put (take n src) c

unfoldable pub write_elem_name : List ℕ → Cursor → Option Cursor
write_elem_name name c = do
  c ← put (write_u32 (u32 (u32 (length name) + 1))) c
  copy name (u32 (length name)) c

unfoldable pub write_str_val : List ℕ → Cursor → Option Cursor
write_str_val s c = do c ← put (write_u32 (u32 (length s))) c; copy s (u32 (length s)) c

-- The pointer moves by `len` also where nothing is copied.
abbrev pub copy_data : Option (List ℕ) → ℕ → Cursor → Option Cursor
copy_data none n c = some (record c { pos = c.pos + n })
copy_data (some d) n c = if n == 0 then some c else copy d n c

unfoldable pub write_data_val : Option (List ℕ) → ℕ → Cursor → Option Cursor
write_data_val d n c = do c ← put (write_u32 n) c; copy_data d n c

-- The three calls that every `pack_add_*` begins with.
unfoldable pub write_header : List ℕ → ℕ → Cursor → Option Cursor
write_header name type c = do
  c ← write_elem_name name c
  c ← put (write_u32 type) c
  put (write_u32 1) c

-- PACK_ELEM_HDR_SZ and the sizes of the four kinds, in `uint32_t`.
abbrev pub header_size : List ℕ → ℕ
header_size name = u32 (u32 (4 + u32 (length name)) + 8)

abbrev pub int_size : List ℕ → ℕ
int_size name = u32 (header_size name + 4)

abbrev pub int64_size : List ℕ → ℕ
int64_size name = u32 (header_size name + 8)

abbrev pub str_size : List ℕ → List ℕ → ℕ
str_size name val = u32 (u32 (header_size name + 4) + u32 (length val))

abbrev pub data_size : List ℕ → ℕ → ℕ
data_size name dlen = u32 (u32 (header_size name + 4) + dlen)

abbrev pub initial_cap : ℕ
initial_cap = 256

-- The loop of `pack_reserve`; `none` is out of fuel. UINT32_MAX / 2 is 2 ^ 31 - 1.
unfoldable pub grow : ℕ → ℕ → ℕ → Option ℕ
grow zero new_cap need = none
grow (suc fuel) new_cap need =
    let rest = grow fuel (u32 (new_cap * 2)) need in
    if ltb new_cap need
    then (if ltb (2 ^ 31 - 1) new_cap then some need else rest)
    else some new_cap

abbrev pub grow_fuel : ℕ
grow_fuel = 33

pub data Reserved : Type 0 where
  granted : Pack → Reserved
  denied : Reserved
  stuck : Reserved

abbrev pub resized : Pack → ℕ → Option (List ℕ) → Reserved
resized p new_cap none = denied
resized p new_cap (some nd) = granted (record p { buf = nd; cap = new_cap })

module _ (mem : Memory) where
  abbrev pub reallocate : Pack → Option ℕ → Reserved
  reallocate p none = stuck
  reallocate p (some new_cap) = resized p new_cap (mem.realloc p.buf new_cap)

  unfoldable pub reserve : Pack → ℕ → Reserved
  reserve p add =
      if ltb (2 ^ 32 - 1 - p.len) add
      then denied
      else if leb (p.len + add) p.cap
      then granted p
      else reallocate p (grow grow_fuel (if p.cap == 0 then initial_cap else p.cap) (p.len + add))

-- `pack_commit_element`: the new length and count, and the count patched in at offset 0.
unfoldable pub commit : Pack → ℕ → Option Cursor → Outcome
commit p elem_size none = fault
commit p elem_size (some c) =
    elim (put (write_u32 (u32 (p.num_elements + 1))) (record { mem = c.mem; pos = 0 })) [
      | none ↦ fault
      | some c' ↦ returns ok (
          some (record {
            buf = c'.mem;
            len = u32 (p.len + elem_size);
            cap = p.cap;
            num_elements = u32 (p.num_elements + 1);
          }))
    ]

-- The part after a reservation: write at `data + len`, then commit.
abbrev pub write_reserved : Pack → ℕ → (Cursor → Option Cursor) → Reserved → Outcome
write_reserved p elem_size body denied = returns failed (some p)
write_reserved p elem_size body stuck = fault
write_reserved p elem_size body (granted q) =
    commit q elem_size (body (record { mem = q.buf; pos = q.len }))

module _ (mem : Memory) where
  unfoldable pub pack_new : Option Pack
  pack_new = elim (mem.malloc initial_cap) [
    | none ↦ none
    | some buf ↦ some (record { buf = buf; len = 4; cap = initial_cap; num_elements = 0 })
  ]

  unfoldable pub pack_add_int : Option Pack → Option (List ℕ) → ℕ → Outcome
  pack_add_int none name val = returns failed none
  pack_add_int (some p) none val = returns failed (some p)
  pack_add_int (some p) (some name) val =
      write_reserved p (int_size name) (λ c. write_header name type_int c >>= put (write_u32 val))
        (reserve mem p (int_size name))

  unfoldable pub pack_add_int64 : Option Pack → Option (List ℕ) → ℕ → Outcome
  pack_add_int64 none name val = returns failed none
  pack_add_int64 (some p) none val = returns failed (some p)
  pack_add_int64 (some p) (some name) val =
      write_reserved p (int64_size name)
        (λ c. write_header name type_int64 c >>= put (write_u64 val))
        (reserve mem p (int64_size name))

  unfoldable pub pack_add_str : Option Pack → Option (List ℕ) → Option (List ℕ) → Outcome
  pack_add_str none name val = returns failed none
  pack_add_str (some p) none val = returns failed (some p)
  pack_add_str (some p) (some name) none = returns failed (some p)
  pack_add_str (some p) (some name) (some val) =
      write_reserved p (str_size name val) (λ c. write_header name type_str c >>= write_str_val val)
        (reserve mem p (str_size name val))

  abbrev add_data : Pack → List ℕ → Option (List ℕ) → ℕ → Outcome
  add_data p name d dlen =
      write_reserved p (data_size name dlen)
        (λ c. write_header name type_data c >>= write_data_val d dlen)
        (reserve mem p (data_size name dlen))

  unfoldable pub pack_add_data : Option Pack → Option (List ℕ) → Option (List ℕ) → ℕ → Outcome
  pack_add_data none name d dlen = returns failed none
  pack_add_data (some p) none d dlen = returns failed (some p)
  pack_add_data (some p) (some name) none dlen =
      if ltb 0 dlen then returns failed (some p) else add_data p name none dlen
  pack_add_data (some p) (some name) (some d) dlen = add_data p name (some d) dlen

-- `pack_data` and `pack_length`: the bytes that a caller sends, NULL and 0 for NULL.
unfoldable pub pack_bytes : Option Pack → Option (List ℕ)
pack_bytes none = none
pack_bytes (some p) = some (take p.len p.buf)
