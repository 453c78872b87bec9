-- ===== src/Pack/Write/Overflow.antt =====
-- The size of a DATA element is computed in `uint32_t` with no check, so a length near 2 ^ 32
-- passes `pack_reserve` with a small number.
use softether_android_client.Base.{
  ℕ, ◌+◌, ◌-◌, ◌≤◌, ◌<◌, ◌≡◌, arith, refl, sym, ap, none, some, List, ◌++◌, length, length-append,
  take-all, ◌^◌, lt→ltb, ge→ltb, ne→==,
}
use softether_android_client.Bytes.{write_u32}
use softether_android_client.Bytes.RoundTrip.{length-write_u32}
use softether_android_client.Pack.Element.{Element, encode_all, encode_header, length-encode_header}
use softether_android_client.Pack.Writer.{
  Pack, Memory, fault, Cursor, put, copy, write_data_val, reserve, commit, granted, data_size,
  pack_add_data,
}
use softether_android_client.Pack.Write.Cursor.{IsAt, put-Wrote, write_header-Wrote}
use softether_android_client.Pack.Write.Adds.{Represents}

put-outside : (bs : List ℕ) (c : Cursor) → length c.mem < c.pos + length bs → put bs c ≡ none
unfolding put
put-outside bs c h = rw (lt→ltb _ _ h)

copy-outside :
    (d : List ℕ) (c : Cursor) → length c.mem < c.pos + length d → copy d (length d) c ≡ none
unfolding copy
copy-outside d c h =
    rw (ge→ltb (length d) (length d) (omega arith), take-all (length d) d (omega arith))
      (put-outside d c h)

module _ (mem : Memory) (p : Pack) (es : List Element) (name d : List ℕ) (r : Represents p es)
    (named : length name < 2 ^ 31) (wraps : 2 ^ 32 ≤ length name + 16 + length d)
    (fits : length d < 2 ^ 32) (header_room : p.len + length name + 16 ≤ p.cap) where
  start : Cursor
  start = record { mem = p.buf; pos = p.len }

  start-IsAt : IsAt start (r.head ++ encode_all es) (p.cap - p.len)
  unfolding start
  start-IsAt = record {
    room = r.allocated.room;
    contents = r.allocated.contents;
    position = sym r.allocated.used_size;
    left = omega (
      arith,
      r.allocated.whole,
      ap length r.allocated.contents,
      r.allocated.used_size,
      length-append (r.head ++ encode_all es) r.allocated.room,
    );
  }

  reserved : reserve mem p (data_size name (length d)) ≡ granted p
  unfolding reserve
  reserved =
      let small : data_size name (length d) ≡ length name + 16 + length d - 2 ^ 32 = omega arith in
      rw small (ground (arith, r.allocated.cap_fits))

  value-outside :
      (c : Cursor)
      → IsAt c
          ((r.head ++ encode_all es) ++ encode_header name 1)
          (p.cap - p.len - length (encode_header name 1))
      → write_data_val (some d) (length d) c ≡ none
  unfolding write_data_val
  value-outside c a =
      let w =
        put-Wrote (write_u32 (length d)) a
          (omega (arith, length-write_u32 (length d), length-encode_header name 1)) in
      rw (w.returned, ne→== (length d) 0 (omega arith))
        (copy-outside d w.cursor (beyond w.cursor w.stands))
    where
      beyond :
          (c' : Cursor)
          → IsAt c'
              (((r.head ++ encode_all es) ++ encode_header name 1) ++ write_u32 (length d))
              (p.cap - p.len - length (encode_header name 1) - length (write_u32 (length d)))
          → length c'.mem < c'.pos + length d
      beyond c' a' = omega (
        arith,
        a'.position,
        a'.left,
        ap length a'.contents,
        length-append (((r.head ++ encode_all es) ++ encode_header name 1) ++ write_u32 (length d))
            a'.room,
        length-append ((r.head ++ encode_all es) ++ encode_header name 1) (write_u32 (length d)),
        length-append (r.head ++ encode_all es) (encode_header name 1),
        r.allocated.used_size,
        length-encode_header name 1,
        length-write_u32 (length d),
        r.allocated.cap_fits,
      )

  -- With a pack that stands for some elements, a name and data whose sizes add up to 2 ^ 32 at
  -- least, and room for the header, the copy of the data leaves the allocation.
  pub pack_add_data-fault : pack_add_data mem (some p) (some name) (some d) (length d) ≡ fault
  unfolding pack_add_data commit
  pack_add_data-fault =
      let w = write_header-Wrote name 1 (omega arith) start-IsAt (omega arith) in
      rw (reserved) (unfold start in rw (w.returned, value-outside w.cursor w.stands) refl)
