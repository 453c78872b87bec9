-- ===== src/Pack/Write/Adds.antt =====
-- A pack stands for a list of elements, and every `pack_add_*` appends one or refuses.
use softether_android_client.Base.{
  ℕ, ◌+◌, ◌-◌, ◌≤◌, ◌<◌, ◌≡◌, ◌⊎◌, inr, arith, refl, sym, ap, ◌∙◌, Option, some, List, [], ◌∷◌,
  ◌++◌, append_assoc, append-nil, length, length-append, drop, drop-append, ◌^◌, u32,
}
use softether_android_client.Bytes.{write_u32}
use softether_android_client.Bytes.RoundTrip.{length-write_u32}
use softether_android_client.Pack.Element.{
  Element, encode, encode_all, encode_all-append, length-le-encode_all,
}
use softether_android_client.Pack.Writer.{
  Pack, Memory, ok, failed, Outcome, returns, Cursor, put, commit, write_reserved, reserve,
  Reserved,
}
use softether_android_client.Pack.Reserve.{
  IsMemory, IsAllocated, IsGranted, IsRefused, Reserves, grants, denies, reserve-Reserves,
}
use softether_android_client.Pack.Write.Cursor.{IsAt, Wrote, put-at}

-- The count in front is written only from the first element on: `pack_new` leaves it as malloc
-- gave it.
pub record Represents (p : Pack) (es : List Element) : Type 0 where
  pub head : List ℕ
  pub head_size : length head ≡ 4
  pub allocated : IsAllocated p (head ++ encode_all es)
  pub count : p.num_elements ≡ length es
  pub patched : (es ≡ []) ⊎ (head ≡ write_u32 (length es))

-- The outcome of adding `e`: it is the last element of the new pack, or the pack stays as it is.
pub data Adds (mem : Memory) (p : Pack) (es : List Element) (e : Element) : Outcome → Type 0 where
  added : (q : Pack) → Represents q (es ++ (e ∷ [])) → Adds mem p es e (returns ok (some q))
  refused : IsRefused mem p (length (encode e)) → Adds mem p es e (returns failed (some p))

-- A writer of one whole element.
abbrev pub Writes : Element → (Cursor → Option Cursor) → Type 0
Writes e body =
    (c : Cursor) (front : List ℕ) (n : ℕ)
    → IsAt c front n
    → length (encode e) ≤ n
    → Wrote front n (encode e) (body c)

module _ (p q : Pack) (es : List Element) (e : Element) where
  abbrev patch : ℕ → List ℕ → List ℕ → List ℕ
  patch n body room = write_u32 n ++ (body ++ room)

  drop-head :
      (head body room : List ℕ) → length head ≡ 4 → drop 4 ((head ++ body) ++ room) ≡ body ++ room
  drop-head head body room h =
      ap (drop 4) (append_assoc head body room) ∙ drop-append 4 head (body ++ room) (sym h)

  commit_step :
      (r : Represents p es)
      → IsGranted p (r.head ++ encode_all es) (length (encode e)) q
      → (c : Cursor)
      → (at : IsAt c ((r.head ++ encode_all es) ++ encode e) (q.cap - p.len - length (encode e)))
      → (count : ℕ)
      → put (write_u32 count) (record { mem = c.mem; pos = 0 })
        ≡ some (record { mem = patch count (encode_all (es ++ (e ∷ []))) at.room; pos = 4 })
  commit_step r g c at count =
      ap (λ m. put (write_u32 count) (record { mem = m; pos = 0 })) laid_out
      ∙ put-at [] (r.head ++ (encode_all (es ++ (e ∷ [])) ++ at.room)) (write_u32 count) (
          omega (
            arith,
            length-write_u32 count,
            r.head_size,
            length-append r.head (encode_all (es ++ (e ∷ [])) ++ at.room),
          ))
      ∙ rw
          (
            length-write_u32 count,
            drop-append 4 r.head (encode_all (es ++ (e ∷ [])) ++ at.room) (sym r.head_size),
          )
          refl
    where
      body : encode_all es ++ encode e ≡ encode_all (es ++ (e ∷ []))
      body =
          ap (λ t. encode_all es ++ t) (sym (append-nil (encode e)))
          ∙ sym (encode_all-append es (e ∷ []))

      laid_out : c.mem ≡ r.head ++ (encode_all (es ++ (e ∷ [])) ++ at.room)
      laid_out =
          at.contents
          ∙ ap (λ t. t ++ at.room) (append_assoc r.head (encode_all es) (encode e))
          ∙ append_assoc r.head (encode_all es ++ encode e) at.room
          ∙ ap (λ t. r.head ++ (t ++ at.room)) body

  -- The count is that of the list, and the new length is that of its bytes.
  committed :
      (r : Represents p es)
      → IsGranted p (r.head ++ encode_all es) (length (encode e)) q
      → (c : Cursor)
      → IsAt c ((r.head ++ encode_all es) ++ encode e) (q.cap - p.len - length (encode e))
      → (m : Option Cursor) → m ≡ some c
      → (next : Pack) × (commit q (length (encode e)) m ≡ returns ok (some next))
        × Represents next (es ++ (e ∷ []))
  unfolding commit
  committed r g c at m written = (
    next,
    rw (written, commit_step r g c at (u32 (q.num_elements + 1)), commit) refl,
    record {
      head = write_u32 count;
      head_size = length-write_u32 count;
      allocated = record {
        room = at.room;
        contents = sym (append_assoc (write_u32 count) body at.room);
        used_size =
            omega (arith, sizes, length-append (write_u32 count) body, length-write_u32 count);
        whole = omega (
          arith,
          sizes,
          length-append (write_u32 count) (body ++ at.room),
          length-append body at.room,
          length-write_u32 count,
        );
        cap_fits = g.allocated.cap_fits;
      };
      count = counted;
      patched = inr (ap write_u32 counted);
    },
  )
    where
      count : ℕ
      count = u32 (q.num_elements + 1)

      body : List ℕ
      body = encode_all (es ++ (e ∷ []))

      next : Pack
      next = record {
        buf = write_u32 count ++ (body ++ at.room);
        len = u32 (q.len + length (encode e));
        cap = q.cap;
        num_elements = count;
      }

      body_size : length body ≡ length (encode_all es) + length (encode e)
      body_size = omega (
        arith,
        ap length (encode_all-append es (e ∷ [])),
        length-append (encode_all es) (encode e ++ []),
        ap length (append-nil (encode e)),
      )

      used : length (r.head ++ encode_all es) ≡ p.len
      used = r.allocated.used_size

      sizes :
          (length body ≡ length (encode_all es) + length (encode e))
          × (4 + length (encode_all es) ≡ p.len)
          × (q.len ≡ p.len)
          × (p.len + length (encode e) ≤ q.cap)
          × (length at.room ≡ q.cap - p.len - length (encode e))
          × (q.cap < 2 ^ 32)
      sizes = (
        body_size,
        omega (arith, used, length-append r.head (encode_all es), r.head_size),
        g.same_len,
        g.has_room,
        at.left,
        g.allocated.cap_fits,
      )

      counted : count ≡ length (es ++ (e ∷ []))
      counted =
          omega (
            arith,
            g.same_count,
            r.count,
            length-append es (e ∷ []),
            length-le-encode_all es,
            sizes,
          )

module _ (mem : Memory) (lawful : IsMemory mem) where
  -- Every adding call has this shape, so what it adds is decided by what it writes.
  pub write_reserved-Adds :
      (p : Pack) (es : List Element) (e : Element) (body : Cursor → Option Cursor) (size : ℕ)
      → Represents p es
      → size ≡ length (encode e)
      → Writes e body
      → Adds mem p es e (write_reserved p size body (reserve mem p size))
  write_reserved-Adds p es e body size r exact writes = rw exact (
      go _
        (reserve-Reserves mem lawful p (r.head ++ encode_all es) (length (encode e)) r.allocated))
    where
      go :
          (res : Reserved)
          → Reserves mem p (r.head ++ encode_all es) (length (encode e)) res
          → Adds mem p es e (write_reserved p (length (encode e)) body res)
      go _ (denies why) = refused why
      go _ (grants q g) =
          let start : IsAt (record { mem = q.buf; pos = q.len }) (r.head ++ encode_all es)
              (q.cap - p.len) =
            record {
              room = g.allocated.room;
              contents = g.allocated.contents;
              position = sym g.allocated.used_size;
              left = omega (
                arith,
                g.allocated.whole,
                ap length g.allocated.contents,
                g.allocated.used_size,
                g.same_len,
                length-append (r.head ++ encode_all es) g.allocated.room,
              );
            } in
          let w =
            writes (record { mem = q.buf; pos = q.len }) (r.head ++ encode_all es) (q.cap - p.len)
              start (omega (arith, g.has_room)) in
          let (next, e1, rep) = committed p q es e r g w.cursor w.stands _ w.returned in
          rw e1 (added next rep)
