-- ===== src/Pack/Write/Cursor.antt =====
-- Writes through the pointer append to what stands before it, while room is left.
use softether_android_client.Base.{
  ℕ, suc, ◌+◌, ◌-◌, ◌≤◌, ◌<◌, ◌≡◌, arith, refl, sym, ap, ◌∙◌, Option, some, List, [], ◌∷◌, ◌++◌,
  append_assoc, append-nil, length, length-append, drop, length-drop, take-append, take-all, ge→ltb,
  ◌^◌, u32,
}
use softether_android_client.Bytes.{write_u32}
use softether_android_client.Bytes.RoundTrip.{length-write_u32}
use softether_android_client.Pack.Element.{encode_header}
use softether_android_client.Pack.Writer.{Cursor, ◌>>=◌, put, copy, write_elem_name, write_header}

-- The pointer stands behind `front`, with `n` bytes of the buffer left.
pub record IsAt (c : Cursor) (front : List ℕ) (n : ℕ) : Type 0 where
  pub room : List ℕ
  pub contents : c.mem ≡ front ++ room
  pub position : c.pos ≡ length front
  pub left : length room ≡ n

pub record Wrote (front : List ℕ) (n : ℕ) (bs : List ℕ) (result : Option Cursor) : Type 0 where
  pub cursor : Cursor
  pub returned : result ≡ some cursor
  pub stands : IsAt cursor (front ++ bs) (n - length bs)

drop-past : (front room : List ℕ) (k : ℕ) → drop (length front + k) (front ++ room) ≡ drop k room
drop-past [] room k = ap (λ t. drop t room) (omega arith)
drop-past (x ∷ front) room k =
    ap (λ t. drop t (x ∷ (front ++ room))) (same (length front)) ∙ drop-past front room k
  where
    same : (n : ℕ) → suc n + k ≡ suc (n + k)
    same n = omega arith

pub put-at :
    (front room bs : List ℕ)
    → length bs ≤ length room
    → put bs (record { mem = front ++ room; pos = length front })
      ≡ some
          (record { mem = front ++ (bs ++ drop (length bs) room); pos = length front + length bs })
unfolding put
put-at front room bs h =
    rw
      (ge→ltb (length (front ++ room)) (length front + length bs)
        (omega (arith, length-append front room)))
      (rw (take-append (length front) front room refl, drop-past front room (length bs)))

-- One write.
pub put-Wrote :
    (bs : List ℕ) {c : Cursor} {front : List ℕ} {n : ℕ}
    → IsAt c front n
    → length bs ≤ n
    → Wrote front n bs (put bs c)
put-Wrote bs {c} {front} {n} a h = record {
  cursor = _;
  returned = ap (put bs) placed ∙ put-at front a.room bs (omega (arith, a.left));
  stands = record {
    room = drop (length bs) a.room;
    contents = sym (append_assoc front bs (drop (length bs) a.room));
    position = sym (length-append front bs);
    left = omega (arith, length-drop (length bs) a.room, a.left);
  };
}
  where
    placed : c ≡ record { mem = front ++ a.room; pos = length front }
    placed = λ i. record { mem = a.contents i; pos = a.position i }

-- One write after another.
pub >>=-Wrote :
    (bs cs : List ℕ) {front : List ℕ} {n : ℕ} {m : Option Cursor} (k : Cursor → Option Cursor)
    → Wrote front n bs m
    → ((c : Cursor)
        → IsAt c (front ++ bs) (n - length bs)
        → Wrote (front ++ bs) (n - length bs) cs (k c))
    → Wrote front n (bs ++ cs) (m >>= k)
>>=-Wrote bs cs {front} {n} k w next =
    let v = next w.cursor w.stands in
    record {
      cursor = v.cursor;
      returned = rw w.returned v.returned;
      stands = record {
        room = v.stands.room;
        contents = v.stands.contents ∙ ap (λ t. t ++ v.stands.room) (append_assoc front bs cs);
        position = v.stands.position ∙ ap length (append_assoc front bs cs);
        left = omega (arith, v.stands.left, length-append bs cs);
      };
    }

-- A copy of a whole object whose length fits `uint32_t`.
pub copy-Wrote :
    (bs : List ℕ) {c : Cursor} {front : List ℕ} {n : ℕ} (k : ℕ)
    → k ≡ length bs
    → IsAt c front n
    → length bs ≤ n
    → Wrote front n bs (copy bs k c)
unfolding copy
copy-Wrote bs k e a h =
    rw (e, ge→ltb (length bs) (length bs) (omega arith), take-all (length bs) bs (omega arith))
      (put-Wrote bs a h)

write_elem_name-Wrote :
    (name : List ℕ) {c : Cursor} {front : List ℕ} {n : ℕ}
    → length name + 1 < 2 ^ 32
    → IsAt c front n
    → 4 + length name ≤ n
    → Wrote front n (write_u32 (length name + 1) ++ name) (write_elem_name name c)
unfolding write_elem_name
write_elem_name-Wrote name {c} {front} {n} short a h = rw same (
    >>=-Wrote (write_u32 (length name + 1)) name (copy name (u32 (length name)))
      (put-Wrote (write_u32 (length name + 1)) a
        (omega (arith, length-write_u32 (length name + 1))))
      (λ c' a'.
        copy-Wrote name (u32 (length name)) (omega arith) a'
          (omega (arith, length-write_u32 (length name + 1)))))
  where
    same : u32 (u32 (length name) + 1) ≡ length name + 1
    same = omega arith

-- The three writes that every element begins with make up its header.
pub write_header-Wrote :
    (name : List ℕ) (type : ℕ) {c : Cursor} {front : List ℕ} {n : ℕ}
    → length name + 1 < 2 ^ 32
    → IsAt c front n
    → length name + 12 ≤ n
    → Wrote front n (encode_header name type) (write_header name type c)
unfolding write_header
write_header-Wrote name type {front} {n} short a h =
    rw (← append_assoc (write_u32 (length name + 1)) name (write_u32 type ++ write_u32 1)) (
      >>=-Wrote (write_u32 (length name + 1) ++ name) (write_u32 type ++ write_u32 1)
        (λ c. put (write_u32 type) c >>= put (write_u32 1))
        (write_elem_name-Wrote name short a (omega arith))
        (λ c a.
          >>=-Wrote (write_u32 type) (write_u32 1) (put (write_u32 1))
            (put-Wrote (write_u32 type) a (omega (arith, sizes)))
            (λ c a. put-Wrote (write_u32 1) a (omega (arith, sizes)))))
  where
    sizes :
        (length (write_u32 (length name + 1) ++ name) ≡ 4 + length name)
        × (length (write_u32 type) ≡ 4)
        × (length (write_u32 1) ≡ 4)
    sizes = (
      omega (
        arith,
        length-append (write_u32 (length name + 1)) name,
        length-write_u32 (length name + 1),
      ),
      length-write_u32 type,
      length-write_u32 1,
    )

-- No write at all.
pub keep-Wrote : {c : Cursor} {front : List ℕ} {n : ℕ} → IsAt c front n → Wrote front n [] (some c)
keep-Wrote {c} {front} a = record {
  cursor = c;
  returned = refl;
  stands = record {
    room = a.room;
    contents = rw append-nil a.contents;
    position = rw append-nil a.position;
    left = omega (arith, a.left);
  };
}
