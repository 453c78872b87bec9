-- ===== src/Rudp/Fifo/Refine.antt =====
-- A valid FIFO behaves as the queue of the bytes that it holds.
use softether_android_client.Base.{
  ℕ, ◌+◌, ◌-◌, ◌%◌, ◌^◌, ◌≤◌, ◌<◌, ◌≡◌, inl, inr, arith, sym, ap, ◌∙◌, List, ◌++◌, ltb,
  if◌then◌else◌, length, length-append, length-take, length-drop, take, drop, get_or, u32,
  Bool-cases, drop-all, true, ltb→ge, ltb→lt,
}
use native.Mathlib.Nat.{mod-eq_of_lt, mod-eq-sub-mod}
use softether_android_client.Rudp.Fifo.{Fifo, splice, smaller, peek, advance}
use softether_android_client.Rudp.Fifo.Arrays.{
  tabulate, tabulate_ext, eq-tabulate, length-tabulate, get_or-append, get_or-take, get_or-drop,
  take-tabulate, drop-tabulate,
}

pub record IsValid (f : Fifo) : Type 0 where
  pub whole : length f.buf ≡ f.cap
  pub positive : 0 < f.cap
  pub small : f.cap < 2 ^ 31
  pub head_in : f.head < f.cap
  pub size_in : f.size ≤ f.cap

-- An index that may have passed the end once.
abbrev pub around : ℕ → ℕ → ℕ
around cap n = if ltb n cap then n else n - cap

-- The bytes held, oldest first.
abbrev pub contents : Fifo → List ℕ
contents f = tabulate f.size (λ i. get_or f.buf (around f.cap (f.head + i)) 0)

pub around-mod : (cap n : ℕ) → cap < 2 ^ 31 → n < cap + cap → u32 n % cap ≡ around cap n
around-mod cap n small h =
    let fits : u32 n ≡ n = omega arith in
    rw fits (elim (Bool-cases (ltb n cap)) [
      | inl lt ↦ rw lt (mod-eq_of_lt (ltb→lt n cap lt))
      | inr ge ↦ rw ge (
          mod-eq-sub-mod {n = n} {m = cap} (ltb→ge n cap ge)
          ∙ mod-eq_of_lt {n = n - cap} {m = cap} (omega (arith, ltb→ge n cap ge)))
    ])

pub length-splice :
    (off : ℕ) (bs buf : List ℕ)
    → off + length bs ≤ length buf
    → length (splice off bs buf) ≡ length buf
length-splice off bs buf h = omega (
  arith,
  length-append (take off buf) (bs ++ drop (off + length bs) buf),
  length-append bs (drop (off + length bs) buf),
  length-take off buf,
  length-drop (off + length bs) buf,
)

pub get_or-splice :
    (off : ℕ) (bs buf : List ℕ) (j : ℕ)
    → off + length bs ≤ length buf
    → get_or (splice off bs buf) j 0 ≡ (
        if ltb j off
        then get_or buf j 0
        else if ltb j (off + length bs)
        then get_or bs (j - off) 0
        else get_or buf j 0)
get_or-splice off bs buf j h =
    get_or-append (take off buf) (bs ++ drop (off + length bs) buf) j
    ∙ rw front (
        ground (
          arith,
          get_or-take off buf j,
          get_or-append bs (drop (off + length bs) buf) (j - off),
          get_or-drop (off + length bs) buf (j - off - length bs),
          λ (g : off + length bs ≤ j). ap (λ t. get_or buf t 0) (back g),
        ))
  where
    front : length (take off buf) ≡ off
    front = omega (arith, length-take off buf)

    back : off + length bs ≤ j → off + length bs + (j - off - length bs) ≡ j
    back g = omega arith

-- On a valid FIFO `rt_fifo_peek` copies the oldest bytes, at most as many as are held.
pub peek_lem : (f : Fifo) (n : ℕ) → IsValid f → peek f n ≡ take n (contents f)
peek_lem f n v =
    eq-tabulate (peek f n) len (λ i. get_or f.buf (around f.cap (f.head + i)) 0) sized entry
    ∙ ap (λ t. tabulate t (λ i. get_or f.buf (around f.cap (f.head + i)) 0)) (ground arith)
    ∙ sym (take-tabulate n f.size (λ i. get_or f.buf (around f.cap (f.head + i)) 0))
  where
    len : ℕ
    len = smaller f.size n

    n1 : ℕ
    n1 = smaller (f.cap - f.head) len

    first : List ℕ
    first = take n1 (drop f.head f.buf)

    first_size : length first ≡ n1
    first_size =
        ground
          (arith, v.whole, v.head_in, length-take n1 (drop f.head f.buf), length-drop f.head f.buf)

    second_size : length (take (len - n1) f.buf) ≡ len - n1
    second_size = ground (arith, v.whole, v.head_in, v.size_in, length-take (len - n1) f.buf)

    sized : length (peek f n) ≡ len
    sized =
        unfold peek in
        elim (Bool-cases (ltb n1 len)) [
          | inl wraps ↦ rw wraps (
              omega (
                arith,
                length-append first (take (len - n1) f.buf),
                first_size,
                second_size,
                ltb→lt n1 len wraps,
              ))
          | inr flat ↦ rw flat (ground (arith, first_size))
        ]

    entry : (i : ℕ) → i < len → get_or (peek f n) i 0 ≡ get_or f.buf (around f.cap (f.head + i)) 0
    entry i lt =
        unfold peek in
        elim (Bool-cases (ltb n1 len)) [
          | inl wraps ↦ rw wraps (
              ground (
                arith,
                get_or-append first (take (len - n1) f.buf) i,
                first_size,
                get_or-take n1 (drop f.head f.buf) i,
                get_or-drop f.head f.buf i,
                get_or-take (len - n1) f.buf (i - n1),
                ap (λ t. get_or f.buf t 0) (later wraps),
                v.head_in,
                v.size_in,
              ))
          | inr flat ↦ rw flat (
              ground (
                arith,
                get_or-take n1 (drop f.head f.buf) i,
                get_or-drop f.head f.buf i,
                v.head_in,
              ))
        ]
      where
        later : ltb n1 len ≡ true → i - n1 ≡ i - (f.cap - f.head)
        later wraps = ground arith

-- On a valid FIFO `rt_fifo_advance` drops the oldest bytes, at most as many as are held, and the
-- FIFO stays valid.
pub advance_lem :
    (f : Fifo) (n : ℕ)
    → IsValid f
    → IsValid (advance f n) × (contents (advance f n) ≡ drop n (contents f))
unfolding advance
advance_lem f n v = (
  record {
    whole = v.whole;
    positive = v.positive;
    small = v.small;
    head_in = rw moved (ground (arith, v.head_in, v.size_in));
    size_in = omega (arith, v.size_in);
  },
  tabulate_ext (f.size - len) _ (λ i. get_or f.buf (around f.cap (f.head + (len + i))) 0) entry
      ∙ later,
)
  where
    len : ℕ
    len = smaller f.size n

    moved : u32 (f.head + len) % f.cap ≡ around f.cap (f.head + len)
    moved = around-mod f.cap (f.head + len) v.small (ground (arith, v.head_in, v.size_in))

    entry :
        (i : ℕ)
        → i < f.size - len
        → get_or f.buf (around f.cap (u32 (f.head + len) % f.cap + i)) 0
          ≡ get_or f.buf (around f.cap (f.head + (len + i))) 0
    entry i lt = rw moved (ap (λ t. get_or f.buf t 0) (twice i lt))
      where
        twice :
            (i : ℕ)
            → i < f.size - len
            → around f.cap (around f.cap (f.head + len) + i) ≡ around f.cap (f.head + (len + i))
        twice i lt = ground (arith, v.head_in, v.size_in)

    later :
        tabulate (f.size - len) (λ i. get_or f.buf (around f.cap (f.head + (len + i))) 0)
        ≡ drop n (contents f)
    later = elim (Bool-cases (ltb n f.size)) [
      | inl part ↦
          rw part (sym (drop-tabulate n f.size (λ i. get_or f.buf (around f.cap (f.head + i)) 0)))
      | inr all ↦ rw all (
          ap (λ t. tabulate t (λ i. get_or f.buf (around f.cap (f.head + (f.size + i))) 0))
            {x = f.size - f.size} {y = 0} (omega arith)
          ∙ sym (
              drop-all n (contents f) (
                omega (
                  arith,
                  ltb→ge n f.size all,
                  length-tabulate f.size (λ i. get_or f.buf (around f.cap (f.head + i)) 0),
                ))))
    ]
