-- ===== src/Rudp/Fifo/Append.antt =====
-- `rt_fifo_write` appends, through both of its copies.
use softether_android_client.Base.{
  ℕ, ◌+◌, ◌-◌, ◌%◌, ◌≤◌, ◌<◌, ◌≡◌, ◌⊎◌, inl, inr, arith, refl, ap, ap₂, ◌∙◌, none, some, List, ◌++◌,
  ltb, if◌then◌else◌, length, length-take, length-drop, take, drop, get_or, u32, Bool-cases, ge→ltb,
  lt→ltb,
}
use softether_android_client.Rudp.Fifo.{Fifo, splice, smaller, write}
use softether_android_client.Rudp.Fifo.Arrays.{
  tabulate_ext, tabulate-append, tabulate-get_or, get_or-take, get_or-drop,
}
use softether_android_client.Rudp.Fifo.Refine.{
  IsValid, contents, around, around-mod, length-splice, get_or-splice,
}

-- More than fits is refused.
pub write_full : (f : Fifo) (bs : List ℕ) → f.cap - f.size < length bs → write f bs ≡ none
unfolding write
write_full f bs h = rw (lt→ltb _ _ h)

module _ (f : Fifo) (bs : List ℕ) (v : IsValid f) (h : length bs ≤ f.cap - f.size) where
  off : ℕ
  off = around f.cap (f.head + f.size)

  n1 : ℕ
  n1 = smaller (f.cap - around f.cap (f.head + f.size)) (length bs)

  once : List ℕ
  once = splice off (take n1 bs) f.buf

  filled : List ℕ
  filled = if ltb n1 (length bs) then splice 0 (drop n1 bs) once else once

  offset : u32 (f.head + f.size) % f.cap ≡ off
  unfolding off
  offset = around-mod f.cap (f.head + f.size) v.small (omega (arith, v.head_in, v.size_in))

  off_fact : off ≡ around f.cap (f.head + f.size)
  unfolding off
  off_fact = refl

  off_in : off < f.cap
  unfolding off
  off_in = ground (arith, v.head_in, v.size_in)

  n1_facts : (n1 ≤ length bs) × (off + n1 ≤ f.cap) × ((n1 ≡ length bs) ⊎ (off + n1 ≡ f.cap))
  unfolding n1 off
  n1_facts = ground (arith, v.head_in, v.size_in)

  first_size : length (take n1 bs) ≡ n1
  first_size = omega (arith, length-take n1 bs, n1_facts)

  second_size : length (drop n1 bs) ≡ length bs - n1
  second_size = length-drop n1 bs

  first_fits : off + length (take n1 bs) ≤ length f.buf
  first_fits = omega (arith, first_size, n1_facts, v.whole)

  length-once : length once ≡ length f.buf
  unfolding once
  length-once = length-splice off (take n1 bs) f.buf first_fits

  second_fits : 0 + length (drop n1 bs) ≤ length once
  second_fits = omega (arith, second_size, length-once, v.whole)

  length-filled : length filled ≡ f.cap
  unfolding filled
  length-filled = elim (Bool-cases (ltb n1 (length bs))) [
    | inl wraps ↦ rw wraps (length-splice 0 (drop n1 bs) once second_fits ∙ length-once ∙ v.whole)
    | inr flat ↦ rw flat (length-once ∙ v.whole)
  ]

  once_at :
      (j : ℕ)
      → get_or once j 0 ≡ (
          if ltb j off
          then get_or f.buf j 0
          else if ltb j (off + n1)
          then get_or bs (j - off) 0
          else get_or f.buf j 0)
  unfolding once
  once_at j =
      get_or-splice off (take n1 bs) f.buf j first_fits
      ∙ rw first_size (ground (arith, get_or-take n1 bs (j - off)))

  -- What the two copies leave at an index.
  filled_at :
      (j : ℕ)
      → get_or filled j 0 ≡ (
          if ltb j (length bs - n1)
          then get_or bs (n1 + j) 0
          else if ltb j off
          then get_or f.buf j 0
          else if ltb j (off + n1)
          then get_or bs (j - off) 0
          else get_or f.buf j 0)
  unfolding filled
  filled_at j = elim (Bool-cases (ltb n1 (length bs))) [
    | inl wraps ↦ rw wraps (
        get_or-splice 0 (drop n1 bs) once j second_fits
        ∙ rw (second_size, once_at j)
            (ground (arith, get_or-drop n1 bs j, ap (λ t. get_or (drop n1 bs) t 0) (same j))))
    | inr flat ↦ rw (flat, once_at j) (ground (arith, n1_facts))
  ]
    where
      same : (j : ℕ) → j - 0 ≡ j
      same j = omega arith

  kept_at :
      (i : ℕ)
      → i < f.size
      → get_or filled (around f.cap (f.head + i)) 0 ≡ get_or f.buf (around f.cap (f.head + i)) 0
  kept_at i lt =
      filled_at (around f.cap (f.head + i))
      ∙ outside (around f.cap (f.head + i))
          (ground (arith, v.head_in, v.size_in, off_fact, n1_facts))
    where
      outside :
          (j : ℕ)
          → (length bs - n1 ≤ j) × ((j < off) ⊎ (off + n1 ≤ j))
          → (if ltb j (length bs - n1)
              then get_or bs (n1 + j) 0
              else if ltb j off
              then get_or f.buf j 0
              else if ltb j (off + n1)
              then get_or bs (j - off) 0
              else get_or f.buf j 0)
            ≡ get_or f.buf j 0
      outside j p = ground arith

  stored_at :
      (i : ℕ)
      → i < length bs
      → get_or filled (around f.cap (f.head + (f.size + i))) 0 ≡ get_or bs i 0
  stored_at i lt =
      filled_at (around f.cap (f.head + (f.size + i)))
      ∙ inside (around f.cap (f.head + (f.size + i)))
          (ground (arith, v.head_in, v.size_in, off_fact, n1_facts))
    where
      inside :
          (j : ℕ)
          → ((j < length bs - n1) × (n1 + j ≡ i)
              ⊎ ((length bs - n1 ≤ j) × (off ≤ j) × (j < off + n1) × (j - off ≡ i)))
          → (if ltb j (length bs - n1)
              then get_or bs (n1 + j) 0
              else if ltb j off
              then get_or f.buf j 0
              else if ltb j (off + n1)
              then get_or bs (j - off) 0
              else get_or f.buf j 0)
            ≡ get_or bs i 0
      inside j (inl p) = rw (lt→ltb j (length bs - n1) p.0) (ap (λ t. get_or bs t 0) p.1)
      inside j (inr p) =
          rw (ge→ltb j (length bs - n1) p.0, ge→ltb j off p.1, lt→ltb j (off + n1) p.2)
            (ap (λ t. get_or bs t 0) p.3)

  -- On a valid FIFO with room for the bytes, `rt_fifo_write` succeeds and puts them behind those held;
  -- the FIFO stays valid, its capacity the same, and its size grows by their number.
  pub write_lem :
      (g : Fifo) × (write f bs ≡ some g)
      × IsValid g
      × (contents g ≡ contents f ++ bs)
      × (g.cap ≡ f.cap)
      × (g.size ≡ f.size + length bs)
  write_lem = (
    record f { buf = filled; size = u32 (f.size + length bs) },
    written,
    record {
      whole = length-filled;
      positive = v.positive;
      small = v.small;
      head_in = v.head_in;
      size_in = rw grown (omega (arith, v.size_in));
    },
    rw grown (
        tabulate-append f.size (length bs) (λ i. get_or filled (around f.cap (f.head + i)) 0)
        ∙ ap₂ ◌++◌ (tabulate_ext f.size _ (λ i. get_or f.buf (around f.cap (f.head + i)) 0) kept_at)
            (tabulate_ext (length bs) _ (λ i. get_or bs i 0) stored_at ∙ tabulate-get_or bs)),
    refl,
    grown,
  )
    where
      grown : u32 (f.size + length bs) ≡ f.size + length bs
      grown = omega (arith, v.size_in, v.small)

      written : write f bs ≡ some (record f { buf = filled; size = u32 (f.size + length bs) })
      written =
          unfold write filled once n1 in
          rw (ge→ltb (f.cap - f.size) (length bs) h, offset) (unfold off in refl)
