-- ===== src/Pack/Reserve.antt =====
-- `pack_reserve`: its loop ends, and a granted pack has room and keeps its contents.
use softether_android_client.Base.{
  ℕ, zero, suc, ◌+◌, ◌-◌, ◌*◌, ◌^◌, ◌%◌, ◌≤◌, ◌<◌, ◌≡◌, inl, inr, arith, refl, ap, Option, none,
  some, List, ◌++◌, append_assoc, ltb, leb, ◌==◌, if◌then◌else◌, length, length-append, take, drop,
  Bool-cases, Option-cases, ltb→lt, ltb→ge, take-append-drop, false, sym, ◌∙◌,
}
use native.Mathlib.Nat.{pow-suc}
use softether_android_client.Pack.Writer.{
  Pack, Memory, Reserved, granted, denied, grow, grow_fuel, reserve, reallocate, initial_cap,
}

-- What the C library promises of malloc and realloc.
pub record IsMemory (mem : Memory) : Type 0 where
  pub malloc_size : (n : ℕ) (b : List ℕ) → mem.malloc n ≡ some b → length b ≡ n
  pub realloc_size : (b : List ℕ) (n : ℕ) (c : List ℕ) → mem.realloc b n ≡ some c → length c ≡ n
  pub realloc_keeps :
      (b : List ℕ) (n : ℕ) (c : List ℕ)
      → mem.realloc b n ≡ some c
      → length b ≤ n
      → take (length b) c ≡ b

pub record Grows (new_cap need : ℕ) (result : Option ℕ) : Type 0 where
  pub size : ℕ
  pub returned : result ≡ some size
  pub enough : need ≤ size
  pub no_less : new_cap ≤ size
  pub fits : size < 2 ^ 32

grow-Grows :
    (fuel new_cap need : ℕ)
    → 2 ^ 32 ≤ new_cap * 2 ^ fuel
    → new_cap < 2 ^ 32
    → need < 2 ^ 32
    → Grows new_cap need (grow fuel new_cap need)
unfolding grow
grow-Grows zero c need h hc hn = absurd (omega arith)
grow-Grows (suc fuel) c need h hc hn = elim (Bool-cases (ltb c need)) [
  | inr big ↦ record {
    size = c;
    returned = rw big;
    enough = ltb→ge c need big;
    no_less = omega arith;
    fits = hc;
  }
  | inl small ↦ elim (Bool-cases (ltb (2 ^ 31 - 1) c)) [
    | inl huge ↦ record {
      size = need;
      returned = rw (small, huge);
      enough = omega arith;
      no_less = omega (arith, ltb→lt c need small);
      fits = hn;
    }
    | inr fine ↦
        let below : c ≤ 2 ^ 31 - 1 = ltb→ge (2 ^ 31 - 1) c fine in
        let rest =
          grow-Grows fuel ((c * 2) % 2 ^ 32) need
            (omega (
              arith,
              pow-suc 2 fuel,
              ap (λ (t : ℕ). c * t) (pow-suc 2 fuel),
              ap (λ (t : ℕ). t * 2 ^ fuel) (same below),
            ))
            (omega arith) hn in
        record {
          size = rest.size;
          returned = rw (small, fine) rest.returned;
          enough = rest.enough;
          no_less = omega (arith, rest.no_less);
          fits = rest.fits;
        }
  ]
]
  where
    same : c ≤ 2 ^ 31 - 1 → (c * 2) % 2 ^ 32 ≡ c * 2
    same b = omega arith

-- The doubling loop of `pack_reserve` ends within its fuel for every start from 1 and every need
-- of 32 bits, with a size of 32 bits that is at least the need and at least the start.
pub grow_lem :
    (new_cap need : ℕ)
    → 0 < new_cap
    → new_cap < 2 ^ 32
    → need < 2 ^ 32
    → Grows new_cap need (grow grow_fuel new_cap need)
grow_lem c need pos hc hn = grow-Grows grow_fuel c need (omega arith) hc hn

-- The allocation holds `used`, then unused room, and is as large as `cap` says.
pub record IsAllocated (p : Pack) (used : List ℕ) : Type 0 where
  pub room : List ℕ
  pub contents : p.buf ≡ used ++ room
  pub used_size : length used ≡ p.len
  pub whole : length p.buf ≡ p.cap
  pub cap_fits : p.cap < 2 ^ 32

pub record IsGranted (p : Pack) (used : List ℕ) (add : ℕ) (q : Pack) : Type 0 where
  pub allocated : IsAllocated q used
  pub same_len : q.len ≡ p.len
  pub same_count : q.num_elements ≡ p.num_elements
  pub has_room : p.len + add ≤ q.cap

-- The two reasons to refuse.
pub data IsRefused (mem : Memory) (p : Pack) (add : ℕ) : Type 0 where
  too_long : 2 ^ 32 ≤ p.len + add → IsRefused mem p add
  no_memory : (n : ℕ) → mem.realloc p.buf n ≡ none → IsRefused mem p add

pub data Reserves (mem : Memory) (p : Pack) (used : List ℕ) (add : ℕ) : Reserved → Type 0 where
  grants : (q : Pack) → IsGranted p used add q → Reserves mem p used add (granted q)
  denies : IsRefused mem p add → Reserves mem p used add denied

module _ (mem : Memory) (lawful : IsMemory mem) where
  resized-IsGranted :
      (p : Pack) (used : List ℕ) (add new_cap : ℕ) (nd : List ℕ)
      → IsAllocated p used
      → p.cap ≤ new_cap
      → p.len + add ≤ new_cap
      → new_cap < 2 ^ 32
      → mem.realloc p.buf new_cap ≡ some nd
      → IsGranted p used add (record p { buf = nd; cap = new_cap })
  resized-IsGranted p used add new_cap nd a larger enough fits e = record {
    allocated = record {
      room = a.room ++ drop (length p.buf) nd;
      contents = kept ∙ append_assoc used a.room (drop (length p.buf) nd);
      used_size = a.used_size;
      whole = lawful.realloc_size p.buf new_cap nd e;
      cap_fits = fits;
    };
    same_len = refl;
    same_count = refl;
    has_room = enough;
  }
    where
      front : take (length p.buf) nd ≡ p.buf
      front = lawful.realloc_keeps p.buf new_cap nd e (omega (arith, a.whole))

      kept : nd ≡ (used ++ a.room) ++ drop (length p.buf) nd
      kept =
          sym (take-append-drop (length p.buf) nd)
          ∙ ap (λ t. t ++ drop (length p.buf) nd) (front ∙ a.contents)

  reallocate-Reserves :
      (p : Pack) (used : List ℕ) (add : ℕ)
      → IsAllocated p used
      → p.cap < p.len + add
      → p.len + add < 2 ^ 32
      → (start : ℕ) → 0 < start
      → p.cap ≤ start
      → start < 2 ^ 32
      → Reserves mem p used add (reallocate mem p (grow grow_fuel start (p.len + add)))
  reallocate-Reserves p used add a short fits start pos larger small =
      let g = grow_lem start (p.len + add) pos small fits in
      rw (g.returned) (elim (Option-cases (mem.realloc p.buf g.size)) [
        | inl e ↦ rw e (denies (no_memory g.size e))
        | inr (nd, e) ↦ rw e (
            grants _ (
              resized-IsGranted p used add g.size nd a (omega (arith, g.no_less)) g.enough g.fits
                e))
      ])

  -- On a pack whose allocation is as its fields say, and with a malloc and a realloc that keep
  -- their promises, `pack_reserve` ends: it grants the room with the contents kept, or refuses
  -- because the length leaves 32 bits or because realloc gave NULL.
  pub reserve-Reserves :
      (p : Pack) (used : List ℕ) (add : ℕ)
      → IsAllocated p used
      → Reserves mem p used add (reserve mem p add)
  unfolding reserve
  reserve-Reserves p used add a = elim (Bool-cases (ltb (2 ^ 32 - 1 - p.len) add)) [
    | inl over ↦ rw over (denies (too_long (omega (arith, ltb→lt _ _ over))))
    | inr fine ↦ elim (Bool-cases (leb (p.len + add) p.cap)) [
      | inl enough ↦
          rw (fine, enough)
            (grants p (record {
              allocated = a;
              same_len = refl;
              same_count = refl;
              has_room = ground arith;
            }))
      | inr short ↦
          rw (fine, short)
            (reallocate-Reserves p used add a (ground arith) (fits fine)
              (if p.cap == 0 then initial_cap else p.cap) (ground arith) (ground arith)
              (ground (arith, a.cap_fits)))
    ]
  ]
    where
      len-le-cap : p.len ≤ p.cap
      len-le-cap =
          omega (arith, a.used_size, a.whole, ap length a.contents, length-append used a.room)

      fits : ltb (2 ^ 32 - 1 - p.len) add ≡ false → p.len + add < 2 ^ 32
      fits h = omega (arith, ltb→ge _ _ h, len-le-cap, a.cap_fits)
