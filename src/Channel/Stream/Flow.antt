-- ===== src/Channel/Stream/Flow.antt =====
-- What the loops read and write does not depend on how the network cuts it up.
use softether_android_client.Base.{
  ℕ, zero, suc, ◌+◌, ◌-◌, ◌≤◌, ◌<◌, ◌≡◌, refl, ap, ap₂, ◌∙◌, arith, Option, none, some, List, [],
  ◌∷◌, ◌++◌, append_assoc, length, length-append, length-drop, take, drop, take-append-drop, subst,
  take-append_le, drop-append_le, ltb, lt→ltb, ltb→lt, ltb→ge, ge→ltb, if◌then◌else◌, Bool-cases,
  inl, inr, Bool, true, false,
}
use softether_android_client.Channel.Stream.{
  Arrival, got, again, interrupted, failed, Wire, read_all, prepend, Write, took, full, broken,
  write_all,
}

-- Bytes have come and no call fails or has to wait.
abbrev pub IsFlowing : List Arrival → Type 0
IsFlowing [] = Unit
IsFlowing (got [] ∷ s) = 1 ≤ 0
IsFlowing (got (b ∷ bs) ∷ s) = IsFlowing s
IsFlowing (a ∷ s) = 1 ≤ 0

-- The bytes, joined.
abbrev pub content : List Arrival → List ℕ
content [] = []
content (got bs ∷ s) = bs ++ content s
content (a ∷ s) = content s

-- Reading from bytes that are all there.
unfoldable pub flat_read : ℕ → List ℕ → Option (List ℕ) × List ℕ
flat_read n bs = if ltb (length bs) n then (none, []) else (some (take n bs), drop n bs)

-- Two ways to read the same bytes.
abbrev pub Same : {X : Type 0} → X × List Arrival → X × List ℕ → Type 0
Same (a, s) (b, bs) = (a ≡ b) × IsFlowing s × (content s ≡ bs)

got-IsFlowing :
    (bs : List ℕ) (s : List Arrival) → 0 < length bs → IsFlowing s → IsFlowing (got bs ∷ s)
got-IsFlowing [] s h v = absurd (omega arith)
got-IsFlowing (b ∷ bs) s h v = v

take-past : (n m : ℕ) (bs cs : List ℕ) → n ≡ length bs + m → take n (bs ++ cs) ≡ bs ++ take m cs
take-past n m [] cs h = ap (λ t. take t cs) (omega arith)
take-past zero m (b ∷ bs) cs h = absurd (omega arith)
take-past (suc n) m (b ∷ bs) cs h = ap (λ (t : List ℕ). b ∷ t) (take-past n m bs cs (omega arith))

drop-past : (n m : ℕ) (bs cs : List ℕ) → n ≡ length bs + m → drop n (bs ++ cs) ≡ drop m cs
drop-past n m [] cs h = ap (λ t. drop t cs) (omega arith)
drop-past zero m (b ∷ bs) cs h = absurd (omega arith)
drop-past (suc n) m (b ∷ bs) cs h = drop-past n m bs cs (omega arith)

-- A first part that is too short is read whole, and the reading goes on behind it.
flat_read-append :
    (n m : ℕ) (bs cs : List ℕ)
    → n ≡ length bs + m
    → flat_read n (bs ++ cs) ≡ prepend bs (flat_read m cs)
unfolding flat_read
flat_read-append n m bs cs h = elim (Bool-cases (ltb (length cs) m)) [
  | inl short ↦
      let whole : ltb (length (bs ++ cs)) n ≡ true =
        lt→ltb _ _ (omega (arith, length-append bs cs, ltb→lt _ _ short)) in
      rw (whole, short) refl
  | inr enough ↦
      let whole : ltb (length (bs ++ cs)) n ≡ false =
        ge→ltb _ _ (omega (arith, length-append bs cs, ltb→ge _ _ enough)) in
      rw (whole, enough)
        (ap₂ (λ (x y : List ℕ). (some x, y)) (take-past n m bs cs h) (drop-past n m bs cs h))
]

-- A first part that is long enough is all that is read.
pub flat_read-front :
    (n : ℕ) (bs cs : List ℕ)
    → n ≤ length bs
    → flat_read n (bs ++ cs) ≡ (some (take n bs), drop n bs ++ cs)
unfolding flat_read
flat_read-front n bs cs h =
    let whole : ltb (length (bs ++ cs)) n ≡ false =
      ge→ltb _ _ (omega (arith, length-append bs cs)) in
    rw whole
      (ap₂ (λ (x y : List ℕ). (some x, y)) (take-append_le n bs cs h) (drop-append_le n bs cs h))

Same-prepend :
    (bs : List ℕ) (r : Option (List ℕ) × List Arrival) (f : Option (List ℕ) × List ℕ)
    → Same r f
    → Same (prepend bs r) (prepend bs f)
Same-prepend bs (none, s) (none, cs) h = h
Same-prepend bs (none, s) (some y, cs) h = absurd (cc h.0)
Same-prepend bs (some x, s) (none, cs) h = absurd (cc h.0)
Same-prepend bs (some x, s) (some y, cs) h =
    (ap (λ (o : Option (List ℕ)). (prepend bs (o, cs)).0) h.0, h.1, h.2)

pub read_all-Same :
    (w : Wire) (n : ℕ) (s : List Arrival)
    → IsFlowing s
    → Same (read_all w n s) (flat_read n (content s))
unfolding read_all flat_read
read_all-Same w zero s v = rw (flat_read-front 0 [] (content s) (omega arith)) (refl, v, refl)
read_all-Same w (suc n) [] v = rw (flat_read, lt→ltb 0 (suc n) (omega arith)) (refl, tt, refl)
read_all-Same w (suc n) (got [] ∷ s) v = absurd (omega (arith, v))
read_all-Same w (suc n) (got (b ∷ bs) ∷ s) v = elim (Bool-cases (ltb n (length bs))) [
  | inl more ↦
      let short : n < length bs = ltb→lt _ _ more in
      rw (more, flat_read-front (suc n) (b ∷ bs) (content s) (omega arith))
        (refl, got-IsFlowing (drop n bs) s (omega (arith, length-drop n bs)) v, refl)
  | inr all ↦
      let short : length bs ≤ n = ltb→ge _ _ all in
      rw (all, flat_read-append (suc n) (n - length bs) (b ∷ bs) (content s) (omega arith))
        (Same-prepend (b ∷ bs) _ _ (read_all-Same w (n - length bs) s v))
]
read_all-Same w (suc n) (again ∷ s) v = absurd (omega (arith, v))
read_all-Same w (suc n) (interrupted ∷ s) v = absurd (omega (arith, v))
read_all-Same w (suc n) (failed ∷ s) v = absurd (omega (arith, v))

-- What a loop that writes has done: all bytes went out, or a proper part of them from the front.
abbrev pub Outcome : List ℕ → List ℕ × Bool → Type 0
Outcome bs (sent, true) = sent ≡ bs
Outcome bs (sent, false) = (b : ℕ) × (rest : List ℕ) × (sent ++ (b ∷ rest) ≡ bs)

Outcome-part :
    (xs ys : List ℕ) (r : List ℕ × Bool) → Outcome ys r → Outcome (xs ++ ys) (xs ++ r.0, r.1)
Outcome-part xs ys (sent, true) h = ap (λ (t : List ℕ). xs ++ t) h
Outcome-part xs ys (sent, false) (b, rest, h) =
    (b, rest, append_assoc xs sent (b ∷ rest) ∙ ap (λ (t : List ℕ). xs ++ t) h)

-- Whatever the calls that write give, the bytes that go out are those of the buffer, in order, none
-- twice; all of them when the loop succeeds, and fewer when it fails.
pub write_all-Outcome :
    (ssl : Bool) (bs : List ℕ) (rs : List Write) → Outcome bs (write_all ssl bs rs)
unfolding write_all
write_all-Outcome ssl [] rs = refl
write_all-Outcome ssl (b ∷ bs) [] = (b, bs, refl)
write_all-Outcome ssl (b ∷ bs) (took zero ∷ rs) = (b, bs, refl)
write_all-Outcome ssl (b ∷ bs) (took (suc k) ∷ rs) =
    subst (λ (t : List ℕ). Outcome t (write_all ssl (b ∷ bs) (took (suc k) ∷ rs)))
      (take-append-drop (suc k) (b ∷ bs))
      (Outcome-part (b ∷ take k bs) (drop k bs) _ (write_all-Outcome ssl (drop k bs) rs))
write_all-Outcome true (b ∷ bs) (full ∷ rs) = (b, bs, refl)
write_all-Outcome false (b ∷ bs) (full ∷ rs) = write_all-Outcome false (b ∷ bs) rs
write_all-Outcome ssl (b ∷ bs) (broken ∷ rs) = (b, bs, refl)
