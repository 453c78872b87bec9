-- ===== src/Pack/Read/Bounds.antt =====
-- On any bytes at all, the getters stay inside the buffers of their callers.
use softether_android_client.Base.{
  ℕ, zero, suc, ◌-◌, ◌≤◌, ◌<◌, ◌≡◌, ◌≢◌, inl, inr, arith, Option, none, some, List, length,
  length-take, take, ltb, ◌==◌, if◌then◌else◌, Bool-cases, Bool, true, false, ==→ne,
}
use softether_android_client.Pack.Element.{type_str, type_data}
use softether_android_client.Pack.Reader.{
  ◌>>=◌, Match, malformed, skipped, matched, match_element, get_loop, get_field, read_uint32,
  read_string, read_data, pack_get_str, pack_get_data, max_elements,
}

module _ {ℓ κ} {A : Type ℓ} (P : A → Type κ) (read : List ℕ → Option A)
    (sound : (p : List ℕ) (a : A) → read p ≡ some a → P a) (type : ℕ) where
  step :
      (field : List ℕ) (n : ℕ) (m : Match) (a : A)
      → ((q : List ℕ) → get_loop read type field n q ≡ some a → P a)
      → (elim m [
        | malformed ↦ none
        | matched q ↦ read q
        | skipped q ↦ get_loop read type field n q
      ])
        ≡ some a
      → P a
  step field n malformed a ih e = cc
  step field n (matched q) a ih e = sound q a e
  step field n (skipped q) a ih e = ih q e

  -- What holds of every value that `read` returns holds of what the loop returns.
  get_loop-sound :
      (field : List ℕ) (n : ℕ) (p : List ℕ) (a : A) → get_loop read type field n p ≡ some a → P a
  unfolding get_loop
  get_loop-sound field zero p a e = cc
  get_loop-sound field (suc n) p a e =
      step field n (match_element p field type) a (λ q. get_loop-sound field n q a) e

  get_field-sound :
      (body field : Option (List ℕ)) (a : A) → get_field read type body field ≡ some a → P a
  get_field-sound none field a e = cc
  get_field-sound (some body) none a e = cc
  get_field-sound (some body) (some field) a e = guards (ltb (length body) 4) (read_uint32 body) e
    where
      guards :
          (short : Bool) (m : Option (ℕ × List ℕ))
          → (if short
              then none
              else m >>= λ (n, p).
                  if ltb max_elements n then none else get_loop read type field n p)
            ≡ some a
          → P a
      guards true m e = cc
      guards false none e = cc
      guards false (some (n, p)) e = elim (Bool-cases (ltb max_elements n)) [
        | inl many ↦ absurd_none (rw many at e)
        | inr few ↦ get_loop-sound field n p a (rw few at e)
      ]
        where
          absurd_none : none ≡ some a → P a
          absurd_none e = cc

string-lt : (n : ℕ) → n ≢ 0 → (p s : List ℕ) → read_string n p ≡ some s → length s < n
unfolding read_string
string-lt n h p s e = go (read_uint32 p) e
  where
    go :
        (m : Option (ℕ × List ℕ))
        → (m >>= λ (len, q).
            if ltb (length q) len
            then none
            else some (take (if ltb len (n - 1) then len else n - 1) q))
          ≡ some s
        → length s < n
    go none e = cc
    go (some (len, q)) e = ground (arith, length-take (if ltb len (n - 1) then len else n - 1) q)

data-le : (n : ℕ) (p s : List ℕ) → read_data n p ≡ some s → length s ≤ n
unfolding read_data
data-le n p s e = go (read_uint32 p) e
  where
    go :
        (m : Option (ℕ × List ℕ))
        → (m >>= λ (len, q).
            if ltb (length q) len then none else some (take (if ltb len n then len else n) q))
          ≡ some s
        → length s ≤ n
    go none e = cc
    go (some (len, q)) e = ground (arith, length-take (if ltb len n then len else n) q)

-- Whatever the body holds, `pack_get_str` stores fewer characters than the buffer is long, which
-- leaves room for the NUL.
pub pack_get_str-lt :
    (body field : Option (List ℕ)) (out_size : ℕ) (s : List ℕ)
    → pack_get_str body field out_size ≡ some s
    → length s < out_size
unfolding pack_get_str
pack_get_str-lt body field n s e = elim (Bool-cases (n == 0)) [
  | inl z ↦ absurd_none (rw z at e)
  | inr nz ↦
      get_field-sound (λ s. length s < n) (read_string n) (string-lt n (==→ne n 0 nz)) type_str body
        field s (rw nz at e)
]
  where
    absurd_none : none ≡ some s → length s < n
    absurd_none e = cc

-- Whatever the body holds, `pack_get_data` stores at most as many bytes as the buffer is long.
pub pack_get_data-le :
    (body field : Option (List ℕ)) (out_size : ℕ) (s : List ℕ)
    → pack_get_data body field out_size ≡ some s
    → length s ≤ out_size
unfolding pack_get_data
pack_get_data-le body field n s e = elim (Bool-cases (n == 0)) [
  | inl z ↦ absurd_none (rw z at e)
  | inr nz ↦
      get_field-sound (λ s. length s ≤ n) (read_data n) (data-le n) type_data body field s
        (rw nz at e)
]
  where
    absurd_none : none ≡ some s → length s ≤ n
    absurd_none e = cc
