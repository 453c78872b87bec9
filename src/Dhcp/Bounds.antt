-- ===== src/Dhcp/Bounds.antt =====
-- The parser reads inside the frame, whatever the frame holds, and its loop ends.
use softether_android_client.Base.{
  ℕ, zero, suc, ◌+◌, ◌*◌, ◌/◌, ◌%◌, ◌^◌, ◌≤◌, ◌<◌, ◌≡◌, inl, inr, arith, refl, sub32, Option, none,
  some, List, [], ◌∷◌, ltb, leb, ◌==◌, ◌&&◌, not, if◌then◌else◌, length, get_elem?, Bool, true,
  false, Bool-cases, ltb→ge, ge→ltb,
}
use softether_android_client.Pack.Reader.{◌>>=◌, list_eq}
use softether_android_client.Dhcp.Parse.{
  Lease, Answer, u16_at, u32_at, bytes_at, store, apply_option, options_loop, parse_message,
  parse_udp, parse_dhcp_response,
}

-- The computation gives a result.
abbrev pub Returns {ℓ} : {A : Type ℓ} → Option A → Type ℓ
Returns {A = A} m = (a : A) × (m ≡ some a)

>>=-Returns {ℓ κ} :
    {A : Type ℓ} {B : Type κ} (m : Option A) (k : A → Option B)
    → Returns m
    → ((a : A) → Returns (k a))
    → Returns (m >>= k)
>>=-Returns none k (a, e) h = absurd (none≢some e)
  where
    none≢some : none ≡ some a → ⊥
    none≢some e = cc
>>=-Returns (some b) k r h = h b

if-Returns {ℓ} :
    {A : Type ℓ} (b : Bool) (x y : Option A)
    → (b ≡ true → Returns x)
    → (b ≡ false → Returns y)
    → Returns (if b then x else y)
if-Returns true x y p q = p refl
if-Returns false x y p q = q refl

get_elem?-Returns : (xs : List ℕ) (i : ℕ) → i < length xs → Returns (get_elem? xs i)
get_elem?-Returns [] i h = absurd (omega arith)
get_elem?-Returns (x ∷ xs) zero h = (x, refl)
get_elem?-Returns (x ∷ xs) (suc i) h = get_elem?-Returns xs i (omega arith)

module _ (frame : List ℕ) where
  u16_at-Returns : (i : ℕ) → i + 2 ≤ length frame → Returns (u16_at frame i)
  unfolding u16_at
  u16_at-Returns i h =
      >>=-Returns _ _ (get_elem?-Returns frame i (omega arith))
        λ a. >>=-Returns _ _ (get_elem?-Returns frame (i + 1) (omega arith)) λ b. (_, refl)

  u32_at-Returns : (i : ℕ) → i + 4 ≤ length frame → Returns (u32_at frame i)
  unfolding u32_at
  u32_at-Returns i h = >>=-Returns _ _ (get_elem?-Returns frame i (omega arith)) λ a.
      >>=-Returns _ _ (get_elem?-Returns frame (i + 1) (omega arith)) λ b.
        >>=-Returns _ _ (get_elem?-Returns frame (i + 2) (omega arith))
          λ c. >>=-Returns _ _ (get_elem?-Returns frame (i + 3) (omega arith)) λ d. (_, refl)

  bytes_at-Returns : (i n : ℕ) → i + n ≤ length frame → Returns (bytes_at frame i n)
  unfolding bytes_at
  bytes_at-Returns i n h = rw (ge→ltb (length frame) (i + n) h) (_, refl)

  store-Returns :
      (b : Bool) (v : Option ℕ) (k : ℕ → Answer) (a : Answer)
      → (b ≡ true → Returns v)
      → Returns (store b v k a)
  store-Returns false v k a h = (a, refl)
  store-Returns true v k a h = >>=-Returns v _ (h refl) λ n. (k n, refl)

  -- A value is read only as far as its length says.
  apply_option-Returns :
      (opt len i : ℕ) (a : Answer)
      → i + len ≤ length frame
      → Returns (apply_option frame opt len i a)
  unfolding apply_option
  apply_option-Returns opt len i a h =
      if-Returns (opt == 53) _ _
        (λ e.
          store-Returns (leb 1 len) (get_elem? frame i) _ a
            (λ l. get_elem?-Returns frame i (ground arith)))
        λ e.
          if-Returns (opt == 1) _ _ (λ e. word a _)
            λ e.
              if-Returns (opt == 3) _ _ (λ e. word a _)
                λ e.
                  if-Returns (opt == 6) _ _
                    (λ e. >>=-Returns _ _ (word a _) λ a'.
                      store-Returns (leb 8 len) (u32_at frame (i + 4)) _ a'
                        (λ l. u32_at-Returns (i + 4) (ground arith)))
                    λ e.
                      if-Returns (opt == 51) _ _ (λ e. word a _)
                        λ e. if-Returns (opt == 54) _ _ (λ e. word a _) λ e. (a, refl)
    where
      word : (a : Answer) (k : ℕ → Answer) → Returns (store (leb 4 len) (u32_at frame i) k a)
      word a k =
          store-Returns (leb 4 len) (u32_at frame i) k a (λ l. u32_at-Returns i (ground arith))

  -- Each round takes a byte at least.
  options_loop-Returns :
      (base dhcp_len fuel opt_pos : ℕ) (a : Answer)
      → base + dhcp_len ≤ length frame
      → opt_pos ≤ dhcp_len
      → dhcp_len < fuel + opt_pos
      → Returns (options_loop frame base dhcp_len fuel opt_pos a)
  unfolding options_loop
  options_loop-Returns base dhcp_len zero opt_pos a fits in_it enough = absurd (omega arith)
  options_loop-Returns base dhcp_len (suc fuel) opt_pos a fits in_it enough =
      elim (Bool-cases (ltb opt_pos dhcp_len)) [
        | inr over ↦ rw (over, options_loop) (a, refl)
        | inl more ↦
            rw (more, options_loop)
              (>>=-Returns _ _ (get_elem?-Returns frame (base + opt_pos) (ground arith)) λ opt.
                if-Returns (opt == 255) _ _ (λ e. (a, refl))
                  λ e.
                    if-Returns (opt == 0) _ _
                      (λ e.
                        options_loop-Returns base dhcp_len fuel (opt_pos + 1) a fits (ground arith)
                          (omega arith))
                      λ e.
                        if-Returns (leb dhcp_len (opt_pos + 1)) _ _ (λ e. (a, refl))
                          λ e.
                            >>=-Returns _ _
                              (get_elem?-Returns frame (base + (opt_pos + 1)) (ground arith))
                              λ len.
                                if-Returns (ltb dhcp_len (opt_pos + 1 + 1 + len)) _ _
                                  (λ e. (a, refl))
                                  λ e.
                                    >>=-Returns _ _
                                      (apply_option-Returns opt len (base + (opt_pos + 1 + 1)) a
                                        (ground arith))
                                      λ a'.
                                        options_loop-Returns base dhcp_len fuel
                                          (opt_pos + 1 + 1 + len) a' fits (ground arith)
                                          (omega arith))
      ]

  parse_message-Returns :
      (xid : ℕ) (mac : List ℕ) (base dhcp_len : ℕ) (r : Lease)
      → base + dhcp_len ≤ length frame
      → 240 ≤ dhcp_len
      → Returns (parse_message frame xid mac base dhcp_len r)
  unfolding parse_message
  parse_message-Returns xid mac base dhcp_len r fits long =
      >>=-Returns _ _ (get_elem?-Returns frame base (omega arith)) λ op.
        if-Returns (not (op == 2)) _ _ (λ e. (_, refl))
          λ e. >>=-Returns _ _ (u32_at-Returns (base + 4) (omega arith)) λ id.
            if-Returns (not (id == xid)) _ _ (λ e. (_, refl))
              λ e. >>=-Returns _ _ (bytes_at-Returns (base + 28) 6 (omega arith)) λ chaddr.
                if-Returns (not (list_eq chaddr mac)) _ _ (λ e. (_, refl))
                  λ e. >>=-Returns _ _ (u32_at-Returns (base + 16) (omega arith)) λ yiaddr.
                    >>=-Returns _ _ (u32_at-Returns (base + 236) (omega arith)) λ magic.
                      if-Returns (not (magic == 0x63825363)) _ _ (λ e. (_, refl))
                        λ e.
                          options_loop-Returns base dhcp_len (suc dhcp_len) 240 _ fits long
                            (omega arith)

  parse_udp-Returns :
      (xid : ℕ) (mac : List ℕ) (ip_hlen : ℕ) (r : Lease)
      → ip_hlen ≤ 60
      → 282 ≤ length frame
      → length frame < 2 ^ 32
      → Returns (parse_udp frame xid mac ip_hlen r)
  unfolding parse_udp
  parse_udp-Returns xid mac ip_hlen r small long fits =
      >>=-Returns _ _ (u16_at-Returns (14 + ip_hlen) (omega arith)) λ src.
        >>=-Returns _ _ (u16_at-Returns (14 + ip_hlen + 2) (omega arith)) λ dst.
          if-Returns (not ((src == 67) && (dst == 68))) _ _ (λ e. (_, refl))
            λ e.
              if-Returns (ltb (sub32 (length frame) (14 + ip_hlen + 8)) 240) _ _ (λ e. (_, refl))
                λ e.
                  parse_message-Returns xid mac (14 + ip_hlen + 8)
                    (sub32 (length frame) (14 + ip_hlen + 8)) r (omega arith) (ground arith)

  -- `parse_dhcp_response` reads inside the frame and ends, on every frame of fewer than 2 ^ 32
  -- bytes; the header length that the frame itself states cannot lead it out.
  pub parse_dhcp_response-Returns :
      (xid : ℕ) (mac : List ℕ) (r : Lease)
      → length frame < 2 ^ 32
      → Returns (parse_dhcp_response frame xid mac r)
  unfolding parse_dhcp_response
  parse_dhcp_response-Returns xid mac r fits =
      if-Returns (ltb (length frame) 282) _ _ (λ e. (_, refl))
        λ e.
          let long = ltb→ge (length frame) 282 e in
          >>=-Returns _ _ (u16_at-Returns 12 (omega (arith, long))) λ ethertype.
            if-Returns (not (ethertype == 0x0800)) _ _ (λ e. (_, refl))
              λ e. >>=-Returns _ _ (get_elem?-Returns frame 14 (omega (arith, long))) λ version.
                if-Returns (not (version / 2 ^ 4 == 4)) _ _ (λ e. (_, refl))
                  λ e.
                    >>=-Returns _ _ (get_elem?-Returns frame 23 (omega (arith, long))) λ protocol.
                      if-Returns (not (protocol == 17)) _ _ (λ e. (_, refl))
                        λ e. parse_udp-Returns xid mac (version % 16 * 4) r (omega arith) long fits
