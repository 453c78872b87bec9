-- ===== src/Rudp/Framing/Echo.antt =====
-- An ICMP echo that comes back, and its checksum.
use softether_android_client.Base.{
  ℕ, zero, suc, ◌+◌, ◌*◌, ◌/◌, ◌%◌, ◌^◌, ◌≤◌, ◌<◌, ◌≡◌, refl, ap, ◌∙◌, arith, some, List, [], ◌∷◌,
  ◌++◌, leb, length, length-append, get_or, true, drop-drop, drop, drop-append, take, take-all, All,
  ge→ltb,
}
use softether_android_client.Rudp.Framing.{
  icmp, sum_words, checksum_of, echo_with, icmp_checksum, icmp_echo, unframe, strip,
}

checksum_cancels : (s : ℕ) → s < 2 ^ 27 → checksum_of (s + checksum_of s) ≡ 0
checksum_cancels s h = ground arith

sum_words-le : (bs : List ℕ) → All (λ b. b < 256) bs → sum_words bs ≤ 65535 * length bs
unfolding sum_words
sum_words-le [] h = omega arith
sum_words-le (a ∷ []) (h, k) = omega arith
sum_words-le (a ∷ (b ∷ bs)) (h, (k, l)) = omega (arith, sum_words-le bs l)

echo_sum :
    (id0 id1 seq0 seq1 cksum : ℕ) (hash bs : List ℕ)
    → sum_words (echo_with id0 id1 seq0 seq1 cksum hash bs)
      ≡ sum_words (echo_with id0 id1 seq0 seq1 0 hash bs) + cksum
unfolding echo_with sum_words
echo_sum id0 id1 seq0 seq1 cksum hash bs = omega arith

-- The first byte of an IPv4 header without options.
abbrev pub plain_header : ℕ
plain_header = 0x45

get_or_behind : (n : ℕ) (xs ys : List ℕ) → n ≡ length xs → get_or (xs ++ ys) n 0 ≡ get_or ys 0 0
get_or_behind zero [] ys h = refl
get_or_behind zero (x ∷ xs) ys h = absurd (omega arith)
get_or_behind (suc n) [] ys h = absurd (omega arith)
get_or_behind (suc n) (x ∷ xs) ys h = get_or_behind n xs ys (omega arith)

-- Whatever its checksum, an echo request is taken apart.
unframe-echo_with :
    (id0 id1 seq0 seq1 cksum : ℕ) (hash header bs : List ℕ)
    → length hash ≡ 20
    → length header ≡ 19
    → unframe icmp (plain_header ∷ (header ++ echo_with id0 id1 seq0 seq1 cksum hash bs)) ≡ some bs
unfolding unframe echo_with
unframe-echo_with id0 id1 seq0 seq1 cksum hash header bs size plain =
    let pkt : List ℕ =
      8 ∷ 0 ∷ cksum / 2 ^ 8 ∷ cksum % 256 ∷ id0 ∷ id1 ∷ seq0 ∷ seq1 ∷ (hash ++ bs) in
    let long = length-append header pkt in
    let more = length-append hash bs in
    rw
      (
        le→leb 20 (suc (length (header ++ pkt))) (omega (arith, long, plain)),
        ge→ltb (suc (length (header ++ pkt))) 48 (omega (arith, long, more, size, plain)),
        get_or_behind 19 header pkt (omega (arith, plain)),
      )
      (ap some behind)
  where
    le→leb : (a b : ℕ) → a ≤ b → leb a b ≡ true
    le→leb a b h = ground arith

    pkt' : List ℕ
    pkt' = 8 ∷ 0 ∷ cksum / 2 ^ 8 ∷ cksum % 256 ∷ id0 ∷ id1 ∷ seq0 ∷ seq1 ∷ (hash ++ bs)

    behind : drop 47 (header ++ pkt') ≡ bs
    behind =
        drop-drop 47 19 28 (header ++ pkt') refl
        ∙ ap (drop 28) (drop-append 19 header pkt' (omega (arith, plain)))
        ∙ drop-append 20 hash bs (omega (arith, size))

-- A cut behind the first of two lists.
take-append_cut :
    (n k : ℕ) (xs ys : List ℕ) → n ≡ length xs + k → take n (xs ++ ys) ≡ xs ++ take k ys
take-append_cut n k [] ys h = ap (λ j. take j ys) (omega (arith, h))
take-append_cut zero k (x ∷ xs) ys h = absurd (omega arith)
take-append_cut (suc n) k (x ∷ xs) ys h = ap (λ t. x ∷ t) (take-append_cut n k xs ys (omega arith))

-- The buffer of 1,355 bytes holds the two headers, the hash and 1,307 bytes.
take-echo_with :
    (id0 id1 seq0 seq1 cksum : ℕ) (hash header bs : List ℕ)
    → length hash ≡ 20
    → length header ≡ 19
    → take 1355 ((plain_header ∷ header) ++ echo_with id0 id1 seq0 seq1 cksum hash bs)
      ≡ (plain_header ∷ header) ++ echo_with id0 id1 seq0 seq1 cksum hash (take 1307 bs)
unfolding echo_with
take-echo_with id0 id1 seq0 seq1 cksum hash header bs size plain =
    let front : List ℕ = 8 ∷ 0 ∷ cksum / 2 ^ 8 ∷ cksum % 256 ∷ id0 ∷ id1 ∷ seq0 ∷ seq1 ∷ [] in
    take-append_cut 1355 1335 (plain_header ∷ header) (front ++ (hash ++ bs)) (omega (arith, plain))
    ∙ ap (λ t. (plain_header ∷ header) ++ t)
        (take-append_cut 1335 1327 front (hash ++ bs) refl
          ∙ ap (λ t. front ++ t) (take-append_cut 1327 1307 hash bs (omega (arith, size))))

-- The checksum of an echo that `rt_send_udp` builds is right, which means that it sums to 0 over
-- the finished packet, for bytes and for packets of at most the 1,355 bytes that the transport
-- sends. Behind an IP header of 20 bytes, `rt_worker` takes the packet out of it again as it was
-- when it has at most 1,307 bytes; of a longer one it takes the first 1,307, since its buffer cuts
-- the rest off.
pub strip-icmp_echo :
    (sha1 : List ℕ → List ℕ) (id0 id1 seq0 seq1 : ℕ) (header bs : List ℕ)
    → length (sha1 bs) ≡ 20
    → All (λ b. b < 256) (id0 ∷ id1 ∷ seq0 ∷ seq1 ∷ (sha1 bs ++ bs))
    → length bs ≤ 1355
    → length header ≡ 19
    → (icmp_checksum (icmp_echo sha1 id0 id1 seq0 seq1 bs) ≡ 0)
      × (strip icmp (plain_header ∷ (header ++ icmp_echo sha1 id0 id1 seq0 seq1 bs))
          ≡ some (take 1307 bs))
      × (length bs ≤ 1307 → take 1307 bs ≡ bs)
unfolding icmp_echo icmp_checksum strip
strip-icmp_echo sha1 id0 id1 seq0 seq1 header bs size bytes short plain =
    let zero_sum = sum_words (echo_with id0 id1 seq0 seq1 0 (sha1 bs) bs) in
    let cksum = checksum_of zero_sum in
    (
      ap checksum_of (echo_sum id0 id1 seq0 seq1 cksum (sha1 bs) bs)
          ∙ checksum_cancels zero_sum bound,
      ap (unframe icmp) (take-echo_with id0 id1 seq0 seq1 cksum (sha1 bs) header bs size plain)
          ∙ unframe-echo_with id0 id1 seq0 seq1 cksum (sha1 bs) header (take 1307 bs) size plain,
      take-all 1307 bs,
    )
  where
    bound : sum_words (echo_with id0 id1 seq0 seq1 0 (sha1 bs) bs) < 2 ^ 27
    bound =
        unfold echo_with in
        omega (
          arith,
          sum_words-le (echo_with id0 id1 seq0 seq1 0 (sha1 bs) bs)
              (omega arith, (omega arith, (omega arith, (omega arith, bytes)))),
          length-append (sha1 bs) bs,
          size,
          short,
        )
