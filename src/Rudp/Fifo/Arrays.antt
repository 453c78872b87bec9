-- ===== src/Rudp/Fifo/Arrays.antt =====
-- Lists by their indices: tables, and what a splice leaves at each index.
use softether_android_client.Base.{
  ℕ, zero, suc, ◌+◌, ◌-◌, ◌<◌, ◌≡◌, arith, refl, sym, ap, ap₂, ◌∙◌, List, [], ◌∷◌, ◌++◌, ltb,
  if◌then◌else◌, length, take, drop, get_or,
}

abbrev pub tabulate : ℕ → (ℕ → ℕ) → List ℕ
tabulate zero g = []
tabulate (suc n) g = g 0 ∷ tabulate n (λ i. g (suc i))

pub tabulate_ext :
    (n : ℕ) (g h : ℕ → ℕ) → ((i : ℕ) → i < n → g i ≡ h i) → tabulate n g ≡ tabulate n h
tabulate_ext zero g h e = refl
tabulate_ext (suc n) g h e =
    ap₂ ◌∷◌ (e 0 (omega arith))
      (tabulate_ext n (λ i. g (suc i)) (λ i. h (suc i)) (λ i lt. e (suc i) (omega arith)))

pub tabulate-append :
    (n m : ℕ) (g : ℕ → ℕ) → tabulate (n + m) g ≡ tabulate n g ++ tabulate m (λ i. g (n + i))
tabulate-append zero m g = tabulate-shift m
  where
    tabulate-shift : (m : ℕ) → tabulate (0 + m) g ≡ tabulate m (λ i. g (0 + i))
    tabulate-shift m =
        ap (λ t. tabulate t g) (omega arith)
        ∙ tabulate_ext m g (λ i. g (0 + i)) (λ i lt. ap g (omega arith))
tabulate-append (suc n) m g =
    ap (λ t. tabulate t g) (plus n)
    ∙ ap (λ t. g 0 ∷ t) (tabulate-append n m (λ i. g (suc i)))
    ∙ ap (λ t. g 0 ∷ (tabulate n (λ i. g (suc i)) ++ t))
        (tabulate_ext m _ (λ i. g (suc n + i)) (λ i lt. ap g (sym (plus' n i))))
  where
    plus : (n : ℕ) → suc n + m ≡ suc (n + m)
    plus n = omega arith

    plus' : (n i : ℕ) → suc n + i ≡ suc (n + i)
    plus' n i = omega arith

pub tabulate-get_or : (xs : List ℕ) → tabulate (length xs) (λ i. get_or xs i 0) ≡ xs
tabulate-get_or [] = refl
tabulate-get_or (x ∷ xs) = ap (λ t. x ∷ t) (tabulate-get_or xs)

-- A list is the table of its entries.
pub eq-tabulate :
    (xs : List ℕ) (n : ℕ) (g : ℕ → ℕ)
    → length xs ≡ n
    → ((i : ℕ) → i < n → get_or xs i 0 ≡ g i)
    → xs ≡ tabulate n g
eq-tabulate xs n g e h =
    sym (tabulate-get_or xs)
    ∙ ap (λ t. tabulate t (λ i. get_or xs i 0)) e
    ∙ tabulate_ext n (λ i. get_or xs i 0) g h

pub length-tabulate : (n : ℕ) (g : ℕ → ℕ) → length (tabulate n g) ≡ n
length-tabulate zero g = refl
length-tabulate (suc n) g = ap suc (length-tabulate n (λ i. g (suc i)))

pub get_or-append :
    (xs ys : List ℕ) (i : ℕ)
    → get_or (xs ++ ys) i 0
      ≡ (if ltb i (length xs) then get_or xs i 0 else get_or ys (i - length xs) 0)
get_or-append [] ys i = ground (arith, ap (λ t. get_or ys t 0) (same i))
  where
    same : (i : ℕ) → i ≡ i - 0
    same i = omega arith
get_or-append (x ∷ xs) ys zero = ground arith
get_or-append (x ∷ xs) ys (suc i) =
    ground (arith, get_or-append xs ys i, ap (λ t. get_or ys t 0) (same i (length xs)))
  where
    same : (i n : ℕ) → i - n ≡ suc i - suc n
    same i n = omega arith

pub get_or-take : (k : ℕ) (xs : List ℕ) (i : ℕ) → i < k → get_or (take k xs) i 0 ≡ get_or xs i 0
get_or-take zero xs i h = absurd (omega arith)
get_or-take (suc k) [] i h = refl
get_or-take (suc k) (x ∷ xs) zero h = refl
get_or-take (suc k) (x ∷ xs) (suc i) h = get_or-take k xs i (omega arith)

pub get_or-drop : (k : ℕ) (xs : List ℕ) (i : ℕ) → get_or (drop k xs) i 0 ≡ get_or xs (k + i) 0
get_or-drop zero xs i = ap (λ t. get_or xs t 0) (omega arith)
get_or-drop (suc k) [] i = refl
get_or-drop (suc k) (x ∷ xs) i = get_or-drop k xs i ∙ ap (λ t. get_or (x ∷ xs) t 0) (same k i)
  where
    same : (k i : ℕ) → suc (k + i) ≡ suc k + i
    same k i = omega arith

tabulate_none : (n : ℕ) (g : ℕ → ℕ) → n ≡ 0 → tabulate n g ≡ []
tabulate_none zero g e = refl
tabulate_none (suc n) g e = absurd (omega arith)

pub take-tabulate :
    (n m : ℕ) (g : ℕ → ℕ) → take n (tabulate m g) ≡ tabulate (if ltb n m then n else m) g
take-tabulate zero zero g = refl
take-tabulate zero (suc m) g = sym (tabulate_none _ g (ground arith))
take-tabulate (suc n) zero g = sym (tabulate_none _ g (ground arith))
take-tabulate (suc n) (suc m) g =
    ap (λ t. g 0 ∷ t) (take-tabulate n m (λ i. g (suc i))) ∙ ap (λ t. tabulate t g) (same n m)
  where
    same :
        (n m : ℕ) → suc (if ltb n m then n else m) ≡ (if ltb (suc n) (suc m) then suc n else suc m)
    same n m = ground arith

pub drop-tabulate :
    (n m : ℕ) (g : ℕ → ℕ) → drop n (tabulate m g) ≡ tabulate (m - n) (λ i. g (n + i))
drop-tabulate zero m g =
    ap (λ t. tabulate t g) (omega arith)
    ∙ tabulate_ext (m - 0) g (λ i. g (0 + i)) (λ i lt. ap g (omega arith))
drop-tabulate (suc n) zero g = sym (tabulate_none _ _ (omega arith))
drop-tabulate (suc n) (suc m) g =
    drop-tabulate n m (λ i. g (suc i))
    ∙ tabulate_ext (m - n) (λ i. g (suc (n + i))) (λ i. g (suc n + i)) (λ i lt. ap g (same n i))
    ∙ ap (λ t. tabulate t (λ i. g (suc n + i))) (minus n m)
  where
    same : (n i : ℕ) → suc (n + i) ≡ suc n + i
    same n i = omega arith

    minus : (n m : ℕ) → m - n ≡ suc m - suc n
    minus n m = omega arith
