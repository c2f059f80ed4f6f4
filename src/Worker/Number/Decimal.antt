-- ===== src/Worker/Number/Decimal.antt =====
-- `number_to_string` writes the decimal numeral of its argument.
use mathlib.Core.List.{reverse, reverse_aux, reverse-cons}
use native.Mathlib.Nat.{pow-suc}
use file_sync_system.Common.{
  ℕ, zero, suc, ◌+◌, ◌-◌, ◌*◌, ◌/◌, ◌^◌, ◌≤◌, ◌<◌, ◌≡◌, refl, some, none, [], ◌∷◌, ◌++◌, ◌==◌, ltb,
  leb, ◌&&◌, if◌then◌else◌, length, get_elem?, set, arith, All, inl, inr, Bool-cases, length-set,
}
use file_sync_system.Common.Text.{Text}
use file_sync_system.Worker.Number.{digits, swap, swap_loop, number_to_string}

-- Two lists with the same entries are equal.
eq_of_get_elem? : (xs ys : Text) → ((k : ℕ) → get_elem? xs k ≡ get_elem? ys k) → xs ≡ ys
eq_of_get_elem? [] [] h = refl
eq_of_get_elem? [] (y ∷ ys) h = cc (h 0)
eq_of_get_elem? (x ∷ xs) [] h = cc (h 0)
eq_of_get_elem? (x ∷ xs) (y ∷ ys) h = cc (h 0, eq_of_get_elem? xs ys (λ k. h (suc k)))

get_elem?-cons :
    (x : ℕ) (xs : Text) (k : ℕ)
    → get_elem? (x ∷ xs) k ≡ (if k == 0 then some x else get_elem? xs (k - 1))
get_elem?-cons x xs zero = refl
get_elem?-cons x xs (suc k) = let e : suc k - 1 ≡ k = omega arith in rw e (ground arith)

get_elem?-reverse_aux :
    (xs ys : Text) (k : ℕ)
    → get_elem? (reverse_aux xs ys) k ≡ (
        if ltb k (length xs)
        then get_elem? xs (length xs - 1 - k)
        else get_elem? ys (k - length xs))
get_elem?-reverse_aux [] ys k = let e : k - 0 ≡ k = omega arith in rw e (ground arith)
get_elem?-reverse_aux (x ∷ xs) ys k =
    rw (get_elem?-reverse_aux xs (x ∷ ys) k, get_elem?-cons x xs, get_elem?-cons x ys)
      (ground arith)

get_elem?-set :
    (xs : Text) (i k v : ℕ)
    → i < length xs
    → get_elem? (set xs i v) k ≡ (if k == i then some v else get_elem? xs k)
get_elem?-set [] i k v h = absurd (omega arith)
get_elem?-set (x ∷ xs) zero zero v h = ground arith
get_elem?-set (x ∷ xs) zero (suc k) v h = ground arith
get_elem?-set (x ∷ xs) (suc i) zero v h = ground arith
get_elem?-set (x ∷ xs) (suc i) (suc k) v h = ground (arith, get_elem?-set xs i k v)

get_elem?-some : (xs : Text) (i : ℕ) → i < length xs → (a : ℕ) × (get_elem? xs i ≡ some a)
get_elem?-some [] i h = absurd (omega arith)
get_elem?-some (x ∷ xs) zero h = (x, refl)
get_elem?-some (x ∷ xs) (suc i) h = get_elem?-some xs i (omega arith)

swap-eq :
    (i j a b : ℕ) (xs : Text)
    → get_elem? xs i ≡ some a
    → get_elem? xs j ≡ some b
    → swap i j xs ≡ set (set xs i b) j a
unfolding swap
swap-eq i j a b xs ea eb = ground arith

module _ (i j : ℕ) (xs : Text) (hi : i < length xs) (hj : j < length xs) where
  length-swap : length (swap i j xs) ≡ length xs
  length-swap =
      let (a, ea) = get_elem?-some xs i hi in
      let (b, eb) = get_elem?-some xs j hj in
      rw (swap-eq i j a b xs ea eb, length-set) (length-set xs i b)

  get_elem?-swap :
      (k : ℕ)
      → get_elem? (swap i j xs) k
        ≡ (if k == j then get_elem? xs i else if k == i then get_elem? xs j else get_elem? xs k)
  get_elem?-swap k =
      let (a, ea) = get_elem?-some xs i hi in
      let (b, eb) = get_elem?-some xs j hj in
      rw (swap-eq i j a b xs ea eb) (
        ground (
          arith,
          ea,
          eb,
          get_elem?-set (set xs i b) j k a (rw length-set hj),
          get_elem?-set xs i k b hi,
        ))

  length-in : (k : ℕ) → k < length xs → k < length (swap i j xs)
  length-in k h = rw length-swap h

met :
    (i j : ℕ) (xs : Text) (k : ℕ)
    → i ≤ j
    → get_elem? xs k ≡ (if leb j k && leb k i then get_elem? xs (i + j - k) else get_elem? xs k)
met i j xs k h = ground arith

get_elem?-swap_loop :
    (fuel i j : ℕ) (xs : Text) (k : ℕ)
    → i ≤ j + 2 * fuel
    → i < length xs
    → get_elem? (swap_loop fuel i j xs) k
      ≡ (if leb j k && leb k i then get_elem? xs (i + j - k) else get_elem? xs k)
unfolding swap_loop
get_elem?-swap_loop zero i j xs k enough hi = met i j xs k (omega arith)
get_elem?-swap_loop (suc fuel) i j xs k enough hi = elim (Bool-cases (ltb j i)) [
  | inl more ↦
      rw (more, swap_loop)
        (let sw = get_elem?-swap i j xs hi (ground arith) in
          let le = length-swap i j xs hi (ground arith) in
          ground (
            arith,
            get_elem?-swap_loop fuel (i - 1) (j + 1) (swap i j xs) k,
            le,
            sw k,
            sw (i - 1 + (j + 1) - k),
          ))
  | inr end ↦ rw (end, swap_loop) (met i j xs k (ground arith))
]

get_elem?-beyond : (xs : Text) (k : ℕ) → length xs ≤ k → get_elem? xs k ≡ none
get_elem?-beyond [] k h = refl
get_elem?-beyond (x ∷ xs) zero h = absurd (omega arith)
get_elem?-beyond (x ∷ xs) (suc k) h = get_elem?-beyond xs k (omega arith)

-- The loop of swaps reverses a buffer.
swap_loop-reverse :
    (xs : Text) → 0 < length xs → swap_loop (length xs) (length xs - 1) 0 xs ≡ reverse xs
swap_loop-reverse xs h = eq_of_get_elem? _ _ λ k.
    let z : length xs - 1 + 0 - k ≡ length xs - 1 - k = omega arith in
    ground (
      arith,
      z,
      get_elem?-swap_loop (length xs) (length xs - 1) 0 xs k (omega arith) (omega arith),
      get_elem?-reverse_aux xs [] k,
      get_elem?-beyond xs k,
    )

-- The number that decimal digits stand for, read from the left.
read : ℕ → Text → ℕ
read acc [] = acc
read acc (c ∷ s) = read (acc * 10 + (c - b'0')) s

unfoldable pub decimal : Text → ℕ
unfolding read
decimal s = read 0 s

abbrev pub IsDigit : ℕ → Type 0
IsDigit c = (b'0' ≤ c) × (c ≤ b'9')

read-append : (acc : ℕ) (s t : Text) → read acc (s ++ t) ≡ read (read acc s) t
unfolding read
read-append acc [] t = refl
read-append acc (c ∷ s) t = read-append (acc * 10 + (c - b'0')) s t

decimal-reverse-digits : (fuel n : ℕ) → n ≤ fuel → read 0 (reverse (digits fuel n)) ≡ n
unfolding digits
decimal-reverse-digits zero n h = unfold read in omega arith
decimal-reverse-digits (suc fuel) n h = elim (Bool-cases (ltb 0 n)) [
  | inl more ↦
      rw (more, digits)
        (rw (reverse-cons, read-append, decimal-reverse-digits fuel (n / 10) (omega arith))
          (unfold read in omega arith))
  | inr end ↦ rw (end, digits) (unfold read in ground arith)
]

All-reverse_aux : (P : ℕ → Type 0) (s t : Text) → All P s → All P t → All P (reverse_aux s t)
All-reverse_aux P [] t a b = b
All-reverse_aux P (c ∷ s) t a b = All-reverse_aux P s (c ∷ t) a.1 (a.0, b)

All-digits : (fuel n : ℕ) → All IsDigit (digits fuel n)
unfolding digits
All-digits zero n = tt
All-digits (suc fuel) n = ground (arith, All-digits fuel (n / 10))

length-digits_pos : (fuel n : ℕ) → 0 < n → n ≤ fuel → 0 < length (digits fuel n)
unfolding digits
length-digits_pos zero n h k = absurd (omega arith)
length-digits_pos (suc fuel) n h k = ground arith

length-digits_le : (fuel n k : ℕ) → n < 10 ^ k → length (digits fuel n) ≤ k
unfolding digits
length-digits_le zero n k h = omega arith
length-digits_le (suc fuel) n zero h = ground arith
length-digits_le (suc fuel) n (suc k) h =
    let q : n / 10 < 10 ^ k = omega (arith, pow-suc 10 k) in
    ground (arith, length-digits_le fuel (n / 10) k q)

number_to_string-reverse : (n : ℕ) → 0 < n → number_to_string n ≡ reverse (digits n n)
unfolding number_to_string
number_to_string-reverse n h =
    ground (arith, swap_loop-reverse (digits n n) (length-digits_pos n n h (omega arith)))

-- The text reads back as the number.
pub decimal-number_to_string : (n : ℕ) → decimal (number_to_string n) ≡ n
unfolding decimal
decimal-number_to_string zero = unfold number_to_string read in refl
decimal-number_to_string (suc n) =
    rw (number_to_string-reverse (suc n) (omega arith))
      (decimal-reverse-digits (suc n) (suc n) (omega arith))

-- It is made of digits only, so that no delimiter of the report occurs in it.
pub number_to_string-IsDigit : (n : ℕ) → All IsDigit (number_to_string n)
number_to_string-IsDigit zero = unfold number_to_string in omega arith
number_to_string-IsDigit (suc n) =
    rw (number_to_string-reverse (suc n) (omega arith))
      (All-reverse_aux IsDigit (digits (suc n) (suc n)) [] (All-digits (suc n) (suc n)) tt)

length-reverse_aux : (s t : Text) → length (reverse_aux s t) ≡ length s + length t
length-reverse_aux [] t = omega arith
length-reverse_aux (c ∷ s) t = omega (arith, length-reverse_aux s (c ∷ t))

-- An `int` and the NUL fit into the 32 bytes of `num_buffer`.
pub length-number_to_string : (n : ℕ) → n < 2 ^ 31 → length (number_to_string n) + 1 ≤ 32
length-number_to_string zero h = unfold number_to_string in omega arith
length-number_to_string (suc n) h = rw (number_to_string-reverse (suc n) (omega arith)) (
    omega (
      arith,
      length-reverse_aux (digits (suc n) (suc n)) [],
      length-digits_le (suc n) (suc n) 10 (omega arith),
    ))
