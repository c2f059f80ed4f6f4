-- ===== src/Worker/Number.antt =====
-- `number_to_string` (src/worker_process.c), on the counters of the report, which are never
-- negative. The buffer is the list of the bytes in front of its NUL.
pub mod Decimal
use file_sync_system.Common.{
  ℕ, zero, suc, ◌+◌, ◌-◌, ◌/◌, ◌%◌, true, false, some, none, [], ◌∷◌, ◌==◌, ltb, length, get_elem?,
  set,
}
use file_sync_system.Common.Text.{Text}

-- `while (n > 0) { buffer[i++] = n % 10 + '0'; n /= 10; }`: the digits, the lowest first.
pub digits : ℕ → ℕ → Text
digits zero n = []
digits (suc fuel) n = elim (ltb 0 n) [ true ↦ (n % 10 + b'0') ∷ digits fuel (n / 10) | false ↦ [] ]

-- `temp = buffer[i]; buffer[i] = buffer[j]; buffer[j] = temp;`
pub swap : ℕ → ℕ → Text → Text
swap i j buffer = elim (get_elem? buffer i) [
  | none ↦ buffer
  | some temp ↦ elim (get_elem? buffer j) [
    | none ↦ buffer
    | some other ↦ set (set buffer i other) j temp
  ]
]

-- `for (int j = 0; j < i; j++) { …; i--; }`
pub swap_loop : ℕ → ℕ → ℕ → Text → Text
swap_loop zero i j buffer = buffer
swap_loop (suc fuel) i j buffer = elim (ltb j i) [
  | true ↦ swap_loop fuel (i - 1) (j + 1) (swap i j buffer)
  | false ↦ buffer
]

-- The first loop has at most `n` rounds, the second fewer than the buffer has bytes.
unfoldable pub number_to_string : ℕ → Text
unfolding digits swap swap_loop
number_to_string n = elim (n == 0) [
  | true ↦ b'0' ∷ []
  | false ↦ let buffer = digits n n in swap_loop (length buffer) (length buffer - 1) 0 buffer
]
