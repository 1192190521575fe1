-- ===== src/Io/Platform.antt =====
-- What the program takes from the C++ platform: memory, what follows where the
-- language leaves it undefined, and the layout of strings. `malloc` gives the bytes that the new block happens to hold, or `none` for
-- NULL.
use mach_olib.Common.{ℕ, ◌≤◌, ◌≡◌, some, Option, List, length, take}

pub record Platform : Type 0 where
  pub malloc : ℕ → Option (List ℕ)
  pub malloc_length : (n : ℕ) (block : List ℕ) → malloc n ≡ some block → length block ≡ n
  pub realloc : List ℕ → ℕ → Option (List ℕ)
  pub length-realloc :
      (block : List ℕ) (n : ℕ) (moved : List ℕ) → realloc block n ≡ some moved → length moved ≡ n
  pub take-realloc :
      (block : List ℕ) (n : ℕ) (moved : List ℕ) (k : ℕ)
      → realloc block n ≡ some moved
      → k ≤ length block
      → k ≤ n
      → take k moved ≡ take k block
  -- the block behind the NULL pointer after `memcpy(NULL + at, src, n)`
  pub through_null : ℕ → List ℕ → List ℕ
  -- `x / 0` and `x % 0`, where the program goes on
  pub zero_quotient : ℕ → ℕ
  pub zero_remainder : ℕ → ℕ
  -- `x << k` on a 32-bit unsigned `x`, and `-(1 << k)` as 64 bits, where `k` is out of range
  pub wide_shift : ℕ → ℕ → ℕ
  pub wide_negated : ℕ → ℕ
  -- the first eight bytes of a `std::string` object that holds a text
  pub string_word : List ℕ → ℕ
  -- what a word holds that is taken for a `std::string` object
  pub string_at_word : ℕ → List ℕ
