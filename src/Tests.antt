-- ===== src/Tests.antt =====
-- Concrete inputs for the theorems: a platform, streams over memory, and what is written in them.
pub mod Io
pub mod Macho
pub mod Dwarf
pub mod Info
pub mod Symbols
use mach_olib.Common.{
  ℕ, zero, suc, ◌+◌, ◌≤◌, ◌<◌, ◌^◌, ◌≡◌, refl, sym, ap, ◌∙◌, arith, none, some, some-injective,
  List, [], ◌∷◌, ◌++◌, length, take, replicate, length-replicate, length-take, length-append,
  take-append_more, take-take,
}
use mach_olib.Io.Platform.{Platform}
use mach_olib.Io.Stream.{Stream, Encoding, little_endian}
use mach_olib.Io.Memory.{Memory}
use mach_olib.Io.Memory.Laws.{IsValid}

pub realloc_length : (block : List ℕ) (n : ℕ) → length (take n (block ++ replicate n 0)) ≡ n
realloc_length block n = omega (
  arith,
  length-take n (block ++ replicate n 0),
  length-append block (replicate n 0),
  length-replicate {A = ℕ} n 0,
)

take_front : (k : ℕ) (xs ys : List ℕ) → k ≤ length xs → take k (xs ++ ys) ≡ take k xs
take_front zero xs ys h = refl
take_front (suc k) [] ys h = absurd (omega arith)
take_front (suc k) (x ∷ xs) ys h = ap (λ l. x ∷ l) (take_front k xs ys (omega arith))

pub realloc_keeps :
    (block : List ℕ) (n k : ℕ)
    → k ≤ length block
    → k ≤ n
    → take k (take n (block ++ replicate n 0)) ≡ take k block
realloc_keeps block n k h l =
    take-take k n (block ++ replicate n 0) l ∙ take_front k block (replicate n 0) h

-- Memory that is always there and filled with zeros; shifts out of range give zero.
abbrev pub zeroed : Platform
zeroed = record {
  malloc = λ n. some (replicate n 0);
  malloc_length = λ n block e. ap length (sym (some-injective e)) ∙ length-replicate n 0;
  realloc = λ block n. some (take n (block ++ replicate n 0));
  length-realloc = λ block n moved e. ap length (sym (some-injective e)) ∙ realloc_length block n;
  take-realloc =
      λ block n moved k e h l. ap (take k) (sym (some-injective e)) ∙ realloc_keeps block n k h l;
  through_null = λ at src. [];
  zero_quotient = λ x. 0;
  zero_remainder = λ x. 0;
  wide_shift = λ a k. 0;
  wide_negated = λ k. 0;
  string_word = λ text. 0;
  string_at_word = λ w. [];
}

abbrev pub memory_of : List ℕ → Memory
memory_of bytes = record { buffer = bytes; size = length bytes; position = 0 }

pub memory_of-IsValid : (bytes : List ℕ) → length bytes < 2 ^ 64 → IsValid (memory_of bytes)
memory_of-IsValid bytes h = record { sized = refl; bound = omega arith; small = h }

abbrev pub stream_of : List ℕ → Stream Memory
stream_of bytes = record { encoding = little_endian; device = memory_of bytes }
