-- ===== src/Io/Memory/Laws.antt =====
-- A memory stream is readable, and its block keeps its size.
use mach_olib.Common.{
  take-append, drop-append, drop_at, ==_iff, ℕ, ◌+◌, ◌-◌, ◌^◌, ◌≤◌, ◌<◌, ◌≡◌, refl, sym, ap, ◌∙◌,
  arith, min, ◌==◌, Bool-cases, inl, inr, List, ◌++◌, length, take, drop, take-min, length-take,
  length-drop, length-append,
}
use mach_olib.Io.Memory.{Memory, sub64, copy_in, seek, read_memory, memory_device}
use mach_olib.Io.Stream.Laws.{IsReader}

pub record IsValid (m : Memory) : Type 0 where
  pub sized : length m.buffer ≡ m.size
  pub bound : m.position ≤ m.size
  pub small : m.size < 2 ^ 64

pub sub64-eq : (a b : ℕ) → b ≤ a → a < 2 ^ 64 → sub64 a b ≡ a - b
sub64-eq a b h k = omega arith

-- The bytes from the position on.
abbrev pub rest_of : Memory → List ℕ
rest_of m = drop m.position m.buffer

pub length-rest_of : (m : Memory) → IsValid m → length (rest_of m) ≡ sub64 m.size m.position
length-rest_of m v = omega (arith, length-drop m.position m.buffer)

clamp_swap :
    (m : Memory) (n : ℕ) → IsValid m → min (sub64 m.size m.position) n ≡ min n (length (rest_of m))
clamp_swap m n v = omega (arith, length-rest_of m v)

pub read_bytes : (n : ℕ) (m : Memory) → IsValid m → (read_memory n m).0 ≡ take n (rest_of m)
unfolding read_memory
read_bytes n m v = elim (Bool-cases (n == 0)) [
  | inl e ↦ rw e (ap (λ k. take k (rest_of m)) (sym ((==_iff n 0).0 e)))
  | inr e ↦ rw e (ap (λ k. take k (rest_of m)) (clamp_swap m n v) ∙ take-min n (rest_of m))
]

pub read_position :
    (n : ℕ) (m : Memory)
    → IsValid m
    → (read_memory n m).1.position ≡ m.position + length (read_memory n m).0
unfolding read_memory
read_position n m v = elim (Bool-cases (n == 0)) [
  | inl e ↦ rw e (omega arith)
  | inr e ↦
      rw e (
        omega
          (arith, length-take (min (sub64 m.size m.position) n) (rest_of m), length-rest_of m v))
]

pub buffer-read_memory : (n : ℕ) (m : Memory) → (read_memory n m).1.buffer ≡ m.buffer
unfolding read_memory
buffer-read_memory n m = ground arith

pub read_memory-IsValid : (n : ℕ) (m : Memory) → IsValid m → IsValid (read_memory n m).1
unfolding read_memory
read_memory-IsValid n m v = ground arith

pub seek-IsValid : (o : ℕ) (m : Memory) → IsValid m → IsValid (seek o m).1
unfolding seek
seek-IsValid o m v = ground arith

pub seek_within :
    (o : ℕ) (m : Memory) → o < m.size → ((seek o m).0 ≡ o) × ((seek o m).1.position ≡ o)
unfolding seek
seek_within o m h = ground arith

pub buffer-seek : (o : ℕ) (m : Memory) → (seek o m).1.buffer ≡ m.buffer
unfolding seek
buffer-seek o m = ground arith

-- `stream_memory` keeps the promise of a readable stream: its content is its block.
unfoldable pub memory_reader : IsReader memory_device
unfolding memory_device
memory_reader = record {
  IsValid = IsValid;
  contents = λ m. m.buffer;
  size-contents = λ m v. sym v.sized;
  position_bound = λ m v. omega arith;
  read_bytes = read_bytes;
  read_position = read_position;
  contents-read = λ n m v. buffer-read_memory n m;
  read-IsValid = read_memory-IsValid;
  seek_result = λ o m v h. (seek_within o m (omega arith)).0;
  seek_position = λ o m v h. (seek_within o m (omega arith)).1;
  contents-seek = λ o m v. buffer-seek o m;
  seek-IsValid = seek-IsValid;
}

pub length-copy_in :
    (buffer : List ℕ) (at : ℕ) (src : List ℕ)
    → at + length src ≤ length buffer
    → length (copy_in buffer at src) ≡ length buffer
length-copy_in buffer at src h = omega (
  arith,
  length-append (take at buffer) (src ++ drop (at + length src) buffer),
  length-append src (drop (at + length src) buffer),
  length-take at buffer,
  length-drop (at + length src) buffer,
)

-- After a copy the block holds the copied bytes, and outside them what it held.
pub copy_in_lem :
    (buffer : List ℕ) (at : ℕ) (src : List ℕ)
    → at + length src ≤ length buffer
    → (take at (copy_in buffer at src) ≡ take at buffer)
      × (take (length src) (drop at (copy_in buffer at src)) ≡ src)
      × (drop (at + length src) (copy_in buffer at src) ≡ drop (at + length src) buffer)
copy_in_lem buffer at src h =
    let front : List ℕ = take at buffer in
    let back : List ℕ = drop (at + length src) buffer in
    let count : at ≡ length front = omega (arith, length-take at buffer) in
    (
      take-append front (src ++ back) at count,
      ap (take (length src)) (drop-append front (src ++ back) at count)
          ∙ take-append src back (length src) refl,
      drop_at (at + length src) front src back (omega arith),
    )
