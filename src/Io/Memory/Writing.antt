-- ===== src/Io/Memory/Writing.antt =====
-- What a memory stream holds after a write, and what it is filled with.
use mach_olib.Common.{
  ℕ, zero, suc, false, ◌+◌, ◌-◌, ◌^◌, ◌≤◌, ◌<◌, ◌≡◌, refl, sym, ap, ◌∙◌, arith, min, ◌==◌, some,
  List, [], ◌++◌, length, take, drop, take-append-drop, ◌∷◌, length-take,
}
use mach_olib.Io.Platform.{Platform}
use mach_olib.Io.Stream.{Device, Stream, read}
use mach_olib.Io.Stream.Laws.{IsReader, rest, IsOpen, read-rest}
use mach_olib.Io.Memory.{Memory, sub64, copy_in, seek, read_memory, write_memory, of_stream}
use mach_olib.Io.Memory.Laws.{
  IsValid, read_bytes, buffer-seek, seek-IsValid, seek_within, length-copy_in, copy_in_lem,
}

-- How many bytes of `src` fit.
abbrev pub room : Memory → List ℕ → ℕ
room m src = min (m.size - m.position) (length src)

-- The result of a write of the first `k` bytes of `src`.
abbrev pub stored : Memory → List ℕ → ℕ → ℕ × Memory
stored m src k =
    (k, record m { buffer = copy_in m.buffer m.position (take k src); position = m.position + k })

pub copy_nothing : (buffer : List ℕ) (at : ℕ) → copy_in buffer at [] ≡ buffer
copy_nothing buffer at =
    let e : at + 0 ≡ at = omega arith in
    ap (λ k. take at buffer ++ drop k buffer) e ∙ take-append-drop at buffer

pub some_bytes : (n : ℕ) → (suc n == 0) ≡ false
some_bytes n = ground arith

write_memory-eq :
    (src : List ℕ) (m : Memory) → IsValid m → write_memory src m ≡ stored m src (room m src)
unfolding write_memory
write_memory-eq [] m v =
    let none_fits : room m [] ≡ 0 = omega arith in
    let stays : m.position + 0 ≡ m.position = omega arith in
    sym (
      ap (stored m []) none_fits ∙ λ i.
      (0, record m { buffer = copy_nothing m.buffer m.position i; position = stays i }))
write_memory-eq (x ∷ xs) m v =
    let e : min (sub64 m.size m.position) (length (x ∷ xs)) ≡ room m (x ∷ xs) = omega arith in
    rw (some_bytes (length xs)) (ap (stored m (x ∷ xs)) e)

-- A seek and a read give what stands in the block.
read_back :
    (n at : ℕ) (m : Memory)
    → IsValid m
    → at + n ≤ m.size
    → (read_memory n (seek at m).1).0 ≡ take n (drop at m.buffer)
read_back zero at m v h = read_bytes zero (seek at m).1 (seek-IsValid at m v)
read_back (suc n) at m v h =
    read_bytes (suc n) (seek at m).1 (seek-IsValid at m v)
    ∙ ap (λ k. take (suc n) (drop k (seek at m).1.buffer)) (seek_within at m (omega arith)).1
    ∙ ap (λ l. take (suc n) (drop at l)) (buffer-seek at m)

module _ (src : List ℕ) (m : Memory) (v : IsValid m) where
  fits : m.position + length (take (room m src) src) ≤ length m.buffer
  fits = omega (arith, length-take (room m src) src)

  count : length (take (room m src) src) ≡ room m src
  count = omega (arith, length-take (room m src) src)

  -- `stream_memory::write` stores as many bytes of `src` as there is room for, and returns their
  -- number. The stream stays valid and keeps its size, the position goes behind them, a seek back
  -- and a read give exactly those bytes, and no byte before or behind them has changed.
  pub read-write_memory :
      let (n, m') = write_memory src m in
      (n ≡ min (m.size - m.position) (length src))
      × IsValid m'
      × (m'.size ≡ m.size)
      × (m'.position ≡ m.position + n)
      × ((read_memory n (seek m.position m').1).0 ≡ take n src)
      × (take m.position m'.buffer ≡ take m.position m.buffer)
      × (drop (m.position + n) m'.buffer ≡ drop (m.position + n) m.buffer)
  read-write_memory =
      let m' : Memory = (stored m src (room m src)).1 in
      let src' : List ℕ = take (room m src) src in
      let holds = copy_in_lem m.buffer m.position src' fits in
      let valid : IsValid m' = record {
        sized = length-copy_in m.buffer m.position src' fits ∙ v.sized;
        bound = omega arith;
        small = v.small;
      } in
      rw (write_memory-eq src m v) (
        refl,
        valid,
        refl,
        refl,
        read_back (room m src) m.position m' valid (omega arith)
            ∙ ap (λ k. take k (drop m.position m'.buffer)) (sym count)
            ∙ holds.1,
        holds.0,
        ap (λ k. drop (m.position + k) m'.buffer) (sym count)
            ∙ holds.2
            ∙ ap (λ k. drop (m.position + k) m.buffer) count,
      )

-- Where `malloc` gives a block for `n` bytes, a memory stream that is made from a readable stream with
-- `n` bytes left holds those bytes, at its start, in the byte order of the source, which goes behind
-- them. Where the source has fewer, the new stream has `n` bytes all the same: behind those of the
-- source stand the ones that the new block held.
pub of_stream-read :
    {S : Type 0} (p : Platform) (d : Device S) (r : IsReader d) (n : ℕ) (s : Stream S)
    (block : List ℕ)
    → p.malloc n ≡ some block
    → IsOpen d r s
    → let (s', source) = of_stream p d n s in
      (s'.device.size ≡ n)
      × (s'.device.position ≡ 0)
      × (s'.encoding ≡ s.encoding)
      × (s'.device.buffer ≡ take n (rest d r s) ++ drop (min n (length (rest d r s))) block)
      × (rest d r source ≡ drop n (rest d r s))
unfolding of_stream
of_stream-read p d r n s block h v =
    let given = read-rest d r n s v in
    rw (h, of_stream)
      (
        refl,
        refl,
        refl,
        ap (λ l. l ++ drop (0 + length l) block) given.0
            ∙ ap (λ k. take n (rest d r s) ++ drop k block)
                (omega (arith, length-take n (rest d r s))),
        given.1,
      )

pub of_stream-IsValid :
    {S : Type 0} (p : Platform) (d : Device S) (r : IsReader d) (n : ℕ) (s : Stream S)
    (block : List ℕ)
    → p.malloc n ≡ some block
    → n < 2 ^ 64
    → IsOpen d r s
    → IsValid (of_stream p d n s).0.device
unfolding of_stream
of_stream-IsValid p d r n s block h small v =
    let count : length (read d n s).0 ≤ n =
      omega (arith, ap length (read-rest d r n s v).0, length-take n (rest d r s)) in
    let room : 0 + length (read d n s).0 ≤ length block =
      omega (arith, p.malloc_length n block h) in
    rw (h, of_stream)
      (record {
        sized = length-copy_in block 0 (read d n s).0 room ∙ p.malloc_length n block h;
        bound = omega arith;
        small = small;
      })
