-- ===== src/Io/Memory.antt =====
-- io/stream_memory.cpp: a stream over a block of memory of a fixed size. The block is a list of as
-- many bytes as `malloc` gave; sizes and positions are 64-bit.
pub mod Laws
pub mod Writing
use mach_olib.Common.{
  ℕ, ◌+◌, ◌-◌, ◌%◌, ◌^◌, ◌==◌, ltb, if◌then◌else◌, min, Option, none, some, List, [], ◌++◌, length,
  take, drop,
}
use mach_olib.Io.Platform.{Platform}
use mach_olib.Io.Stream.{Device, Stream, Encoding, little_endian, read}

-- `m_buffer`, `m_size` and `m_position`. The NULL pointer is the empty block.
pub record Memory : Type 0 where
  pub buffer : List ℕ
  pub size : ℕ
  pub position : ℕ

-- `bstreamsize` subtraction wraps.
abbrev pub sub64 : ℕ → ℕ → ℕ
sub64 a b = (a + 2 ^ 64 - b) % 2 ^ 64

-- `memcpy(dst, &m_buffer[at], n)` and `memcpy(&m_buffer[at], src, n)`, for `n` bytes of `src`
abbrev pub copy_out : List ℕ → ℕ → ℕ → List ℕ
copy_out buffer at n = take n (drop at buffer)

abbrev pub copy_in : List ℕ → ℕ → List ℕ → List ℕ
copy_in buffer at src = take at buffer ++ (src ++ drop (at + length src) buffer)

unfoldable pub seek : ℕ → Memory → ℕ × Memory
seek offset m =
    let m' = if ltb offset m.size then record m { position = offset } else m in (m'.position, m')

unfoldable pub read_memory : ℕ → Memory → List ℕ × Memory
read_memory n m =
    let size = min (sub64 m.size m.position) n in
    if n == 0
    then ([], m)
    else (copy_out m.buffer m.position size, record m { position = m.position + size })

unfoldable pub write_memory : List ℕ → Memory → ℕ × Memory
write_memory src m =
    let size = min (sub64 m.size m.position) (length src) in
    if length src == 0 then (0, m) else (
      size,
      record m {
        buffer = copy_in m.buffer m.position (take size src);
        position = m.position + size;
      },
    )

-- The virtual functions of `stream_memory`.
unfoldable pub memory_device : Device Memory
unfolding seek read_memory write_memory
memory_device = record {
  size = λ m. m.size;
  seek = seek;
  position = λ m. m.position;
  read = read_memory;
  write = write_memory;
}

abbrev pub empty : Memory
empty = record { buffer = []; size = 0; position = 0 }

module _ (p : Platform) where
  -- `stream_memory(bstreamsize size)`
  unfoldable pub of_size : ℕ → Memory
  of_size n = elim (p.malloc n) [
    | none ↦ empty
    | some block ↦ record { buffer = block; size = n; position = 0 }
  ]

  -- `stream_memory(const char* data, bstreamsize size)`, for the `size` bytes at `data`
  unfoldable pub of_data : List ℕ → Memory
  of_data source = elim (p.malloc (length source)) [
    | none ↦ empty
    | some block ↦ record { buffer = copy_in block 0 source; size = length source; position = 0 }
  ]

  -- `stream_memory(io::stream_base::ptr data, bstreamsize size)`: the size is the one asked for, also
  -- where the source has less. The result is the new stream and the source after the read.
  unfoldable pub of_stream : {S : Type 0} → Device S → ℕ → Stream S → Stream Memory × Stream S
  unfolding read
  of_stream d n s = elim (p.malloc n) [
    | none ↦ (record { encoding = s.encoding; device = empty }, s)
    | some block ↦ (
      record {
        encoding = s.encoding;
        device = record { buffer = copy_in block 0 (read d n s).0; size = n; position = 0 };
      },
      (read d n s).1,
    )
  ]

  -- The copy constructor: a stream at the start of a copy of the block.
  unfoldable pub copy : Stream Memory → Stream Memory
  copy other = record {
    encoding = other.encoding;
    device =
        if ltb 0 other.device.size
        then elim (p.malloc other.device.size) [
          | none ↦ empty
          | some block ↦ record {
            buffer = copy_in block 0 (take other.device.size other.device.buffer);
            size = other.device.size;
            position = 0;
          }
        ]
        else empty;
  }
