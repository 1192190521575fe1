-- ===== src/Io/Dynamic.antt =====
-- io/stream_dmemory.cpp: a memory stream that grows when it is written to. It inherits the fields,
-- `seek`, `size` and `position` of `stream_memory`; the block may be longer than the size.
pub mod Laws
pub mod File
pub mod Reading
pub mod Values
use mach_olib.Common.{
  ℕ, ◌+◌, ◌*◌, ◌%◌, ◌^◌, ◌==◌, ltb, if◌then◌else◌, min, Option, none, some, List, [], ◌∷◌, length,
}
use mach_olib.Io.Platform.{Platform}
use mach_olib.Io.Stream.{Device}
use mach_olib.Io.Memory.{Memory, sub64, copy_out, copy_in, seek}

-- The fields of the base class, and `m_reserved`.
pub record Dynamic : Type 0 where
  pub memory : Memory
  pub reserved : ℕ

-- `m_reserved(m_size)`, in each constructor but the copying one
unfoldable pub of_memory : Memory → Dynamic
of_memory m = record { memory = m; reserved = m.size }

unfoldable pub read_dynamic : ℕ → Dynamic → List ℕ × Dynamic
read_dynamic n s =
    let m = s.memory in
    let size = min (sub64 m.size m.position) n in
    if n == 0 then ([], s) else (
      copy_out m.buffer m.position size,
      record s { memory = record m { position = m.position + size } },
    )

-- `m_position + size`
abbrev pub end_of : Memory → List ℕ → ℕ
end_of m src = (m.position + length src) % 2 ^ 64

abbrev pub block_or_null : Option (List ℕ) → List ℕ
block_or_null none = []
block_or_null (some block) = block

module _ (p : Platform) where
  -- The block is reallocated to twice the end of the write where that is past what is reserved. The code
  -- does not look for NULL, which is the empty block, and the old block is lost.
  unfoldable pub grow : Dynamic → ℕ → Dynamic
  grow s end =
      if ltb s.reserved end
      then record {
        memory = record (s.memory) {
          buffer = block_or_null (p.realloc s.memory.buffer (end * 2 % 2 ^ 64));
        };
        reserved = end * 2 % 2 ^ 64;
      }
      else s

  -- `memcpy(&m_buffer[at], src, n)`, also where the pointer is NULL
  unfoldable pub put : List ℕ → ℕ → List ℕ → List ℕ
  put [] at src = p.through_null at src
  put (b ∷ block) at src = copy_in (b ∷ block) at src

  unfoldable pub write_dynamic : List ℕ → Dynamic → ℕ × Dynamic
  unfolding grow put
  write_dynamic src s =
      let m = s.memory in
      let end = end_of m src in
      let s' = grow s end in
      if length src == 0
      then (0, s)
      else if ltb m.size end
      then (
        length src,
        record s' {
          memory = record (s'.memory) {
            buffer = put s'.memory.buffer m.position src;
            size = end;
            position = end;
          };
        },
      )
      else (
        length src,
        record s {
          memory = record m {
            buffer = copy_in m.buffer m.position src;
            position = m.position + length src;
          };
        },
      )

  -- The virtual functions of `stream_dmemory`.
  unfoldable pub dynamic_device : Device Dynamic
  unfolding seek read_dynamic write_dynamic
  dynamic_device = record {
    size = λ s. s.memory.size;
    seek = λ o s. let (r, m) = seek o s.memory in (r, record s { memory = m });
    position = λ s. s.memory.position;
    read = read_dynamic;
    write = write_dynamic;
  }
