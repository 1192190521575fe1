-- ===== src/Io/Substream.antt =====
-- io/substream.cpp: a window of another stream. The parent is part of the state: nothing else moves
-- it. A substream without a parent, as the default constructor makes it, is not modelled.
pub mod Laws
use mach_olib.Common.{ℕ, ◌+◌, ◌-◌, ◌%◌, ◌^◌, ◌==◌, ltb, if◌then◌else◌, min, List, [], length, take}
use mach_olib.Io.Memory.{sub64}
use mach_olib.Io.Stream.{Device, Encoding, little_endian, Stream}

pub record Substream (S : Type 0) : Type 0 where
  pub parent : S
  pub position : ℕ
  pub start : ℕ
  pub size : ℕ

-- `substream(io::stream_base::ptr data, bstreamsize start, bstreamsize size)`: the byte order is the
-- one that every stream begins with, not that of the parent.
unfoldable pub of_parent : {S : Type 0} → Stream S → ℕ → ℕ → Stream (Substream S)
of_parent parent start size = record {
  encoding = little_endian;
  device = record { parent = parent.device; position = 0; start = start; size = size };
}

-- `bstreamsize` addition wraps.
abbrev pub add64 : ℕ → ℕ → ℕ
add64 a b = (a + b) % 2 ^ 64

module _ {S : Type 0} (d : Device S) where
  unfoldable pub seek_substream : ℕ → Substream S → ℕ × Substream S
  seek_substream offset s =
      let s' = if ltb offset s.size then record s { position = offset } else s in (s'.position, s')

  unfoldable pub read_substream : ℕ → Substream S → List ℕ × Substream S
  read_substream n s =
      let size = min (sub64 s.size s.position) n in
      let at = add64 s.start s.position in
      let (there, moved) = d.seek at s.parent in
      let (bytes, parent) = d.read size moved in
      if there == at
      then (bytes, record s { parent = parent; position = add64 s.position (length bytes) })
      else ([], record s { parent = moved })

  unfoldable pub write_substream : List ℕ → Substream S → ℕ × Substream S
  write_substream src s =
      let size = min (sub64 s.size s.position) (length src) in
      let at = add64 s.start s.position in
      let (there, moved) = d.seek at s.parent in
      let (ret, parent) = d.write (take size src) moved in
      if there == at
      then (ret, record s { parent = parent; position = add64 s.position ret })
      else (0, record s { parent = moved })

  -- The virtual functions of `substream`.
  unfoldable pub substream_device : Device (Substream S)
  unfolding seek_substream read_substream write_substream
  substream_device = record {
    size = λ s. s.size;
    seek = seek_substream;
    position = λ s. s.position;
    read = read_substream;
    write = write_substream;
  }
