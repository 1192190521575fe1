-- ===== src/Io/Cache.antt =====
-- io/stream_cache.hpp: a stream that keeps the last `capacity` bytes that it read of its parent, which is
-- part of its state. What a read copies to the caller is as long as was asked for, and may be longer
-- than the number that it returns.
use mach_olib.Common.{
  ℕ, ◌+◌, ◌%◌, ◌^◌, ltb, leb, if◌then◌else◌, min, Bool, true, false, ◌&&◌, List, length, replicate,
}
use mach_olib.Io.Stream.{Device}
use mach_olib.Io.Memory.{sub64, copy_in, copy_out}

pub record Cache (S : Type 0) : Type 0 where
  pub parent : S
  pub position : ℕ
  pub cache_position : ℕ
  pub has_cache : Bool
  pub buffer : List ℕ

module _ {S : Type 0} (d : Device S) (capacity : ℕ) where
  -- `stream_cache::stream_cache`
  unfoldable pub cached : S → Cache S
  cached parent = record {
    parent = parent;
    position = 0;
    cache_position = 0;
    has_cache = false;
    buffer = replicate capacity 0;
  }

  -- `stream_cache::seek`
  unfoldable pub seek_cache : ℕ → Cache S → ℕ × Cache S
  seek_cache offset c = let p = min offset (d.size c.parent) in (p, record c { position = p })

  -- `stream_cache::is_hit`
  unfoldable pub is_hit : ℕ → Cache S → Bool
  is_hit size c =
      c.has_cache
      && leb c.cache_position c.position
      && ltb ((c.position + size) % 2 ^ 64) ((c.cache_position + capacity) % 2 ^ 64)

  -- `stream_cache::do_read` and `do_write`
  unfoldable pub do_read : ℕ → Cache S → List ℕ × S
  do_read size c = d.read size (d.seek c.position c.parent).1

  unfoldable pub do_write : List ℕ → Cache S → ℕ × Cache S
  do_write src c =
      let (n, parent) = d.write src (d.seek c.position c.parent).1 in
      (n, record c { parent = parent })

  -- The cache after a read of the parent into it.
  unfoldable pub fill : Cache S → ℕ × Cache S
  fill c =
      let (at, moved) = d.seek c.position c.parent in
      let (bytes, parent) = do_read capacity (record c { parent = moved }) in
      (
        length bytes,
        record c {
          parent = parent;
          cache_position = at;
          has_cache = true;
          buffer = copy_in c.buffer 0 bytes;
        },
      )

  -- `stream_cache::read`: the number that it returns, and the bytes that it puts into `dst`
  unfoldable pub read_cache : ℕ → Cache S → (ℕ × List ℕ) × Cache S
  read_cache size c =
      let hit = is_hit size c in
      let (filled, full) = fill c in
      let ret = if hit then size else min filled size in
      let c' = if hit then c else full in
      let dst = copy_out c'.buffer (sub64 c'.position c'.cache_position) size in
      let (bytes, parent) = do_read size (record c { parent = (d.seek c.position c.parent).1 }) in
      if leb size capacity
      then ((ret, dst), (seek_cache ((c'.position + ret) % 2 ^ 64) c').1)
      else (
        (length bytes, bytes),
        record c { parent = parent; position = (c.position + length bytes) % 2 ^ 64 },
      )

  -- `stream_cache::write`
  unfoldable pub write_cache : List ℕ → Cache S → ℕ × Cache S
  write_cache src c = do_write src (record c { has_cache = false })
