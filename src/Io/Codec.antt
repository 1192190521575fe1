-- ===== src/Io/Codec.antt =====
-- io/lecodec.hpp and io/becodec.hpp: an unsigned value of `n` bytes and the bytes that stand for it in
-- a stream. The union of both codecs is a list of bytes: what `encode` leaves in it is what
-- `stream_base::write` takes, and what `read` filled is what `decode` looks at. A signed type has
-- the same bytes as the unsigned type of its width.
pub mod Digits
pub mod Encode
pub mod Decode
pub mod RoundTrip
use mach_olib.Common.{
  ℕ, zero, suc, ◌+◌, ◌-◌, ◌*◌, ◌/◌, ◌%◌, ◌^◌, bit_or, List, get_or, set, replicate,
}

module _ (n v : ℕ) where
  -- `buffer[(i)] = static_cast<t_uint8>((value >> (i << 3)))`, for `k` more values of `i`.
  le_fill : ℕ → ℕ → List ℕ → List ℕ
  le_fill zero i buffer = buffer
  le_fill (suc k) i buffer = le_fill k (i + 1) (set buffer i (v / 2 ^ (i * 8) % 256))

  -- `buffer[((value_size - 1) - i)] = …`
  be_fill : ℕ → ℕ → List ℕ → List ℕ
  be_fill zero i buffer = buffer
  be_fill (suc k) i buffer = be_fill k (i + 1) (set buffer (n - 1 - i) (v / 2 ^ (i * 8) % 256))

-- `n` is `value_size`. Every byte of the union is assigned, so what it holds first is not seen.
unfoldable pub le_encode : ℕ → ℕ → List ℕ
unfolding le_fill
le_encode n v = le_fill n v n 0 (replicate n 0)

unfoldable pub be_encode : ℕ → ℕ → List ℕ
unfolding be_fill
be_encode n v = be_fill n v n 0 (replicate n 0)

module _ (n : ℕ) (buffer : List ℕ) where
  -- `tmp |= (T(temp.buffer[(i)]) << (i << 3))`, for `k` more values of `i`.
  le_join : ℕ → ℕ → ℕ → ℕ
  le_join zero i tmp = tmp
  le_join (suc k) i tmp = le_join k (i + 1) (bit_or tmp (get_or buffer i 0 * 2 ^ (i * 8)))

  -- `tmp |= (T(temp.buffer[((value_size - 1) - i)]) << (i << 3))`
  be_join : ℕ → ℕ → ℕ → ℕ
  be_join zero i tmp = tmp
  be_join (suc k) i tmp = be_join k (i + 1) (bit_or tmp (get_or buffer (n - 1 - i) 0 * 2 ^ (i * 8)))

unfoldable pub le_decode : ℕ → List ℕ → ℕ
unfolding le_join
le_decode n buffer = le_join n buffer n 0 0

unfoldable pub be_decode : ℕ → List ℕ → ℕ
unfolding be_join
be_decode n buffer = be_join n buffer n 0 0
