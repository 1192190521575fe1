-- ===== src/Io/Codec/RoundTrip.antt =====
-- `decode` and `encode` are inverse to one another, in both byte orders.
use mach_olib.Common.{ℕ, ◌*◌, ◌^◌, ◌<◌, ◌≡◌, sym, ap, ◌∙◌, List, length, All}
use mathlib.Core.List.{reverse, reverse-reverse}
use mach_olib.Io.Codec.{le_encode, be_encode, le_decode, be_decode}
use mach_olib.Io.Codec.Digits.{
  IsByte, le_bytes, le_value, length-le_bytes, le_bytes-IsByte, le_value-le_bytes,
  le_bytes-le_value, reverse-IsByte, length-reverse,
}
use mach_olib.Io.Codec.Encode.{le_encode-bytes, be_encode-bytes}
use mach_olib.Io.Codec.Decode.{le_decode-value, be_decode-value}

-- A value of `n` bytes that `lecodec::encode` writes is what `lecodec::decode` reads back, and what
-- `becodec::encode` writes is what `becodec::decode` reads back.
pub decode-encode :
    (n v : ℕ)
    → v < 2 ^ (n * 8)
    → (le_decode n (le_encode n v) ≡ v) × (be_decode n (be_encode n v) ≡ v)
decode-encode n v h = (
  ap (le_decode n) (le_encode-bytes n v)
      ∙ le_decode-value n (le_bytes n v) (length-le_bytes n v) (le_bytes-IsByte n v)
      ∙ le_value-le_bytes n v h,
  ap (be_decode n) (be_encode-bytes n v)
      ∙ be_decode-value n (reverse (le_bytes n v))
          (length-reverse (le_bytes n v) ∙ length-le_bytes n v)
          (reverse-IsByte (le_bytes n v) (le_bytes-IsByte n v))
      ∙ ap le_value (reverse-reverse (le_bytes n v))
      ∙ le_value-le_bytes n v h,
)

-- The other way round: `n` bytes that are decoded and encoded again in the same byte order come out
-- as they were, whatever bytes they are.
pub encode-decode :
    (n : ℕ) (buffer : List ℕ)
    → length buffer ≡ n
    → All IsByte buffer
    → (le_encode n (le_decode n buffer) ≡ buffer) × (be_encode n (be_decode n buffer) ≡ buffer)
encode-decode n buffer hn hb =
    let back : List ℕ = reverse buffer in
    let hr : length back ≡ n = length-reverse buffer ∙ hn in
    (
      le_encode-bytes n (le_decode n buffer)
          ∙ ap (le_bytes n) (le_decode-value n buffer hn hb)
          ∙ ap (λ k. le_bytes k (le_value buffer)) (sym hn)
          ∙ le_bytes-le_value buffer hb,
      be_encode-bytes n (be_decode n buffer)
          ∙ ap (λ v. reverse (le_bytes n v)) (be_decode-value n buffer hn hb)
          ∙ ap (λ k. reverse (le_bytes k (le_value back))) (sym hr)
          ∙ ap reverse (le_bytes-le_value back (reverse-IsByte buffer hb))
          ∙ reverse-reverse buffer,
    )

-- Reading in the wrong byte order is reading the bytes backwards in the right one: this is what tells
-- a swapped magic number from a plain one.
pub be_decode-reverse :
    (n : ℕ) (buffer : List ℕ)
    → length buffer ≡ n
    → All IsByte buffer
    → be_decode n buffer ≡ le_decode n (reverse buffer)
be_decode-reverse n buffer hn hb =
    be_decode-value n buffer hn hb
    ∙ sym
        (le_decode-value n (reverse buffer) (length-reverse buffer ∙ hn) (reverse-IsByte buffer hb))
