-- ===== src/Io/Stream/Images.antt =====
-- The bytes that `t_write` writes for an integer, and `t_read` where they stand.
use mach_olib.Common.{
  ℕ, ◌*◌, ◌^◌, ◌<◌, ◌≡◌, refl, sym, ap, ◌∙◌, arith, List, ◌++◌, length, take, drop, take-append,
  drop-append, length-append, All,
}
use mathlib.Core.List.{reverse, reverse-reverse}
use mach_olib.Io.Codec.Digits.{
  IsByte, le_bytes, le_value, length-le_bytes, le_bytes-IsByte, le_value-le_bytes, reverse-IsByte,
  length-reverse,
}
use mach_olib.Io.Codec.Encode.{le_encode-bytes, be_encode-bytes}
use mach_olib.Io.Stream.{
  Device, Stream, Encoding, unknown, little_endian, big_endian, Width, w8, w16, w32, w64, bytes_of,
  le_image, be_image, get,
}
use mach_olib.Io.Stream.Laws.{IsReader, rest, IsOpen}
use mach_olib.Io.Stream.Values.{word, get-word, get-rest}

le_image-bytes : (w : Width) (v : ℕ) → le_image w v ≡ le_bytes (bytes_of w) v
unfolding le_image
le_image-bytes w8 v = unfold le_bytes in refl
le_image-bytes w16 v = le_encode-bytes 2 v
le_image-bytes w32 v = le_encode-bytes 4 v
le_image-bytes w64 v = le_encode-bytes 8 v

be_image-bytes : (w : Width) (v : ℕ) → be_image w v ≡ reverse (le_bytes (bytes_of w) v)
unfolding be_image
be_image-bytes w8 v = unfold le_bytes in refl
be_image-bytes w16 v = be_encode-bytes 2 v
be_image-bytes w32 v = be_encode-bytes 4 v
be_image-bytes w64 v = be_encode-bytes 8 v

-- What `t_write` writes for a value in each byte order.
abbrev pub image : Encoding → Width → ℕ → List ℕ
image big_endian w v = be_image w v
image _ w v = le_image w v

-- It has as many bytes as the type, and they stand for the value.
pub record Encodes (e : Encoding) (w : Width) (v : ℕ) : Type 0 where
  pub count : length (image e w v) ≡ bytes_of w
  pub bytes : All IsByte (image e w v)
  pub value : word e (image e w v) ≡ v

le_image-Encodes : (w : Width) (v : ℕ) → v < 2 ^ (bytes_of w * 8) → Encodes little_endian w v
le_image-Encodes w v h = record {
  count = ap length (le_image-bytes w v) ∙ length-le_bytes (bytes_of w) v;
  bytes = rw (le_image-bytes w v) (le_bytes-IsByte (bytes_of w) v);
  value = ap le_value (le_image-bytes w v) ∙ le_value-le_bytes (bytes_of w) v h;
}

be_image-Encodes : (w : Width) (v : ℕ) → v < 2 ^ (bytes_of w * 8) → Encodes big_endian w v
be_image-Encodes w v h =
    let digits : List ℕ = le_bytes (bytes_of w) v in
    record {
      count =
          ap length (be_image-bytes w v) ∙ length-reverse digits ∙ length-le_bytes (bytes_of w) v;
      bytes = rw (be_image-bytes w v) (reverse-IsByte digits (le_bytes-IsByte (bytes_of w) v));
      value =
          ap (λ l. le_value (reverse l)) (be_image-bytes w v)
          ∙ ap le_value (reverse-reverse digits)
          ∙ le_value-le_bytes (bytes_of w) v h;
    }

pub image-Encodes : (e : Encoding) (w : Width) (v : ℕ) → v < 2 ^ (bytes_of w * 8) → Encodes e w v
image-Encodes unknown w v h =
    let i = le_image-Encodes w v h in record { count = i.count; bytes = i.bytes; value = i.value }
image-Encodes little_endian w v h = le_image-Encodes w v h
image-Encodes big_endian w v h = be_image-Encodes w v h

module _ {S : Type 0} (d : Device S) (r : IsReader d) where
  -- A `t_read` that found an integer: its value, and the stream behind it.
  pub record Gets (v : ℕ) (back : List ℕ) (e : Encoding) (out : ℕ × Stream S) : Type 0 where
    pub value : out.0 ≡ v
    pub behind : rest d r out.1 ≡ back
    pub order : out.1.encoding ≡ e
    pub open_still : IsOpen d r out.1

  pub get-image :
      (w : Width) (v old : ℕ) (s : Stream S)
      → Encodes s.encoding w v
      → IsOpen d r s
      → (back : List ℕ) → rest d r s ≡ image s.encoding w v ++ back
      → Gets v back s.encoding (get d w old s)
  get-image w v old s i open_still back standing =
      let taken : take (bytes_of w) (rest d r s) ≡ image s.encoding w v =
        ap (take (bytes_of w)) standing
        ∙ take-append (image s.encoding w v) back (bytes_of w) (sym i.count) in
      let after = get-rest d r w old s open_still in
      record {
        value =
            get-word d r w old s open_still
              (omega
                (arith, ap length standing, length-append (image s.encoding w v) back, i.count))
              (rw taken i.bytes)
            ∙ ap (word s.encoding) taken
            ∙ i.value;
        behind =
            after.0
            ∙ ap (drop (bytes_of w)) standing
            ∙ drop-append (image s.encoding w v) back (bytes_of w) (sym i.count);
        order = after.1;
        open_still = after.2;
      }

  -- The same in a byte order that the stream is known to have.
  pub get_next :
      (w : Width) (v old : ℕ) (e : Encoding) (s : Stream S) (back : List ℕ)
      → v < 2 ^ (bytes_of w * 8)
      → s.encoding ≡ e
      → IsOpen d r s
      → rest d r s ≡ image e w v ++ back
      → Gets v back e (get d w old s)
  get_next w v old e s back small order open_still standing =
      let g =
        get-image w v old s (image-Encodes s.encoding w v small) open_still back
          (standing ∙ ap (λ o. image o w v ++ back) (sym order)) in
      record {
        value = g.value;
        behind = g.behind;
        order = g.order ∙ order;
        open_still = g.open_still;
      }
