-- ===== src/Macho/Header/Laws.antt =====
-- A Mach-O header is read as it stands in the file, of either word size and in either byte order.
use mach_olib.Common.{
  ℕ, ◌^◌, ◌<◌, ◌≡◌, refl, ap, ◌∙◌, arith, if◌then◌else◌, Bool, true, false, List, ◌++◌,
}
use mach_olib.Base.{ResultCode, success}
use mach_olib.Io.Codec.{le_encode, be_encode}
use mach_olib.Io.Stream.{
  le_image, be_image, Device, Stream, Encoding, little_endian, big_endian, w32, le_read,
  enable_big_endian,
}
use mach_olib.Io.Stream.Laws.{IsReader, rest, IsOpen}
use mach_olib.Io.Stream.Images.{image}
use mach_olib.Macho.Header.{
  MachHeader, macho_magic, macho_magic_swap, macho_magic_64, macho_magic_swap_64, read_words,
  read_words_64, read_header,
}
use mach_olib.Macho.Header.Words.{Behind, next, le_next}

-- Every field fits its type.
pub record IsHeader (h : MachHeader) : Type 0 where
  pub cputype : h.cputype < 2 ^ 32
  pub cpusubtype : h.cpusubtype < 2 ^ 32
  pub filetype : h.filetype < 2 ^ 32
  pub ncmds : h.ncmds < 2 ^ 32
  pub sizeofcmds : h.sizeofcmds < 2 ^ 32
  pub flags : h.flags < 2 ^ 32
  pub reserved : h.reserved < 2 ^ 32

-- The six words as they stand in a file, before `back`.
abbrev pub words_image : Encoding → MachHeader → List ℕ → List ℕ
words_image e h back =
    image e w32 h.cputype
    ++ (image e w32 h.cpusubtype
        ++ (image e w32 h.filetype
            ++ (image e w32 h.ncmds
                ++ (image e w32 h.sizeofcmds ++ (image e w32 h.flags ++ back)))))

-- The magic number of a file, before it is read in whatever order.
abbrev pub magic_of : Bool → ℕ
magic_of is_x64 = if is_x64 then macho_magic_64 else macho_magic

abbrev pub order_of : Bool → Encoding
order_of is_big = if is_big then big_endian else little_endian

abbrev pub reserved_image : Encoding → Bool → MachHeader → List ℕ → List ℕ
reserved_image e is_x64 h back = if is_x64 then image e w32 h.reserved ++ back else back

-- A header in a file: the magic number, the six words, and a reserved word where it is a 64-bit one.
abbrev pub header_image : Bool → Bool → MachHeader → List ℕ → List ℕ
header_image is_big is_x64 h back =
    let e = order_of is_big in
    image e w32 (magic_of is_x64) ++ words_image e h (reserved_image e is_x64 h back)

-- The magic number as `le_read` sees it.
abbrev pub raw_magic : Bool → Bool → ℕ
raw_magic false false = macho_magic
raw_magic true false = macho_magic_swap
raw_magic false true = macho_magic_64
raw_magic true true = macho_magic_swap_64

raw_magic-lt : (is_big is_x64 : Bool) → raw_magic is_big is_x64 < 2 ^ 32
raw_magic-lt false false = omega arith
raw_magic-lt true false = omega arith
raw_magic-lt false true = omega arith
raw_magic-lt true true = omega arith

image-raw_magic :
    (is_big is_x64 : Bool)
    → image (order_of is_big) w32 (magic_of is_x64)
      ≡ image little_endian w32 (raw_magic is_big is_x64)
unfolding le_image be_image le_encode be_encode
image-raw_magic false false = refl
image-raw_magic true false = refl
image-raw_magic false true = refl
image-raw_magic true true = refl

-- What a header that was read holds: the magic number as it is seen, the words of the file, and the
-- reserved word of a 64-bit header.
abbrev pub as_read : Bool → Bool → MachHeader → MachHeader → MachHeader
as_read is_big is_x64 h res = record h {
  magic = raw_magic is_big is_x64;
  reserved = if is_x64 then h.reserved else res.reserved;
}

module _ {S : Type 0} (d : Device S) (r : IsReader d) where
  read_words-image :
      (h res : MachHeader) (e : Encoding) (s : Stream S) (back : List ℕ)
      → IsHeader h
      → s.encoding ≡ e
      → IsOpen d r s
      → rest d r s ≡ words_image e h back
      → Behind d r
          (record h { magic = res.magic; reserved = res.reserved })
          back
          e
          (read_words d res s)
  unfolding read_words
  read_words-image h res e s back small order open_still standing =
      let g1 = next d r h.cputype res.cputype e s _ small.cputype order open_still standing in
      let g2 =
        next d r h.cpusubtype res.cpusubtype e _ _ small.cpusubtype g1.order g1.open_still
          g1.behind in
      let g3 =
        next d r h.filetype res.filetype e _ _ small.filetype g2.order g2.open_still g2.behind in
      let g4 = next d r h.ncmds res.ncmds e _ _ small.ncmds g3.order g3.open_still g3.behind in
      let g5 =
        next d r h.sizeofcmds res.sizeofcmds e _ _ small.sizeofcmds g4.order g4.open_still
          g4.behind in
      let g6 = next d r h.flags res.flags e _ back small.flags g5.order g5.open_still g5.behind in
      record {
        value = rw (g1.value, g2.value, g3.value, g4.value, g5.value, g6.value) refl;
        behind = g6.behind;
        order = g6.order;
        open_still = g6.open_still;
      }

  read_words_64-image :
      (h res : MachHeader) (e : Encoding) (s : Stream S) (back : List ℕ)
      → IsHeader h
      → s.encoding ≡ e
      → IsOpen d r s
      → rest d r s ≡ words_image e h (image e w32 h.reserved ++ back)
      → Behind d r (record h { magic = res.magic }) back e (read_words_64 d res s)
  unfolding read_words_64
  read_words_64-image h res e s back small order open_still standing =
      let words = read_words-image h res e s _ small order open_still standing in
      let g =
        next d r h.reserved (read_words d res s).0.reserved e (read_words d res s).1 back
          small.reserved words.order words.open_still words.behind in
      let seen =
        next d r h.reserved res.reserved e (read_words d res s).1 back small.reserved words.order
          words.open_still words.behind in
      record {
        value = rw (words.value, seen.value) refl;
        behind = g.behind;
        order = g.order;
        open_still = g.open_still;
      }

  found :
      {h : MachHeader} {back : List ℕ} {e : Encoding} {out : MachHeader × Stream S}
      → Behind d r h back e out
      → Behind d r {A = ResultCode × MachHeader} (success, h) back e ((success, out.0), out.1)
  found b = record {
    value = ap {B = ResultCode × MachHeader} (λ h. (success, h)) b.value;
    behind = b.behind;
    order = b.order;
    open_still = b.open_still;
  }

  -- Where the header of a file stands in a readable stream, little- or big-endian, of 32 or 64 bits,
  -- and every field fits its type, `MachHeader::Read` succeeds: it gives the file's fields, keeps
  -- `reserved` for a 32-bit header, leaves the stream behind the header, and sets the stream to the
  -- byte order of the file, whichever it had before.
  pub read_header-image :
      (is_big is_x64 : Bool) (h res : MachHeader) (s : Stream S) (back : List ℕ)
      → IsHeader h
      → IsOpen d r s
      → rest d r s ≡ header_image is_big is_x64 h back
      → Behind d r
          (success, as_read is_big is_x64 h res)
          back
          (order_of is_big)
          (read_header d res s)
  unfolding read_header enable_big_endian
  read_header-image is_big is_x64 h res s back small open_still standing =
      let seen =
        le_next d r (raw_magic is_big is_x64) res.magic s _ (raw_magic-lt is_big is_x64) open_still
          (standing
            ∙ ap
                (λ m.
                  m
                  ++ words_image (order_of is_big) h
                      (reserved_image (order_of is_big) is_x64 h back))
                (image-raw_magic is_big is_x64)) in
      by_kind is_big is_x64 seen.0 seen.1 seen.2
    where
      named : Bool → Bool → MachHeader
      named is_big is_x64 = record res { magic = raw_magic is_big is_x64 }

      by_kind :
          (is_big is_x64 : Bool)
          → (le_read d w32 res.magic s).0.1 ≡ raw_magic is_big is_x64
          → rest d r (le_read d w32 res.magic s).1
            ≡ words_image (order_of is_big) h (reserved_image (order_of is_big) is_x64 h back)
          → IsOpen d r (le_read d w32 res.magic s).1
          → Behind d r
              (success, as_read is_big is_x64 h res)
              back
              (order_of is_big)
              (read_header d res s)
      by_kind false false m b o =
          rw m (found (read_words-image h (named false false) little_endian _ back small refl o b))
      by_kind true false m b o =
          rw m (found (read_words-image h (named true false) big_endian _ back small refl o b))
      by_kind false true m b o =
          rw m
            (found (read_words_64-image h (named false true) little_endian _ back small refl o b))
      by_kind true true m b o =
          rw m (found (read_words_64-image h (named true true) big_endian _ back small refl o b))
