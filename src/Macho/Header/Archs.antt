-- ===== src/Macho/Header/Archs.antt =====
-- The entries of a fat archive.
use mach_olib.Common.{ℕ, ◌^◌, ◌<◌, ◌≡◌, refl, List, ◌++◌}
use mach_olib.Base.{success}
use mach_olib.Io.Stream.{Device, Stream, Encoding, w32}
use mach_olib.Io.Stream.Laws.{IsReader, rest, IsOpen}
use mach_olib.Io.Stream.Images.{image}
use mach_olib.Macho.Header.{FatArch, deserialize}
use mach_olib.Macho.Header.Words.{Behind, next}

-- Every field fits its type.
pub record IsArch (a : FatArch) : Type 0 where
  pub cputype : a.cputype < 2 ^ 32
  pub cpusubtype : a.cpusubtype < 2 ^ 32
  pub macho_off : a.macho_off < 2 ^ 32
  pub macho_size : a.macho_size < 2 ^ 32
  pub align : a.align < 2 ^ 32

abbrev pub arch_image : Encoding → FatArch → List ℕ → List ℕ
arch_image e a back =
    image e w32 a.cputype
    ++ (image e w32 a.cpusubtype
        ++ (image e w32 a.macho_off ++ (image e w32 a.macho_size ++ (image e w32 a.align ++ back))))

module _ {S : Type 0} (d : Device S) (r : IsReader d) where
  -- An entry of a fat archive, whose fields fit their types, is read as it stands in the file, in the
  -- stream's byte order.
  pub deserialize-image :
      (a fresh : FatArch) (s : Stream S) (back : List ℕ)
      → IsArch a
      → IsOpen d r s
      → rest d r s ≡ arch_image s.encoding a back
      → Behind d r (success, a) back s.encoding (deserialize d fresh s)
  unfolding deserialize
  deserialize-image a fresh s back small open_still standing =
      let e : Encoding = s.encoding in
      let g1 = next d r a.cputype fresh.cputype e s _ small.cputype refl open_still standing in
      let g2 =
        next d r a.cpusubtype fresh.cpusubtype e _ _ small.cpusubtype g1.order g1.open_still
          g1.behind in
      let g3 =
        next d r a.macho_off fresh.macho_off e _ _ small.macho_off g2.order g2.open_still
          g2.behind in
      let g4 =
        next d r a.macho_size fresh.macho_size e _ _ small.macho_size g3.order g3.open_still
          g3.behind in
      let g5 = next d r a.align fresh.align e _ back small.align g4.order g4.open_still g4.behind in
      record {
        value = rw (g1.value, g2.value, g3.value, g4.value, g5.value) refl;
        behind = g5.behind;
        order = g5.order;
        open_still = g5.open_still;
      }
