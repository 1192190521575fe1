-- ===== src/Macho/Header/Words.antt =====
-- Words of 32 bits that stand one behind the other in a readable stream.
use mach_olib.Common.{ℕ, ◌^◌, ◌<◌, ◌≡◌, refl, sym, ap, ◌∙◌, false, List, ◌++◌}
use mach_olib.Io.Stream.{
  Device, Stream, Encoding, little_endian, w32, le_read, get, enable_big_endian,
}
use mach_olib.Io.Stream.Laws.{IsReader, rest, IsOpen}
use mach_olib.Io.Stream.Images.{image, image-Encodes, Gets, get-image}

module _ {S : Type 0} (d : Device S) (r : IsReader d) where
  -- What was read, and the stream behind it.
  pub record Behind {A : Type 0} (v : A) (back : List ℕ) (e : Encoding) (out : A × Stream S)
      : Type 0 where
    pub value : out.0 ≡ v
    pub behind : rest d r out.1 ≡ back
    pub order : out.1.encoding ≡ e
    pub open_still : IsOpen d r out.1

  pub next :
      (v old : ℕ) (e : Encoding) (s : Stream S) (back : List ℕ)
      → v < 2 ^ 32
      → s.encoding ≡ e
      → IsOpen d r s
      → rest d r s ≡ image e w32 v ++ back
      → Gets d r v back e (get d w32 old s)
  next v old e s back small order open_still standing =
      let g =
        get-image d r w32 v old s (image-Encodes s.encoding w32 v small) open_still back
          (standing ∙ ap (λ o. image o w32 v ++ back) (sym order)) in
      record {
        value = g.value;
        behind = g.behind;
        order = g.order ∙ order;
        open_still = g.open_still;
      }

  -- `le_read`, whatever the stream's byte order is.
  pub le_next :
      (v old : ℕ) (s : Stream S) (back : List ℕ)
      → v < 2 ^ 32
      → IsOpen d r s
      → rest d r s ≡ image little_endian w32 v ++ back
      → ((le_read d w32 old s).0.1 ≡ v)
        × (rest d r (le_read d w32 old s).1 ≡ back)
        × IsOpen d r (le_read d w32 old s).1
  unfolding le_read get enable_big_endian
  le_next v old s back small open_still standing =
      let g =
        next v old little_endian (enable_big_endian false s) back small refl open_still standing in
      (g.value, g.behind, g.open_still)
