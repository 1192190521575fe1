-- ===== src/Dwarf/Lines/Versions.antt =====
-- `CDWARFLineTable::parse` of dwarf/CDWARFDebugLine.cpp on a version that it does not know.
use mach_olib.Common.{ℕ, ◌^◌, ◌<◌, ◌≡◌, refl, ap, arith, false, ◌⊎◌, inl, inr, some, List, [], ◌++◌}
use mach_olib.Io.Platform.{Platform}
use mach_olib.Io.Stream.{Device, Stream, Width, w16, w32, get}
use mach_olib.Io.Stream.Laws.{IsReader, rest, IsOpen}
use mach_olib.Io.Stream.Images.{image, get_next}
use mach_olib.Dwarf.Lines.{Row, start}
use mach_olib.Dwarf.Lines.Header.{
  LineHeader, new_header, parse_prologue, parse_line_table, is_supported,
}

not_supported : (version : ℕ) → (version < 2) ⊎ (4 < version) → is_supported version ≡ false
not_supported version (inl h) = ground arith
not_supported version (inr h) = ground arith

module _ (p : Platform) {S : Type 0} (d : Device S) (r : IsReader d) (unset : Width → ℕ) where
  -- The prologue is what was read before the version was tested.
  prologue_unsupported :
      (total_length version : ℕ) (s : Stream S)
      → (get d w32 0 s).0 ≡ total_length
      → (get d w16 0 (get d w32 0 s).1).0 ≡ version
      → is_supported version ≡ false
      → parse_prologue p d unset s ≡ (
        record new_header { total_length = total_length; version = version },
        (get d w16 0 (get d w32 0 s).1).1,
      )
  unfolding parse_prologue
  prologue_unsupported total_length version s el ev odd = rw (el, ev, odd)

  table_unsupported :
      (sort : List Row → List Row) (fuel : ℕ) (h : LineHeader) (s t : Stream S)
      → parse_prologue p d unset s ≡ (h, t)
      → is_supported h.version ≡ false
      → parse_line_table p d unset sort fuel s
        ≡ some ((false, h, record start { rows = sort [] }), t)
  unfolding parse_line_table
  table_unsupported sort fuel h s t e odd =
      rw (ap (λ (o : LineHeader × Stream S). o.0) e, ap (λ (o : LineHeader × Stream S). o.1) e, odd)

  -- Where a length below 2^32 and a version that is not 2, 3 or 4 stand in a readable stream, `parse`
  -- of a line table returns false, whatever follows and however many rounds its loop may take: it keeps
  -- the length and the version alone, makes no rows but those that sorting none gives, and stops
  -- behind the version.
  pub parse_line_table_unsupported :
      (sort : List Row → List Row) (fuel total_length version : ℕ) (back : List ℕ) (s : Stream S)
      → total_length < 2 ^ 32
      → version < 2 ^ 16
      → (version < 2) ⊎ (4 < version)
      → IsOpen d r s
      → rest d r s ≡ image s.encoding w32 total_length ++ (image s.encoding w16 version ++ back)
      → (t : Stream S) × (parse_line_table p d unset sort fuel s
          ≡ some (
            (
              false,
              record new_header { total_length = total_length; version = version },
              record start { rows = sort [] },
            ),
            t,
          ))
        × (rest d r t ≡ back)
        × IsOpen d r t
  parse_line_table_unsupported sort fuel total_length version back s hl hv unknown v e =
      let one =
        get_next d r w32 total_length 0 s.encoding s (image s.encoding w16 version ++ back) hl refl
          v e in
      let s1 : Stream S = (get d w32 0 s).1 in
      let two =
        get_next d r w16 version 0 s.encoding s1 back hv one.order one.open_still one.behind in
      let s2 : Stream S = (get d w16 0 s1).1 in
      let odd = not_supported version unknown in
      let h : LineHeader = record new_header { total_length = total_length; version = version } in
      (
        s2,
        table_unsupported sort fuel h s s2
            (prologue_unsupported total_length version s one.value two.value odd) odd,
        two.behind,
        two.open_still,
      )
