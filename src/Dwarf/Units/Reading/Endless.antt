-- ===== src/Dwarf/Units/Reading/Endless.antt =====
-- The loop of `CDWARFCompileUnit::parse` at the end of its stream.
use mach_olib.Common.{
  ℕ, zero, suc, ◌+◌, ◌-◌, ◌%◌, ◌^◌, ◌<◌, ◌≡◌, refl, ap, ◌∙◌, arith, ltb, lt→ltb, ◌==◌, true, false,
  Bool, false, Option, none, List, [], ◌++◌, length,
}
use mach_olib.Io.Platform.{Platform}
use mach_olib.Io.Stream.{Device, Stream, Encoding, Width, w8, w16, w32, position, size}
use mach_olib.Io.Stream.Laws.{IsReader, rest, IsOpen, size-rest}
use mach_olib.Io.Stream.Images.{image}
use mach_olib.Io.Leb.Onward.{read_uleb128_end}
use mach_olib.Dwarf.Abbreviations.{Table}
use mach_olib.Dwarf.Entries.{DebugInfoEntry, failing, new_entry, enter, choose_declared, parse_if}
use mach_olib.Dwarf.Units.{Node, CompileUnit, layout_of}
use mach_olib.Dwarf.Units.Reading.{extract, read_entries}

module _ (p : Platform) {T : Type 0} (debug_str : Device T) {S : Type 0} (d : Device S)
    (r : IsReader d) (unset : Width → ℕ) where
  -- Nothing is left to read, so no entry is read and the stream stays where it is.
  enter_end :
      (table : Table) (u : CompileUnit) (e : DebugInfoEntry) (s : Stream S)
      → IsOpen d r s
      → rest d r s ≡ []
      → enter p d (layout_of u) unset table e s ≡ ((failing, e), s)
  unfolding enter
  enter_end table u e s v at_end =
      let nothing = read_uleb128_end p d r s v at_end in
      rw (
        ap (λ (o : (ℕ × ℕ) × Stream S). o.0.0) nothing,
        ap (λ (o : (ℕ × ℕ) × Stream S). o.1) nothing,
      )

  parse_if_end :
      (table : Table) (u : CompileUnit) (delegate : ℕ → Bool) (e : DebugInfoEntry) (s : Stream S)
      → IsOpen d r s
      → rest d r s ≡ []
      → parse_if p d (layout_of u) unset delegate table e s ≡ ((false, e), s)
  unfolding parse_if choose_declared
  parse_if_end table u delegate e s v at_end =
      ap (choose_declared p d (layout_of u) unset delegate) (enter_end table u e s v at_end)

  extract_end :
      (table : Table) (u : CompileUnit) (strings : Stream T) (s : Stream S)
      → IsOpen d r s
      → rest d r s ≡ []
      → extract p debug_str d unset table u strings s ≡ ((none, u), strings, s)
  unfolding extract
  extract_end table u strings s v at_end =
      let nothing = parse_if_end table u (λ tag. tag == 0x11) new_entry s v at_end in
      rw (
        ap (λ (o : (Bool × DebugInfoEntry) × Stream S). o.0.0) nothing,
        ap (λ (o : (Bool × DebugInfoEntry) × Stream S). o.1) nothing,
      )

  -- A round of the loop that reads no entry.
  round_end :
      (fuel : ℕ) (table : Table) (end depth : ℕ) (u : CompileUnit) (strings : Stream T)
      (s : Stream S)
      → ltb (position d s) end ≡ true
      → extract p debug_str d unset table u strings s ≡ ((none, u), strings, s)
      → read_entries p debug_str d unset (suc fuel) table end depth u strings s
        ≡ read_entries p debug_str d unset fuel table end
            ((depth + (2 ^ 32 - 1)) % 2 ^ 32)
            u
            strings
            s
  unfolding read_entries
  round_end fuel table end depth u strings s inside nothing = rw (
    inside,
    ap (λ (o : (Option Node × CompileUnit) × Stream T × Stream S). o.0.0) nothing,
    ap (λ (o : (Option Node × CompileUnit) × Stream T × Stream S). o.0.1) nothing,
    ap (λ (o : (Option Node × CompileUnit) × Stream T × Stream S). o.1) nothing,
    ap (λ (o : (Option Node × CompileUnit) × Stream T × Stream S). o.2) nothing,
  )

  -- Where a readable stream stands at its end and the unit ends behind it, no number of rounds
  -- suffices for the loop of `parse`.
  pub read_entries_endless :
      (fuel : ℕ) (table : Table) (end depth : ℕ) (u : CompileUnit) (strings : Stream T)
      (s : Stream S)
      → IsOpen d r s
      → rest d r s ≡ []
      → size d s < end
      → read_entries p debug_str d unset fuel table end depth u strings s ≡ none
  read_entries_endless zero table end depth u strings s v e h = unfold read_entries in refl
  read_entries_endless (suc fuel) table end depth u strings s v e h =
      let inside : ltb (position d s) end ≡ true =
        lt→ltb (position d s) end (omega (arith, size-rest d r s v, ap length e)) in
      round_end fuel table end depth u strings s inside (extract_end table u strings s v e)
      ∙ read_entries_endless fuel table end ((depth + (2 ^ 32 - 1)) % 2 ^ 32) u strings s v e h

  -- A header of a 32-bit unit, in the byte order `e`.
  abbrev pub header_image : Encoding → ℕ → ℕ → ℕ → ℕ → List ℕ
  header_image e length32 version abbr_offset addr_size =
      image e w32 length32
      ++ (image e w16 version ++ (image e w32 abbr_offset ++ (image e w8 addr_size ++ [])))
