-- ===== src/Dwarf/Entries.antt =====
-- dwarf/CDWARFDebugInfoEntry.h and dwarf/CDWARFDebugInfoEntry.cpp: an entry of the debugging
-- information, and how it is read with the declaration that its code names. What the functions take
-- from the unit is its `Layout`; attributes and tags are the numbers of their enumerations.
pub mod Getters
use mach_olib.Common.{
  ℕ, ◌+◌, ◌%◌, ◌^◌, ◌==◌, ltb, if◌then◌else◌, Bool, true, false, Option, none, some, List, [], ◌∷◌,
  ◌++◌,
}
use mach_olib.Io.Platform.{Platform}
use mach_olib.Io.Stream.{Device, Stream, Action, Width}
use mach_olib.Io.Leb.{read_uleb128}
use mach_olib.Dwarf.FormValue.{FormValue, Layout, of_form, parse}
use mach_olib.Dwarf.FormValue.Skip.{skip}
use mach_olib.Dwarf.Abbreviations.{Attribute, Declaration, Table, get_declaration, has_children_of}

pub record DebugInfoEntry : Type 0 where
  pub tag : ℕ
  pub values : List (ℕ × FormValue)
  pub abbr_idx : ℕ
  pub has_child : Bool

-- `CDWARFDebugInfoEntry::CDWARFDebugInfoEntry`
abbrev pub new_entry : DebugInfoEntry
new_entry = record { tag = 0; values = []; abbr_idx = 0; has_child = false }

-- What the code of an entry led to.
pub data Entered : Type 0 where
  failing : Entered
  unknown_code : Entered
  declared : Declaration → Entered

-- `m_values.clear()`, and the tag and the children of the declaration
unfoldable pub with_declaration : Declaration → DebugInfoEntry → DebugInfoEntry
unfolding has_children_of
with_declaration decl e = record e { values = []; tag = decl.tag; has_child = has_children_of decl }

module _ (p : Platform) {S : Type 0} (d : Device S) (c : Layout) (unset : Width → ℕ) where
  -- The beginning that `parse_all`, `parse` and `parse_if` share, up to the test of `decl`.
  unfoldable pub enter : Table → DebugInfoEntry → Action S (Entered × DebugInfoEntry)
  unfolding with_declaration get_declaration
  enter table e s =
      let ((n, abbr_idx), s') = read_uleb128 p d s in
      let coded : DebugInfoEntry = record e { abbr_idx = abbr_idx } in
      let looked_up : Entered × DebugInfoEntry = elim (get_declaration (abbr_idx % 2 ^ 32) table) [
        | none ↦ (unknown_code, coded)
        | some decl ↦ (declared decl, with_declaration decl coded)
      ] in
      if ltb 0 n
      then (if ltb 0 abbr_idx then (looked_up, s') else ((failing, coded), s'))
      else ((failing, e), s')

  -- `for(t_uint32 i = 0; i < count && ret_code; ++i)` with `parse`
  unfoldable pub parse_values :
      List Attribute → List (ℕ × FormValue) → Action S (Bool × List (ℕ × FormValue))
  parse_values [] values s = ((true, values), s)
  parse_values (attr ∷ attributes) values s =
      let ((good, value), s') = parse p d c (of_form attr.form) s in
      let values' = values ++ ((attr.attribute, value) ∷ []) in
      let more = parse_values attributes values' s' in if good then more else ((false, values'), s')

  -- The same with `Skip`, whose result ends the loop in `parse_if`.
  unfoldable pub skip_values : List Attribute → Action S Bool
  skip_values [] s = (true, s)
  skip_values (attr ∷ attributes) s =
      let (good, s') = skip p d c unset attr.form s in
      let more = skip_values attributes s' in if good then more else (false, s')

  -- In `parse` it does not.
  unfoldable pub skip_all : List Attribute → Stream S → Stream S
  skip_all [] s = s
  skip_all (attr ∷ attributes) s = skip_all attributes (skip p d c unset attr.form s).1

  -- What `parse_all`, `parse` and `parse_if` do behind the beginning.
  unfoldable pub parse_declared :
      (Entered × DebugInfoEntry) × Stream S → (Bool × DebugInfoEntry) × Stream S
  parse_declared ((failing, e), s) = ((false, e), s)
  parse_declared ((unknown_code, e), s) = ((true, e), s)
  parse_declared ((declared decl, e), s) =
      let ((good, values), s') = parse_values decl.attributes [] s in
      ((good, record e { values = values }), s')

  unfoldable pub skip_declared :
      (Entered × DebugInfoEntry) × Stream S → (Bool × DebugInfoEntry) × Stream S
  skip_declared ((failing, e), s) = ((false, e), s)
  skip_declared ((unknown_code, e), s) = ((true, e), s)
  skip_declared ((declared decl, e), s) = ((true, e), skip_all decl.attributes s)

  unfoldable pub choose_declared :
      (ℕ → Bool) → (Entered × DebugInfoEntry) × Stream S → (Bool × DebugInfoEntry) × Stream S
  choose_declared delegate ((failing, e), s) = ((false, e), s)
  choose_declared delegate ((unknown_code, e), s) = ((true, e), s)
  choose_declared delegate ((declared decl, e), s) =
      let ((good, values), s') = parse_values decl.attributes [] s in
      let (skipped, t) = skip_values decl.attributes s in
      if delegate decl.tag then ((good, record e { values = values }), s') else ((skipped, e), t)

  unfoldable pub parse_all : Table → DebugInfoEntry → Action S (Bool × DebugInfoEntry)
  parse_all table e s = parse_declared (enter table e s)

  -- `parse`, which reads the tag only
  unfoldable pub parse_tag : Table → DebugInfoEntry → Action S (Bool × DebugInfoEntry)
  parse_tag table e s = skip_declared (enter table e s)

  unfoldable pub parse_if : (ℕ → Bool) → Table → DebugInfoEntry → Action S (Bool × DebugInfoEntry)
  parse_if delegate table e s = choose_declared delegate (enter table e s)
