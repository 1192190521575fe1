-- ===== src/Dwarf/Abbreviations.antt =====
-- dwarf/CDWARFAbbreviationTable.h and dwarf/CDWARFAbbreviationTable.cpp: the declarations that say which
-- attributes an entry has. Tags and attributes are the numbers of their enumerations; the `std::map`
-- of the table is a list of its pairs with different codes, in the order of their insertion.
pub mod Images
pub mod Parsing
pub mod Lookup
use mach_olib.Common.{
  ℕ, zero, suc, ◌+◌, ◌%◌, ◌^◌, ◌==◌, ltb, if◌then◌else◌, ◌&&◌, not, Bool, true, false, Option, none,
  some, List, [], ◌∷◌, ◌++◌,
}
use mach_olib.Io.Platform.{Platform}
use mach_olib.Io.Stream.{Device, Stream, Action, w8, size, position, t_read}
use mach_olib.Io.Leb.{read_uleb128}
use mach_olib.Dwarf.Forms.{Form, form_of}

-- `CDWARFAttribute`
pub record Attribute : Type 0 where
  pub attribute : ℕ
  pub form : Form

-- `CDWARFAbbreviationDeclaration`
pub record Declaration : Type 0 where
  pub code : ℕ
  pub tag : ℕ
  pub has_children : ℕ
  pub attributes : List Attribute

abbrev pub blank : Declaration
blank = record { code = 0; tag = 0; has_children = 0; attributes = [] }

-- `CDWARFAttribute(t_uint16 attr, t_uint16 form)`
unfoldable pub attribute_of : ℕ → ℕ → Attribute
unfolding form_of
attribute_of attr form = record { attribute = attr; form = form_of form }

-- `hasChildren()`
unfoldable pub has_children_of : Declaration → Bool
has_children_of decl = decl.has_children == 1

abbrev pub Table : Type 0
Table = List (ℕ × Declaration)

-- `m_map.find`
unfoldable pub find : ℕ → Table → Option Declaration
find code [] = none
find code ((k, decl) ∷ table) =
    let later = find code table in if k == code then some decl else later

-- `m_map.insert`, which leaves a pair with the same code as it is
unfoldable pub insert : ℕ → Declaration → Table → Table
unfolding find
insert code decl table = elim (find code table) [
  | some _ ↦ table
  | none ↦ table ++ ((code, decl) ∷ [])
]

-- `getDeclaration`, without its trace
unfoldable pub get_declaration : ℕ → Table → Option Declaration
unfolding find
get_declaration code table = find code table

module _ (p : Platform) {S : Type 0} (d : Device S) where
  -- `while(stream->position() < stream->size())` of `CDWARFAbbreviationDeclaration::parse`: a round
  -- takes a byte at least.
  unfoldable pub read_attributes : ℕ → List Attribute → Action S (List Attribute)
  unfolding attribute_of
  read_attributes zero attributes s = (attributes, s)
  read_attributes (suc fuel) attributes s =
      let ((_, temp), s') = read_uleb128 p d s in
      let attr = temp % 2 ^ 16 in
      let ((_, temp'), s'') = read_uleb128 p d s' in
      let form = temp' % 2 ^ 16 in
      let more = read_attributes fuel (attributes ++ (attribute_of attr form ∷ [])) s'' in
      if ltb (position d s) (size d s)
      then (if not (attr == 0) && not (form == 0) then more else (attributes, s''))
      else (attributes, s)

  -- From the tag on.
  unfoldable pub parse_rest : Declaration → Action S (Bool × Declaration)
  unfolding read_attributes
  parse_rest decl s =
      let ((n, temp), s1) = read_uleb128 p d s in
      let tag = temp % 2 ^ 32 in
      let tagged : Declaration = record decl { tag = tag } in
      let ((count, children), s2) = t_read d w8 decl.has_children s1 in
      let (attributes, s3) = read_attributes (size d s2) decl.attributes s2 in
      let whole : Declaration = record tagged {
        has_children = children;
        attributes = attributes;
      } in
      if ltb 0 n
      then (if ltb 0 count
          then ((not (tag == 0), whole), s3)
          else ((not (tag == 0), record tagged { has_children = children }), s2))
      else ((false, decl), s1)

  -- `CDWARFAbbreviationDeclaration::parse`
  unfoldable pub parse_declaration : Declaration → Action S (Bool × Declaration)
  unfolding parse_rest
  parse_declaration decl s =
      let ((n, temp), s') = read_uleb128 p d s in
      let code = temp % 2 ^ 32 in
      let numbered : Declaration = record decl { code = code } in
      let parsed = parse_rest numbered s' in
      if ltb 0 n
      then (if code == 0
          then ((false, record numbered { tag = 0; has_children = 0 }), s')
          else parsed)
      else ((false, decl), s')

  -- `CDWARFAbbreviationTable::parse`. `ret_code` and `m_map` are what it keeps between the rounds; a
  -- round takes a byte at least.
  unfoldable pub parse_declarations : ℕ → Bool × Table → Action S (Bool × Table)
  unfolding parse_declaration insert
  parse_declarations zero (ret_code, table) s = ((ret_code, table), s)
  parse_declarations (suc fuel) (ret_code, table) s =
      let ((good, abbr), s') = parse_declaration blank s in
      let more = parse_declarations fuel (true, insert abbr.code abbr table) s' in
      if ltb (position d s) (size d s)
      then (if good then more else ((false, table), s'))
      else ((ret_code, table), s)

  unfoldable pub parse_table : Table → Action S (Bool × Table)
  unfolding parse_declarations
  parse_table table s = parse_declarations (size d s) (true, table) s
