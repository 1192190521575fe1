-- ===== src/Dwarf/FormValue.antt =====
-- dwarf/CDWARFFormValue.h and dwarf/CDWARFFormValue.cpp: a value and how `parse` reads it. `m_storage`
-- is a word, which `uval()` and `sval()` share, or the string that `cstr()` gives. The locals of `parse`
-- that the switch sets are the fields of `Flags`. A vector for a block is as large as it is asked for.
pub mod Skip
pub mod Onward
pub mod Tagged
pub mod Agreement
pub mod Skipping
pub mod Fuel
pub mod Images
use mach_olib.Common.{
  ℕ, zero, suc, ◌+◌, ◌==◌, leb, ltb, if◌then◌else◌, ◌&&◌, Bool, true, false, List, [], ◌∷◌,
}
use mach_olib.Io.Platform.{Platform}
use mach_olib.Io.Stream.{
  Device, Stream, Action, Width, w8, w16, w32, w64, size, position, seek, read, get, pure, ◌>>=◌,
}
use mach_olib.Io.Substream.{add64}
use mach_olib.Io.Leb.{read_uleb128, read_sleb128}
use mach_olib.Io.Text.{read_sz}
use mach_olib.Dwarf.Forms.{
  Form, invalid, addr, block2, block4, data2, data4, data8, string, block, block1, data1, flag,
  sdata, strp, udata, ref_addr, ref1, ref2, ref4, ref8, ref_udata, indirect, sec_offset, exprloc,
  flag_present, ref_sig8, other, form_of, ValueType, type_invalid, type_unsigned, type_signed,
  type_cstr, type_block, type_of,
}

pub data Storage : Type 0 where
  word : ℕ → Storage
  text : List ℕ → Storage

pub record FormValue : Type 0 where
  pub form : Form
  pub storage : Storage

-- What `install` leaves in the union, and the type it returns.
unfoldable pub install : ValueType → Storage → Storage × ValueType
install type_signed _ = (word 0, type_signed)
install type_unsigned _ = (word 0, type_unsigned)
install type_cstr _ = (text [], type_cstr)
install type_block _ = (word 0, type_block)
install type_invalid s = (s, type_invalid)

-- `m_type != DW_FORM_Invalid`
unfoldable pub is_form : Form → Bool
is_form form = elim form [ invalid ↦ false | _ ↦ true ]

-- `CDWARFFormValue(DW_FORM form)`
unfoldable pub of_form : Form → FormValue
unfolding type_of install
of_form form = record { form = form; storage = (install (type_of form) (word 0)).0 }

-- The number of bytes of addresses, the format and the version of the unit, as `parse` and `Skip` take
-- them.
pub record Layout : Type 0 where
  pub addr_size : ℕ
  pub dwarf_format : ℕ
  pub dwarf_version : ℕ

pub record Flags : Type 0 where
  pub is_indirect : Bool
  pub is_block : Bool
  pub ret : Bool

abbrev pub plain : Flags
plain = record { is_indirect = false; is_block = false; ret = true }

abbrev pub sized : Flags
sized = record { is_indirect = false; is_block = true; ret = true }

abbrev pub again : Flags
again = record { is_indirect = true; is_block = false; ret = true }

abbrev pub failed : Flags
failed = record { is_indirect = false; is_block = false; ret = false }

-- `cstr() = val` takes the bytes before the first zero.
unfoldable pub c_string : List ℕ → List ℕ
c_string [] = []
c_string (b ∷ bytes) = let more = c_string bytes in if b == 0 then [] else b ∷ more

module _ (p : Platform) where
  -- The eight bytes at the beginning of the union.
  unfoldable pub as_uint64 : FormValue → ℕ
  as_uint64 v = elim (v.storage) [ word uval ↦ uval | text str ↦ p.string_word str ]

  -- What the destructor of a string leaves is not used as a string.
  unfoldable pub uninstall : FormValue → Storage
  unfolding type_of as_uint64
  uninstall v = elim (type_of v.form) [
    | type_invalid ↦ v.storage
    | type_cstr ↦ word (as_uint64 v)
    | _ ↦ word 0
  ]

  -- `cstr()`, which takes the union for a string
  unfoldable pub cstr : FormValue → List ℕ
  cstr v = elim (v.storage) [ text str ↦ str | word uval ↦ p.string_at_word uval ]

  -- `cstr() = str` gives the string in the union another text; it makes no string of a word.
  unfoldable pub assign_cstr : List ℕ → Storage → Storage
  assign_cstr str (text _) = text str
  assign_cstr str (word uval) = word uval

  -- `copy(other)` into this object's union, for its `type()`
  unfoldable pub copy : ValueType → FormValue → Storage → Storage
  unfolding as_uint64 cstr assign_cstr
  copy type_signed other_value storage = word (as_uint64 other_value)
  copy type_unsigned other_value storage = word (as_uint64 other_value)
  copy type_cstr other_value storage = assign_cstr (cstr other_value) storage
  copy type_block other_value storage = word (as_uint64 other_value)
  copy type_invalid other_value storage = storage

  -- `install(t)`, and `copy` of the other object where it did not fail; the type that `install` returned.
  unfoldable pub install_copy : ValueType → FormValue → Storage → Storage × ValueType
  unfolding install copy
  install_copy t other_value storage =
      let (fresh, returned) = install t storage in
      let filled : Storage = elim returned [
        | type_invalid ↦ fresh
        | _ ↦ copy t other_value fresh
      ] in
      (filled, returned)

  -- The copy constructor. `type()` is that of the other object's form.
  unfoldable pub copied : FormValue → FormValue
  unfolding type_of install_copy is_form
  copied other_value = record {
    form = other_value.form;
    storage =
        if is_form other_value.form
        then (install_copy (type_of other_value.form) other_value (word 0)).0
        else word 0;
  }

  -- The assignment of another object.
  unfoldable pub assign : FormValue → FormValue → FormValue
  unfolding type_of uninstall install_copy
  assign other_value v =
      let form = other_value.form in
      let cleared = uninstall v in
      let (storage, returned) = install_copy (type_of form) other_value cleared in
      elim (type_of form) [
        | type_invalid ↦ record { form = invalid; storage = cleared }
        | _ ↦ elim returned [
          | type_invalid ↦ record { form = invalid; storage = storage }
          | _ ↦ record { form = form; storage = storage }
        ]
      ]

module _ (p : Platform) {S : Type 0} (d : Device S) (c : Layout) where
  -- One integer of the given type, assigned to `m_storage.un.uval`.
  unfoldable pub parse_word : Width → Flags → Form → Action S (Flags × FormValue)
  parse_word w flags form = do
    val ← get d w 0
    pure (flags, record { form = form; storage = word val })

  unfoldable pub parse_uleb : Flags → Form → Action S (Flags × FormValue)
  parse_uleb flags form = do
    (_, uval) ← read_uleb128 p d
    pure (flags, record { form = form; storage = word uval })

  abbrev pub address_width : ℕ → Width
  address_width n = if n == 4 then w32 else w64

  -- The width that `DW_FORM_ref_addr` has.
  abbrev pub reference_width : Width
  reference_width =
      if ltb 2 c.dwarf_version
      then (if c.dwarf_format == 32 then w32 else w64)
      else address_width c.addr_size

  -- The switch of `parse`, on `m_type`. The bound of `read_sz` is `sizeof(8192) - 1`.
  unfoldable pub parse_form : Form → FormValue → Action S (Flags × FormValue)
  unfolding parse_word parse_uleb form_of type_of install uninstall c_string
  parse_form addr v = parse_word (address_width c.addr_size) plain addr
  parse_form block2 v = parse_word w16 sized block2
  parse_form block4 v = parse_word w32 sized block4
  parse_form data2 v = parse_word w16 plain data2
  parse_form data4 v = parse_word w32 plain data4
  parse_form data8 v = parse_word w64 plain data8
  parse_form string v = do
    val ← read_sz d 3
    pure (plain, record { form = string; storage = text (c_string val) })
  parse_form exprloc v = parse_uleb sized exprloc
  parse_form block v = parse_uleb sized block
  parse_form block1 v = parse_word w8 sized block1
  parse_form data1 v = parse_word w8 plain data1
  parse_form flag v = parse_word w8 plain flag
  parse_form sdata v = do
    (_, sval) ← read_sleb128 p d
    pure (plain, record { form = sdata; storage = word sval })
  parse_form strp v = parse_word w32 plain strp
  parse_form udata v = parse_uleb plain udata
  parse_form ref_addr v = parse_word reference_width plain ref_addr
  parse_form ref1 v = parse_word w8 plain ref1
  parse_form ref2 v = parse_word w16 plain ref2
  parse_form ref4 v = parse_word w32 plain ref4
  parse_form ref8 v = parse_word w64 plain ref8
  parse_form ref_udata v = parse_uleb plain ref_udata
  parse_form indirect v = do
    (_, f) ← read_uleb128 p d
    let storage = (install (type_of (form_of f)) (uninstall p v)).0
    pure (again, record { form = form_of f; storage = storage })
  parse_form sec_offset v = parse_word w32 plain sec_offset
  parse_form flag_present v = pure (plain, record { form = flag_present; storage = word 1 })
  parse_form ref_sig8 v = parse_word w64 plain ref_sig8
  parse_form invalid v = pure (failed, v)
  parse_form (other n) v = pure (failed, v)

  -- `do { … } while (indirect && ret)`. An indirect form takes a byte, or reads form 0 at the end.
  unfoldable pub parse_loop : ℕ → FormValue → Action S (Flags × FormValue)
  unfolding parse_form
  parse_loop zero v s = ((failed, v), s)
  parse_loop (suc fuel) v s =
      let ((flags, v'), s') = parse_form v.form v s in
      let more = parse_loop fuel v' s' in
      if flags.is_indirect && flags.ret then more else ((flags, v'), s')

  -- The bytes of a block, behind its size, where they are there.
  unfoldable pub parse_block : Flags × FormValue → Action S (Bool × FormValue)
  unfolding as_uint64
  parse_block (flags, v) s =
      let uval = as_uint64 p v in
      let (_, s') = read d uval s in
      if flags.is_block && flags.ret
      then (if leb (add64 (position d s) uval) (size d s)
          then (if uval == 0 then ((true, v), s) else ((true, v), s'))
          else ((false, v), s))
      else ((flags.ret, v), s)

  unfoldable pub parse : FormValue → Action S (Bool × FormValue)
  unfolding parse_loop parse_block
  parse v s = let (out, s') = parse_loop (size d s + 2) v s in parse_block out s'

-- `asString`: the string of the value, or the one that its number finds in `debug_str`. The bytes of
-- `buffer` behind those that were read are zero; where `read_sz` filled it without one, the program looks on behind it, and the model does not.
unfoldable pub as_string : {T : Type 0} → Platform → Device T → FormValue → Action T (List ℕ)
unfolding as_uint64 c_string cstr
as_string p debug_str v s = elim (v.form) [
  | strp ↦
      let (_, s') = seek debug_str (as_uint64 p v) s in
      let (buffer, s'') = read_sz debug_str 8192 s' in (c_string buffer, s'')
  | string ↦ (cstr p v, s)
  | _ ↦ ([], s)
]
