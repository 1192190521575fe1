-- ===== src/Dwarf/Entries/Getters.antt =====
-- The getters of dwarf/CDWARFDebugInfoEntry.cpp. `range_resolver` is the function object that finds a
-- set of ranges; it changes its table, which is part of its state.
use mach_olib.Common.{
  ℕ, ◌+◌, ◌-◌, ◌%◌, ◌^◌, ◌==◌, ltb, leb, if◌then◌else◌, Bool, true, false, ◌&&◌, ◌||◌, Option, none,
  some, List, [], ◌∷◌,
}
use mach_olib.Io.Platform.{Platform}
use mach_olib.Io.Stream.{Device, Action, Stream}
use mach_olib.Dwarf.Forms.{class_constant, class_address, form_class}
use mach_olib.Dwarf.FormValue.{FormValue, as_uint64, as_string}
use mach_olib.Dwarf.Ranges.{RangeSet, any_contains, extract_range_set_by}
use mach_olib.Dwarf.Entries.{DebugInfoEntry}

-- `kINVALID_ADDRESS`
abbrev pub invalid_address : ℕ
invalid_address = 2 ^ 64 - 1

unfoldable pub is_null : DebugInfoEntry → Bool
is_null e = e.abbr_idx == 0

unfoldable pub is_empty : DebugInfoEntry → Bool
is_empty e = elim (e.values) [ [] ↦ true | _ ∷ _ ↦ false ]

-- `DW_TAG_compile_unit`
unfoldable pub is_compile_unit : DebugInfoEntry → Bool
is_compile_unit e = e.tag == 0x11

unfoldable pub first_value : ℕ → List (ℕ × FormValue) → Option FormValue
first_value attr [] = none
first_value attr ((at, value) ∷ values) =
    let later = first_value attr values in if at == attr then some value else later

unfoldable pub get_form_by : ℕ → DebugInfoEntry → Option FormValue
unfolding first_value
get_form_by attr e = first_value attr e.values

module _ (p : Platform) where
  -- `form?(form->asUInt64()):default_`
  unfoldable pub number_or : ℕ → ℕ → DebugInfoEntry → ℕ
  unfolding get_form_by
  number_or attr default e = elim (get_form_by attr e) [
    | some form ↦ as_uint64 p form
    | none ↦ default
  ]

  unfoldable pub get_low_pc : ℕ → DebugInfoEntry → ℕ
  unfolding number_or
  get_low_pc default e = number_or 0x11 default e

  unfoldable pub get_high_pc : ℕ → ℕ → DebugInfoEntry → ℕ
  unfolding get_low_pc get_form_by
  get_high_pc dwarf_version default e = elim (get_form_by 0x12 e) [
    | none ↦ default
    | some form ↦
        let low = get_low_pc invalid_address e in
        let by_class : ℕ = elim (form_class form.form) [
          | class_constant ↦
              if low == invalid_address then default else (low + as_uint64 p form) % 2 ^ 64
          | class_address ↦ as_uint64 p form
          | _ ↦ default
        ] in
        if leb 4 dwarf_version then by_class else as_uint64 p form
  ]

  unfoldable pub get_enter_pc : ℕ → DebugInfoEntry → ℕ
  unfolding number_or
  get_enter_pc default e = number_or 0x52 default e

  unfoldable pub get_call_line : ℕ → DebugInfoEntry → ℕ
  unfolding number_or
  get_call_line default e = number_or 0x59 default e

  unfoldable pub get_call_file : ℕ → DebugInfoEntry → ℕ
  unfolding number_or
  get_call_file default e = number_or 0x58 default e

  unfoldable pub get_decl_line : ℕ → DebugInfoEntry → ℕ
  unfolding number_or
  get_decl_line default e = number_or 0x3b default e

  unfoldable pub get_decl_file : ℕ → DebugInfoEntry → ℕ
  unfolding number_or
  get_decl_file default e = number_or 0x3a default e

  unfoldable pub get_object_pointer : ℕ → DebugInfoEntry → ℕ
  unfolding number_or
  get_object_pointer default e = number_or 0x64 default e

  unfoldable pub get_specification : ℕ → DebugInfoEntry → ℕ
  unfolding number_or
  get_specification default e = number_or 0x47 default e

  unfoldable pub get_abstract_origin : ℕ → DebugInfoEntry → ℕ
  unfolding number_or
  get_abstract_origin default e = number_or 0x31 default e

  unfoldable pub get_stmt_list : ℕ → DebugInfoEntry → ℕ
  unfolding number_or
  get_stmt_list default e = number_or 0x10 default e

  unfoldable pub get_type : ℕ → DebugInfoEntry → ℕ
  unfolding number_or
  get_type default e = number_or 0x49 default e

  unfoldable pub get_range : ℕ → DebugInfoEntry → ℕ
  unfolding number_or
  get_range default e = number_or 0x55 default e

  unfoldable pub get_name_ptr : ℕ → DebugInfoEntry → ℕ
  unfolding number_or
  get_name_ptr default e = number_or 0x03 default e

  unfoldable pub get_mips_linkage_name_ptr : ℕ → DebugInfoEntry → ℕ
  unfolding number_or
  get_mips_linkage_name_ptr default e = number_or 0x2007 default e

  unfoldable pub get_encoding : ℕ → DebugInfoEntry → ℕ
  unfolding number_or
  get_encoding default e = number_or 0x3e default e

  unfoldable pub is_artificial : DebugInfoEntry → Bool
  unfolding get_form_by
  is_artificial e = elim (get_form_by 0x34 e) [ some form ↦ as_uint64 p form == 1 | none ↦ false ]

  -- The string of an attribute, as `getName` and its fellows give it.
  unfoldable pub string_of : {T : Type 0} → Device T → ℕ → DebugInfoEntry → Action T (List ℕ)
  unfolding get_form_by
  string_of debug_str attr e s = elim (get_form_by attr e) [
    | some form ↦ as_string p debug_str form s
    | none ↦ ([], s)
  ]

  unfoldable pub get_name : {T : Type 0} → Device T → DebugInfoEntry → Action T (List ℕ)
  unfolding string_of
  get_name debug_str e s = string_of debug_str 0x03 e s

  unfoldable pub get_mips_linkage_name :
      {T : Type 0} → Device T → DebugInfoEntry → Action T (List ℕ)
  unfolding string_of
  get_mips_linkage_name debug_str e s = string_of debug_str 0x2007 e s

  unfoldable pub get_compile_directory :
      {T : Type 0} → Device T → DebugInfoEntry → Action T (List ℕ)
  unfolding string_of
  get_compile_directory debug_str e s = string_of debug_str 0x1b e s

  unfoldable pub is_in_range :
      {R : Type 0} → (ℕ → R → Option RangeSet × R) → ℕ → ℕ → ℕ → DebugInfoEntry → R → Bool × R
  unfolding get_high_pc get_low_pc get_range get_form_by
  is_in_range range_resolver addr base_address_of_cu dwarf_version e ranges =
      let hipc = get_high_pc dwarf_version invalid_address e in
      let lopc = get_low_pc invalid_address e in
      let (set, ranges') = range_resolver (get_range invalid_address e) ranges in
      let in_set : Bool = elim set [
        | none ↦ false
        | some set ↦ any_contains base_address_of_cu addr set.collection
      ] in
      if hipc == invalid_address || lopc == invalid_address
      then elim (get_form_by 0x55 e) [ none ↦ (false, ranges) | some _ ↦ (in_set, ranges') ]
      else (leb lopc addr && ltb addr hipc, ranges)

-- `CDWARFRangeResolver::operator()`, with a table and a stream or without them.
unfoldable pub resolve :
    {S : Type 0}
    → Device S
    → ℕ
    → ℕ
    → Option (List RangeSet × Stream S)
    → Option RangeSet × Option (List RangeSet × Stream S)
resolve d address_byte_size offset none = (none, none)
resolve d address_byte_size offset (some (table, s)) =
    let (set, table', s') = extract_range_set_by d address_byte_size offset table s in
    (set, some (table', s'))
