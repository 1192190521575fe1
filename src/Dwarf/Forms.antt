-- ===== src/Dwarf/Forms.antt =====
-- dwarf/EDWARF.h and dwarf/CDWARFFormValue.cpp: the forms in which values stand in the debugging
-- information, and what is fixed for each of them.
use mach_olib.Common.{ℕ, ◌-◌, ◌%◌, ◌^◌, ◌==◌, if◌then◌else◌, List, [], ◌∷◌}

-- `enum DW_FORM`; a number that is none of its constants is `other`.
pub data Form : Type 0 where
  invalid addr block2 block4 data2 data4 data8 string block block1 data1 flag sdata strp : Form
  udata ref_addr ref1 ref2 ref4 ref8 ref_udata indirect sec_offset exprloc flag_present : Form
  ref_sig8 : Form
  other : ℕ → Form

abbrev form_codes : List (ℕ × Form)
form_codes =
    (0x00, invalid)
    ∷ (0x01, addr)
    ∷ (0x03, block2)
    ∷ (0x04, block4)
    ∷ (0x05, data2)
    ∷ (0x06, data4)
    ∷ (0x07, data8)
    ∷ (0x08, string)
    ∷ (0x09, block)
    ∷ (0x0a, block1)
    ∷ (0x0b, data1)
    ∷ (0x0c, flag)
    ∷ (0x0d, sdata)
    ∷ (0x0e, strp)
    ∷ (0x0f, udata)
    ∷ (0x10, ref_addr)
    ∷ (0x11, ref1)
    ∷ (0x12, ref2)
    ∷ (0x13, ref4)
    ∷ (0x14, ref8)
    ∷ (0x15, ref_udata)
    ∷ (0x16, indirect)
    ∷ (0x17, sec_offset)
    ∷ (0x18, exprloc)
    ∷ (0x19, flag_present)
    ∷ (0x20, ref_sig8)
    ∷ []

coded : List (ℕ × Form) → ℕ → Form
coded [] code = other code
coded ((c, form) ∷ codes) code = let later = coded codes code in if code == c then form else later

-- `static_cast<DW_FORM>`: the enumeration has 32 bits.
unfoldable pub form_of : ℕ → Form
unfolding coded
form_of code = coded form_codes (code % 2 ^ 32)

-- `CDWARFFormValue::eValueType`
pub data ValueType : Type 0 where
  type_invalid type_unsigned type_signed type_cstr type_block : ValueType

-- `CDWARFFormValue::eFormClass`
pub data FormClass : Type 0 where
  class_invalid class_address class_block class_constant class_exprloc class_flag : FormClass
  class_reference class_string : FormClass

-- `UnknownSize`, -1 in 32 bits
abbrev pub unknown_size : ℕ
unknown_size = 2 ^ 32 - 1

-- The type, and `*osize` afterwards.
unfoldable pub convert_form_to_type : Form → ℕ → ℕ → ValueType × ℕ
convert_form_to_type indirect addr_size osize = (type_invalid, unknown_size)
convert_form_to_type addr addr_size osize = (type_unsigned, addr_size)
convert_form_to_type data1 addr_size osize = (type_unsigned, 1)
convert_form_to_type data2 addr_size osize = (type_unsigned, 2)
convert_form_to_type data4 addr_size osize = (type_unsigned, 4)
convert_form_to_type data8 addr_size osize = (type_unsigned, 8)
convert_form_to_type flag addr_size osize = (type_unsigned, 1)
convert_form_to_type strp addr_size osize = (type_unsigned, 4)
convert_form_to_type udata addr_size osize = (type_unsigned, unknown_size)
convert_form_to_type ref_addr addr_size osize = (type_unsigned, addr_size)
convert_form_to_type ref1 addr_size osize = (type_unsigned, 1)
convert_form_to_type ref2 addr_size osize = (type_unsigned, 2)
convert_form_to_type ref4 addr_size osize = (type_unsigned, 4)
convert_form_to_type ref8 addr_size osize = (type_unsigned, 8)
convert_form_to_type ref_udata addr_size osize = (type_unsigned, unknown_size)
convert_form_to_type sec_offset addr_size osize = (type_unsigned, 4)
convert_form_to_type flag_present addr_size osize = (type_unsigned, 0)
convert_form_to_type ref_sig8 addr_size osize = (type_unsigned, 8)
convert_form_to_type sdata addr_size osize = (type_signed, unknown_size)
convert_form_to_type string addr_size osize = (type_cstr, unknown_size)
convert_form_to_type exprloc addr_size osize = (type_block, unknown_size)
convert_form_to_type block addr_size osize = (type_block, unknown_size)
convert_form_to_type block1 addr_size osize = (type_block, unknown_size)
convert_form_to_type block2 addr_size osize = (type_block, unknown_size)
convert_form_to_type block4 addr_size osize = (type_block, unknown_size)
convert_form_to_type _ addr_size osize = (type_invalid, osize)

-- `type()` for `m_type`, and what `parse` installs for a form that it has read
unfoldable pub type_of : Form → ValueType
unfolding convert_form_to_type
type_of form = (convert_form_to_type form unknown_size 0).0

-- `formClass()` for `m_type`
unfoldable pub form_class : Form → FormClass
form_class addr = class_address
form_class block2 = class_block
form_class block4 = class_block
form_class data2 = class_constant
form_class data4 = class_constant
form_class data8 = class_constant
form_class string = class_string
form_class block = class_block
form_class block1 = class_block
form_class data1 = class_constant
form_class flag = class_flag
form_class sdata = class_constant
form_class strp = class_string
form_class udata = class_constant
form_class ref_addr = class_reference
form_class ref1 = class_reference
form_class ref2 = class_reference
form_class ref4 = class_reference
form_class ref8 = class_reference
form_class ref_udata = class_reference
form_class exprloc = class_exprloc
form_class flag_present = class_flag
form_class ref_sig8 = class_reference
form_class _ = class_invalid
