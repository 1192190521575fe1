-- ===== src/Dwarf/FormValue/Tagged.antt =====
-- The union of dwarf/CDWARFFormValue.h: it holds a string where the form says so, and a word elsewhere.
use mach_olib.Common.{
  ℕ, zero, suc, ◌+◌, ◌==◌, leb, ◌≡◌, refl, sym, ap, ◌∙◌, ◌&&◌, Bool, true, false, Bool-cases, inl,
  inr,
}
use mach_olib.Io.Platform.{Platform}
use mach_olib.Io.Stream.{Device, Stream, size, position}
use mach_olib.Io.Substream.{add64}
use mach_olib.Dwarf.Forms.{
  Form, invalid, addr, block2, block4, data2, data4, data8, string, block, block1, data1, flag,
  sdata, strp, udata, ref_addr, ref1, ref2, ref4, ref8, ref_udata, indirect, sec_offset, exprloc,
  flag_present, ref_sig8, other, form_of, type_of, convert_form_to_type, ValueType, type_invalid,
  type_unsigned, type_signed, type_cstr, type_block,
}
use mach_olib.Io.Leb.{read_uleb128}
use mach_olib.Dwarf.FormValue.{
  Storage, word, text, FormValue, Flags, Layout, install, of_form, uninstall, is_form, install_copy,
  copied, assign, as_uint64, parse_word, parse_uleb, parse_form, parse_loop, parse_block, parse,
}

abbrev is_cstr : ValueType → Bool
is_cstr type_cstr = true
is_cstr _ = false

abbrev is_text : Storage → Bool
is_text (word _) = false
is_text (text _) = true

abbrev pub IsTagged : FormValue → Type 0
IsTagged v = is_text v.storage ≡ is_cstr (type_of v.form)

-- The values that the program makes: by the default constructor, for a form, by copies and
-- assignments, and by `parse` on any stream.
pub data Arises (p : Platform) : FormValue → Type 1 where
  default : Arises p (record { form = invalid; storage = word 0 })
  for_form : (form : Form) → Arises p (of_form form)
  copy_of : (v : FormValue) → Arises p v → Arises p (copied p v)
  assigned : (v w : FormValue) → Arises p v → Arises p w → Arises p (assign p v w)
  parsed :
      {S : Type 0} (d : Device S) (c : Layout) (v : FormValue) (s : Stream S)
      → Arises p v
      → Arises p (parse p d c v s).0.1

installed : (t : ValueType) (s : Storage) → is_text s ≡ false → is_text (install t s).0 ≡ is_cstr t
unfolding install
installed type_invalid s h = h
installed type_unsigned s h = refl
installed type_signed s h = refl
installed type_cstr s h = refl
installed type_block s h = refl

of_form-IsTagged : (form : Form) → IsTagged (of_form form)
unfolding of_form
of_form-IsTagged form = installed (type_of form) (word 0) refl

word_only :
    (v : FormValue) → is_cstr (type_of v.form) ≡ false → IsTagged v → is_text v.storage ≡ false
word_only v h tagged = tagged ∙ h

-- The form 0 does not stand for a string.
no_form : (form : Form) → is_cstr (type_of form) ≡ (is_form form && is_cstr (type_of form))
unfolding type_of convert_form_to_type is_form
no_form form = elim form as (λ f. is_cstr (type_of f) ≡ (is_form f && is_cstr (type_of f))) [
  | invalid ↦ refl
  | _ ↦ refl
]

-- A union without a string is installed for a type and takes what the other object holds.
install_copy-text :
    (p : Platform) (t : ValueType) (v : FormValue) (s : Storage)
    → is_text s ≡ false
    → (is_text (install_copy p t v s).0 ≡ is_cstr t) × ((install_copy p t v s).1 ≡ t)
unfolding install_copy
install_copy-text p type_invalid v s h = (h, refl)
install_copy-text p type_unsigned v s h = (refl, refl)
install_copy-text p type_signed v s h = (refl, refl)
install_copy-text p type_cstr v s h = (refl, refl)
install_copy-text p type_block v s h = (refl, refl)

copied-IsTagged : (p : Platform) (v : FormValue) → IsTagged (copied p v)
unfolding copied
copied-IsTagged p v = elim (Bool-cases (is_form v.form)) [
  | inl e ↦ rw e ((install_copy-text p (type_of v.form) v (word 0) refl).0)
  | inr e ↦ rw e (sym (no_form v.form ∙ ap (λ b. b && is_cstr (type_of v.form)) e))
]

uninstall-word : (p : Platform) (v : FormValue) → IsTagged v → is_text (uninstall p v) ≡ false
unfolding uninstall
uninstall-word p v h = by_type (type_of v.form) h
  where
    by_type :
        (t : ValueType)
        → is_text v.storage ≡ is_cstr t
        → is_text
            (elim t [ type_invalid ↦ v.storage | type_cstr ↦ word (as_uint64 p v) | _ ↦ word 0 ])
          ≡ false
    by_type type_invalid h = h
    by_type type_unsigned h = refl
    by_type type_signed h = refl
    by_type type_cstr h = refl
    by_type type_block h = refl

-- What a union without a string becomes by an assignment.
assigned-IsTagged :
    (p : Platform) (v : FormValue) (cleared : Storage) (t : ValueType)
    → is_text cleared ≡ false
    → type_of v.form ≡ t
    → let (storage, returned) = install_copy p t v cleared in
      IsTagged (elim t as (λ _. FormValue) [
        | type_invalid ↦ record { form = invalid; storage = cleared }
        | _ ↦ elim returned [
          | type_invalid ↦ record { form = invalid; storage = storage }
          | _ ↦ record { form = v.form; storage = storage }
        ]
      ])
unfolding install_copy
assigned-IsTagged p v cleared type_invalid h e = unfold type_of in unfold convert_form_to_type in h
assigned-IsTagged p v cleared type_unsigned h e = sym (ap is_cstr e)
assigned-IsTagged p v cleared type_signed h e = sym (ap is_cstr e)
assigned-IsTagged p v cleared type_cstr h e = sym (ap is_cstr e)
assigned-IsTagged p v cleared type_block h e = sym (ap is_cstr e)

assign-IsTagged : (p : Platform) (v w : FormValue) → IsTagged w → IsTagged (assign p v w)
unfolding assign
assign-IsTagged p v w h =
    assigned-IsTagged p v (uninstall p w) (type_of v.form) (uninstall-word p w h) refl

module _ (p : Platform) {S : Type 0} (d : Device S) (c : Layout) where
  parse_form-IsTagged :
      (form : Form) (v : FormValue) (s : Stream S)
      → v.form ≡ form
      → IsTagged v
      → IsTagged (parse_form p d c form v s).0.1
  unfolding parse_form parse_word parse_uleb type_of convert_form_to_type
  parse_form-IsTagged addr v s e h = refl
  parse_form-IsTagged block2 v s e h = refl
  parse_form-IsTagged block4 v s e h = refl
  parse_form-IsTagged data2 v s e h = refl
  parse_form-IsTagged data4 v s e h = refl
  parse_form-IsTagged data8 v s e h = refl
  parse_form-IsTagged string v s e h = refl
  parse_form-IsTagged exprloc v s e h = refl
  parse_form-IsTagged block v s e h = refl
  parse_form-IsTagged block1 v s e h = refl
  parse_form-IsTagged data1 v s e h = refl
  parse_form-IsTagged flag v s e h = refl
  parse_form-IsTagged sdata v s e h = refl
  parse_form-IsTagged strp v s e h = refl
  parse_form-IsTagged udata v s e h = refl
  parse_form-IsTagged ref_addr v s e h = refl
  parse_form-IsTagged ref1 v s e h = refl
  parse_form-IsTagged ref2 v s e h = refl
  parse_form-IsTagged ref4 v s e h = refl
  parse_form-IsTagged ref8 v s e h = refl
  parse_form-IsTagged ref_udata v s e h = refl
  parse_form-IsTagged indirect v s e h =
      let f : ℕ = (read_uleb128 p d s).0.1 in
      installed (type_of (form_of f)) (uninstall p v) (uninstall-word p v h)
  parse_form-IsTagged sec_offset v s e h = refl
  parse_form-IsTagged flag_present v s e h = refl
  parse_form-IsTagged ref_sig8 v s e h = refl
  parse_form-IsTagged invalid v s e h = h
  parse_form-IsTagged (other n) v s e h = h

  parse_loop-IsTagged :
      (fuel : ℕ) (v : FormValue) (s : Stream S)
      → IsTagged v
      → IsTagged (parse_loop p d c fuel v s).0.1
  unfolding parse_loop
  parse_loop-IsTagged zero v s h = h
  parse_loop-IsTagged (suc fuel) v s h =
      let out = parse_form p d c v.form v s in
      let one = parse_form-IsTagged v.form v s refl h in
      elim (Bool-cases (out.0.0.is_indirect && out.0.0.ret)) [
        | inl e ↦ rw e (parse_loop-IsTagged fuel out.0.1 out.1 one)
        | inr e ↦ rw e one
      ]

  -- `parse_block` leaves the value alone.
  parse_block_value :
      (flags : Flags) (v : FormValue) (s : Stream S) → (parse_block p d c (flags, v) s).0.1 ≡ v
  unfolding parse_block
  parse_block_value flags v s =
      let uval : ℕ = as_uint64 p v in
      elim (Bool-cases (flags.is_block && flags.ret)) [
        | inr e ↦ rw e
        | inl e ↦ elim (Bool-cases (leb (add64 (position d s) uval) (size d s))) [
          | inr e' ↦ rw (e, e')
          | inl e' ↦ elim (Bool-cases (uval == 0)) [
            | inl e'' ↦ rw (e, e', e'')
            | inr e'' ↦ rw (e, e', e'')
          ]
        ]
      ]

  parse-IsTagged : (v : FormValue) (s : Stream S) → IsTagged v → IsTagged (parse p d c v s).0.1
  unfolding parse
  parse-IsTagged v s h =
      let out = parse_loop p d c (size d s + 2) v s in
      rw (parse_block_value out.0.0 out.0.1 out.1) (parse_loop-IsTagged (size d s + 2) v s h)

-- Every value that the program makes, by its constructors, by copies and assignments and by `parse` of
-- any bytes in any device, holds a string in its union exactly where `type()` is `eValueTypeCStr`.
pub made-IsTagged : (p : Platform) (v : FormValue) → Arises p v → IsTagged v
made-IsTagged p _ default = unfold type_of in unfold convert_form_to_type in refl
made-IsTagged p _ (for_form form) = of_form-IsTagged form
made-IsTagged p _ (copy_of v m) = copied-IsTagged p v
made-IsTagged p _ (assigned v w m n) = assign-IsTagged p v w (made-IsTagged p w n)
made-IsTagged p _ (parsed d c v s m) = parse-IsTagged p d c v s (made-IsTagged p v m)
