-- ===== src/Dwarf/FormValue/Images.antt =====
-- The bytes in which values stand in the debugging information, and what `parse` of
-- dwarf/CDWARFFormValue.cpp makes of them: the number of a value, or the size of a block.
use mach_olib.Common.{
  ℕ, suc, ◌+◌, ◌%◌, ◌^◌, ◌*◌, ◌<◌, ◌≡◌, refl, sym, ap, ◌∙◌, subst, arith, ◌==◌, leb, ltb,
  if◌then◌else◌, ◌&&◌, Bool, true, false, Bool-cases, inl, inr, List, ◌++◌, length, drop, ==_iff,
}
use mach_olib.Io.Platform.{Platform}
use mach_olib.Io.Substream.{add64}
use mach_olib.Io.Stream.{
  Device, Stream, Encoding, Width, w8, w16, w32, w64, bytes_of, size, position,
}
use mach_olib.Io.Stream.Laws.{IsReader, rest, IsOpen, read-rest, size-rest}
use mach_olib.Io.Stream.Images.{image, get_next}
use mach_olib.Io.Stream.Onward.{size-onward}
use mach_olib.Io.Leb.Groups.{leb_bytes}
use mach_olib.Io.Leb.Unsigned.{read_uleb128-value}
use mach_olib.Io.Leb.Signed.{extended, read_sleb128-value}
use mach_olib.Dwarf.Forms.{
  Form, addr, block2, block4, data2, data4, data8, block, block1, data1, flag, sdata, strp, udata,
  ref_addr, ref1, ref2, ref4, ref8, ref_udata, sec_offset, exprloc, ref_sig8,
}
use mach_olib.Dwarf.FormValue.{
  Storage, word, FormValue, Flags, plain, sized, Layout, as_uint64, parse_word, parse_uleb,
  address_width, reference_width, parse_form, parse_loop, parse_block, parse,
}
use mach_olib.Dwarf.FormValue.Onward.{parse_form-IsOnward}

-- The width of the number that stands for a form, or of the size of a block.
pub data HasWidth (c : Layout) : Form → Width → Type 0 where
  addr4 : c.addr_size ≡ 4 → HasWidth c addr w32
  addr8 : c.addr_size ≡ 8 → HasWidth c addr w64
  in_data1 : HasWidth c data1 w8
  in_data2 : HasWidth c data2 w16
  in_data4 : HasWidth c data4 w32
  in_data8 : HasWidth c data8 w64
  in_flag : HasWidth c flag w8
  in_strp : HasWidth c strp w32
  in_ref1 : HasWidth c ref1 w8
  in_ref2 : HasWidth c ref2 w16
  in_ref4 : HasWidth c ref4 w32
  in_ref8 : HasWidth c ref8 w64
  old_ref_addr4 : ltb 2 c.dwarf_version ≡ false → c.addr_size ≡ 4 → HasWidth c ref_addr w32
  old_ref_addr8 : ltb 2 c.dwarf_version ≡ false → c.addr_size ≡ 8 → HasWidth c ref_addr w64
  ref_addr32 : ltb 2 c.dwarf_version ≡ true → c.dwarf_format ≡ 32 → HasWidth c ref_addr w32
  ref_addr64 : ltb 2 c.dwarf_version ≡ true → c.dwarf_format ≡ 64 → HasWidth c ref_addr w64
  in_sec_offset : HasWidth c sec_offset w32
  in_ref_sig8 : HasWidth c ref_sig8 w64

pub data HasSize : Form → Width → Type 0 where
  in_block1 : HasSize block1 w8
  in_block2 : HasSize block2 w16
  in_block4 : HasSize block4 w32

-- The bytes that stand for a number, and whether it is the size of a block that follows.
pub data IsNumber (e : Encoding) (c : Layout) : Bool → Form → ℕ → List ℕ → Type 0 where
  value_word :
      (form : Form) (w : Width) (n : ℕ)
      → HasWidth c form w
      → n < 2 ^ (bytes_of w * 8)
      → IsNumber e c false form n (image e w n)
  size_word :
      (form : Form) (w : Width) (n : ℕ)
      → HasSize form w
      → n < 2 ^ (bytes_of w * 8)
      → IsNumber e c true form n (image e w n)
  value_udata :
      (k n : ℕ) → k < 5 → n < 128 ^ suc k → IsNumber e c false udata (n % 2 ^ 32) (leb_bytes k n)
  value_ref_udata :
      (k n : ℕ)
      → k < 5
      → n < 128 ^ suc k
      → IsNumber e c false ref_udata (n % 2 ^ 32) (leb_bytes k n)
  value_sdata :
      (k n : ℕ) → k < 4 → n < 128 ^ suc k → IsNumber e c false sdata (extended k n) (leb_bytes k n)
  size_block :
      (k n : ℕ) → k < 5 → n < 128 ^ suc k → IsNumber e c true block (n % 2 ^ 32) (leb_bytes k n)
  size_exprloc :
      (k n : ℕ) → k < 5 → n < 128 ^ suc k → IsNumber e c true exprloc (n % 2 ^ 32) (leb_bytes k n)

abbrev flags_for : Bool → Flags
flags_for true = sized
flags_for false = plain

abbrev pub number : Form → ℕ → FormValue
number form n = record { form = form; storage = word n }

block_small :
    (e : Encoding) (c : Layout) (form : Form) (n : ℕ) (bytes : List ℕ)
    → IsNumber e c true form n bytes
    → n < 2 ^ 32
block_small e c _ _ _ (size_word _ _ n in_block1 h) = omega arith
block_small e c _ _ _ (size_word _ _ n in_block2 h) = omega arith
block_small e c _ _ _ (size_word _ _ n in_block4 h) = omega arith
block_small e c _ _ _ (size_block k n hk h) = omega arith
block_small e c _ _ _ (size_exprloc k n hk h) = omega arith

module _ {S : Type 0} (d : Device S) (r : IsReader d) where
  record Reads (is_size : Bool) (form : Form) (n : ℕ) (back : List ℕ)
      (out : (Flags × FormValue) × Stream S) : Type 0 where
    flags : out.0.0 ≡ flags_for is_size
    value : out.0.1 ≡ number form n
    behind : rest d r out.1 ≡ back

  -- What `parse` returns, the value, and the bytes that the stream has left: a block is taken where all
  -- its bytes are there.
  pub record Parsed (is_size : Bool) (form : Form) (n : ℕ) (back : List ℕ)
      (out : (Bool × FormValue) × Stream S) : Type 0 where
    pub result : out.0.0 ≡ (if is_size then leb n (length back) else true)
    pub value : out.0.1 ≡ number form n
    pub behind : rest d r out.1 ≡ (if is_size && leb n (length back) then drop n back else back)

module _ (p : Platform) {S : Type 0} (d : Device S) (r : IsReader d) (c : Layout) where
  word-Reads :
      (b : Bool) (w : Width) (form : Form) (n : ℕ) (back : List ℕ) (s : Stream S)
      → n < 2 ^ (bytes_of w * 8)
      → IsOpen d r s
      → rest d r s ≡ image s.encoding w n ++ back
      → Reads d r b form n back (parse_word p d c w (flags_for b) form s)
  unfolding parse_word
  word-Reads b w form n back s h v e =
      let g = get_next d r w n 0 s.encoding s back h refl v e in
      record { flags = refl; value = ap (number form) g.value; behind = g.behind }

  uleb-Reads :
      (b : Bool) (form : Form) (k n : ℕ) (back : List ℕ) (s : Stream S)
      → k < 5
      → n < 128 ^ suc k
      → IsOpen d r s
      → rest d r s ≡ leb_bytes k n ++ back
      → Reads d r b form (n % 2 ^ 32) back (parse_uleb p d c (flags_for b) form s)
  unfolding parse_uleb
  uleb-Reads b form k n back s hk h v e =
      let (_, value, behind, _, _) = read_uleb128-value p d r k n s back hk h v e in
      record { flags = refl; value = ap (number form) value; behind = behind }

  -- The same for a width that is computed.
  wide-Reads :
      (w w' : Width) (form : Form) (n : ℕ) (back : List ℕ) (s : Stream S)
      → w' ≡ w
      → n < 2 ^ (bytes_of w * 8)
      → IsOpen d r s
      → rest d r s ≡ image s.encoding w n ++ back
      → Reads d r false form n back (parse_word p d c w' plain form s)
  wide-Reads w w' form n back s same h v e =
      subst (λ u. Reads d r false form n back (parse_word p d c u plain form s)) (sym same)
        (word-Reads false w form n back s h v e)

  width-Reads :
      (form : Form) (w : Width) (n : ℕ) (back : List ℕ) (old : FormValue) (s : Stream S)
      → HasWidth c form w
      → n < 2 ^ (bytes_of w * 8)
      → IsOpen d r s
      → rest d r s ≡ image s.encoding w n ++ back
      → Reads d r false form n back (parse_form p d c form old s)
  unfolding parse_form
  width-Reads _ _ n back old s (addr4 a) h v e =
      wide-Reads w32 _ addr n back s (ap (address_width p d c) a) h v e
  width-Reads _ _ n back old s (addr8 a) h v e =
      wide-Reads w64 _ addr n back s (ap (address_width p d c) a) h v e
  width-Reads _ _ n back old s in_data1 h v e = word-Reads false w8 data1 n back s h v e
  width-Reads _ _ n back old s in_data2 h v e = word-Reads false w16 data2 n back s h v e
  width-Reads _ _ n back old s in_data4 h v e = word-Reads false w32 data4 n back s h v e
  width-Reads _ _ n back old s in_data8 h v e = word-Reads false w64 data8 n back s h v e
  width-Reads _ _ n back old s in_flag h v e = word-Reads false w8 flag n back s h v e
  width-Reads _ _ n back old s in_strp h v e = word-Reads false w32 strp n back s h v e
  width-Reads _ _ n back old s in_ref1 h v e = word-Reads false w8 ref1 n back s h v e
  width-Reads _ _ n back old s in_ref2 h v e = word-Reads false w16 ref2 n back s h v e
  width-Reads _ _ n back old s in_ref4 h v e = word-Reads false w32 ref4 n back s h v e
  width-Reads _ _ n back old s in_ref8 h v e = word-Reads false w64 ref8 n back s h v e
  width-Reads _ _ n back old s (old_ref_addr4 a b) h v e =
      wide-Reads w32 (reference_width p d c) ref_addr n back s (rw (a, b) refl) h v e
  width-Reads _ _ n back old s (old_ref_addr8 a b) h v e =
      wide-Reads w64 (reference_width p d c) ref_addr n back s (rw (a, b) refl) h v e
  width-Reads _ _ n back old s (ref_addr32 a b) h v e =
      wide-Reads w32 (reference_width p d c) ref_addr n back s (rw (a, b) refl) h v e
  width-Reads _ _ n back old s (ref_addr64 a b) h v e =
      wide-Reads w64 (reference_width p d c) ref_addr n back s (rw (a, b) refl) h v e
  width-Reads _ _ n back old s in_sec_offset h v e = word-Reads false w32 sec_offset n back s h v e
  width-Reads _ _ n back old s in_ref_sig8 h v e = word-Reads false w64 ref_sig8 n back s h v e

  number-Reads :
      (b : Bool) (form : Form) (n : ℕ) (bytes back : List ℕ) (old : FormValue) (s : Stream S)
      → IsNumber s.encoding c b form n bytes
      → IsOpen d r s
      → rest d r s ≡ bytes ++ back
      → Reads d r b form n back (parse_form p d c form old s)
  unfolding parse_form
  number-Reads _ _ _ _ back old s (value_word form w n has h) v e =
      width-Reads form w n back old s has h v e
  number-Reads _ _ _ _ back old s (size_word _ _ n in_block1 h) v e =
      word-Reads true w8 block1 n back s h v e
  number-Reads _ _ _ _ back old s (size_word _ _ n in_block2 h) v e =
      word-Reads true w16 block2 n back s h v e
  number-Reads _ _ _ _ back old s (size_word _ _ n in_block4 h) v e =
      word-Reads true w32 block4 n back s h v e
  number-Reads _ _ _ _ back old s (value_udata k n hk h) v e =
      uleb-Reads false udata k n back s hk h v e
  number-Reads _ _ _ _ back old s (value_ref_udata k n hk h) v e =
      uleb-Reads false ref_udata k n back s hk h v e
  number-Reads _ _ _ _ back old s (value_sdata k n hk h) v e =
      let (_, value, behind, _, _) = read_sleb128-value p d r k n s back hk h v e in
      record { flags = refl; value = ap (number sdata) value; behind = behind }
  number-Reads _ _ _ _ back old s (size_block k n hk h) v e =
      uleb-Reads true block k n back s hk h v e
  number-Reads _ _ _ _ back old s (size_exprloc k n hk h) v e =
      uleb-Reads true exprloc k n back s hk h v e

  fits-leb :
      (at n total left : ℕ)
      → n < 2 ^ 32
      → total < 2 ^ 63
      → total ≡ at + left
      → leb (add64 at n) total ≡ leb n left
  fits-leb at n total left small bound e = ground arith

  block-Parsed :
      (form : Form) (n : ℕ) (back : List ℕ) (s : Stream S)
      → n < 2 ^ 32
      → IsOpen d r s
      → rest d r s ≡ back
      → size d s < 2 ^ 63
      → Parsed d r true form n back (parse_block p d c (sized, number form n) s)
  unfolding parse_block as_uint64
  block-Parsed form n back s small v e bound =
      let fit : leb (add64 (position d s) n) (size d s) ≡ leb n (length back) =
        fits-leb (position d s) n (size d s) (length back) small bound
          (size-rest d r s v ∙ ap (λ l. position d s + length l) e) in
      elim (Bool-cases (leb n (length back))) [
        | inr missing ↦
            rw (fit, missing)
              (record {
                result = sym missing;
                value = refl;
                behind = e ∙ ap (λ t. if t then drop n back else back) (sym missing);
              })
        | inl there ↦
            let taken : drop n back ≡ (if leb n (length back) then drop n back else back) =
              ap (λ t. if t then drop n back else back) (sym there) in
            elim (Bool-cases (n == 0)) [
              | inl z ↦
                  rw (fit, there, z)
                    (record {
                      result = sym there;
                      value = refl;
                      behind = e ∙ ap (λ k. drop k back) (sym ((==_iff n 0).0 z)) ∙ taken;
                    })
              | inr z ↦
                  rw (fit, there, z)
                    (record {
                      result = sym there;
                      value = refl;
                      behind = (read-rest d r n s v).1 ∙ ap (drop n) e ∙ taken;
                    })
            ]
      ]

  number-Parsed :
      (b : Bool) (form : Form) (n : ℕ) (bytes back : List ℕ) (e : Encoding) (s : Stream S)
      → IsNumber e c b form n bytes
      → IsOpen d r s
      → rest d r s ≡ back
      → size d s < 2 ^ 63
      → Parsed d r b form n back (parse_block p d c (flags_for b, number form n) s)
  unfolding parse_block
  number-Parsed false form n bytes back e s is v standing bound = record {
    result = refl;
    value = refl;
    behind = standing;
  }
  number-Parsed true form n bytes back e s is v standing bound =
      block-Parsed form n back s (block_small e c form n bytes is) v standing bound

  -- One round of the loop is all for a form that is not indirect.
  one_round :
      (b : Bool) (fuel : ℕ) (value : FormValue) (s : Stream S)
      → (parse_form p d c value.form value s).0.0 ≡ flags_for b
      → parse_loop p d c (suc fuel) value s ≡ parse_form p d c value.form value s
  unfolding parse_loop
  one_round b fuel value s e = rw (ap (λ f. f.is_indirect && f.ret) e ∙ direct b) refl
    where
      direct : (b : Bool) → ((flags_for b).is_indirect && (flags_for b).ret) ≡ false
      direct true = refl
      direct false = refl

  -- Where the bytes of a number stand in a readable stream below 2^63 bytes, by the form and the
  -- layout of the unit, `parse` of a value for this form, whatever it held, stores the number. Where the
  -- form is that of a block, the number is the size of the block: `parse` returns true and goes behind
  -- the block if all its bytes are there, and otherwise returns false and stays behind the size. For
  -- the other forms it returns true and goes behind the number. An unsigned number in groups has at
  -- most five of them and is taken modulo 2^32, one with a sign has at most four; strings in place and
  -- the forms flag_present and indirect are left out.
  pub parse-image :
      (b : Bool) (form : Form) (n : ℕ) (bytes back : List ℕ) (old : Storage) (s : Stream S)
      → IsNumber s.encoding c b form n bytes
      → IsOpen d r s
      → size d s < 2 ^ 63
      → rest d r s ≡ bytes ++ back
      → Parsed d r b form n back (parse p d c (record { form = form; storage = old }) s)
  unfolding parse
  parse-image b form n bytes back old s is v bound e =
      let start : FormValue = record { form = form; storage = old } in
      let reads = number-Reads b form n bytes back start s is v e in
      let on = parse_form-IsOnward p d r c form start s v in
      let out = parse_form p d c form start s in
      let rounds : size d s + 2 ≡ suc (size d s + 1) = omega arith in
      let loop : parse_loop p d c (size d s + 2) start s ≡ out =
        ap (λ f. parse_loop p d c f start s) rounds
        ∙ one_round b (size d s + 1) start s reads.flags in
      let after =
        number-Parsed b form n bytes back s.encoding out.1 is on.open_still reads.behind
          (omega (arith, bound, size-onward d r v on)) in
      subst (λ o. Parsed d r b form n back (parse_block p d c o.0 o.1)) (sym loop)
        (subst (λ o. Parsed d r b form n back (parse_block p d c o out.1))
          (sym (λ i. (reads.flags i, reads.value i))) after)
