-- ===== src/Dwarf/FormValue/Agreement.antt =====
-- The passes of `parse` and `Skip` of dwarf/CDWARFFormValue.cpp on the same bytes.
use mach_olib.Common.{
  ℕ, ◌/◌, ◌^◌, ◌<◌, ◌≡◌, refl, sym, ◌∙◌, subst, arith, ==_iff, ◌==◌, leb, ltb, if◌then◌else◌, Bool,
  Bool-cases, ◌⊎◌, inl, inr,
}
use mach_olib.Io.Platform.{Platform}
use mach_olib.Io.Stream.{Device, Stream, Width, bytes_of, size, position, seek, read, get}
use mach_olib.Io.Stream.Laws.{IsReader, IsOpen}
use mach_olib.Io.Stream.Onward.{size-onward, read-IsOnward, get-IsOnward}
use mach_olib.Io.Stream.Moves.{
  IsSamePlace, refl-IsSamePlace, read_none, read_whole, seek-read, get-read, get-old,
}
use mach_olib.Io.Substream.{add64}
use mach_olib.Io.Leb.{read_uleb128}
use mach_olib.Io.Leb.Onward.{read_uleb128-IsOnward}
use mach_olib.Dwarf.Forms.{Form}
use mach_olib.Dwarf.FormValue.{
  word, FormValue, Flags, plain, sized, Layout, as_uint64, address_width, reference_width,
  parse_word, parse_uleb, parse_block,
}
use mach_olib.Dwarf.FormValue.Onward.{parse_block-IsOnward}
use mach_olib.Dwarf.FormValue.Skip.{Skipped, skip_bytes, skip_size, skip_uleb_size, skip_block}

-- Addresses of four or eight bytes, and a format of 32 or 64 bits.
pub record IsLayout (c : Layout) : Type 0 where
  pub addresses : (c.addr_size ≡ 4) ⊎ (c.addr_size ≡ 8)
  pub format : (c.dwarf_format ≡ 32) ⊎ (c.dwarf_format ≡ 64)

module _ (p : Platform) {S : Type 0} (d : Device S) (r : IsReader d) (c : Layout)
    (unset : Width → ℕ) where
  -- `Skip` returned what `parse` did, and left the stream where `parse` left it.
  pub record Agrees (left_out : Bool × Stream S) (parsed : (Bool × FormValue) × Stream S)
      : Type 0 where
    pub result : left_out.0 ≡ parsed.0.0
    pub there : IsSamePlace d r left_out.1 parsed.1

  -- The results of both functions, from what their loops left.
  abbrev pub parse_end : (Flags × FormValue) × Stream S → (Bool × FormValue) × Stream S
  parse_end out = parse_block p d c out.0 out.1

  abbrev pub skip_end : Skipped × Stream S → Bool × Stream S
  skip_end out = skip_block p d c unset out.0 out.1

  pub address-bytes : (n : ℕ) → (n ≡ 4) ⊎ (n ≡ 8) → n ≡ bytes_of (address_width p d c n)
  address-bytes n (inl e) = ground (arith, e)
  address-bytes n (inr e) = ground (arith, e)

  pub reference-bytes :
      IsLayout c
      → (if ltb 2 c.dwarf_version then c.dwarf_format / 8 else c.addr_size)
        ≡ bytes_of (reference_width p d c)
  reference-bytes l = elim (Bool-cases (ltb 2 c.dwarf_version)) [
    | inr e ↦ rw e (address-bytes c.addr_size l.addresses)
    | inl e ↦ elim (l.format) [ inl f ↦ rw (e, f) | inr f ↦ rw (e, f) ]
  ]

  -- A value of `n` bytes, read and passed over.
  pub fixed :
      (w : Width) (n : ℕ) (form : Form) (l : Skipped) (s : Stream S)
      → n ≡ bytes_of w
      → IsOpen d r s
      → size d s < 2 ^ 64
      → position d (parse_end (parse_word p d c w plain form s)).1 < size d s
      → Agrees
          (skip_end (skip_bytes p d c unset n l s))
          (parse_end (parse_word p d c w plain form s))
  unfolding parse_word skip_bytes parse_block skip_block
  fixed w n form l s e v bound h =
      let at : position d (read d (bytes_of w) s).1 < size d s =
        subst (λ t. position d t < size d s) (get-read d r w 0 s) h in
      record {
        result = refl;
        there = rw (e, get-read d r w 0 s) (seek-read d r (bytes_of w) s v bound at);
      }

  -- A block without bytes.
  seek_nothing :
      (n : ℕ) (t : Stream S)
      → n ≡ 0
      → IsOpen d r t
      → size d t < 2 ^ 64
      → position d t < size d t
      → IsSamePlace d r (seek d (add64 (position d t) n) t).1 t
  seek_nothing n t e v bound h =
      let stay : position d (read d n t).1 ≡ position d t = read_none d r n t e v in
      let moved = seek-read d r n t v bound (omega (arith, stay)) in
      record {
        place = moved.place ∙ stay;
        same = moved.same ∙ (read-IsOnward d r n t v).same;
        order = moved.order ∙ (read-IsOnward d r n t v).order;
        open_still = moved.open_still;
      }

  -- The bytes of a block, with its size already read.
  behind_size :
      (uval : ℕ) (form form' : Form) (t : Stream S)
      → IsOpen d r t
      → size d t < 2 ^ 64
      → position d (parse_end ((sized, record { form = form; storage = word uval }), t)).1
        < size d t
      → Agrees
          (skip_end (record { flags = sized; form = form'; uval = uval }, t))
          (parse_end ((sized, record { form = form; storage = word uval }), t))
  unfolding parse_block skip_block as_uint64
  behind_size uval form form' t v bound h =
      elim (Bool-cases (leb (add64 (position d t) uval) (size d t))) [
        | inr e ↦ rw e (record { result = refl; there = refl-IsSamePlace d r t v })
        | inl e ↦ elim (Bool-cases (uval == 0)) [
          | inl z ↦
              let nothing : uval ≡ 0 = (==_iff uval 0).0 z in
              rw (e, z)
                (record {
                  result = refl;
                  there = seek_nothing uval t nothing v bound (rw (e, z) at h);
                })
          | inr z ↦
              rw (e, z)
                (record { result = refl; there = seek-read d r uval t v bound (rw (e, z) at h) })
        ]
      ]

  -- A block whose size is an integer: `Skip` has no value for the integer before it reads it.
  pub sized_block :
      (w : Width) (form : Form) (l : Skipped) (s : Stream S)
      → IsOpen d r s
      → size d s < 2 ^ 64
      → position d (parse_end (parse_word p d c w sized form s)).1 < size d s
      → Agrees
          (skip_end (skip_size p d c unset w l s))
          (parse_end (parse_word p d c w sized form s))
  unfolding parse_word skip_size
  sized_block w form l s v bound h =
      let uval : ℕ = (get d w 0 s).0 in
      let t : Stream S = (get d w 0 s).1 in
      let one = get-IsOnward d r w 0 s v in
      let value : FormValue = record { form = form; storage = word uval } in
      let ahead = parse_block-IsOnward p d r c sized value t one.open_still in
      let at : position d (read d (bytes_of w) s).1 < size d s =
        subst (λ u. position d u < size d s) (get-read d r w 0 s)
          (omega (arith, ahead.forward, h)) in
      let state : (get d w (unset w) s).1 ≡ t =
        get-read d r w (unset w) s ∙ sym (get-read d r w 0 s) in
      rw (get-old d r w (unset w) 0 s (read_whole d r (bytes_of w) s v at).0, state)
        (behind_size uval form (l.form) t one.open_still (omega (arith, size-onward d r v one))
          (omega (arith, h, size-onward d r v one)))

  pub uleb_block :
      (form : Form) (l : Skipped) (s : Stream S)
      → IsOpen d r s
      → size d s < 2 ^ 64
      → position d (parse_end (parse_uleb p d c sized form s)).1 < size d s
      → Agrees
          (skip_end (skip_uleb_size p d c unset l s))
          (parse_end (parse_uleb p d c sized form s))
  unfolding parse_uleb skip_uleb_size
  uleb_block form l s v bound h =
      let one = read_uleb128-IsOnward p d r s v in
      behind_size (read_uleb128 p d s).0.1 form (l.form) (read_uleb128 p d s).1 one.open_still
        (omega (arith, size-onward d r v one)) (omega (arith, h, size-onward d r v one))
