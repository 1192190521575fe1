-- ===== src/Io/Stream/Bytes.antt =====
-- Reading one byte of a readable stream, which the loops of `stream_base` are made of.
use mach_olib.Common.{
  ℕ, ◌≡◌, refl, ap, ◌∙◌, arith, ltb, lt→ltb, le→ltb, true, false, List, [], ◌∷◌, length, get_or,
  take, drop,
}
use mach_olib.Io.Stream.{
  Device, Stream, Encoding, unknown, little_endian, big_endian, w8, size, position, read, be_read,
  t_read,
}
use mach_olib.Io.Stream.Laws.{IsReader, rest, IsOpen, read-rest, read-IsOpen, size-rest}

module _ {S : Type 0} (d : Device S) (r : IsReader d) where
  -- One read of one byte, from a stream that has a byte left.
  pub record Reads (b : ℕ) (back : List ℕ) (s : Stream S) (out : (ℕ × ℕ) × Stream S) : Type 0 where
    pub count : out.0.0 ≡ 1
    pub byte : out.0.1 ≡ b
    pub behind : rest d r out.1 ≡ back
    pub order : out.1.encoding ≡ s.encoding
    pub open_still : IsOpen d r out.1

  pub more :
      (s : Stream S) (b : ℕ) (back : List ℕ)
      → IsOpen d r s
      → rest d r s ≡ b ∷ back
      → ltb (position d s) (size d s) ≡ true
  more s b back v e =
      lt→ltb (position d s) (size d s) (omega (arith, size-rest d r s v, ap length e))

  pub no_more :
      (s : Stream S) → IsOpen d r s → rest d r s ≡ [] → ltb (position d s) (size d s) ≡ false
  no_more s v e = le→ltb (position d s) (size d s) (omega (arith, size-rest d r s v, ap length e))

  pub be_read-Reads :
      (val b : ℕ) (back : List ℕ) (s : Stream S)
      → IsOpen d r s
      → rest d r s ≡ b ∷ back
      → Reads b back s (be_read d w8 val s)
  unfolding be_read
  be_read-Reads val b back s v e =
      let one = read-rest d r 1 s v in
      record {
        count = ap length one.0 ∙ ap (λ l. length (take 1 l)) e;
        byte = ap (λ l. get_or l 0 val) one.0 ∙ ap (λ l. get_or (take 1 l) 0 val) e;
        behind = one.1 ∙ ap (drop 1) e;
        order = unfold read in refl;
        open_still = read-IsOpen d r 1 s v;
      }

  -- At the end nothing is read.
  pub be_read_end :
      (val : ℕ) (s : Stream S)
      → IsOpen d r s
      → rest d r s ≡ []
      → ((be_read d w8 val s).0.0 ≡ 0)
        × (rest d r (be_read d w8 val s).1 ≡ [])
        × ((be_read d w8 val s).1.encoding ≡ s.encoding)
        × IsOpen d r (be_read d w8 val s).1
  unfolding be_read
  be_read_end val s v e =
      let one = read-rest d r 1 s v in
      (
        ap length one.0 ∙ ap (λ l. length (take 1 l)) e,
        one.1 ∙ ap (drop 1) e,
        unfold read in refl,
        read-IsOpen d r 1 s v,
      )

  pub t_read-be_read : (val : ℕ) (s : Stream S) → t_read d w8 val s ≡ be_read d w8 val s
  unfolding t_read
  t_read-be_read val s = by_order s.encoding
    where
      by_order :
          (e : Encoding)
          → t_read d w8 val (record s { encoding = e })
            ≡ be_read d w8 val (record s { encoding = e })
      by_order unknown = refl
      by_order little_endian = refl
      by_order big_endian = refl

  pub t_read-Reads :
      (val b : ℕ) (back : List ℕ) (s : Stream S)
      → IsOpen d r s
      → rest d r s ≡ b ∷ back
      → Reads b back s (t_read d w8 val s)
  t_read-Reads val b back s v e = rw (t_read-be_read val s) (be_read-Reads val b back s v e)
