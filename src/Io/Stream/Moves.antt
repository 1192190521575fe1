-- ===== src/Io/Stream/Moves.antt =====
-- A read and a seek over the same bytes, and integers read where all their bytes are there.
use mach_olib.Common.{
  ℕ, ◌+◌, ◌^◌, ◌<◌, ◌≡◌, refl, ap, ◌∙◌, sym, arith, min, ==_iff, List, [], ◌∷◌, length, length-take,
}
use mach_olib.Io.Stream.{
  Device, Stream, Encoding, unknown, little_endian, big_endian, Width, w8, w16, w32, w64, bytes_of,
  le_result, be_result, size, position, seek, read, get,
}
use mach_olib.Io.Stream.Laws.{IsReader, rest, IsOpen, read-rest, size-rest}
use mach_olib.Io.Stream.Onward.{contents_of, t_read-read, read-IsOnward}
use mach_olib.Io.Substream.{add64}

result_long :
    (w : Width) (a b : ℕ) (bytes : List ℕ)
    → length bytes ≡ bytes_of w
    → (le_result w a bytes ≡ le_result w b bytes) × (be_result w a bytes ≡ be_result w b bytes)
unfolding le_result be_result
result_long w8 a b [] h = absurd (omega arith)
result_long w8 a b (x ∷ l) h = (refl, refl)
result_long w16 a b bytes h = rw ((==_iff (length bytes) 2).1 h) (refl, refl)
result_long w32 a b bytes h = rw ((==_iff (length bytes) 4).1 h) (refl, refl)
result_long w64 a b bytes h = rw ((==_iff (length bytes) 8).1 h) (refl, refl)

module _ {S : Type 0} (d : Device S) (r : IsReader d) where
  -- Two streams with the same content and byte order, at the same position.
  pub record IsSamePlace (s t : Stream S) : Type 0 where
    pub place : position d s ≡ position d t
    pub same : contents_of d r s ≡ contents_of d r t
    pub order : s.encoding ≡ t.encoding
    pub open_still : IsOpen d r s

  pub refl-IsSamePlace : (s : Stream S) → IsOpen d r s → IsSamePlace s s
  refl-IsSamePlace s v = record { place = refl; same = refl; order = refl; open_still = v }

  -- A read that ends before the end of the stream took all the bytes that it was asked for.
  pub read_whole :
      (n : ℕ) (s : Stream S)
      → IsOpen d r s
      → position d (read d n s).1 < size d s
      → (length (read d n s).0 ≡ n) × (position d (read d n s).1 ≡ position d s + n)
  read_whole n s v h =
      let count : length (read d n s).0 ≡ min n (length (rest d r s)) =
        ap length (read-rest d r n s v).0 ∙ length-take n (rest d r s) in
      let moved : position d (read d n s).1 ≡ position d s + length (read d n s).0 =
        unfold position in unfold read in r.read_position n s.device v in
      (
        omega (arith, count, moved, size-rest d r s v),
        omega (arith, count, moved, size-rest d r s v),
      )

  pub read_none :
      (n : ℕ) (s : Stream S) → n ≡ 0 → IsOpen d r s → position d (read d n s).1 ≡ position d s
  unfolding position read
  read_none n s e v = omega (
    arith,
    r.read_position n s.device v,
    ap length (r.read_bytes n s.device v),
    length-take n (rest d r s),
  )

  -- Where it does, a seek over these bytes goes to the same place.
  pub seek-read :
      (n : ℕ) (s : Stream S)
      → IsOpen d r s
      → size d s < 2 ^ 64
      → position d (read d n s).1 < size d s
      → IsSamePlace (seek d (add64 (position d s) n) s).1 (read d n s).1
  unfolding position seek read size
  seek-read n s v bound h =
      let target : ℕ = position d s + n in
      let whole : position d (read d n s).1 ≡ target = (read_whole n s v h).1 in
      let ahead : add64 (position d s) n ≡ target = omega (arith, whole) in
      let inside : target < length (contents_of d r s) =
        omega (arith, h, whole, r.size-contents s.device v) in
      rw ahead (record {
        place = r.seek_position target s.device v inside ∙ sym whole;
        same = r.contents-seek target s.device v ∙ sym (read-IsOnward d r n s v).same;
        order = refl;
        open_still = r.seek-IsValid target s.device v;
      })

  pub get-read :
      (w : Width) (val : ℕ) (s : Stream S) → (get d w val s).1 ≡ (read d (bytes_of w) s).1
  unfolding get
  get-read w val s = t_read-read d r w val s

  -- An integer that is there whole does not depend on what the variable held.
  pub get-old :
      (w : Width) (a b : ℕ) (s : Stream S)
      → length (read d (bytes_of w) s).0 ≡ bytes_of w
      → (get d w a s).0 ≡ (get d w b s).0
  unfolding get read
  get-old w a b s h = by_order s.encoding (result_long w a b (read d (bytes_of w) s).0 h)
    where
      by_order :
          (e : Encoding)
          → (le_result w a (read d (bytes_of w) s).0 ≡ le_result w b (read d (bytes_of w) s).0)
            × (be_result w a (read d (bytes_of w) s).0 ≡ be_result w b (read d (bytes_of w) s).0)
          → (get d w a (record s { encoding = e })).0 ≡ (get d w b (record s { encoding = e })).0
      by_order unknown same = same.0
      by_order little_endian same = same.0
      by_order big_endian same = same.1
