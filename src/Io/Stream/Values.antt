-- ===== src/Io/Stream/Values.antt =====
-- `t_read` of `stream_base`: the integer that stands next in a stream, and the place after it.
use mach_olib.Common.{
  ℕ, ◌≤◌, ◌<◌, ◌≡◌, refl, ap, ◌∙◌, arith, min, ==_iff, Bool-cases, inl, inr, List, [], ◌∷◌, length,
  take, drop, length-take, All,
}
use mathlib.Core.List.{reverse}
use mach_olib.Io.Codec.Digits.{IsByte, le_value}
use mach_olib.Io.Codec.Decode.{le_decode-value, be_decode-value}
use mach_olib.Io.Stream.{
  Device, Stream, Encoding, unknown, little_endian, big_endian, Width, w8, w16, w32, w64, bytes_of,
  le_result, be_result, is_big_endian, read, t_read, get,
}
use mach_olib.Io.Stream.Laws.{IsReader, rest, IsOpen, read-rest, read-IsOpen}

-- The number that bytes stand for in a byte order: every order but the big-endian one is little.
abbrev pub word : Encoding → List ℕ → ℕ
word big_endian bytes = le_value (reverse bytes)
word _ bytes = le_value bytes

le_result-word :
    (w : Width) (val : ℕ) (bytes : List ℕ)
    → length bytes ≡ bytes_of w
    → All IsByte bytes
    → le_result w val bytes ≡ le_value bytes
unfolding le_result le_value
le_result-word w8 val [] h b = absurd (omega arith)
le_result-word w8 val (x ∷ []) h b = omega arith
le_result-word w8 val (x ∷ y ∷ l) h b = absurd (omega arith)
le_result-word w16 val bytes h b = rw ((==_iff (length bytes) 2).1 h) (le_decode-value 2 bytes h b)
le_result-word w32 val bytes h b = rw ((==_iff (length bytes) 4).1 h) (le_decode-value 4 bytes h b)
le_result-word w64 val bytes h b = rw ((==_iff (length bytes) 8).1 h) (le_decode-value 8 bytes h b)

be_result-word :
    (w : Width) (val : ℕ) (bytes : List ℕ)
    → length bytes ≡ bytes_of w
    → All IsByte bytes
    → be_result w val bytes ≡ le_value (reverse bytes)
unfolding be_result le_value
be_result-word w8 val [] h b = absurd (omega arith)
be_result-word w8 val (x ∷ []) h b = omega arith
be_result-word w8 val (x ∷ y ∷ l) h b = absurd (omega arith)
be_result-word w16 val bytes h b = rw ((==_iff (length bytes) 2).1 h) (be_decode-value 2 bytes h b)
be_result-word w32 val bytes h b = rw ((==_iff (length bytes) 4).1 h) (be_decode-value 4 bytes h b)
be_result-word w64 val bytes h b = rw ((==_iff (length bytes) 8).1 h) (be_decode-value 8 bytes h b)

result_short :
    (w : Width) (val : ℕ) (bytes : List ℕ)
    → length bytes < bytes_of w
    → (le_result w val bytes ≡ val) × (be_result w val bytes ≡ val)
unfolding le_result be_result
result_short w8 val [] h = (refl, refl)
result_short w8 val (x ∷ l) h = absurd (omega arith)
result_short w16 val bytes h = ground arith
result_short w32 val bytes h = ground arith
result_short w64 val bytes h = ground arith

module _ {S : Type 0} (d : Device S) (r : IsReader d) where
  -- What every `t_read` does, of any width and in any byte order: it counts the bytes that it took,
  -- goes behind them, and leaves the byte order and the content alone.
  pub t_read_moves :
      (w : Width) (val : ℕ) (s : Stream S)
      → IsOpen d r s
      → ((t_read d w val s).0.0 ≡ min (bytes_of w) (length (rest d r s)))
        × (rest d r (t_read d w val s).1 ≡ drop (bytes_of w) (rest d r s))
        × ((t_read d w val s).1.encoding ≡ s.encoding)
        × IsOpen d r (t_read d w val s).1
  unfolding t_read read
  t_read_moves w val s v =
      let count : length (read d (bytes_of w) s).0 ≡ min (bytes_of w) (length (rest d r s)) =
        ap length (read-rest d r (bytes_of w) s v).0 ∙ length-take (bytes_of w) (rest d r s) in
      elim (Bool-cases (is_big_endian s)) [
        | inl e ↦
            rw e (count, (read-rest d r (bytes_of w) s v).1, refl, read-IsOpen d r (bytes_of w) s v)
        | inr e ↦
            rw e (count, (read-rest d r (bytes_of w) s v).1, refl, read-IsOpen d r (bytes_of w) s v)
      ]

  -- Where the content has the bytes of the integer, `t_read` stores the number that they stand for in
  -- the stream's byte order.
  pub get-word :
      (w : Width) (val : ℕ) (s : Stream S)
      → IsOpen d r s
      → bytes_of w ≤ length (rest d r s)
      → All IsByte (take (bytes_of w) (rest d r s))
      → (get d w val s).0 ≡ word s.encoding (take (bytes_of w) (rest d r s))
  unfolding get read
  get-word w val s v h b =
      let bytes : List ℕ = take (bytes_of w) (rest d r s) in
      let same : (read d (bytes_of w) s).0 ≡ bytes = (read-rest d r (bytes_of w) s v).0 in
      let count : length bytes ≡ bytes_of w =
        omega (arith, length-take (bytes_of w) (rest d r s)) in
      by_order s.encoding (ap (le_result w val) same ∙ le_result-word w val bytes count b)
        (ap (be_result w val) same ∙ be_result-word w val bytes count b)
    where
      by_order :
          (e : Encoding)
          → le_result w val (read d (bytes_of w) s).0 ≡ le_value (take (bytes_of w) (rest d r s))
          → be_result w val (read d (bytes_of w) s).0
            ≡ le_value (reverse (take (bytes_of w) (rest d r s)))
          → (get d w val (record s { encoding = e })).0 ≡ word e (take (bytes_of w) (rest d r s))
      by_order unknown le be = le
      by_order little_endian le be = le
      by_order big_endian le be = be

  -- Where it has fewer, `t_read` leaves the variable as it was.
  pub get_short :
      (w : Width) (val : ℕ) (s : Stream S)
      → IsOpen d r s
      → length (rest d r s) < bytes_of w
      → (get d w val s).0 ≡ val
  unfolding get read
  get_short w val s v h =
      let bytes : List ℕ = (read d (bytes_of w) s).0 in
      let count : length bytes < bytes_of w = omega (
        arith,
        ap length (read-rest d r (bytes_of w) s v).0,
        length-take (bytes_of w) (rest d r s),
      ) in
      by_order s.encoding (result_short w val bytes count)
    where
      by_order :
          (e : Encoding)
          → (le_result w val (read d (bytes_of w) s).0 ≡ val)
            × (be_result w val (read d (bytes_of w) s).0 ≡ val)
          → (get d w val (record s { encoding = e })).0 ≡ val
      by_order unknown short = short.0
      by_order little_endian short = short.0
      by_order big_endian short = short.1

  -- The state after `t_read`, for the callers that look at the variable alone.
  pub get-rest :
      (w : Width) (val : ℕ) (s : Stream S)
      → IsOpen d r s
      → (rest d r (get d w val s).1 ≡ drop (bytes_of w) (rest d r s))
        × ((get d w val s).1.encoding ≡ s.encoding)
        × IsOpen d r (get d w val s).1
  unfolding get
  get-rest w val s v = let m = t_read_moves w val s v in (m.1, m.2, m.3)
