-- ===== src/Io/Text/Laws.antt =====
-- What `read_sz` takes from a readable stream.
use mach_olib.Common.{
  ℕ, zero, suc, ◌+◌, ◌<◌, ◌≡◌, ◌≢◌, refl, sym, ap, ◌∙◌, arith, ◌==◌, ltb, if◌then◌else◌, Bool, true,
  false, not, ◌&&◌, Bool-cases, inl, inr, List, [], ◌∷◌, ◌++◌, length, All,
}
use mathlib.Core.List.{append-nil, append_assoc}
use mach_olib.Io.Stream.{Device, Stream, w8, be_read}
use mach_olib.Io.Stream.Laws.{IsReader, rest, IsOpen}
use mach_olib.Io.Stream.Bytes.{be_read-Reads, be_read_end}
use mach_olib.Io.Text.{read_sz_loop, read_sz}

-- The front of some bytes up to a zero, the zero included, and `n` bytes at most.
unfoldable pub sz_prefix : ℕ → List ℕ → List ℕ
sz_prefix zero bytes = []
sz_prefix (suc n) [] = []
sz_prefix (suc n) (b ∷ bytes) = b ∷ (let more = sz_prefix n bytes in if b == 0 then [] else more)

-- What lies behind that front.
unfoldable pub sz_behind : ℕ → List ℕ → List ℕ
sz_behind zero bytes = bytes
sz_behind (suc n) [] = []
sz_behind (suc n) (b ∷ bytes) = let more = sz_behind n bytes in if b == 0 then bytes else more

module _ {S : Type 0} (d : Device S) (r : IsReader d) (max_size : ℕ) where
  -- What `read_sz` gives for `bytes` where `n` of them may still be taken, after those in `dst`.
  pub record IsString (n : ℕ) (dst bytes : List ℕ) (s : Stream S) (out : List ℕ × Stream S)
      : Type 0 where
    pub taken : out.0 ≡ dst ++ sz_prefix n bytes
    pub behind : rest d r out.1 ≡ sz_behind n bytes
    pub order : out.1.encoding ≡ s.encoding
    pub open_still : IsOpen d r out.1

  goes_on : ℕ → ℕ → Bool
  goes_on i b = ltb (i + 1) max_size && not (b == 0)

  step_stop :
      (fuel i : ℕ) (dst : List ℕ) (s : Stream S) (b : ℕ) (back : List ℕ)
      → IsOpen d r s
      → rest d r s ≡ b ∷ back
      → goes_on i b ≡ false
      → read_sz_loop d max_size (suc fuel) i dst s ≡ (dst ++ (b ∷ []), (be_read d w8 0 s).1)
  unfolding read_sz_loop goes_on
  step_stop fuel i dst s b back v e stop =
      let one = be_read-Reads d r 0 b back s v e in rw (one.count, one.byte, stop)

  step_more :
      (fuel i : ℕ) (dst : List ℕ) (s : Stream S) (b : ℕ) (back : List ℕ)
      → IsOpen d r s
      → rest d r s ≡ b ∷ back
      → goes_on i b ≡ true
      → read_sz_loop d max_size (suc fuel) i dst s
        ≡ read_sz_loop d max_size fuel (i + 1) (dst ++ (b ∷ [])) (be_read d w8 0 s).1
  unfolding read_sz_loop goes_on
  step_more fuel i dst s b back v e more =
      let one = be_read-Reads d r 0 b back s v e in rw (one.count, one.byte, more)

  step_end :
      (fuel i : ℕ) (dst : List ℕ) (s : Stream S)
      → IsOpen d r s
      → rest d r s ≡ []
      → read_sz_loop d max_size (suc fuel) i dst s ≡ (dst, (be_read d w8 0 s).1)
  unfolding read_sz_loop
  step_end fuel i dst s v e = rw (be_read_end d r 0 s v e).0

  ends :
      (n i : ℕ) (dst : List ℕ) (s : Stream S)
      → IsOpen d r s
      → rest d r s ≡ []
      → IsString (suc n) dst [] s (read_sz_loop d max_size (suc (suc n)) i dst s)
  unfolding sz_prefix sz_behind
  ends n i dst s v e =
      let (_, nothing, order, still) = be_read_end d r 0 s v e in
      rw (step_end (suc n) i dst s v e) (record {
        taken = sym (append-nil dst);
        behind = nothing;
        order = order;
        open_still = still;
      })

  stops :
      (n i : ℕ) (dst : List ℕ) (s : Stream S) (b : ℕ) (back : List ℕ)
      → IsOpen d r s
      → rest d r s ≡ b ∷ back
      → goes_on i b ≡ false
      → sz_prefix (suc n) (b ∷ back) ≡ b ∷ []
      → sz_behind (suc n) (b ∷ back) ≡ back
      → IsString (suc n) dst (b ∷ back) s (read_sz_loop d max_size (suc (suc n)) i dst s)
  stops n i dst s b back v e stop front rear =
      let one = be_read-Reads d r 0 b back s v e in
      rw (step_stop (suc n) i dst s b back v e stop) (record {
        taken = ap (λ l. dst ++ l) (sym front);
        behind = one.behind ∙ sym rear;
        order = one.order;
        open_still = one.open_still;
      })

  goes :
      (n i : ℕ) (dst : List ℕ) (s : Stream S) (b : ℕ) (back : List ℕ)
      → IsOpen d r s
      → rest d r s ≡ b ∷ back
      → goes_on i b ≡ true
      → (b == 0) ≡ false
      → IsString n
          (dst ++ (b ∷ []))
          back
          (be_read d w8 0 s).1
          (read_sz_loop d max_size (suc n) (i + 1) (dst ++ (b ∷ [])) (be_read d w8 0 s).1)
      → IsString (suc n) dst (b ∷ back) s (read_sz_loop d max_size (suc (suc n)) i dst s)
  unfolding sz_prefix sz_behind
  goes n i dst s b back v e more nonzero ih =
      let one = be_read-Reads d r 0 b back s v e in
      rw (step_more (suc n) i dst s b back v e more) (record {
        taken =
            ih.taken
            ∙ append_assoc dst (b ∷ []) (sz_prefix n back)
            ∙ ap (λ t. dst ++ (b ∷ (if t then [] else sz_prefix n back))) (sym nonzero);
        behind = ih.behind ∙ ap (λ t. if t then back else sz_behind n back) (sym nonzero);
        order = ih.order ∙ one.order;
        open_still = ih.open_still;
      })

  read_sz_loop-IsString :
      (n i : ℕ) (dst : List ℕ) (s : Stream S) (bytes : List ℕ)
      → max_size ≡ i + suc n
      → IsOpen d r s
      → rest d r s ≡ bytes
      → IsString (suc n) dst bytes s (read_sz_loop d max_size (suc (suc n)) i dst s)
  unfolding sz_prefix sz_behind goes_on
  read_sz_loop-IsString n i dst s [] h v e = ends n i dst s v e
  read_sz_loop-IsString zero i dst s (b ∷ back) h v e =
      stops zero i dst s b back v e (ground arith) (ground arith) (ground arith)
  read_sz_loop-IsString (suc n) i dst s (b ∷ back) h v e = elim (Bool-cases (b == 0)) [
    | inl nul ↦ stops (suc n) i dst s b back v e (ground arith) (rw nul) (rw nul)
    | inr nonzero ↦
        let one = be_read-Reads d r 0 b back s v e in
        goes (suc n) i dst s b back v e (ground arith) nonzero (
          read_sz_loop-IsString n (i + 1) (dst ++ (b ∷ [])) (be_read d w8 0 s).1 back (omega arith)
            one.open_still one.behind)
  ]

  -- For a `max_size` above 0, `read_sz` takes the bytes up to the first zero, which it takes too, or
  -- `max_size` bytes, or all there are, whichever comes first; the stream goes behind what it took and keeps its byte order.
  pub read_sz-IsString :
      (s : Stream S)
      → IsOpen d r s
      → 0 < max_size
      → IsString max_size [] (rest d r s) s (read_sz d max_size s)
  unfolding read_sz
  read_sz-IsString s v h = by_size max_size refl h
    where
      by_size :
          (n : ℕ)
          → max_size ≡ n
          → 0 < n
          → IsString n [] (rest d r s) s (read_sz_loop d max_size (suc n) 0 [] s)
      by_size zero e h = absurd (omega arith)
      by_size (suc n) e h = read_sz_loop-IsString n 0 [] s (rest d r s) (omega arith) v refl

-- A string that has no zero and fits is taken whole, with the zero behind it.
pub sz_prefix-string :
    (n : ℕ) (str back : List ℕ)
    → All (λ b. b ≢ 0) str
    → length str < n
    → (sz_prefix n (str ++ (0 ∷ back)) ≡ str ++ (0 ∷ [])) × (sz_behind n (str ++ (0 ∷ back)) ≡ back)
unfolding sz_prefix sz_behind
sz_prefix-string zero str back h k = absurd (omega arith)
sz_prefix-string (suc n) [] back h k = (refl, refl)
sz_prefix-string (suc n) (b ∷ str) back h k =
    let nonzero : (b == 0) ≡ false = ground (arith, h.0) in
    let (front, rear) = sz_prefix-string n str back h.1 (omega arith) in
    rw nonzero (ap (λ l. b ∷ l) front, rear)

-- A string that fits into `max_size` bytes with its zero is read whole: `read_sz` gives the string and
-- the zero, and the stream goes behind the zero.
pub read_sz-string :
    {S : Type 0} (d : Device S) (r : IsReader d) (max_size : ℕ) (s : Stream S) (str back : List ℕ)
    → IsOpen d r s
    → All (λ b. b ≢ 0) str
    → length str < max_size
    → rest d r s ≡ str ++ (0 ∷ back)
    → let (dst, s') = read_sz d max_size s in
      (dst ≡ str ++ (0 ∷ [])) × (rest d r s' ≡ back) × (s'.encoding ≡ s.encoding)
read_sz-string d r max_size s str back v h k e =
    let out = read_sz-IsString d r max_size s v (omega arith) in
    let (front, rear) = sz_prefix-string max_size str back h k in
    (
      out.taken ∙ ap (sz_prefix max_size) e ∙ front,
      out.behind ∙ ap (sz_behind max_size) e ∙ rear,
      out.order,
    )
