-- ===== src/Io/Substream/Laws.antt =====
-- A window that lies within its parent is readable, and what it gives is what the parent holds there.
use mach_olib.Common.{
  ℕ, false, false≢true, ◌+◌, ◌-◌, ◌^◌, ◌≤◌, ◌<◌, ◌≡◌, sym, ap, ◌∙◌, arith, min, ◌==◌, ==_iff, ltb,
  Bool-cases, inl, inr, List, [], length, take, drop, drop-take, drop-drop, take-take-min,
  length-take, ltb→lt, ltb→le, take-nil, drop-length, length-drop,
}
use mach_olib.Io.Memory.{sub64}
use mach_olib.Io.Memory.Laws.{sub64-eq}
use mach_olib.Io.Stream.{Device}
use mach_olib.Io.Stream.Laws.{IsReader}
use mach_olib.Io.Substream.{Substream, add64, seek_substream, read_substream, substream_device}

module _ {S : Type 0} (d : Device S) (r : IsReader d) where
  pub record IsValid (s : Substream S) : Type 0 where
    pub parent_valid : r.IsValid s.parent
    pub bound : s.position ≤ s.size
    pub within : s.start + s.size ≤ length (r.contents s.parent)
    pub small : s.start + s.size < 2 ^ 64

  -- The window's part of the parent.
  abbrev pub contents : Substream S → List ℕ
  contents s = take s.size (drop s.start (r.contents s.parent))

  pub length-contents : (s : Substream S) → IsValid s → length (contents s) ≡ s.size
  length-contents s v = omega (
    arith,
    length-take s.size (drop s.start (r.contents s.parent)),
    length-drop s.start (r.contents s.parent),
  )

  -- A read of the parent at the window's position.
  at_parent :
      (n : ℕ) (s : Substream S)
      → IsValid s
      → s.position < s.size
      → let moved = (d.seek (s.start + s.position) s.parent).1 in
        (d.read (min (s.size - s.position) n) moved).0 ≡ take n (drop s.position (contents s))
  at_parent n s v h =
      let at : ℕ = s.start + s.position in
      let moved : S = (d.seek at s.parent).1 in
      let all : List ℕ = r.contents s.parent in
      r.read_bytes (min (s.size - s.position) n) moved (r.seek-IsValid at s.parent v.parent_valid)
      ∙ ap (λ p. take (min (s.size - s.position) n) (drop p (r.contents moved)))
          (r.seek_position at s.parent v.parent_valid (omega arith))
      ∙ ap (λ l. take (min (s.size - s.position) n) (drop at l))
          (r.contents-seek at s.parent v.parent_valid)
      ∙ sym (take-take-min (s.size - s.position) n (drop at all))
      ∙ ap (λ l. take n (take (s.size - s.position) l)) (sym (drop-drop s.position s.start all))
      ∙ ap (take n) (sym (drop-take s.position s.size (drop s.start all)))

  -- What a read of the window does, said as equations.
  pub record IsRead (n : ℕ) (s : Substream S) (out : List ℕ × Substream S) : Type 0 where
    pub bytes : out.0 ≡ take n (drop s.position (contents s))
    pub moved : out.1.position ≡ s.position + length out.0
    pub same : contents out.1 ≡ contents s
    pub valid : IsValid out.1

  -- At the end of the window nothing is left.
  at_end :
      (n : ℕ) (s : Substream S)
      → IsValid s
      → s.size ≤ s.position
      → take n (drop s.position (contents s)) ≡ []
  at_end n s v h =
      ap (take n) (drop-length s.position (contents s) (omega (arith, length-contents s v)))
      ∙ take-nil n

  none_asked : (n : ℕ) (s : Substream S) → s.size ≤ s.position → min (s.size - s.position) n ≡ 0
  none_asked n s h = omega arith

  bytes_read :
      (n : ℕ) (s : Substream S)
      → IsValid s
      → let moved = (d.seek (s.start + s.position) s.parent).1 in
        (d.read (min (s.size - s.position) n) moved).0 ≡ take n (drop s.position (contents s))
  bytes_read n s v = elim (Bool-cases (ltb s.position s.size)) [
    | inl e ↦ at_parent n s v (ltb→lt s.position s.size e)
    | inr e ↦
        let moved : S = (d.seek (s.start + s.position) s.parent).1 in
        let none_left : s.size ≤ s.position = ltb→le s.position s.size e in
        r.read_bytes (min (s.size - s.position) n) moved
          (r.seek-IsValid (s.start + s.position) s.parent v.parent_valid)
        ∙ ap (λ k. take k (drop (d.position moved) (r.contents moved))) (none_asked n s none_left)
        ∙ sym (at_end n s v none_left)
  ]

  there-IsRead :
      (n : ℕ) (s : Substream S)
      → IsValid s
      → let out = d.read (min (s.size - s.position) n) (d.seek (s.start + s.position) s.parent).1 in
        IsRead n s (out.0, record s { parent = out.1; position = add64 s.position (length out.0) })
  there-IsRead n s v =
      let at : ℕ = s.start + s.position in
      let moved : S = (d.seek at s.parent).1 in
      let k : ℕ = min (s.size - s.position) n in
      let out : List ℕ × S = d.read k moved in
      let open_ : r.IsValid moved = r.seek-IsValid at s.parent v.parent_valid in
      let all : r.contents out.1 ≡ r.contents s.parent =
        r.contents-read k moved open_ ∙ r.contents-seek at s.parent v.parent_valid in
      let count : length out.0 ≤ s.size - s.position = omega (
        arith,
        ap length (bytes_read n s v),
        length-take n (drop s.position (contents s)),
        length-drop s.position (contents s),
        length-contents s v,
      ) in
      let sum : add64 s.position (length out.0) ≡ s.position + length out.0 = omega arith in
      record {
        bytes = bytes_read n s v;
        moved = sum;
        same = ap (λ l. take s.size (drop s.start l)) all;
        valid = record {
          parent_valid = r.read-IsValid k moved open_;
          bound = omega arith;
          within = omega (arith, ap length all);
          small = v.small;
        };
      }

  -- The parent did not take the position: that happens at the end of the window only.
  elsewhere-IsRead :
      (n : ℕ) (s : Substream S)
      → IsValid s
      → ((d.seek (s.start + s.position) s.parent).0 == s.start + s.position) ≡ false
      → IsRead n s ([], record s { parent = (d.seek (s.start + s.position) s.parent).1 })
  elsewhere-IsRead n s v e =
      let at : ℕ = s.start + s.position in
      let all : r.contents (d.seek at s.parent).1 ≡ r.contents s.parent =
        r.contents-seek at s.parent v.parent_valid in
      record {
        bytes = elim (Bool-cases (ltb s.position s.size)) [
          | inl k ↦ absurd (
              false≢true (
                sym e
                ∙ (==_iff (d.seek at s.parent).0 at).1 (
                    r.seek_result at s.parent v.parent_valid
                      (omega (arith, ltb→lt s.position s.size k)))))
          | inr k ↦ sym (at_end n s v (ltb→le s.position s.size k))
        ];
        moved = omega arith;
        same = ap (λ l. take s.size (drop s.start l)) all;
        valid = record {
          parent_valid = r.seek-IsValid at s.parent v.parent_valid;
          bound = v.bound;
          within = omega (arith, ap length all);
          small = v.small;
        };
      }

  -- A read of at most `n` bytes of a window that lies within its readable parent gives the bytes of
  -- the parent that the window shows from the position on, as far as it has them, moves the position by
  -- as many, and leaves the window's content and its well-formedness as they were.
  pub read_substream-IsRead :
      (n : ℕ) (s : Substream S) → IsValid s → IsRead n s (read_substream d n s)
  unfolding read_substream
  read_substream-IsRead n s v =
      let start_small : add64 s.start s.position ≡ s.start + s.position = omega arith in
      let size_small : sub64 s.size s.position ≡ s.size - s.position =
        sub64-eq s.size s.position v.bound (omega arith) in
      elim (Bool-cases ((d.seek (s.start + s.position) s.parent).0 == s.start + s.position)) [
        | inl e ↦ rw (start_small, size_small, e) (there-IsRead n s v)
        | inr e ↦ rw (start_small, size_small, e) (elsewhere-IsRead n s v e)
      ]

  pub seek-IsValid : (o : ℕ) (s : Substream S) → IsValid s → IsValid (seek_substream d o s).1
  unfolding seek_substream
  seek-IsValid o s v = ground arith

  pub seek_same : (o : ℕ) (s : Substream S) → contents (seek_substream d o s).1 ≡ contents s
  unfolding seek_substream
  seek_same o s = ground arith

  pub seek_within :
      (o : ℕ) (s : Substream S)
      → o < s.size
      → ((seek_substream d o s).0 ≡ o) × ((seek_substream d o s).1.position ≡ o)
  unfolding seek_substream
  seek_within o s h = ground arith

  -- A window of a readable stream is a readable stream, whose content is the bytes of its parent from
  -- `start` on, `size` of them; `IsValid` says that the window lies within the parent.
  unfoldable pub substream_reader : IsReader (substream_device d)
  unfolding substream_device
  substream_reader = record {
    IsValid = IsValid;
    contents = contents;
    size-contents = λ s v. sym (length-contents s v);
    position_bound = λ s v. omega (arith, length-contents s v);
    read_bytes = λ n s v. (read_substream-IsRead n s v).bytes;
    read_position = λ n s v. (read_substream-IsRead n s v).moved;
    contents-read = λ n s v. (read_substream-IsRead n s v).same;
    read-IsValid = λ n s v. (read_substream-IsRead n s v).valid;
    seek_result = λ o s v h. (seek_within o s (omega (arith, length-contents s v))).0;
    seek_position = λ o s v h. (seek_within o s (omega (arith, length-contents s v))).1;
    contents-seek = λ o s v. seek_same o s;
    seek-IsValid = seek-IsValid;
  }
