-- ===== src/Dwarf/Lines/Sequences.antt =====
-- The rows of a line program: the sequences are independent, and the bounds of the table hold its rows.
use mach_olib.Common.{
  ℕ, ◌+◌, ◌-◌, ◌%◌, ◌^◌, ◌≤◌, ◌≡◌, refl, sym, ap, ◌∙◌, arith, true, List, [], ◌∷◌, ◌++◌, All,
  append-All,
}
use mathlib.Core.List.{append-nil, append_assoc}
use mach_olib.Io.Platform.{Platform}
use mach_olib.Dwarf.Lines.{
  Prologue, Row, reset, Machine, start, Opcode, special, copy, advance_pc, advance_line, set_file,
  set_column, fixed_advance_pc, set_isa, set_address, negate_stmt, set_basic_block, const_add_pc,
  set_prologue_end, set_epilogue_begin, end_sequence, skip, advance, remainder, address_advance,
  clear_flags, emit, widen, run_special, run, run_all,
}

-- A machine without rows, with the registers of another.
abbrev pub begun : Row → Machine
begun row = record start { row = row }

-- One opcode adds the rows that it adds to an empty table, and its registers are those it has there.
record Apart (c : Platform) (p : Prologue) (o : Opcode) (m : Machine) : Type 0 where
  added : (run c p o m).rows ≡ m.rows ++ (run c p o (begun m.row)).rows
  same : (run c p o m).row ≡ (run c p o (begun m.row)).row

run-Apart : (c : Platform) (p : Prologue) (o : Opcode) (m : Machine) → Apart c p o m
unfolding run run_special emit widen
run-Apart c p (special n) m = record { added = refl; same = refl }
run-Apart c p copy m = record { added = refl; same = refl }
run-Apart c p (advance_pc a) m = record { added = sym (append-nil m.rows); same = refl }
run-Apart c p (advance_line a) m = record { added = sym (append-nil m.rows); same = refl }
run-Apart c p (set_file a) m = record { added = sym (append-nil m.rows); same = refl }
run-Apart c p (set_column a) m = record { added = sym (append-nil m.rows); same = refl }
run-Apart c p (fixed_advance_pc a) m = record { added = sym (append-nil m.rows); same = refl }
run-Apart c p (set_isa a) m = record { added = sym (append-nil m.rows); same = refl }
run-Apart c p (set_address a) m = record { added = sym (append-nil m.rows); same = refl }
run-Apart c p negate_stmt m = record { added = sym (append-nil m.rows); same = refl }
run-Apart c p set_basic_block m = record { added = sym (append-nil m.rows); same = refl }
run-Apart c p const_add_pc m = record { added = sym (append-nil m.rows); same = refl }
run-Apart c p set_prologue_end m = record { added = sym (append-nil m.rows); same = refl }
run-Apart c p set_epilogue_begin m = record { added = sym (append-nil m.rows); same = refl }
run-Apart c p end_sequence m = record { added = refl; same = refl }
run-Apart c p skip m = record { added = sym (append-nil m.rows); same = refl }

run_all-rows :
    (c : Platform) (p : Prologue) (os : List Opcode) (m : Machine)
    → (run_all c p os m).rows ≡ m.rows ++ (run_all c p os (begun m.row)).rows
unfolding run_all
run_all-rows c p [] m = sym (append-nil m.rows)
run_all-rows c p (o ∷ os) m =
    let a = run-Apart c p o m in
    let b : Machine = run c p o (begun m.row) in
    run_all-rows c p os (run c p o m)
    ∙ ap (λ r. r ++ (run_all c p os (begun (run c p o m).row)).rows) a.added
    ∙ ap (λ r. (m.rows ++ b.rows) ++ (run_all c p os (begun r)).rows) a.same
    ∙ append_assoc m.rows b.rows (run_all c p os (begun b.row)).rows
    ∙ ap (λ r. m.rows ++ r) (sym (run_all-rows c p os b))

run_all-append :
    (c : Platform) (p : Prologue) (os more : List Opcode) (m : Machine)
    → run_all c p (os ++ more) m ≡ run_all c p more (run_all c p os m)
unfolding run_all
run_all-append c p [] more m = refl
run_all-append c p (o ∷ os) more m = run_all-append c p os more (run c p o m)

-- The rows of a line program that goes on behind the end of a sequence are the rows up to that end,
-- followed by the rows that the rest of the program makes from registers as `reset` leaves them: no
-- register and no flag of a sequence reaches the next one.
pub run_all-end_sequence :
    (c : Platform) (p : Prologue) (os more : List Opcode) (m : Machine)
    → (run_all c p (os ++ (end_sequence ∷ more)) m).rows
      ≡ (run_all c p (os ++ (end_sequence ∷ [])) m).rows
        ++ (run_all c p more (begun (reset p.default_is_stmt m.row))).rows
unfolding run_all run reset
run_all-end_sequence c p os more m =
    let ended : Machine = run c p end_sequence (run_all c p os m) in
    ap (λ t. t.rows) (run_all-append c p os (end_sequence ∷ more) m)
    ∙ run_all-rows c p more ended
    ∙ ap (λ t. t.rows ++ (run_all c p more (begun (reset p.default_is_stmt m.row))).rows)
        (sym (run_all-append c p os (end_sequence ∷ []) m))

-- The bounds of the table hold the row's address.
abbrev pub InBounds : Machine → Row → Type 0
InBounds m r = (m.min_addr ≤ r.address) × (r.address ≤ m.max_addr)

abbrev pub NotCopy : Opcode → Type 0
NotCopy copy = ⊥
NotCopy _ = Unit {_}

widened :
    (m n : Machine) (rs : List Row)
    → n.min_addr ≤ m.min_addr
    → m.max_addr ≤ n.max_addr
    → All (InBounds m) rs
    → All (InBounds n) rs
widened m n [] h k a = tt
widened m n (r ∷ rs) h k a = ((omega (arith, a.0.0), omega (arith, a.0.1)), widened m n rs h k a.1)

emitted :
    (m : Machine) (r last : Row)
    → All (InBounds m) m.rows
    → All (InBounds (record (emit r (widen r m)) { row = last })) (emit r (widen r m)).rows
unfolding emit widen
emitted m r last a =
    append-All (InBounds (record (emit r (widen r m)) { row = last })) m.rows (r ∷ [])
      (widened m (record (emit r (widen r m)) { row = last }) m.rows (omega arith) (omega arith) a)
      ((omega arith, omega arith), tt)

run-InBounds :
    (c : Platform) (p : Prologue) (o : Opcode) (m : Machine)
    → NotCopy o
    → All (InBounds m) m.rows
    → All (InBounds (run c p o m)) (run c p o m).rows
unfolding run run_special
run-InBounds c p copy m h a = absurd h
run-InBounds c p (special n) m h a =
    let adjust_opcode : ℕ = n - p.opcode_base in
    let line_offset : ℕ = p.line_base + remainder c p adjust_opcode in
    let row : Row =
      advance (address_advance c p adjust_opcode)
        (record m.row { line = (m.row.line + line_offset) % 2 ^ 32 }) in
    emitted m row (clear_flags row) a
run-InBounds c p end_sequence m h a =
    let row : Row = record m.row { end_sequence = true } in
    emitted m row (reset p.default_is_stmt row) a
run-InBounds c p (advance_pc x) m h a = a
run-InBounds c p (advance_line x) m h a = a
run-InBounds c p (set_file x) m h a = a
run-InBounds c p (set_column x) m h a = a
run-InBounds c p (fixed_advance_pc x) m h a = a
run-InBounds c p (set_isa x) m h a = a
run-InBounds c p (set_address x) m h a = a
run-InBounds c p negate_stmt m h a = a
run-InBounds c p set_basic_block m h a = a
run-InBounds c p const_add_pc m h a = a
run-InBounds c p set_prologue_end m h a = a
run-InBounds c p set_epilogue_begin m h a = a
run-InBounds c p skip m h a = a

-- After a line program without `DW_LNS_copy`, the least and the greatest address of the table hold the
-- address of every row.
pub run_all-InBounds :
    (c : Platform) (p : Prologue) (os : List Opcode) (m : Machine)
    → All NotCopy os
    → All (InBounds m) m.rows
    → All (InBounds (run_all c p os m)) (run_all c p os m).rows
unfolding run_all
run_all-InBounds c p [] m h a = a
run_all-InBounds c p (o ∷ os) m h a =
    run_all-InBounds c p os (run c p o m) h.1 (run-InBounds c p o m h.0 a)
