-- ===== src/Dwarf/Abbreviations/Lookup.antt =====
-- `getDeclaration` of dwarf/CDWARFAbbreviationTable.cpp after `parse`.
use mach_olib.Common.{
  ℕ, suc, ◌+◌, ◌-◌, ◌<◌, ◌≡◌, refl, sym, ap, ◌∙◌, arith, ◌==◌, ==_iff, ltb, if◌then◌else◌, Bool,
  true, false, Bool-cases, inl, inr, Option, none, some, List, [], ◌∷◌, ◌++◌, length, length-append,
  All,
}
use mathlib.Core.List.{append_assoc}
use mach_olib.Io.Platform.{Platform}
use mach_olib.Io.Stream.{Device, Stream, size, position}
use mach_olib.Io.Stream.Laws.{IsReader, rest, IsOpen, size-rest}
use mach_olib.Io.Leb.Images.{uleb_image, uleb_image-nonempty, not_at_end}
use mach_olib.Dwarf.Abbreviations.{
  Declaration, Table, blank, find, insert, get_declaration, parse_declaration, parse_declarations,
  parse_table,
}
use mach_olib.Dwarf.Abbreviations.Images.{
  Written, meant, IsWritten, declaration_image, declarations_image, first_with,
  declaration_image-nonempty, declarations_image-length,
}
use mach_olib.Dwarf.Abbreviations.Parsing.{parse_declaration-Finds, parse_declaration_null}

-- The first of two that is there.
abbrev or_else : Option Declaration → Option Declaration → Option Declaration
or_else (some decl) later = some decl
or_else none later = later

or_else-none : (a : Option Declaration) → or_else a none ≡ a
or_else-none none = refl
or_else-none (some decl) = refl

or_else_assoc : (a b e : Option Declaration) → or_else (or_else a b) e ≡ or_else a (or_else b e)
or_else_assoc none b e = refl
or_else_assoc (some decl) b e = refl

find-append : (c : ℕ) (t u : Table) → find c (t ++ u) ≡ or_else (find c t) (find c u)
unfolding find
find-append c [] u = refl
find-append c ((k, decl) ∷ t) u = elim (Bool-cases (k == c)) [
  | inl e ↦ rw e
  | inr e ↦ rw e (find-append c t u)
]

-- `insert` keeps what the table has for the code.
find-insert :
    (c k : ℕ) (decl : Declaration) (t : Table)
    → find c (insert k decl t) ≡ or_else (find c t) (if k == c then some decl else none)
unfolding insert
find-insert c k decl t = by_found (find k t) refl
  where
    by_found :
        (found : Option Declaration)
        → find k t ≡ found
        → find c (elim found [ some _ ↦ t | none ↦ t ++ ((k, decl) ∷ []) ])
          ≡ or_else (find c t) (if k == c then some decl else none)
    by_found none e = find-append c t ((k, decl) ∷ []) ∙ (unfold find in refl)
    by_found (some there) e = elim (Bool-cases (k == c)) [
      | inr e' ↦ rw e' (sym (or_else-none (find c t)))
      | inl e' ↦
          let same : find c t ≡ some there = ap (λ j. find j t) (sym ((==_iff k c).0 e')) ∙ e in
          rw (e', same)
    ]

-- The table with the declarations inserted in their order.
insert_all : List Written → Table → Table
insert_all [] t = t
insert_all (w ∷ ws) t = insert_all ws (insert w.code (meant w) t)

find-insert_all :
    (c : ℕ) (ws : List Written) (t : Table)
    → find c (insert_all ws t) ≡ or_else (find c t) (first_with c ws)
unfolding insert_all first_with
find-insert_all c [] t = sym (or_else-none (find c t))
find-insert_all c (w ∷ ws) t =
    find-insert_all c ws (insert w.code (meant w) t)
    ∙ ap (λ o. or_else o (first_with c ws)) (find-insert c w.code (meant w) t)
    ∙ or_else_assoc (find c t) (if w.code == c then some (meant w) else none) (first_with c ws)
    ∙ ap (or_else (find c t)) (here (w.code == c))
  where
    here :
        (b : Bool)
        → or_else (if b then some (meant w) else none) (first_with c ws)
          ≡ (if b then some (meant w) else first_with c ws)
    here true = refl
    here false = refl

module _ (p : Platform) {S : Type 0} (d : Device S) (r : IsReader d) where
  -- The rounds of `parse` over declarations that stand in the stream.
  record Walked (ws : List Written) (fuel : ℕ) (b : Bool) (table : Table) (back : List ℕ)
      (s : Stream S) : Type 0 where
    end : Stream S
    ret_code : Bool
    kept : b ≡ true → ret_code ≡ true
    rounds :
        parse_declarations p d (length ws + fuel) (b, table) s
        ≡ parse_declarations p d fuel (ret_code, insert_all ws table) end
    behind : rest d r end ≡ back
    order : end.encoding ≡ s.encoding
    open_still : IsOpen d r end

  walked :
      (ws : List Written) (fuel : ℕ) (b : Bool) (table : Table) (back : List ℕ) (s : Stream S)
      → All IsWritten ws
      → IsOpen d r s
      → rest d r s ≡ declarations_image ws ++ back
      → Walked ws fuel b table back s
  unfolding insert_all declarations_image
  walked [] fuel b table back s i v e =
      let none_yet : 0 + fuel ≡ fuel = omega arith in
      record {
        end = s;
        ret_code = b;
        kept = λ h. h;
        rounds = ap (λ f. parse_declarations p d f (b, table) s) none_yet;
        behind = e;
        order = refl;
        open_still = v;
      }
  walked (w ∷ ws) fuel b table back s i v e =
      let standing = e ∙ append_assoc (declaration_image w) (declarations_image ws) back in
      let one = parse_declaration-Finds p d r w (declarations_image ws ++ back) s i.0 v standing in
      let going : ltb (position d s) (size d s) ≡ true = not_at_end p d r s v (
        omega (
          arith,
          ap length standing,
          length-append (declaration_image w) (declarations_image ws ++ back),
          declaration_image-nonempty w,
        )) in
      let later =
        walked ws fuel true (insert w.code (meant w) table) back (parse_declaration p d blank s).1
          i.1 one.open_still one.behind in
      let count : suc (length ws) + fuel ≡ suc (length ws + fuel) = omega arith in
      record {
        end = later.end;
        ret_code = later.ret_code;
        kept = λ _. later.kept refl;
        rounds =
            ap (λ f. parse_declarations p d f (b, table) s) count
            ∙ (round (length ws + fuel) b table w s one.result going)
            ∙ later.rounds;
        behind = later.behind;
        order = later.order ∙ one.order;
        open_still = later.open_still;
      }
    where
      round :
          (n : ℕ) (b : Bool) (table : Table) (w : Written) (s : Stream S)
          → (parse_declaration p d blank s).0 ≡ (true, meant w)
          → ltb (position d s) (size d s) ≡ true
          → parse_declarations p d (suc n) (b, table) s
            ≡ parse_declarations p d n
                (true, insert w.code (meant w) table)
                (parse_declaration p d blank s).1
      round n b table w s found going =
          unfold parse_declarations in
          rw (
            going,
            ap (λ (x : Bool × Declaration). x.0) found,
            ap (λ (x : Bool × Declaration). x.1) found,
          )

  -- Fuel for as many rounds as the stream has bytes is enough for the declarations and one round more.
  enough :
      (ws : List Written) (back : List ℕ) (s : Stream S)
      → IsOpen d r s
      → rest d r s ≡ declarations_image ws ++ back
      → 0 < length back
      → size d s ≡ length ws + suc (size d s - length ws - 1)
  enough ws back s v e h = omega (
    arith,
    size-rest d r s v,
    ap length e,
    length-append (declarations_image ws) back,
    declarations_image-length ws,
  )

  -- Declarations that stand in a readable stream, each with a code and a tag below 2^32 and with
  -- attributes and forms below 2^16, none of them zero, and a zero behind the last: `parse` of a new
  -- table reads them and the zero and no more, and `getDeclaration` of a code then gives the first of
  -- the declarations with that code, or NULL where there is none; but `parse` returns false.
  pub get_declaration-parse_table :
      (ws : List Written) (code : ℕ) (back : List ℕ) (s : Stream S)
      → All IsWritten ws
      → IsOpen d r s
      → rest d r s ≡ declarations_image ws ++ (uleb_image 0 ++ back)
      → let ((ret_code, table), s') = parse_table p d [] s in
        (get_declaration code table ≡ first_with code ws)
        × (rest d r s' ≡ back)
        × (ret_code ≡ false)
  unfolding parse_table get_declaration
  get_declaration-parse_table ws code back s i v e =
      let more : 0 < length (uleb_image 0 ++ back) =
        omega (arith, length-append (uleb_image 0) back, uleb_image-nonempty 0) in
      let extra : ℕ = size d s - length ws - 1 in
      let walk = walked ws (suc extra) true [] (uleb_image 0 ++ back) s i v e in
      let null = parse_declaration_null p d r back walk.end walk.open_still walk.behind in
      let going =
        not_at_end p d r walk.end walk.open_still (omega (arith, more, ap length walk.behind)) in
      let last : parse_declarations p d (suc extra) (walk.ret_code, insert_all ws []) walk.end
          ≡ ((false, insert_all ws []), (parse_declaration p d blank walk.end).1) =
        unfold parse_declarations in rw (going, ap (λ (x : Bool × Declaration). x.0) null.result) in
      rw (enough ws (uleb_image 0 ++ back) s v e more, walk.rounds, last)
        (find-insert_all code ws [], null.behind, refl)
