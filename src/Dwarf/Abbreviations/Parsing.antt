-- ===== src/Dwarf/Abbreviations/Parsing.antt =====
-- `parse` of dwarf/CDWARFAbbreviationTable.cpp where declarations stand in a readable stream.
use mach_olib.Common.{
  ℕ, zero, suc, ◌%◌, ◌^◌, ◌<◌, ◌≡◌, refl, sym, ap, ◌∙◌, arith, ◌==◌, ltb, if◌then◌else◌, not, ◌&&◌,
  Bool, true, false, lt→ltb, List, [], ◌∷◌, ◌++◌, map, length, length-append, All,
}
use mathlib.Core.List.{append-nil, append_assoc}
use mach_olib.Io.Platform.{Platform}
use mach_olib.Io.Stream.{Device, Stream, w8, size, position, t_read}
use mach_olib.Io.Stream.Laws.{IsReader, rest, IsOpen, size-rest}
use mach_olib.Io.Stream.Bytes.{t_read-Reads}
use mach_olib.Io.Leb.{read_uleb128}
use mach_olib.Io.Leb.Images.{uleb_image, uleb_image-nonempty, read_uleb128-uleb_image, not_at_end}
use mach_olib.Dwarf.Abbreviations.{
  Attribute, Declaration, blank, attribute_of, read_attributes, parse_rest, parse_declaration,
}
use mach_olib.Dwarf.Abbreviations.Images.{
  Written, attribute_meant, meant, IsAttribute, IsWritten, attributes_image, declaration_image,
  attributes_image-length,
}

nonzero : (v : ℕ) → 0 < v → (v == 0) ≡ false
nonzero v h = ground arith

-- What is parsed of a declaration, with the attributes in it.
abbrev completed : ℕ → Written → List Attribute → Bool × Declaration
completed code w attributes =
    (true, record { code = code; tag = w.tag; has_children = w.children; attributes = attributes })

module _ (p : Platform) {S : Type 0} (d : Device S) (r : IsReader d) where
  -- What was read, and the stream behind it.
  pub record Finds {A : Type 0} (found : A) (back : List ℕ) (s : Stream S) (out : A × Stream S)
      : Type 0 where
    pub result : out.0 ≡ found
    pub behind : rest d r out.1 ≡ back
    pub order : out.1.encoding ≡ s.encoding
    pub open_still : IsOpen d r out.1

  attributes_step :
      (fuel : ℕ) (acc : List Attribute) (attr form : ℕ) (back : List ℕ) (s : Stream S)
      → attr < 2 ^ 16
      → form < 2 ^ 16
      → IsOpen d r s
      → rest d r s ≡ uleb_image attr ++ (uleb_image form ++ back)
      → (t : Stream S) × (read_attributes p d (suc fuel) acc s ≡ (
          if not (attr == 0) && not (form == 0)
          then read_attributes p d fuel (acc ++ (attribute_of attr form ∷ [])) t
          else (acc, t)))
        × (rest d r t ≡ back)
        × (t.encoding ≡ s.encoding)
        × IsOpen d r t
  unfolding read_attributes
  attributes_step fuel acc attr form back s ha hf v e =
      let one = read_uleb128-uleb_image p d r attr (uleb_image form ++ back) s (omega arith) v e in
      let s' : Stream S = (read_uleb128 p d s).1 in
      let two =
        read_uleb128-uleb_image p d r form back s' (omega arith) one.open_still one.behind in
      let going : ltb (position d s) (size d s) ≡ true = not_at_end p d r s v (
        omega (
          arith,
          ap length e,
          length-append (uleb_image attr) (uleb_image form ++ back),
          uleb_image-nonempty attr,
        )) in
      let small : attr % 2 ^ 16 ≡ attr = omega arith in
      let small' : form % 2 ^ 16 ≡ form = omega arith in
      (
        (read_uleb128 p d s').1,
        rw (going, one.value, two.value, small, small') refl,
        two.behind,
        two.order ∙ one.order,
        two.open_still,
      )

  read_attributes-Finds :
      (l : List (ℕ × ℕ)) (fuel : ℕ) (acc : List Attribute) (back : List ℕ) (s : Stream S)
      → length l < fuel
      → All IsAttribute l
      → IsOpen d r s
      → rest d r s ≡ attributes_image l ++ back
      → Finds (acc ++ map attribute_meant l) back s (read_attributes p d fuel acc s)
  unfolding attributes_image
  read_attributes-Finds l zero acc back s h fits v e = absurd (omega arith)
  read_attributes-Finds [] (suc fuel) acc back s h fits v e =
      let (t, same, behind, order, still) =
        attributes_step fuel acc 0 0 back s (omega arith) (omega arith) v
          (e ∙ append_assoc (uleb_image 0) (uleb_image 0) back) in
      rw same (record {
        result = sym (append-nil acc);
        behind = behind;
        order = order;
        open_still = still;
      })
  read_attributes-Finds ((attr, form) ∷ l) (suc fuel) acc back s h fits v e =
      let (positive, below, positive', below') = fits.0 in
      let (t, same, behind, order, still) =
        attributes_step fuel acc attr form (attributes_image l ++ back) s below below' v (
          e
          ∙ append_assoc (uleb_image attr) (uleb_image form ++ attributes_image l) back
          ∙ ap (λ t. uleb_image attr ++ t)
              (append_assoc (uleb_image form) (attributes_image l) back)) in
      let later =
        read_attributes-Finds l fuel (acc ++ (attribute_of attr form ∷ [])) back t (omega arith)
          fits.1 still behind in
      rw (same, nonzero attr positive, nonzero form positive')
        (record {
          result =
              later.result ∙ append_assoc acc (attribute_of attr form ∷ []) (map attribute_meant l);
          behind = later.behind;
          order = later.order ∙ order;
          open_still = later.open_still;
        })

  parse_rest-Finds :
      (w : Written) (decl : Declaration) (back : List ℕ) (s : Stream S)
      → IsWritten w
      → decl.attributes ≡ []
      → IsOpen d r s
      → rest d r s ≡ uleb_image w.tag ++ (w.children ∷ (attributes_image w.attributes ++ back))
      → Finds
          (completed decl.code w (map attribute_meant w.attributes))
          back
          s
          (parse_rest p d decl s)
  unfolding parse_rest
  parse_rest-Finds w decl back s i none_yet v e =
      let one =
        read_uleb128-uleb_image p d r w.tag (w.children ∷ (attributes_image w.attributes ++ back)) s
          i.tag_bound v e in
      let s1 : Stream S = (read_uleb128 p d s).1 in
      let two =
        t_read-Reads d r decl.has_children w.children (attributes_image w.attributes ++ back) s1
          one.open_still one.behind in
      let s2 : Stream S = (t_read d w8 decl.has_children s1).1 in
      let three =
        read_attributes-Finds w.attributes (size d s2) decl.attributes back s2
          (omega (
            arith,
            attributes_image-length w.attributes,
            size-rest d r s2 two.open_still,
            ap length two.behind,
            length-append (attributes_image w.attributes) back,
          ))
          i.attributes_fit two.open_still two.behind in
      let small : w.tag % 2 ^ 32 ≡ w.tag = omega (arith, i.tag_bound) in
      let one_byte : ltb 0 (t_read d w8 decl.has_children s1).0.0 ≡ true =
        lt→ltb 0 _ (omega (arith, two.count)) in
      rw (one.some_read, one_byte, one.value, small, nonzero w.tag i.tag_positive, two.byte)
        (record {
          result =
              ap (completed decl.code w)
                (three.result ∙ ap (λ l. l ++ map attribute_meant w.attributes) none_yet);
          behind = three.behind;
          order = three.order ∙ two.order ∙ one.order;
          open_still = three.open_still;
        })

  -- Where a declaration stands, it is parsed as it is meant, and the stream goes behind it.
  pub parse_declaration-Finds :
      (w : Written) (back : List ℕ) (s : Stream S)
      → IsWritten w
      → IsOpen d r s
      → rest d r s ≡ declaration_image w ++ back
      → Finds (true, meant w) back s (parse_declaration p d blank s)
  unfolding parse_declaration declaration_image
  parse_declaration-Finds w back s i v e =
      let behind_code : List ℕ =
        uleb_image w.tag ++ (w.children ∷ (attributes_image w.attributes ++ back)) in
      let standing : rest d r s ≡ uleb_image w.code ++ behind_code =
        e
        ∙ append_assoc (uleb_image w.code)
            (uleb_image w.tag ++ (w.children ∷ attributes_image w.attributes)) back
        ∙ ap (λ t. uleb_image w.code ++ t)
            (append_assoc (uleb_image w.tag) (w.children ∷ attributes_image w.attributes) back) in
      let one = read_uleb128-uleb_image p d r w.code behind_code s i.code_bound v standing in
      let small : w.code % 2 ^ 32 ≡ w.code = omega (arith, i.code_bound) in
      let later =
        parse_rest-Finds w (record blank { code = w.code }) back (read_uleb128 p d s).1 i refl
          one.open_still one.behind in
      rw (one.some_read, one.value, small, nonzero w.code i.code_positive)
        (record {
          result = later.result;
          behind = later.behind;
          order = later.order ∙ one.order;
          open_still = later.open_still;
        })

  -- The zero that ends the declarations is no declaration.
  pub parse_declaration_null :
      (back : List ℕ) (s : Stream S)
      → IsOpen d r s
      → rest d r s ≡ uleb_image 0 ++ back
      → Finds (false, blank) back s (parse_declaration p d blank s)
  unfolding parse_declaration
  parse_declaration_null back s v e =
      let one = read_uleb128-uleb_image p d r 0 back s (omega arith) v e in
      rw (one.some_read, one.value)
        (record {
          result = refl;
          behind = one.behind;
          order = one.order;
          open_still = one.open_still;
        })
