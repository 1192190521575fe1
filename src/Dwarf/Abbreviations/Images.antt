-- ===== src/Dwarf/Abbreviations/Images.antt =====
-- What stands in a file for the declarations of dwarf/CDWARFAbbreviationTable.cpp: every number in as
-- few groups as it needs, the attributes ended by two zeros, the declarations by one.
use mach_olib.Common.{
  ℕ, ◌^◌, ◌≤◌, ◌<◌, ◌==◌, if◌then◌else◌, arith, Option, none, some, List, [], ◌∷◌, ◌++◌, map,
  length, length-append, All,
}
use mach_olib.Io.Leb.Images.{uleb_image, uleb_image-nonempty}
use mach_olib.Dwarf.Abbreviations.{Attribute, Declaration, attribute_of}

-- A declaration with the numbers that stand for its attributes and their forms.
pub record Written : Type 0 where
  pub code : ℕ
  pub tag : ℕ
  pub children : ℕ
  pub attributes : List (ℕ × ℕ)

abbrev pub attribute_meant : ℕ × ℕ → Attribute
attribute_meant (attr, form) = attribute_of attr form

abbrev pub meant : Written → Declaration
meant w = record {
  code = w.code;
  tag = w.tag;
  has_children = w.children;
  attributes = map attribute_meant w.attributes;
}

abbrev pub IsAttribute : ℕ × ℕ → Type 0
IsAttribute (attr, form) = (0 < attr) × (attr < 2 ^ 16) × (0 < form) × (form < 2 ^ 16)

-- Codes and tags of 32 bits, attributes and forms of 16, and none of them zero.
pub record IsWritten (w : Written) : Type 0 where
  pub code_positive : 0 < w.code
  pub code_bound : w.code < 2 ^ 32
  pub tag_positive : 0 < w.tag
  pub tag_bound : w.tag < 2 ^ 32
  pub attributes_fit : All IsAttribute w.attributes

unfoldable pub attributes_image : List (ℕ × ℕ) → List ℕ
attributes_image [] = uleb_image 0 ++ uleb_image 0
attributes_image ((attr, form) ∷ l) = uleb_image attr ++ (uleb_image form ++ attributes_image l)

unfoldable pub declaration_image : Written → List ℕ
declaration_image w =
    uleb_image w.code ++ (uleb_image w.tag ++ (w.children ∷ attributes_image w.attributes))

unfoldable pub declarations_image : List Written → List ℕ
declarations_image [] = []
declarations_image (w ∷ ws) = declaration_image w ++ declarations_image ws

-- The first declaration with a code.
unfoldable pub first_with : ℕ → List Written → Option Declaration
first_with code [] = none
first_with code (w ∷ ws) =
    let later = first_with code ws in if w.code == code then some (meant w) else later

pub attributes_image-length : (l : List (ℕ × ℕ)) → length l < length (attributes_image l)
unfolding attributes_image
attributes_image-length [] =
    omega (arith, length-append (uleb_image 0) (uleb_image 0), uleb_image-nonempty 0)
attributes_image-length ((attr, form) ∷ l) = omega (
  arith,
  attributes_image-length l,
  length-append (uleb_image attr) (uleb_image form ++ attributes_image l),
  length-append (uleb_image form) (attributes_image l),
  uleb_image-nonempty attr,
)

pub declaration_image-nonempty : (w : Written) → 0 < length (declaration_image w)
unfolding declaration_image
declaration_image-nonempty w = omega (
  arith,
  length-append (uleb_image w.code)
      (uleb_image w.tag ++ (w.children ∷ attributes_image w.attributes)),
  uleb_image-nonempty w.code,
)

pub declarations_image-length : (ws : List Written) → length ws ≤ length (declarations_image ws)
unfolding declarations_image
declarations_image-length [] = omega arith
declarations_image-length (w ∷ ws) = omega (
  arith,
  declarations_image-length ws,
  length-append (declaration_image w) (declarations_image ws),
  declaration_image-nonempty w,
)
