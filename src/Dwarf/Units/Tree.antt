-- ===== src/Dwarf/Units/Tree.antt =====
-- The searches of dwarf/CDWARFCompileUnit.cpp for the parents and the children of an entry, by the
-- depths that the entries have in the table.

pub mod Parents
pub mod Descendants
use mach_olib.Common.{
  ℕ, zero, suc, ◌+◌, ◌-◌, ◌%◌, ◌^◌, ◌==◌, ltb, leb, if◌then◌else◌, Option, none, some, List, [],
  ◌∷◌, ◌++◌, get_elem?, drop,
}
use mach_olib.Dwarf.Units.{Node, CompileUnit}

-- `kINVALID_IDX`
abbrev pub invalid_idx : ℕ
invalid_idx = 2 ^ 32 - 1

-- `getNodeByIdx`, which gives the end for an invalid index.
abbrev pub node_by_idx : ℕ → CompileUnit → Option Node
node_by_idx idx u = if idx == invalid_idx then none else get_elem? u.entries idx

-- The loop of `getParentsIdxs`: the `i` nodes before the entry from the last to the first, each with
-- its index. `depth` is the depth that the next parent may have.
unfoldable pub parents_from : List Node → ℕ → ℕ → List ℕ
parents_from nodes zero depth = []
parents_from nodes (suc i) depth =
    let outer = parents_from nodes i (depth - 1) in
    let same = parents_from nodes i depth in
    elim (get_elem? nodes i) [
      | none ↦ []
      | some n ↦ if leb n.depth depth then (if depth == 0 then i ∷ [] else i ∷ outer) else same
    ]

unfoldable pub parents_idxs : ℕ → CompileUnit → List ℕ
unfolding parents_from
parents_idxs idx u = elim (node_by_idx idx u) [
  | none ↦ []
  | some n ↦ if ltb 0 n.depth then parents_from u.entries idx (n.depth - 1) else []
]

-- The loop of `getChildrensIdxs`, from index `i` on.
unfoldable pub children_from : ℕ → ℕ → List Node → List ℕ
children_from depth i [] = []
children_from depth i (n ∷ nodes) =
    let more = children_from depth (i + 1) nodes in if n.depth == depth then i ∷ more else []

unfoldable pub children_idxs : ℕ → CompileUnit → List ℕ
unfolding children_from
children_idxs idx u = elim (node_by_idx idx u) [
  | none ↦ []
  | some n ↦
      let depth = (n.depth + 1) % 2 ^ 32 in
      if ltb 0 n.depth then children_from depth (idx + 1) (drop (idx + 1) u.entries) else []
]

-- The loop of `getAllChildrensIdxs`.
unfoldable pub deeper_from : ℕ → ℕ → List Node → List ℕ
deeper_from depth i [] = []
deeper_from depth i (n ∷ nodes) =
    let more = deeper_from depth (i + 1) nodes in if leb depth n.depth then i ∷ more else []

unfoldable pub all_children_idxs : ℕ → CompileUnit → List ℕ
unfolding deeper_from
all_children_idxs idx u = elim (node_by_idx idx u) [
  | none ↦ []
  | some n ↦
      let depth = (n.depth + 1) % 2 ^ 32 in
      if ltb 0 n.depth then deeper_from depth (idx + 1) (drop (idx + 1) u.entries) else []
]
