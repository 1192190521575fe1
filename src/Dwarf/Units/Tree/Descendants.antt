-- ===== src/Dwarf/Units/Tree/Descendants.antt =====
-- `getAllChildrensIdxs` of dwarf/CDWARFCompileUnit.cpp: the entries behind an entry that are deeper.
use mach_olib.Common.{
  ℕ, ◌+◌, ◌-◌, ◌%◌, ◌^◌, ◌≤◌, ◌<◌, ◌≡◌, ap, arith, leb, ltb, if◌then◌else◌, leb→le, leb→gt, lt→ltb,
  Bool-cases, inl, inr, none, some, List, [], ◌∷◌, drop,
}
use mach_olib.Dwarf.Units.{Node, CompileUnit}
use mach_olib.Dwarf.Units.Tree.{node_by_idx, deeper_from, all_children_idxs}

-- The indices from `i` on of the front of the nodes that are at least as deep as `depth`; behind it
-- stands a node that is not, or none.
pub data IsFront (depth : ℕ) : ℕ → List Node → List ℕ → Type 0 where
  at_end : (i : ℕ) → IsFront depth i [] []
  stopped :
      (i : ℕ) (n : Node) (nodes : List Node) → n.depth < depth → IsFront depth i (n ∷ nodes) []
  deeper :
      (i : ℕ) (n : Node) (nodes : List Node) (l : List ℕ)
      → depth ≤ n.depth
      → IsFront depth (i + 1) nodes l
      → IsFront depth i (n ∷ nodes) (i ∷ l)

deeper_from-IsFront :
    (depth i : ℕ) (nodes : List Node) → IsFront depth i nodes (deeper_from depth i nodes)
unfolding deeper_from
deeper_from-IsFront depth i [] = at_end i
deeper_from-IsFront depth i (n ∷ nodes) = elim (Bool-cases (leb depth n.depth)) [
  | inl e ↦ rw e (
      deeper i n nodes (deeper_from depth (i + 1) nodes) (leb→le depth n.depth e)
        (deeper_from-IsFront depth (i + 1) nodes))
  | inr e ↦ rw e (stopped i n nodes (leb→gt depth n.depth e))
]

-- `getAllChildrensIdxs` of an entry that is not a root, and not as deep as 2^32 - 1, gives the indices
-- of the entries behind it up to the first that is not deeper than it.
pub all_children_idxs-IsFront :
    (u : CompileUnit) (idx : ℕ) (n : Node)
    → node_by_idx idx u ≡ some n
    → 0 < n.depth
    → n.depth < 2 ^ 32 - 1
    → IsFront (n.depth + 1) (idx + 1) (drop (idx + 1) u.entries) (all_children_idxs idx u)
unfolding all_children_idxs
all_children_idxs-IsFront u idx n e positive bound =
    let behind : List Node = drop (idx + 1) u.entries in
    let small : (n.depth + 1) % 2 ^ 32 ≡ n.depth + 1 = omega arith in
    let found : all_children_idxs idx u
        ≡ (if ltb 0 n.depth then deeper_from ((n.depth + 1) % 2 ^ 32) (idx + 1) behind else []) =
      ap
        (λ o. elim o as (λ _. List ℕ) [
          | none ↦ []
          | some m ↦
              if ltb 0 m.depth then deeper_from ((m.depth + 1) % 2 ^ 32) (idx + 1) behind else []
        ])
        e in
    rw (found, lt→ltb 0 n.depth positive, small)
      (deeper_from-IsFront (n.depth + 1) (idx + 1) behind)
