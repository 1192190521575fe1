-- ===== src/Dwarf/Units/Tree/Parents.antt =====
-- `getParentsIdxs` of dwarf/CDWARFCompileUnit.cpp on a table whose depths are those of a tree.
use mach_olib.Common.{
  ℕ, zero, suc, ◌+◌, ◌-◌, ◌≤◌, ◌<◌, ◌≡◌, sym, ap, ◌∙◌, arith, leb, ltb, ◌==◌, if◌then◌else◌, ltb→lt,
  ltb→le, leb→le, leb→gt, ==_iff, Bool-cases, inl, inr, false, none, some, some-injective, List, [],
  ◌∷◌, get_elem?, get-lt, get-some,
}
use mach_olib.Dwarf.Units.{Node, CompileUnit}
use mach_olib.Dwarf.Units.Tree.{node_by_idx, parents_from, parents_idxs}

nonzero : (v : ℕ) → (v == 0) ≡ false → 0 < v
nonzero v h = ground arith

module _ (nodes : List Node) where
  -- The depths of a tree in the order of its nodes: the first is 0, and none is more than one deeper
  -- than the node before it.
  pub record IsTree : Type 0 where
    pub root : (n : Node) → get_elem? nodes 0 ≡ some n → n.depth ≡ 0
    pub step :
        (i : ℕ) (m n : Node)
        → get_elem? nodes i ≡ some m
        → get_elem? nodes (suc i) ≡ some n
        → n.depth ≤ m.depth + 1

  -- The nodes in `ups` lead from the node at `j` to a root: each is the last one before the node below
  -- it that is not as deep, and it is one less deep.
  pub data IsChain : ℕ → Node → List ℕ → Type 0 where
    at_root : (j : ℕ) (n : Node) → n.depth ≡ 0 → IsChain j n []
    up :
        (j i : ℕ) (n m : Node) (ups : List ℕ)
        → i < j
        → get_elem? nodes i ≡ some m
        → n.depth ≡ suc m.depth
        → ((k : ℕ) (between : Node)
            → i < k
            → k < j
            → get_elem? nodes k ≡ some between
            → m.depth < between.depth)
        → IsChain i m ups
        → IsChain j n (i ∷ ups)

  abbrev Deeper : ℕ → ℕ → ℕ → Type 0
  Deeper depth i j =
      (k : ℕ) (m : Node) → i ≤ k → k < j → get_elem? nodes k ≡ some m → depth < m.depth

  -- The node before the next one that was passed over is not less deep than the parent must be.
  not_above :
      (i j depth : ℕ) (m n : Node)
      → IsTree
      → get_elem? nodes j ≡ some n
      → n.depth ≡ suc depth
      → suc i ≤ j
      → Deeper depth (suc i) j
      → get_elem? nodes i ≡ some m
      → depth ≤ m.depth
  not_above i j depth m n tree e en h deeper em = elim (Bool-cases (ltb (suc i) j)) [
    | inl inside ↦
        let (next, there) =
          get-some nodes (suc i) (omega (arith, get-lt nodes j n e, ltb→lt (suc i) j inside)) in
        omega (
          arith,
          deeper (suc i) next (omega arith) (ltb→lt (suc i) j inside) there,
          tree.step i m next em there,
        )
    | inr last ↦
        let same : suc i ≡ j = omega (arith, ltb→le (suc i) j last) in
        omega (arith, tree.step i m n em (ap (get_elem? nodes) same ∙ e))
  ]

  -- One round of the loop, at a node of the table.
  parents_step :
      (i depth : ℕ) (m : Node)
      → get_elem? nodes i ≡ some m
      → parents_from nodes (suc i) depth ≡ (
          if leb m.depth depth
          then (if depth == 0 then i ∷ [] else i ∷ parents_from nodes i (depth - 1))
          else parents_from nodes i depth)
  unfolding parents_from
  parents_step i depth m e =
      ap
        (λ o. elim o as (λ _. List ℕ) [
          | none ↦ []
          | some n ↦
              if leb n.depth depth
              then (if depth == 0 then i ∷ [] else i ∷ parents_from nodes i (depth - 1))
              else parents_from nodes i depth
        ])
        e

  climbs :
      (i j depth : ℕ) (n : Node)
      → IsTree
      → get_elem? nodes j ≡ some n
      → n.depth ≡ suc depth
      → i ≤ j
      → Deeper depth i j
      → IsChain j n (parents_from nodes i depth)
  climbs zero j depth n tree e en h deeper =
      let (first, there) = get-some nodes 0 (omega (arith, get-lt nodes j n e)) in
      elim (Bool-cases (ltb 0 j)) [
        | inl inside ↦ absurd (
            omega (
              arith,
              deeper 0 first (omega arith) (ltb→lt 0 j inside) there,
              tree.root first there,
            ))
        | inr last ↦
            let same : j ≡ 0 = omega (arith, ltb→le 0 j last) in
            absurd (omega (arith, tree.root n (ap (get_elem? nodes) (sym same) ∙ e)))
      ]
  climbs (suc i) j depth n tree e en h deeper =
      let (m, em) = get-some nodes i (omega (arith, get-lt nodes j n e)) in
      let above = not_above i j depth m n tree e en h deeper em in
      elim (Bool-cases (leb m.depth depth)) [
        | inl a ↦
            let exact : n.depth ≡ suc m.depth = omega (arith, leb→le m.depth depth a, above) in
            let clear : (k : ℕ) (between : Node)
                → i < k
                → k < j
                → get_elem? nodes k ≡ some between
                → m.depth < between.depth =
              λ k between hk hk' ek. omega (arith, exact, deeper k between (omega arith) hk' ek) in
            elim (Bool-cases (depth == 0)) [
              | inl z ↦
                  let bottom : depth ≡ 0 = (==_iff depth 0).0 z in
                  rw (parents_step i depth m em, a, z)
                    (up j i n m [] (omega arith) em exact clear
                      (at_root i m (omega (arith, exact))))
              | inr z ↦
                  let positive : m.depth ≡ suc (depth - 1) =
                    omega (arith, exact, nonzero depth z) in
                  rw (parents_step i depth m em, a, z)
                    (up j i n m (parents_from nodes i (depth - 1)) (omega arith) em exact clear (
                      climbs i i (depth - 1) m tree em positive (omega arith)
                        (λ k m' hk hk' ek. absurd (omega arith))))
            ]
        | inr b ↦
            let passed : Deeper depth i j = λ k m' hk hk' ek. elim (Bool-cases (ltb i k)) [
              | inl later ↦ deeper k m' (omega (arith, ltb→lt i k later)) hk' ek
              | inr here ↦
                  let same : k ≡ i = omega (arith, ltb→le i k here) in
                  let node : m ≡ m' =
                    some-injective (sym em ∙ ap (get_elem? nodes) (sym same) ∙ ek) in
                  omega (arith, leb→gt m.depth depth b, ap (λ (x : Node). x.depth) node)
            ] in
            rw (parents_step i depth m em, b) (climbs i j depth n tree e en (omega arith) passed)
      ]

-- What `getNodeByIdx` gives stands at the index.
pub in_table :
    (u : CompileUnit) (idx : ℕ) (n : Node)
    → node_by_idx idx u ≡ some n
    → get_elem? u.entries idx ≡ some n
in_table u idx n h = ground arith

begun :
    (u : CompileUnit) (idx : ℕ) (n : Node)
    → node_by_idx idx u ≡ some n
    → parents_idxs idx u ≡ (if ltb 0 n.depth then parents_from u.entries idx (n.depth - 1) else [])
unfolding parents_idxs
begun u idx n e =
    ap
      (λ o. elim o as (λ _. List ℕ) [
        | none ↦ []
        | some n ↦ if ltb 0 n.depth then parents_from u.entries idx (n.depth - 1) else []
      ])
      e

-- In a table whose depths are those of a tree, `getParentsIdxs` of an entry that
-- `getNodeByIdx` finds gives the chain of its
-- ancestors, from its parent up to a root: each is the last entry before the one below it that is not
-- as deep, and it is one less deep.
pub parents_idxs-IsChain :
    (u : CompileUnit) (idx : ℕ) (n : Node)
    → IsTree u.entries
    → node_by_idx idx u ≡ some n
    → IsChain u.entries idx n (parents_idxs idx u)
parents_idxs-IsChain u idx n tree found =
    let e = in_table u idx n found in
    rw (begun u idx n found) (elim (Bool-cases (ltb 0 n.depth)) [
      | inr root ↦ rw root (at_root idx n (omega (arith, ltb→le 0 n.depth root)))
      | inl inner ↦ rw inner (
          climbs u.entries idx idx (n.depth - 1) n tree e (omega (arith, ltb→lt 0 n.depth inner))
            (omega arith) (λ k m hk hk' ek. absurd (omega arith)))
    ])
