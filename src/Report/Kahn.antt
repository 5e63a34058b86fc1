-- ===== src/Report/Kahn.antt =====
-- The loop of the dependency order: enough fuel, dependencies first, and what is left at its end.
use honua_migrate.Base.{
  Yields, ℕ, zero, suc, ◌+◌, ◌≤◌, ◌≡◌, refl, sym, ap, subst, ◌∙◌, inl, inr, false, not, ◌&&◌, List,
  [], ◌∷◌, String, ◌==◌, string_eq, nat_eq, contains, keep, map, count_if, length, Option, none,
  some, arith, Bool-cases, eq_of_==, ==_refl,
}
use honua_migrate.Base.Sort.{sorted, count_if-sorted, length-sorted}
use honua_migrate.Base.Text.{text_le}
use honua_migrate.Report.Dependency.{
  Edge, dependents_of, Degrees, degree_of, release, kahn, total, put_first,
}
use honua_migrate.Report.Pay.{occurs, total-release, degree_of-release, Slot, Slot-release}

abbrev pub open_count : List Edge → List String → String → ℕ
open_count edges done n = count_if (λ e. (e.source == n) && not (contains done e.target)) edges

abbrev between : List Edge → String → String → ℕ
between edges n node = count_if (λ e. (e.source == n) && (e.target == node)) edges

occurs-dependents :
    (edges : List Edge) (node n : String)
    → occurs n (dependents_of edges node) ≡ between edges n node
unfolding dependents_of
occurs-dependents edges node n =
    count_if-sorted text_le (λ m. m == n) (map (λ e. e.source) (keep (λ e. e.target == node) edges))
    ∙ walk edges
  where
    walk :
        (es : List Edge)
        → occurs n (map (λ e. e.source) (keep (λ e. e.target == node) es)) ≡ between es n node
    walk [] = refl
    walk (e ∷ es) = elim (Bool-cases (e.target == node)) [
      | inl t ↦ rw t (ground (arith, walk es))
      | inr t ↦ rw t (ground (arith, walk es))
    ]

open_count-done :
    (edges : List Edge) (done : List String) (node n : String)
    → contains done node ≡ false
    → open_count edges done n ≡ open_count edges (node ∷ done) n + between edges n node
open_count-done [] done node n h = omega arith
open_count-done (e ∷ es) done node n h = elim (Bool-cases (e.target == node)) [
  | inl t ↦
      rw (t, ap (contains done) (eq_of_== e.target node t), h)
        (ground (arith, open_count-done es done node n h))
  | inr t ↦ rw t (ground (arith, open_count-done es done node n h))
]

pub contains-occurs :
    (done : List String) (n : String) → occurs n done ≡ 0 → contains done n ≡ false
contains-occurs [] n h = refl
contains-occurs (x ∷ xs) n h = ground (arith, contains-occurs xs n)

-- Each node's place, and its degree: the edges from it whose targets are not done.
pub record Inv (edges : List Edge) (nodes done : List String) (degrees : Degrees)
    (ready : List String) : Type 0 where
  pub degree : (n : String) → degree_of degrees n ≡ open_count edges done n
  pub slot :
      (n : String) → Slot (degree_of degrees n) (occurs n done + occurs n ready) (occurs n nodes)

-- When a node is placed, each of its edges leads to one that is done.
abbrev pub DepsFirst : List Edge → List String → List String → Type 0
DepsFirst edges done [] = Unit
DepsFirst edges done (n ∷ ns) = (open_count edges done n ≡ 0) × DepsFirst edges (n ∷ done) ns

abbrev pub onto : List String → List String → List String
onto done [] = done
onto done (n ∷ ns) = onto (n ∷ done) ns

abbrev pub Kahn : List Edge → List String → List String → List String → Type 0
Kahn edges nodes done order =
    DepsFirst edges done order
    × ((n : String)
        → Slot (open_count edges (onto done order) n) (occurs n (onto done order)) (occurs n nodes))

module _ (edges : List Edge) (nodes : List String)
    (single : (n : String) → occurs n nodes ≤ 1) where
  head_free :
      (done : List String) (degrees : Degrees) (node : String) (ready : List String)
      → Inv edges nodes done degrees (node ∷ ready)
      → (open_count edges done node ≡ 0) × (occurs node done ≡ 0)
  head_free done degrees node ready i = elim (i.slot node) [
    | inl (free, met) ↦ (sym (i.degree node) ∙ free, ground (arith, met, single node, ==_refl node))
    | inr (held, none_met, one) ↦
        let bad : ⊥ = ground (arith, none_met, ==_refl node) in elim bad [ ]
  ]

  Inv-step :
      (done : List String) (degrees : Degrees) (node : String) (ready : List String)
      → Inv edges nodes done degrees (node ∷ ready)
      → let s = release (dependents_of edges node) (record { degrees = degrees; ready = ready }) in
        Inv edges nodes (node ∷ done) s.degrees (sorted text_le s.ready)
  Inv-step done degrees node ready i =
      let s = release (dependents_of edges node) (record { degrees = degrees; ready = ready }) in
      record {
        degree = λ n. omega (
          arith,
          degree_of-release (dependents_of edges node) (record { degrees = degrees; ready = ready })
              n,
          occurs-dependents edges node n,
          i.degree n,
          open_count-done edges done node n
              (contains-occurs done node (head_free done degrees node ready i).1),
        );
        slot = λ n. rw (count_if-sorted text_le (λ m. m == n) s.ready) (
            Slot-release (dependents_of edges node) (record { degrees = degrees; ready = ready }) n
              (occurs n (node ∷ done)) (occurs n nodes)
              (subst (λ k. Slot (degree_of degrees n) k (occurs n nodes)) (ground arith)
                (i.slot n)));
      }

  -- On enough fuel the loop ends, with every placed node after what it depends on.
  pub kahn-Kahn :
      (fuel : ℕ) (done : List String) (degrees : Degrees) (ready : List String)
      → total degrees + length ready ≤ fuel
      → Inv edges nodes done degrees ready
      → Yields (Kahn edges nodes done) (kahn fuel edges degrees ready)
  unfolding kahn
  kahn-Kahn fuel done degrees [] enough i = (
    tt,
    λ n.
        subst (λ k. Slot k (occurs n done) (occurs n nodes)) (i.degree n)
          (subst (λ k. Slot (degree_of degrees n) k (occurs n nodes)) (ground arith) (i.slot n)),
  )
  kahn-Kahn zero done degrees (node ∷ ready) enough i =
      let bad : ⊥ = omega (arith, enough) in elim bad [ ]
  kahn-Kahn (suc fuel) done degrees (node ∷ ready) enough i =
      let s = release (dependents_of edges node) (record { degrees = degrees; ready = ready }) in
      placed (head_free done degrees node ready i).0
        (kahn fuel edges s.degrees (sorted text_le s.ready))
        (kahn-Kahn fuel (node ∷ done) s.degrees (sorted text_le s.ready)
          (omega (
            arith,
            enough,
            length-sorted text_le s.ready,
            total-release (dependents_of edges node) (record { degrees = degrees; ready = ready }),
          ))
          (Inv-step done degrees node ready i))
    where
      placed :
          open_count edges done node ≡ 0
          → (order : Option (List String)) → Yields (Kahn edges nodes (node ∷ done)) order
          → Yields (Kahn edges nodes done) (put_first node order)
      placed free none h = h
      placed free (some order) (first, slots) = ((free, first), slots)
