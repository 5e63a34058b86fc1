-- ===== src/Report/Ordered.antt =====
-- The dependency order of a footprint: every node once, dependencies first, cycles last.
use honua_migrate.Base.{
  Yields, ◌+◌, ◌≡◌, ◌≢◌, refl, inl, inr, true, not, List, [], ◌∷◌, ◌++◌, String, ◌==◌, string_eq,
  nat_eq, contains, keep, length, if◌then◌else◌, Option, none, some, arith, In, In-keep, keep-In,
  contains-In, In-contains,
}
use honua_migrate.Base.Sort.{
  sorted, IsSorted, sorted-IsSorted, count_if-sorted, length-sorted, In-sorted, sorted-In,
}
use honua_migrate.Base.Text.{text_le, text_le_total}
use honua_migrate.Json.{Json}
use honua_migrate.Report.Dependency.{
  Edge, counted, ends, nodes_of, degree_of, initial_degrees, total, kahn_order, finish_order,
  with_cycles, dependency_edges, dependency_order,
}
use honua_migrate.Report.Kahn.{DepsFirst, onto, Kahn, kahn-Kahn, contains-occurs}
use honua_migrate.Report.Pay.{occurs, count_if-append}
use honua_migrate.Report.Edges.{
  occurs-contains, occurs-nodes_of, contains-nodes_of, contains-onto, target-ends, In-counted,
  counted-In, length-keep, occurs-keep, occurs-onto, initial-Inv, closed, held,
}

-- Each edge from a placed node, a loop apart, leads to one that was placed before.
abbrev pub AfterTargets : List Edge → List String → List String → Type 0
AfterTargets edges done [] = Unit
AfterTargets edges done (n ∷ ns) =
    ((e : Edge) → In e edges → e.source ≡ n → e.source ≢ e.target → contains done e.target ≡ true)
    × AfterTargets edges (n ∷ done) ns

-- An order of the ends of the edges: each stands once; the first part has every node after what
-- it depends on; each node of the rest, in order, depends on one of the rest.
pub record Ordered (edges : List Edge) (order : List String) : Type 0 where
  pub once : (n : String) → occurs n order ≡ (if contains (ends edges) n then 1 else 0)
  pub placed : List String
  pub cyclic : List String
  pub parts : order ≡ placed ++ cyclic
  pub first : AfterTargets edges [] placed
  pub circular :
      (n : String) → In n cyclic → (e : Edge) × In e edges × (e.source ≡ n) × In e.target cyclic
  pub in_order : IsSorted text_le cyclic

DepsFirst-AfterTargets :
    (edges : List Edge) (done ns : List String)
    → DepsFirst (counted [] edges) done ns
    → AfterTargets edges done ns
DepsFirst-AfterTargets edges done [] h = tt
DepsFirst-AfterTargets edges done (n ∷ ns) (free, h) = (
  λ e m p differ. elim (In-counted [] edges e m differ) [
    | inl k ↦ ground (arith, k)
    | inr k ↦ closed (counted [] edges) done n e free k p
  ],
  DepsFirst-AfterTargets edges (n ∷ done) ns h,
)

with_cycles-Ordered :
    (edges : List Edge) (order : List String)
    → Kahn (counted [] edges) (nodes_of edges) [] order
    → Ordered edges (with_cycles (nodes_of edges) order)
unfolding with_cycles
with_cycles-Ordered edges order (first, slots) = record {
  once = λ n. ground (
    arith,
    count_if-append (λ m. m == n) order
        (sorted text_le (keep (λ n. not (contains order n)) (nodes_of edges))),
    count_if-sorted text_le (λ m. m == n) (keep (λ n. not (contains order n)) (nodes_of edges)),
    occurs-keep (λ n. not (contains order n)) (nodes_of edges) n,
    slots n,
    occurs-onto [] order n,
    contains-occurs order n,
    occurs-contains order n,
    occurs-nodes_of edges n,
  );
  placed = order;
  cyclic = sorted text_le (keep (λ n. not (contains order n)) (nodes_of edges));
  parts = refl;
  first = DepsFirst-AfterTargets edges [] order first;
  circular = λ n m.
      let (listed, left) =
        keep-In (λ n. not (contains order n)) n (nodes_of edges)
          (sorted-In text_le n (keep (λ n. not (contains order n)) (nodes_of edges)) m) in
      elim (slots n) [
        | inl (_, met) ↦
            let bad : ⊥ = ground (
              arith,
              met,
              left,
              occurs-onto [] order n,
              occurs-contains order n,
              In-contains (nodes_of edges) n listed,
              contains-occurs (nodes_of edges) n,
            ) in
            elim bad [ ]
        | inr (waits, _, _) ↦
            let (e, counts, from_n, ahead) = held (counted [] edges) (onto [] order) n waits in
            let k : In e edges = counted-In [] edges e counts in
            (
              e,
              k,
              from_n,
              In-sorted text_le e.target (keep (λ n. not (contains order n)) (nodes_of edges)) (
                  In-keep (λ n. not (contains order n)) e.target (nodes_of edges)
                    (contains-In (nodes_of edges) e.target
                      (ground (arith, contains-nodes_of edges e.target, target-ends edges e k)))
                    (ground (arith, ahead, contains-onto [] order e.target))),
            )
      ];
  in_order =
      sorted-IsSorted text_le text_le_total (keep (λ n. not (contains order n)) (nodes_of edges));
}

-- The dependency order of a footprint is always found, the loop's fuel being enough: every node of
-- an edge stands in it exactly once; in its first part every node stands after all others that it
-- depends on; the rest is in the order of the texts, and each node of it depends on one of the
-- rest.
pub dependency_order-Ordered :
    (footprint : Json) → Yields (Ordered (dependency_edges footprint)) (dependency_order footprint)
unfolding dependency_order kahn_order
dependency_order-Ordered footprint =
    finished (dependency_edges footprint) (kahn_order (dependency_edges footprint))
      (found (dependency_edges footprint))
  where
    found :
        (edges : List Edge)
        → Yields (Kahn (counted [] edges) (nodes_of edges) []) (kahn_order edges)
    found edges =
        let nodes = nodes_of edges in
        let degrees = initial_degrees (counted [] edges) nodes in
        let starts = keep (λ n. degree_of degrees n == 0) nodes in
        kahn-Kahn (counted [] edges) nodes (λ n. ground (arith, occurs-nodes_of edges n))
          (total degrees + length nodes) [] degrees (sorted text_le starts)
          (omega (
            arith,
            length-sorted text_le starts,
            length-keep (λ n. degree_of degrees n == 0) nodes,
          ))
          (initial-Inv edges)

    finished :
        (edges : List Edge) (order : Option (List String))
        → Yields (Kahn (counted [] edges) (nodes_of edges) []) order
        → Yields (Ordered edges) (finish_order (nodes_of edges) order)
    finished edges none h = h
    finished edges (some order) h = with_cycles-Ordered edges order h
