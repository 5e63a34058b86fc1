-- ===== src/Report/Edges.antt =====
-- The edges that count, the nodes, and how the loop of the dependency order starts.
use honua_migrate.Base.{
  ℕ, zero, suc, ◌+◌, ◌≤◌, ◌≡◌, ◌≢◌, refl, sym, ap, ◌⊎◌, inl, inr, Bool, true, false, not, ◌&&◌,
  ◌||◌, List, [], ◌∷◌, String, ◌==◌, string_eq, nat_eq, contains, keep, count_if, length, distinct,
  if◌then◌else◌, arith, Bool-cases, In, eq_of_==,
}
use honua_migrate.Base.Sort.{sorted, count_if-sorted}
use honua_migrate.Base.Text.{text_le}
use honua_migrate.Report.Dependency.{
  Edge, same_edge, has_edge, counted, ends, nodes_of, Degrees, degree_of, initial_degrees,
}
use honua_migrate.Report.Kahn.{open_count, Inv, onto, contains-occurs}
use honua_migrate.Report.Pay.{occurs, Slot}

pub occurs-contains :
    (xs : List String) (n : String) → occurs n xs ≡ (if contains xs n then occurs n xs else 0)
occurs-contains [] n = refl
occurs-contains (x ∷ xs) n = ground (arith, occurs-contains xs n)

pub occurs-distinct :
    (seen xs : List String) (n : String)
    → occurs n (distinct seen xs) ≡ (if contains xs n && not (contains seen n) then 1 else 0)
unfolding distinct
occurs-distinct seen [] n = refl
occurs-distinct seen (x ∷ xs) n = elim (Bool-cases (contains seen x)) [
  | inl e ↦ rw (distinct, e) (ground (arith, occurs-distinct seen xs n))
  | inr e ↦ rw (distinct, e) (ground (arith, occurs-distinct (x ∷ seen) xs n))
]

pub occurs-nodes_of :
    (edges : List Edge) (n : String)
    → occurs n (nodes_of edges) ≡ (if contains (ends edges) n then 1 else 0)
unfolding nodes_of
occurs-nodes_of edges n = ground (arith, occurs-distinct [] (ends edges) n)

pub eq_of-same_edge : (a b : Edge) → same_edge a b ≡ true → a ≡ b
eq_of-same_edge a b h =
    let p : a.source ≡ b.source = eq_of_== a.source b.source (ground (arith, h)) in
    let q : a.target ≡ b.target = eq_of_== a.target b.target (ground (arith, h)) in
    λ i. record { source = p i; target = q i }

pub contains-nodes_of :
    (edges : List Edge) (n : String) → contains (nodes_of edges) n ≡ contains (ends edges) n
contains-nodes_of edges n = ground (
  arith,
  occurs-nodes_of edges n,
  contains-occurs (nodes_of edges) n,
  occurs-contains (nodes_of edges) n,
)

pub contains-onto :
    (done xs : List String) (n : String)
    → contains (onto done xs) n ≡ (contains done n || contains xs n)
contains-onto done [] n = ground arith
contains-onto done (x ∷ xs) n = ground (arith, contains-onto (x ∷ done) xs n)

pub target-ends :
    (edges : List Edge) (e : Edge) → In e edges → contains (ends edges) e.target ≡ true
unfolding ends
target-ends [] e h = elim h [ ]
target-ends (x ∷ xs) e (inl p) = rw p (ground arith)
target-ends (x ∷ xs) e (inr p) = ground (arith, target-ends xs e p)

-- An edge that is no loop counts.
pub In-counted :
    (seen edges : List Edge) (e : Edge)
    → In e edges
    → e.source ≢ e.target
    → (has_edge seen e ≡ true) ⊎ In e (counted seen edges)
unfolding counted
In-counted seen [] e h differ = elim h [ ]
In-counted seen (x ∷ xs) e (inl p) differ = elim (Bool-cases (has_edge seen x)) [
  | inl k ↦ inl (rw p k)
  | inr k ↦ inr (rw (differs, k) (inl p))
]
  where
    differs : (x.source == x.target) ≡ false
    differs = ground (arith, λ (q : x.source ≡ x.target). differ (rw p q))
In-counted seen (x ∷ xs) e (inr p) differ = elim (Bool-cases (x.source == x.target)) [
  | inl l ↦ rw l (In-counted seen xs e p differ)
  | inr l ↦ elim (Bool-cases (has_edge seen x)) [
    | inl k ↦ rw (l, k) (In-counted seen xs e p differ)
    | inr k ↦ rw (l, k) (choose (Bool-cases (same_edge x e)) (In-counted (x ∷ seen) xs e p differ))
  ]
]
  where
    choose :
        (same_edge x e ≡ true) ⊎ (same_edge x e ≡ false)
        → (has_edge (x ∷ seen) e ≡ true) ⊎ In e (counted (x ∷ seen) xs)
        → (has_edge seen e ≡ true) ⊎ In e (x ∷ counted (x ∷ seen) xs)
    choose s (inr q) = inr (inr q)
    choose (inl s) (inl k) = inr (inl (sym (eq_of-same_edge x e s)))
    choose (inr s) (inl k) = inl (ground (arith, s, k))

pub counted-In : (seen edges : List Edge) (e : Edge) → In e (counted seen edges) → In e edges
unfolding counted
counted-In seen [] e h = elim h [ ]
counted-In seen (x ∷ xs) e h =
    back (x.source == x.target) (has_edge seen x) h (counted-In seen xs e)
      (counted-In (x ∷ seen) xs e)
  where
    back :
        (loop known : Bool)
        → In e (
            if loop
            then counted seen xs
            else if known
            then counted seen xs
            else x ∷ counted (x ∷ seen) xs)
        → (In e (counted seen xs) → In e xs)
        → (In e (counted (x ∷ seen) xs) → In e xs)
        → In e (x ∷ xs)
    back true known h ih ih' = inr (ih h)
    back false true h ih ih' = inr (ih h)
    back false false (inl p) ih ih' = inl p
    back false false (inr p) ih ih' = inr (ih' p)

pub counted-sources :
    (seen edges : List Edge) (n : String)
    → contains (ends edges) n ≡ false
    → open_count (counted seen edges) [] n ≡ 0
unfolding counted ends
counted-sources seen [] n h = refl
counted-sources seen (x ∷ xs) n h =
    ground (arith, counted-sources seen xs n, counted-sources (x ∷ seen) xs n)

pub degree_of-initial :
    (edges : List Edge) (ns : List String) (n : String)
    → degree_of (initial_degrees edges ns) n ≡ (if contains ns n then open_count edges [] n else 0)
unfolding degree_of initial_degrees
degree_of-initial edges [] n = refl
degree_of-initial edges (m ∷ ns) n = elim (Bool-cases (m == n)) [
  | inl e ↦
      ground (arith, eq_of_== m n e, sources edges m, ap (open_count edges []) (eq_of_== m n e))
  | inr e ↦ rw e (ground (arith, degree_of-initial edges ns n))
]
  where
    sources : (es : List Edge) (n : String) → count_if (λ e. e.source == n) es ≡ open_count es [] n
    sources [] n = refl
    sources (e ∷ es) n = ground (arith, sources es n)

pub length-keep : (test : String → Bool) (xs : List String) → length (keep test xs) ≤ length xs
length-keep test [] = omega arith
length-keep test (x ∷ xs) = ground (arith, length-keep test xs)

pub occurs-keep :
    (test : String → Bool) (xs : List String) (n : String)
    → occurs n (keep test xs) ≡ (if test n then occurs n xs else 0)
occurs-keep test [] n = ground arith
occurs-keep test (x ∷ xs) n = elim (Bool-cases (x == n)) [
  | inl e ↦ ground (arith, occurs-keep test xs n, ap test (eq_of_== x n e))
  | inr e ↦ ground (arith, occurs-keep test xs n)
]

pub occurs-onto :
    (done xs : List String) (n : String) → occurs n (onto done xs) ≡ occurs n done + occurs n xs
occurs-onto done [] n = omega arith
occurs-onto done (x ∷ xs) n = ground (arith, occurs-onto (x ∷ done) xs n)

pub initial-Inv :
    (edges : List Edge)
    → let nodes = nodes_of edges in
      let degrees = initial_degrees (counted [] edges) nodes in
      Inv
        (counted [] edges)
        nodes
        []
        degrees
        (sorted text_le (keep (λ n. degree_of degrees n == 0) nodes))
initial-Inv edges = record {
  degree = λ n. degrees n;
  slot = λ n.
      rw (count_if-sorted text_le (λ m. m == n) (keep (λ n. degree_of ds n == 0) ns))
        (rw (occurs-keep (λ n. degree_of ds n == 0) ns n) (place n (degree_of ds n) refl));
}
  where
    ns : List String
    ns = nodes_of edges

    ds : Degrees
    ds = initial_degrees (counted [] edges) ns

    degrees : (n : String) → degree_of ds n ≡ open_count (counted [] edges) [] n
    degrees n = ground (
      arith,
      degree_of-initial (counted [] edges) ns n,
      contains-nodes_of edges n,
      counted-sources [] edges n,
    )

    place :
        (n : String) (d : ℕ)
        → degree_of ds n ≡ d
        → Slot (degree_of ds n) (0 + (if degree_of ds n == 0 then occurs n ns else 0)) (occurs n ns)
    place n zero e = rw e (inl (refl, ground arith))
    place n (suc d) e = rw e (
        inr (
          omega arith,
          ground arith,
          ground (
            arith,
            e,
            degree_of-initial (counted [] edges) ns n,
            contains-nodes_of edges n,
            occurs-nodes_of edges n,
          ),
        ))

pub closed :
    (edges : List Edge) (done : List String) (n : String) (e : Edge)
    → open_count edges done n ≡ 0
    → In e edges
    → e.source ≡ n
    → contains done e.target ≡ true
closed [] done n e z h p = elim h [ ]
closed (x ∷ xs) done n e z (inl q) p =
    rw (ap (λ y. y.target) q) (ground (arith, z, ap (λ y. y.source) q, p))
closed (x ∷ xs) done n e z (inr q) p = closed xs done n e (ground (arith, z)) q p

abbrev pub Held : List Edge → List String → String → Type 0
Held edges done n = (e : Edge) × In e edges × (e.source ≡ n) × (contains done e.target ≡ false)

pub held :
    (edges : List Edge) (done : List String) (n : String)
    → 1 ≤ open_count edges done n
    → Held edges done n
held [] done n h = let bad : ⊥ = omega (arith, h) in elim bad [ ]
held (x ∷ xs) done n h = elim (Bool-cases ((x.source == n) && not (contains done x.target))) [
  | inl e ↦ (x, inl refl, eq_of_== x.source n (ground (arith, e)), ground (arith, e))
  | inr e ↦ let (y, m, p, q) = held xs done n (ground (arith, h, e)) in (y, inr m, p, q)
]
