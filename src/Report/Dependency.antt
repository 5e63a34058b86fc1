-- ===== src/Report/Dependency.antt =====
-- report/heuristics.py: the dependency order of the inventory, Kahn's algorithm with ties broken by
-- node.
use honua_migrate.Base.{
  ℕ, zero, suc, ◌+◌, Bool, true, false, not, ◌&&◌, List, [], ◌∷◌, ◌++◌, String, ◌==◌, string_eq,
  nat_eq, contains, keep, map, count_if, length, distinct, if◌then◌else◌, Option, none, some,
}
use honua_migrate.Base.Sort.{sorted}
use honua_migrate.Base.Text.{text_le}
use honua_migrate.Json.{Json, get, is_mapping, members, text?}

-- `from` depends on `to`.
pub record Edge : Type 0 where
  pub source : String
  pub target : String

edge_of : Option String → Option String → List Edge
edge_of (some s) (some t) = record { source = s; target = t } ∷ []
edge_of _ _ = []

edges_in : List Json → List Edge
unfolding edge_of get
edges_in [] = []
edges_in (x ∷ xs) =
    let rest = edges_in xs in
    if is_mapping x then edge_of (text? (get "from" x)) (text? (get "to" x)) ++ rest else rest

unfoldable pub dependency_edges : Json → List Edge
unfolding edges_in get members
dependency_edges footprint = edges_in (members (get "dependencyEdges" footprint))

abbrev pub same_edge : Edge → Edge → Bool
same_edge a b = (a.source == b.source) && (a.target == b.target)

abbrev pub has_edge : List Edge → Edge → Bool
has_edge [] e = false
has_edge (d ∷ ds) e = if same_edge d e then true else has_edge ds e

-- The edges that count: neither a loop nor seen before.
unfoldable pub counted : List Edge → List Edge → List Edge
counted seen [] = []
counted seen (e ∷ es) =
    let skip = counted seen es in
    let take = e ∷ counted (e ∷ seen) es in
    if e.source == e.target then skip else if has_edge seen e then skip else take

unfoldable pub ends : List Edge → List String
ends [] = []
ends (e ∷ es) = e.source ∷ e.target ∷ ends es

-- `nodes`, without order
unfoldable pub nodes_of : List Edge → List String
unfolding distinct ends
nodes_of edges = distinct [] (ends edges)

-- `dependents[node]`, in order
unfoldable pub dependents_of : List Edge → String → List String
unfolding text_le string_eq
dependents_of edges node = sorted text_le (map (λ e. e.source) (keep (λ e. e.target == node) edges))

-- `indegree`, of every node
abbrev pub Degrees : Type 0
Degrees = List (String × ℕ)

unfoldable pub degree_of : Degrees → String → ℕ
unfolding string_eq
degree_of [] node = 0
degree_of ((n, d) ∷ ds) node = if n == node then d else degree_of ds node

unfoldable pub initial_degrees : List Edge → List String → Degrees
unfolding string_eq
initial_degrees edges [] = []
initial_degrees edges (n ∷ ns) = (n, count_if (λ e. e.source == n) edges) ∷ initial_degrees edges ns

-- `indegree[dependent] -= 1`, and whether it became 0. A count is of the edges not yet followed, of
-- which the dependent has one: it is not 0 here.
unfoldable pub pay : Degrees → String → Degrees × Bool
unfolding string_eq
pay [] node = ([], false)
pay ((n, zero) ∷ ds) node =
    let (rest, freed) = pay ds node in
    if n == node then ((n, zero) ∷ ds, false) else ((n, zero) ∷ rest, freed)
pay ((n, suc d) ∷ ds) node =
    let (rest, freed) = pay ds node in
    if n == node then ((n, d) ∷ ds, d == 0) else ((n, suc d) ∷ rest, freed)

pub record Progress : Type 0 where
  pub degrees : Degrees
  pub ready : List String

-- The loop over the dependents of a node.
unfoldable pub release : List String → Progress → Progress
unfolding pay
release [] s = s
release (d ∷ ds) s =
    let (degrees, freed) = pay s.degrees d in
    release ds
      (record { degrees = degrees; ready = if freed then s.ready ++ (d ∷ []) else s.ready })

abbrev pub put_first : String → Option (List String) → Option (List String)
put_first node none = none
put_first node (some order) = some (node ∷ order)

abbrev pub total : Degrees → ℕ
total [] = 0
total ((n, d) ∷ ds) = d + total ds

-- `while ready`, on fuel; it gives `none` only where the fuel runs out.
unfoldable pub kahn : ℕ → List Edge → Degrees → List String → Option (List String)
unfolding release dependents_of
kahn fuel edges degrees [] = some []
kahn zero edges degrees (node ∷ ready) = none
kahn (suc fuel) edges degrees (node ∷ ready) =
    let s = release (dependents_of edges node) (record { degrees = degrees; ready = ready }) in
    put_first node (kahn fuel edges s.degrees (sorted text_le s.ready))

unfoldable pub kahn_order : List Edge → Option (List String)
unfolding kahn nodes_of initial_degrees counted degree_of
kahn_order edges =
    let nodes = nodes_of edges in
    let degrees = initial_degrees (counted [] edges) nodes in
    let ready = sorted text_le (keep (λ n. degree_of degrees n == 0) nodes) in
    kahn (total degrees + length nodes) (counted [] edges) degrees ready

-- The nodes of a cycle follow in order.
unfoldable pub with_cycles : List String → List String → List String
unfolding string_eq
with_cycles nodes order = order ++ sorted text_le (keep (λ n. not (contains order n)) nodes)

abbrev pub finish_order : List String → Option (List String) → Option (List String)
finish_order nodes none = none
finish_order nodes (some order) = some (with_cycles nodes order)

unfoldable pub dependency_order : Json → Option (List String)
unfolding kahn_order dependency_edges
dependency_order footprint =
    finish_order (nodes_of (dependency_edges footprint)) (kahn_order (dependency_edges footprint))
