-- ===== src/Report/Pay.antt =====
-- The in-degrees of report/heuristics.py as the loop of the dependency order pays them off.
use honua_migrate.Base.{
  ℕ, zero, suc, ◌+◌, ◌-◌, ◌≤◌, ◌≡◌, refl, ap, subst, ◌⊎◌, inl, inr, Bool, true, false, List, [],
  ◌∷◌, ◌++◌, String, ◌==◌, string_eq, nat_eq, count_if, length, length-append, if◌then◌else◌, arith,
  Bool-cases, eq_of_==,
}
use honua_migrate.Report.Dependency.{Degrees, degree_of, pay, Progress, release, total}

abbrev pub occurs : String → List String → ℕ
occurs n xs = count_if (λ m. m == n) xs

total-pay :
    (ds : Degrees) (d : String) → total (pay ds d).0 + (if (pay ds d).1 then 1 else 0) ≤ total ds
unfolding pay nat_eq
total-pay [] d = omega arith
total-pay ((n, zero) ∷ ds) d = ground (arith, total-pay ds d)
total-pay ((n, suc k) ∷ ds) d = ground (arith, total-pay ds d)

degree_of-pay :
    (ds : Degrees) (d n : String)
    → degree_of (pay ds d).0 n ≡ (if d == n then degree_of ds n - 1 else degree_of ds n)
unfolding pay degree_of
degree_of-pay [] d n = ground arith
degree_of-pay ((m, zero) ∷ ds) d n = elim (Bool-cases (m == d)) [
  | inl e ↦ rw e (ground arith)
  | inr e ↦ rw e (ground (arith, degree_of-pay ds d n))
]
degree_of-pay ((m, suc k) ∷ ds) d n = elim (Bool-cases (m == d)) [
  | inl e ↦ rw e (ground arith)
  | inr e ↦ rw e (ground (arith, degree_of-pay ds d n))
]

freed-pay : (ds : Degrees) (d : String) → (pay ds d).1 ≡ (degree_of ds d == 1)
unfolding pay degree_of nat_eq
freed-pay [] d = refl
freed-pay ((m, zero) ∷ ds) d = ground (arith, freed-pay ds d)
freed-pay ((m, suc k) ∷ ds) d = ground (arith, freed-pay ds d)

pub total-release :
    (ds : List String) (s : Progress)
    → total (release ds s).degrees + length (release ds s).ready ≤ total s.degrees + length s.ready
unfolding release
total-release [] s = omega arith
total-release (d ∷ ds) s = ground (
  arith,
  total-pay s.degrees d,
  length-append s.ready (d ∷ []),
  total-release ds (record {
    degrees = (pay s.degrees d).0;
    ready = if (pay s.degrees d).1 then s.ready ++ (d ∷ []) else s.ready;
  }),
)

pub degree_of-release :
    (ds : List String) (s : Progress) (n : String)
    → degree_of (release ds s).degrees n ≡ degree_of s.degrees n - occurs n ds
unfolding release
degree_of-release [] s n = omega arith
degree_of-release (d ∷ ds) s n = ground (
  arith,
  degree_of-pay s.degrees d n,
  degree_of-release ds
      (record {
        degrees = (pay s.degrees d).0;
        ready = if (pay s.degrees d).1 then s.ready ++ (d ∷ []) else s.ready;
      })
      n,
)

pub count_if-append :
    (test : String → Bool) (xs ys : List String)
    → count_if test (xs ++ ys) ≡ count_if test xs + count_if test ys
count_if-append test [] ys = omega arith
count_if-append test (x ∷ xs) ys = ground (arith, count_if-append test xs ys)

-- A node of no open edge is met as often as it is a node; another has not been met.
abbrev pub Slot : ℕ → ℕ → ℕ → Type 0
Slot degree met nodes = ((degree ≡ 0) × (met ≡ nodes)) ⊎ ((1 ≤ degree) × (met ≡ 0) × (nodes ≡ 1))

pub Slot-release :
    (ds : List String) (s : Progress) (n : String) (before nodes : ℕ)
    → Slot (degree_of s.degrees n) (before + occurs n s.ready) nodes
    → Slot (degree_of (release ds s).degrees n) (before + occurs n (release ds s).ready) nodes
unfolding release
Slot-release [] s n before nodes h = h
Slot-release (d ∷ ds) s n before nodes h =
    Slot-release ds
      (record {
        degrees = (pay s.degrees d).0;
        ready = if (pay s.degrees d).1 then s.ready ++ (d ∷ []) else s.ready;
      })
      n before nodes
      (rw (degree_of-pay s.degrees d n, freed-pay s.degrees d)
        (step (Bool-cases (d == n)) (Bool-cases (degree_of s.degrees d == 1)) h))
  where
    same : (d == n) ≡ true → degree_of s.degrees d ≡ degree_of s.degrees n
    same p = ap (degree_of s.degrees) (eq_of_== d n p)

    one : (degree_of s.degrees d == 1) ≡ true → degree_of s.degrees d ≡ 1
    one q = eq_of_== (degree_of s.degrees d) 1 q

    added : occurs n (s.ready ++ (d ∷ [])) ≡ occurs n s.ready + (if d == n then 1 else 0)
    added = count_if-append (λ m. m == n) s.ready (d ∷ [])

    step :
        ((d == n) ≡ true) ⊎ ((d == n) ≡ false)
        → ((degree_of s.degrees d == 1) ≡ true) ⊎ ((degree_of s.degrees d == 1) ≡ false)
        → Slot (degree_of s.degrees n) (before + occurs n s.ready) nodes
        → Slot
            (if d == n then degree_of s.degrees n - 1 else degree_of s.degrees n)
            (before
              + occurs n (if degree_of s.degrees d == 1 then s.ready ++ (d ∷ []) else s.ready))
            nodes
    step (inl p) (inl q) (inl h) = inl (ground (arith, same p, one q, h.0))
    step (inl p) (inl q) (inr h) =
        rw (p, q) (inl (omega (arith, same p, one q), ground (arith, added, p, h.1, h.2)))
    step (inl p) (inr q) (inl h) = rw (p, q) (inl (omega (arith, h.0), h.1))
    step (inl p) (inr q) (inr h) = rw (p, q) (inr (ground (arith, same p, h.0), h.1, h.2))
    step (inr p) (inl q) h =
        rw (p, q) (subst (λ k. Slot (degree_of s.degrees n) k nodes) (ground (arith, added, p)) h)
    step (inr p) (inr q) h = rw (p, q) h

-- The edges of a node whose targets are not done.
