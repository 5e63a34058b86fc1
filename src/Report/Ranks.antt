-- ===== src/Report/Ranks.antt =====
-- Every item has a rank that exactly one group is for.
use honua_migrate.Base.{
  ℕ, ◌+◌, ◌≡◌, refl, ap, ◌∙◌, inl, inr, Bool, true, false, ◌&&◌, List, [], ◌∷◌, String, ◌==◌,
  string_eq, nat_eq, contains, keep, count_if, if◌then◌else◌, arith, In,
}
use honua_migrate.Base.Text.{codes_le_total}
use honua_migrate.Json.{Json, get, type_text}
use honua_migrate.Report.Items.{
  Text, ordering_rank, server_rank, portal_rank, manual_review_portal_types, key_le,
}
use honua_migrate.Report.Ordering.{OrderingGroup, Definitions, ordering_definitions}

pub key_le_total : (xs ys : List Text) → key_le xs ys ≡ false → key_le ys xs ≡ true
unfolding key_le
key_le_total [] ys h = ground arith
key_le_total (x ∷ xs) [] h = refl
key_le_total (x ∷ xs) (y ∷ ys) h =
    ground (arith, key_le_total xs ys, codes_le_total x y, codes_le_total y x)

-- How many items of all groups pass a test
abbrev pub count_groups : (Json → Bool) → List OrderingGroup → ℕ
count_groups test [] = 0
count_groups test (g ∷ gs) = count_if test g.items + count_groups test gs

pub count_if-keep :
    (test p : Json → Bool) (xs : List Json)
    → count_if test (keep p xs) ≡ count_if (λ x. p x && test x) xs
count_if-keep test p [] = refl
count_if-keep test p (x ∷ xs) = ground (arith, count_if-keep test p xs)

unfoldable pub by_definition : (Json → Bool) → Definitions → List Json → ℕ
by_definition test [] items = 0
by_definition test ((rank, _, _) ∷ ds) items =
    count_if (λ x. (ordering_rank x == rank) && test x) items + by_definition test ds items

unfoldable pub definitions_of : Definitions → Json → ℕ
definitions_of [] x = 0
definitions_of ((rank, _, _) ∷ ds) x =
    (if ordering_rank x == rank then 1 else 0) + definitions_of ds x

pub by_definition-cons :
    (test : Json → Bool) (ds : Definitions) (x : Json) (xs : List Json)
    → by_definition test ds (x ∷ xs)
      ≡ (if test x then definitions_of ds x else 0) + by_definition test ds xs
unfolding by_definition definitions_of
by_definition-cons test [] x xs = ground arith
by_definition-cons test ((rank, _, _) ∷ ds) x xs = ground (arith, by_definition-cons test ds x xs)

pub by_definition-nil : (test : Json → Bool) (ds : Definitions) → by_definition test ds [] ≡ 0
unfolding by_definition
by_definition-nil test [] = refl
by_definition-nil test ((rank, _, _) ∷ ds) = omega (arith, by_definition-nil test ds)

-- One of the nine ranks
abbrev pub IsRank : ℕ → Type 0
IsRank r = In r (10 ∷ 20 ∷ 30 ∷ 40 ∷ 50 ∷ 60 ∷ 70 ∷ 80 ∷ 90 ∷ [])

pub branches : {r s : ℕ} (b : Bool) → IsRank r → IsRank s → IsRank (if b then r else s)
branches true h k = h
branches false h k = k

pub IsRank-90 : IsRank 90
IsRank-90 = inr (inr (inr (inr (inr (inr (inr (inr (inl refl))))))))

pub server_rank-IsRank : (t : String) → IsRank (server_rank t)
unfolding server_rank
server_rank-IsRank t =
    branches (t == "FeatureServer") (inr (inl refl))
      (branches (contains ("MapServer" ∷ "ImageServer" ∷ []) t) (inr (inr (inl refl))) IsRank-90)

pub portal_rank-IsRank : (t : String) → IsRank (portal_rank t)
unfolding portal_rank
portal_rank-IsRank t = branches (t == "Feature Service") (inr (inr (inr (inl refl)))) (
    branches (contains ("Tile Service" ∷ "Vector Tile Service" ∷ []) t)
      (inr (inr (inr (inr (inl refl)))))
      (branches (t == "Web Map") (inr (inr (inr (inr (inr (inl refl)))))) (
        branches (contains ("Dashboard" ∷ "Experience" ∷ "Web Mapping Application" ∷ []) t)
          (inr (inr (inr (inr (inr (inr (inl refl)))))))
          (branches (contains manual_review_portal_types t)
            (inr (inr (inr (inr (inr (inr (inr (inl refl)))))))) IsRank-90))))

pub ordering_rank-IsRank : (x : Json) → IsRank (ordering_rank x)
unfolding ordering_rank
ordering_rank-IsRank x =
    let kind = type_text (get "kind" x) in
    branches (kind == "filegdb-feature-class") (inl refl) (
      branches (kind == "server-service") (server_rank-IsRank (type_text (get "serviceType" x))) (
        branches (kind == "portal-item") (portal_rank-IsRank (type_text (get "type" x))) IsRank-90))

unfoldable pub of_rank : ℕ → Definitions → ℕ
of_rank r [] = 0
of_rank r ((rank, _, _) ∷ ds) = (if r == rank then 1 else 0) + of_rank r ds

pub of_rank-IsRank : (r : ℕ) → IsRank r → of_rank r ordering_definitions ≡ 1
unfolding of_rank nat_eq
of_rank-IsRank r (inl p) = rw p refl
of_rank-IsRank r (inr (inl p)) = rw p refl
of_rank-IsRank r (inr (inr (inl p))) = rw p refl
of_rank-IsRank r (inr (inr (inr (inl p)))) = rw p refl
of_rank-IsRank r (inr (inr (inr (inr (inl p))))) = rw p refl
of_rank-IsRank r (inr (inr (inr (inr (inr (inl p)))))) = rw p refl
of_rank-IsRank r (inr (inr (inr (inr (inr (inr (inl p))))))) = rw p refl
of_rank-IsRank r (inr (inr (inr (inr (inr (inr (inr (inl p)))))))) = rw p refl
of_rank-IsRank r (inr (inr (inr (inr (inr (inr (inr (inr (inl p))))))))) = rw p refl
of_rank-IsRank r (inr (inr (inr (inr (inr (inr (inr (inr (inr h))))))))) = elim h [ ]

pub one_definition : (x : Json) → definitions_of ordering_definitions x ≡ 1
unfolding definitions_of of_rank
one_definition x =
    same ordering_definitions ∙ of_rank-IsRank (ordering_rank x) (ordering_rank-IsRank x)
  where
    same : (ds : Definitions) → definitions_of ds x ≡ of_rank (ordering_rank x) ds
    same [] = refl
    same ((rank, _, _) ∷ ds) = ap (λ n. (if ordering_rank x == rank then 1 else 0) + n) (same ds)

pub by_definition-all :
    (test : Json → Bool) (xs : List Json)
    → by_definition test ordering_definitions xs ≡ count_if test xs
by_definition-all test [] = by_definition-nil test ordering_definitions
by_definition-all test (x ∷ xs) = ground (
  arith,
  by_definition-cons test ordering_definitions x xs,
  one_definition x,
  by_definition-all test xs,
)
