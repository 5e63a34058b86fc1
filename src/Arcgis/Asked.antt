-- ===== src/Arcgis/Asked.antt =====
-- What a request of services/arcgis.py asks of the target: one call, and again where that may be.
use honua_migrate.Base.{
  ◌≡◌, refl, sym, ap, ◌∙◌, ℕ, zero, suc, ◌+◌, ◌≤◌, inl, inr, ◌||◌, Bool-cases, arith, List, [], ◌∷◌,
  ◌++◌, Option, none, some, contains, nat_eq, length, length-append, All, All-append,
}
use mathlib.Core.List.{append-nil, append_assoc}
use honua_migrate.Arcgis.Client.{
  Call, Reply, raises, reply, World, Done, Clock, overdue, tick, send, retryable, redirects,
  after_send, request_loop,
}

-- From one world to a later one, by at most `most` calls, each of which is `P`
pub record Grows (P : Call → Type 0) (most : ℕ) (w v : World) : Type 0 where
  pub more : List Call
  pub added : v.calls ≡ w.calls ++ more
  pub each : All P more
  pub few : length more ≤ most
  pub later : w.reads ≤ v.reads

pub Grows-refl : (P : Call → Type 0) (w : World) → Grows P 0 w w
Grows-refl P w = record {
  more = [];
  added = sym (append-nil w.calls);
  each = tt;
  few = omega arith;
  later = omega arith;
}

pub Grows-trans :
    (P : Call → Type 0) (m n k : ℕ) (u v w : World)
    → m + n ≤ k
    → Grows P m u v
    → Grows P n v w
    → Grows P k u w
Grows-trans P m n k u v w le g h = record {
  more = g.more ++ h.more;
  added = h.added ∙ ap (λ cs. cs ++ h.more) g.added ∙ append_assoc u.calls g.more h.more;
  each = All-append P g.more h.more g.each h.each;
  few = omega (arith, length-append g.more h.more, le, g.few, h.few);
  later = omega (arith, g.later, h.later);
}

pub Grows-le : (P : Call → Type 0) (m n : ℕ) (v w : World) → m ≤ n → Grows P m v w → Grows P n v w
Grows-le P m n v w le g = record {
  more = g.more;
  added = g.added;
  each = g.each;
  few = omega (arith, g.few, le);
  later = g.later;
}

pub Grows-tick :
    {T : Type 0} (P : Call → Type 0) (d : Option T) (w : World) → Grows P 0 w (tick d w)
Grows-tick P none w = Grows-refl P w
Grows-tick P (some d) w = record {
  more = [];
  added = sym (append-nil w.calls);
  each = tt;
  few = omega arith;
  later = omega arith;
}

Grows-send : (P : Call → Type 0) (call : Call) (w : World) → P call → Grows P 1 w (send call w)
Grows-send P call w p = record {
  more = call ∷ [];
  added = refl;
  each = (p, tt);
  few = omega arith;
  later = omega arith;
}

module _ {T : Type 0} (clock : Clock T) (session : List Call → Call → Reply) (deadline : Option T)
    (P : Call → Type 0) where
  -- A further attempt that asks for at most `n` calls
  abbrev Goes : ℕ → (World → Done) → Type 0
  Goes n go = (v : World) → Grows P n v (go v).world

  one_tick :
      (v : World) (n : ℕ) (go : World → Done) → Goes n go → Grows P n v (go (tick deadline v)).world
  one_tick v n go g =
      Grows-trans P 0 n n v (tick deadline v) _ (omega arith) (Grows-tick P deadline v)
        (g (tick deadline v))

  last_send-Grows :
      (r : Reply) (v : World) → Grows P 0 v (after_send clock session deadline r v none).world
  unfolding after_send
  last_send-Grows raises v = elim (Bool-cases (overdue clock deadline v)) [
    | inl e ↦ rw e (Grows-tick P deadline v)
    | inr e ↦ rw e (Grows-tick P deadline v)
  ]
  last_send-Grows (reply r) v = elim (Bool-cases (r.is_redirect || contains redirects r.status)) [
    | inl e ↦ rw e (Grows-refl P v)
    | inr e ↦ rw e (Grows-refl P v)
  ]

  after_send-Grows :
      (r : Reply) (v : World) (n : ℕ) (go : World → Done)
      → Goes n go
      → Grows P n v (after_send clock session deadline r v (some go)).world
  unfolding after_send
  after_send-Grows raises v n go g = elim (Bool-cases (overdue clock deadline v)) [
    | inl e ↦ rw e (Grows-le P 0 n v _ (omega arith) (Grows-tick P deadline v))
    | inr e ↦ rw e (
        Grows-trans P 0 n n v (tick deadline v) _ (omega arith) (Grows-tick P deadline v)
          (one_tick (tick deadline v) n go g))
  ]
  after_send-Grows (reply r) v n go g =
      elim (Bool-cases (r.is_redirect || contains redirects r.status)) [
        | inl e ↦ rw e (Grows-le P 0 n v v (omega arith) (Grows-refl P v))
        | inr e ↦ elim (Bool-cases (contains retryable r.status)) [
          | inl s ↦ rw (e, s) (one_tick v n go g)
          | inr s ↦ rw (e, s) (Grows-le P 0 n v v (omega arith) (Grows-refl P v))
        ]
      ]

  sent : (call : Call) (w : World) → P call → Grows P 1 w (send call (tick deadline w))
  sent call w p =
      Grows-trans P 0 1 1 w (tick deadline w) _ (omega arith) (Grows-tick P deadline w)
        (Grows-send P call (tick deadline w) p)

  -- A loop of `suc left` attempts asks for at most as many calls, each the call of the request.
  pub request_loop-Grows :
      (call : Call) (left : ℕ) (w : World)
      → P call
      → Grows P (suc left) w (request_loop clock session deadline call left w).world
  unfolding request_loop
  request_loop-Grows call zero w p = elim (Bool-cases (overdue clock deadline w)) [
    | inl e ↦ rw e (Grows-le P 0 1 w _ (omega arith) (Grows-tick P deadline w))
    | inr e ↦ rw e (
        Grows-trans P 1 0 1 w (send call (tick deadline w)) _ (omega arith) (sent call w p)
          (last_send-Grows (session w.calls call) (send call (tick deadline w))))
  ]
  request_loop-Grows call (suc left) w p = elim (Bool-cases (overdue clock deadline w)) [
    | inl e ↦ rw e (Grows-le P 0 (suc (suc left)) w _ (omega arith) (Grows-tick P deadline w))
    | inr e ↦ rw e (
        Grows-trans P 1 (suc left) (suc (suc left)) w (send call (tick deadline w)) _ (omega arith)
          (sent call w p)
          (after_send-Grows (session w.calls call) (send call (tick deadline w)) (suc left)
            (λ v. request_loop clock session deadline call left v)
            (λ v. request_loop-Grows call left v p)))
  ]
