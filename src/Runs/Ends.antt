-- ===== src/Runs/Ends.antt =====
-- What an effect of runs/orchestration.py is known to end in, a value or an exception.
use honua_migrate.Base.{◌≡◌, refl}
use honua_migrate.Runs.Contracts.{Exc, Result, ok, err, ok-injective}
use honua_migrate.Runs.Effect.{Effect, lift, attempt, ◌>>=◌}

pub data Ends {W A : Type 0} (Q : A → W → Type 0) (E : Exc → W → Type 0)
    : Result A × W → Type 0 where
  returns : {a : A} {w : W} → Q a w → Ends Q E (ok a, w)
  raises : {e : Exc} {w : W} → E e w → Ends Q E (err e, w)

module _ {W A : Type 0} where
  pub lift_rule :
      {Q : A → W → Type 0} {E : Exc → W → Type 0} (r : Result A) (w : W)
      → ((x : A) → r ≡ ok x → Q x w)
      → ((e : Exc) → r ≡ err e → E e w)
      → Ends Q E (lift r w)
  lift_rule (ok x) w q e = returns (q x refl)
  lift_rule (err x) w q e = raises (e x refl)

  attempt_step :
      {Q : A → W → Type 0} {E F : Exc → W → Type 0} (handler : Exc → Effect W A) (r : Result A)
      (w : W)
      → Ends Q F (r, w)
      → ((e : Exc) (w' : W) → F e w' → Ends Q E (handler e w'))
      → Ends Q E (attempt (lift r) handler w)
  unfolding attempt
  attempt_step handler (ok x) w (returns q) k = returns q
  attempt_step handler (err e) w (raises f) k = k e w f

  pub attempt_rule :
      {Q : A → W → Type 0} {E F : Exc → W → Type 0} (m : Effect W A) (handler : Exc → Effect W A)
      (w : W)
      → Ends Q F (m w)
      → ((e : Exc) (w' : W) → F e w' → Ends Q E (handler e w'))
      → Ends Q E (attempt m handler w)
  unfolding attempt
  attempt_rule m handler w h k = let (r, w') = m w in attempt_step handler r w' h k

  pub Ends-mono :
      {Q R : A → W → Type 0} {E F : Exc → W → Type 0} (p : Result A × W)
      → Ends Q E p
      → ((x : A) (w : W) → Q x w → R x w)
      → ((e : Exc) (w : W) → E e w → F e w)
      → Ends R F p
  Ends-mono (ok x, w) (returns q) f g = returns (f x w q)
  Ends-mono (err e, w) (raises q) f g = raises (g e w q)

  -- From a postcondition that does not ask how the effect ended.
  pub world_of_Ends : (P : W → Type 0) (p : Result A × W) → Ends (λ _ w. P w) (λ _ w. P w) p → P p.1
  world_of_Ends P (ok x, w) (returns q) = q
  world_of_Ends P (err e, w) (raises q) = q

  pub Ends-returned :
      {Q : A → W → Type 0} {E : Exc → W → Type 0} (p : Result A × W) {x : A}
      → Ends Q E p
      → p.0 ≡ ok x
      → Q x p.1
  Ends-returned {Q} (ok y, w) (returns q) h = rw (ok-injective h) q
  Ends-returned (err e, w) (raises q) h = cc

  pub Ends-of_world : (P : W → Type 0) (p : Result A × W) → P p.1 → Ends (λ _ w. P w) (λ _ w. P w) p
  Ends-of_world P (ok x, w) h = returns h
  Ends-of_world P (err e, w) h = raises h

module _ {W A B : Type 0} where
  bind_step :
      {P : A → W → Type 0} {Q : B → W → Type 0} {E : Exc → W → Type 0} (f : A → Effect W B)
      (r : Result A) (w : W)
      → Ends P E (r, w)
      → ((x : A) (w' : W) → P x w' → Ends Q E (f x w'))
      → Ends Q E ((lift r >>= f) w)
  unfolding ◌>>=◌
  bind_step f (ok x) w (returns p) k = k x w p
  bind_step f (err e) w (raises q) k = raises q

  pub bind_rule :
      {P : A → W → Type 0} {Q : B → W → Type 0} {E : Exc → W → Type 0} (m : Effect W A)
      (f : A → Effect W B) (w : W)
      → Ends P E (m w)
      → ((x : A) (w' : W) → P x w' → Ends Q E (f x w'))
      → Ends Q E ((m >>= f) w)
  unfolding ◌>>=◌
  bind_rule m f w h k = let (r, w') = m w in bind_step f r w' h k
