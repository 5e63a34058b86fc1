-- ===== src/Runs/Effect.antt =====
-- Methods that change the artifact file or the target and may raise. What was done before a raise
-- stays done, so the state comes back beside the error too.
use honua_migrate.Base.{◌≡◌, refl}
use honua_migrate.Runs.Contracts.{Exc, Result, ok, err}

abbrev pub Effect : Type 0 → Type 0 → Type 0
Effect W A = W → Result A × W

module _ {W A : Type 0} where
  abbrev pub pure : A → Effect W A
  pure a w = (ok a, w)

  abbrev pub raise : Exc → Effect W A
  raise e w = (err e, w)

  abbrev pub lift : Result A → Effect W A
  lift r w = (r, w)

  abbrev rescue : Result A → (Exc → Effect W A) → Effect W A
  rescue (ok a) handler w = (ok a, w)
  rescue (err e) handler w = handler e w

  -- `try: m` with `except … as e: handler e`
  unfoldable pub attempt : Effect W A → (Exc → Effect W A) → Effect W A
  attempt m handler w = let (r, w') = m w in rescue r handler w'

module _ {W A B : Type 0} where
  abbrev continue : Result A → (A → Effect W B) → Effect W B
  continue (ok a) f w = f a w
  continue (err e) f w = (err e, w)

  infixl 10 ◌>>=◌ ◌>>◌
  unfoldable pub ◌>>=◌ : Effect W A → (A → Effect W B) → Effect W B
  ◌>>=◌ m f w = let (r, w') = m w in continue r f w'

  abbrev pub ◌>>◌ : Effect W A → Effect W B → Effect W B
  m >> n = m >>= λ _. n

-- `m` keeps `P`, whether it returns or raises.
pub record Keeps {W A : Type 0} (P : W → Type 0) (m : Effect W A) : Type 0 where
  pub at : (w : W) → P w → P (m w).1

module _ {W A : Type 0} {P : W → Type 0} where
  pub Keeps-pure : (a : A) → Keeps P (pure a)
  Keeps-pure a = record { at = λ w h. h }

  pub Keeps-raise : (e : Exc) → Keeps P (raise {A = A} e)
  Keeps-raise e = record { at = λ w h. h }

  pub Keeps-lift : (r : Result A) → Keeps P (lift r)
  Keeps-lift r = record { at = λ w h. h }

  Keeps-rescue :
      (r : Result A) (handler : Exc → Effect W A)
      → ((e : Exc) → Keeps P (handler e))
      → Keeps P (rescue r handler)
  Keeps-rescue (ok a) handler k = record { at = λ w h. h }
  Keeps-rescue (err e) handler k = k e

  pub Keeps-attempt :
      (m : Effect W A) (handler : Exc → Effect W A)
      → Keeps P m
      → ((e : Exc) → Keeps P (handler e))
      → Keeps P (attempt m handler)
  unfolding attempt
  Keeps-attempt m handler km kh = record {
    at = λ w h. let (r, w') = m w in (Keeps-rescue r handler kh).at w' (km.at w h);
  }

module _ {W A B : Type 0} {P : W → Type 0} where
  Keeps-continue :
      (r : Result A) (f : A → Effect W B) → ((a : A) → Keeps P (f a)) → Keeps P (continue r f)
  Keeps-continue (ok a) f k = k a
  Keeps-continue (err e) f k = record { at = λ w h. h }

  pub Keeps-bind :
      (m : Effect W A) (f : A → Effect W B)
      → Keeps P m
      → ((a : A) → Keeps P (f a))
      → Keeps P (m >>= f)
  unfolding ◌>>=◌
  Keeps-bind m f km kf = record {
    at = λ w h. let (r, w') = m w in (Keeps-continue r f kf).at w' (km.at w h);
  }

  -- The rest may use that `r` did not raise.
  pub Keeps-bind-lift :
      (r : Result A) (f : A → Effect W B)
      → ((x : A) → r ≡ ok x → Keeps P (f x))
      → Keeps P (lift r >>= f)
  unfolding ◌>>=◌
  Keeps-bind-lift (ok x) f k = k x refl
  Keeps-bind-lift (err e) f k = record { at = λ w h. h }
