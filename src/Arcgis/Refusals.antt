-- ===== src/Arcgis/Refusals.antt =====
-- What is known of a test that raises an `ArcGisMigrationError` when it did not.
use honua_migrate.Base.{◌≡◌, refl, Bool, true, false, not, if◌then◌else◌}
use honua_migrate.Runs.Contracts.{Result, ok}
use honua_migrate.Arcgis.Tables.{refuse}

pub kept :
    {A : Type 0} (b : Bool) (s : Result A) {x : A}
    → (if b then refuse else s) ≡ ok x
    → (b ≡ false) × (s ≡ ok x)
kept true s e = cc
kept false s e = (refl, e)

pub refused_ok : {A : Type 0} {x : A} → refuse {A = A} ≡ ok x → ⊥
refused_ok e = cc

pub passed :
    {A : Type 0} (b : Bool) (s : Result A) {x : A}
    → (if b then s else refuse) ≡ ok x
    → (b ≡ true) × (s ≡ ok x)
passed true s e = (refl, e)
passed false s e = cc

pub from_not : (b : Bool) → not b ≡ false → b ≡ true
from_not true e = refl
from_not false e = cc
