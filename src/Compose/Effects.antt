-- ===== src/Compose/Effects.antt =====
-- A step that reads and writes the generated files and may throw. What was written before a throw
-- stays written, so the disk comes back beside a failure too.
use socket_scan_patterns.Prelude.{◌≡◌, refl}
use socket_scan_patterns.Emit.{Disk}
use socket_scan_patterns.Failure.{Result, ok, err}

abbrev pub Io : Type 0 → Type 0
Io A = Disk → Result A × Disk

abbrev pub pure : {A : Type 0} → A → Io A
pure a disk = (ok a, disk)

-- a read that may throw
abbrev pub reads : {A : Type 0} → (Disk → Result A) → Io A
reads f disk = (f disk, disk)

abbrev pub continue : {A B : Type 0} → Result A → (A → Io B) → Io B
continue (ok a) f disk = f a disk
continue (err e) f disk = (err e, disk)

infixl 5 ◌>>=◌ ◌>>◌
abbrev pub ◌>>=◌ : {A B : Type 0} → Io A → (A → Io B) → Io B
◌>>=◌ m f disk = let (r, disk') = m disk in continue r f disk'

abbrev pub ◌>>◌ : {B : Type 0} → Io (Unit {0}) → Io B → Io B
m >> k = m >>= λ _. k

-- a whole that succeeded had a first step that succeeded
pub continue-eq-ok :
    {A B : Type 0} (r : Result A) (f : A → Io B) (disk after : Disk) {b : B}
    → continue r f disk ≡ (ok b, after)
    → (a : A) × (r ≡ ok a) × (f a disk ≡ (ok b, after))
continue-eq-ok (ok a) f disk after h = (a, refl, h)
continue-eq-ok (err e) f disk after h = cc
