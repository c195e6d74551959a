-- ===== src/Broker/Permission/Levels.antt =====
-- The levels of the groups while permission.c applies one list after the other.
use sdk_dslink_c.Prelude.{
  ℕ, ◌≤◌, ◌≡◌, refl, List, [], ◌∷◌, max, arith, ltb, if◌then◌else◌, true, false,
}
use sdk_dslink_c.Prelude.Bytes.{Bytes}
use sdk_dslink_c.Broker.Permission.{
  PermissionPair, first_match, get_current_permission, permission_none, permission_config,
}
use sdk_dslink_c.Broker.Permission.Access.{max_level, zero_levels}
use sdk_dslink_c.Broker.Permission.Spec.{grant, level_of, granted, Bounded, AllBounded}

pub top : List ℕ → ℕ
top [] = 0
top (l ∷ levels) = max l (top levels)

pub max_level-top : (m : ℕ) (levels : List ℕ) → max_level m levels ≡ max m (top levels)
unfolding max_level top
max_level-top m [] = omega arith
max_level-top m (l ∷ levels) = ground (arith, max_level-top (if ltb m l then l else m) levels)

-- As many levels as groups, none above the highest permission.
abbrev pub Fits : List Bytes → List ℕ → Type 0
Fits [] [] = Unit {0}
Fits [] (l ∷ levels) = ⊥
Fits (g ∷ groups) [] = ⊥
Fits (g ∷ groups) (l ∷ levels) = (l ≤ permission_config) × Fits groups levels

top-le :
    (groups : List Bytes) (levels : List ℕ) → Fits groups levels → top levels ≤ permission_config
unfolding top
top-le [] [] f = omega arith
top-le [] (l ∷ levels) f = absurd f
top-le (g ∷ groups) [] f = absurd f
top-le (g ∷ groups) (l ∷ levels) f = omega (arith, f.0, top-le groups levels f.1)

-- The levels raised by what a list gives.
pub raise : List PermissionPair → List Bytes → List ℕ → List ℕ
raise pairs [] levels = levels
raise pairs (g ∷ groups) [] = []
raise pairs (g ∷ groups) (l ∷ levels) = max l (grant g pairs) ∷ raise pairs groups levels

-- The highest of the levels once the lists are applied to all groups.
pub best : List Bytes → List ℕ → List (List PermissionPair) → ℕ
best [] levels lists = 0
best (g ∷ groups) [] lists = 0
best (g ∷ groups) (l ∷ levels) lists = max (max l (level_of g lists)) (best groups levels lists)

pub grant-le :
    (g : Bytes) (pairs : List PermissionPair) → Bounded pairs → grant g pairs ≤ permission_config
unfolding first_match
grant-le g [] b = omega arith
grant-le g (pair ∷ pairs) b = ground (arith, grant-le g pairs b.1)

level_of-le :
    (g : Bytes) (lists : List (List PermissionPair))
    → AllBounded lists
    → level_of g lists ≤ permission_config
unfolding level_of
level_of-le g [] b = omega arith
level_of-le g (pairs ∷ lists) b = omega (arith, grant-le g pairs b.0, level_of-le g lists b.1)

pub best-le :
    (groups : List Bytes) (levels : List ℕ) (lists : List (List PermissionPair))
    → Fits groups levels
    → AllBounded lists
    → best groups levels lists ≤ permission_config
unfolding best
best-le [] levels lists f b = omega arith
best-le (g ∷ groups) [] lists f b = omega arith
best-le (g ∷ groups) (l ∷ levels) lists f b =
    omega (arith, f.0, level_of-le g lists b, best-le groups levels lists f.1 b)

pub best-nil :
    (groups : List Bytes) (levels : List ℕ)
    → Fits groups levels
    → best groups levels [] ≡ top levels
unfolding best top level_of
best-nil [] [] f = refl
best-nil [] (l ∷ levels) f = absurd f
best-nil (g ∷ groups) [] f = absurd f
best-nil (g ∷ groups) (l ∷ levels) f = omega (arith, best-nil groups levels f.1)

pub best-raise :
    (pairs : List PermissionPair) (groups : List Bytes) (levels : List ℕ)
    (lists : List (List PermissionPair))
    → best groups (raise pairs groups levels) lists ≡ best groups levels (pairs ∷ lists)
unfolding best raise level_of
best-raise pairs [] levels lists = refl
best-raise pairs (g ∷ groups) [] lists = refl
best-raise pairs (g ∷ groups) (l ∷ levels) lists =
    omega (arith, best-raise pairs groups levels lists)

pub raise-Fits :
    (pairs : List PermissionPair) (groups : List Bytes) (levels : List ℕ)
    → Bounded pairs
    → Fits groups levels
    → Fits groups (raise pairs groups levels)
unfolding raise
raise-Fits pairs [] levels b f = f
raise-Fits pairs (g ∷ groups) [] b f = f
raise-Fits pairs (g ∷ groups) (l ∷ levels) b f =
    (omega (arith, f.0, grant-le g pairs b), raise-Fits pairs groups levels b f.1)

module _ (pairs : List PermissionPair) where
  -- Where no group reaches the highest level, every group is raised.
  pub get_current_permission-raise :
      (groups : List Bytes) (levels : List ℕ)
      → Fits groups levels
      → (get_current_permission pairs groups levels).0 ≡ false
      → (get_current_permission pairs groups levels).1 ≡ raise pairs groups levels
  unfolding get_current_permission raise
  get_current_permission-raise [] levels f h = refl
  get_current_permission-raise (g ∷ groups) [] f h = absurd f
  get_current_permission-raise (g ∷ groups) (l ∷ levels) f h =
      ground (arith, get_current_permission-raise groups levels f.1)

  -- Where one does, the highest level is the result, with or without the rest.
  pub get_current_permission-stop :
      (groups : List Bytes) (levels : List ℕ) (lists : List (List PermissionPair))
      → Bounded pairs
      → Fits groups levels
      → (get_current_permission pairs groups levels).0 ≡ true
      → (permission_config ≤ best groups levels (pairs ∷ lists))
        × (top (get_current_permission pairs groups levels).1 ≡ permission_config)
  unfolding get_current_permission best level_of top
  get_current_permission-stop [] levels lists b f h = cc
  get_current_permission-stop (g ∷ groups) [] lists b f h = cc
  get_current_permission-stop (g ∷ groups) (l ∷ levels) lists b f h = ground (
    arith,
    grant-le g pairs b,
    top-le groups levels,
    get_current_permission-stop groups levels lists b f.1,
  )

pub zero_levels-Fits : (groups : List Bytes) → Fits groups (zero_levels groups)
zero_levels-Fits [] = tt
zero_levels-Fits (g ∷ groups) = (omega arith, zero_levels-Fits groups)

pub best-zero :
    (groups : List Bytes) (lists : List (List PermissionPair))
    → best groups (zero_levels groups) lists ≡ granted groups lists
unfolding best granted
best-zero [] lists = refl
best-zero (g ∷ groups) lists = omega (arith, best-zero groups lists)

-- No list gives nothing.
pub granted-nil : (groups : List Bytes) → granted groups [] ≡ permission_none
unfolding granted level_of
granted-nil [] = refl
granted-nil (g ∷ groups) = omega (arith, granted-nil groups)
