-- ===== src/Broker/Permission.antt =====
-- broker/src/permission/permission.c: levels, permission lists, and the groups of a requester.
-- The tree walks are in Permission/Tree and Permission/Access, the updates in Permission/Update.
--
-- A level is the number of its `PermissionLevel`. A `List*` of pairs is an `Option`, `none` for NULL.
pub mod Names
pub mod Groups
pub mod Tree
pub mod Access
pub mod Spec
pub mod Levels
pub mod Correct
pub mod Inherit
pub mod Update
pub mod Stored
pub mod Json
mod Tests
use sdk_dslink_c.Prelude.{
  ℕ, zero, suc, Bool, true, false, ◌&&◌, ◌||◌, List, [], ◌∷◌, Option, none, some, ltb, leb, ◌==◌,
  get_elem?, if◌then◌else◌,
}
use sdk_dslink_c.Prelude.Bytes.{Bytes, codes, beq}

abbrev pub permission_none : ℕ
permission_none = 0

abbrev pub permission_list : ℕ
permission_list = 1

abbrev pub permission_read : ℕ
permission_read = 2

abbrev pub permission_write : ℕ
permission_write = 3

abbrev pub permission_config : ℕ
permission_config = 4

abbrev pub permission_never : ℕ
permission_never = 5

abbrev pub permission_names : List Bytes
permission_names =
    codes "none" ∷ codes "list" ∷ codes "read" ∷ codes "write" ∷ codes "config" ∷ codes "never" ∷ []

unfoldable pub permission_level_str : ℕ → Bytes
permission_level_str level =
    if leb permission_none level && leb level permission_never
    then (elim (get_elem? permission_names level) [ none ↦ codes "none" | some name ↦ name ])
    else codes "none"

-- The loop `for (; p <= PERMISSION_CONFIG; ++p)`, with the rounds that are left.
unfoldable pub str_level_from : ℕ → ℕ → Bytes → ℕ
str_level_from zero p str = p
str_level_from (suc rounds) p str = elim (get_elem? permission_names p) [
  | none ↦ p
  | some name ↦ elim (beq str name) [ true ↦ p | false ↦ str_level_from rounds (suc p) str ]
]

-- `none` is NULL.
unfoldable pub permission_str_level : Option Bytes → ℕ
unfolding str_level_from
permission_str_level none = permission_never
permission_str_level (some str) = str_level_from 5 permission_none str

pub record PermissionPair : Type 0 where
  pub group : Bytes
  pub permission : ℕ

-- The inner loop of `get_current_permission`: the permission of the first pair that is for the
-- group or for everybody.
unfoldable pub first_match : Bytes → List PermissionPair → Option ℕ
first_match group [] = none
first_match group (pair ∷ pairs) =
    if beq pair.group group || beq pair.group (codes "default")
    then some pair.permission
    else first_match group pairs

-- The outcome of the groups that follow, with the level of this one.
abbrev pub with_level : ℕ → Bool × List ℕ → Bool × List ℕ
with_level level (stop, levels) = (stop, level ∷ levels)

-- The outer loop over the groups and their levels. `true`: a group has reached the highest level,
-- and the rest is skipped.
unfoldable pub get_current_permission : List PermissionPair → List Bytes → List ℕ → Bool × List ℕ
get_current_permission pairs [] levels = (false, levels)
get_current_permission pairs (g ∷ groups) [] = (false, [])
get_current_permission pairs (g ∷ groups) (level ∷ levels) =
    let rest = get_current_permission pairs groups levels in
    elim (first_match g pairs) [
      | none ↦ with_level level rest
      | some permission ↦
          if ltb level permission
          then (if permission == permission_config
              then (true, permission ∷ levels)
              else with_level permission rest)
          else with_level level rest
    ]
