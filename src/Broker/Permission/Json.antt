-- ===== src/Broker/Permission/Json.antt =====
-- permission.c: permission lists as JSON. The JSON library (jansson) is not part of the
-- repository: its values and the calls that this code makes are a parameter with the laws that
-- its documentation gives.
use sdk_dslink_c.Prelude.{
  ℕ, zero, suc, ◌≤◌, ◌<◌, ◌≡◌, refl, subst, Bool, true, not, ◌||◌, List, [], ◌∷◌, Option, none,
  some, arith, ltb, leb, ◌==◌, if◌then◌else◌, length, get_elem?, Bool-cases, Option-cases, inl, inr,
}
use sdk_dslink_c.Prelude.Bytes.{Bytes}
use sdk_dslink_c.Broker.Permission.{
  PermissionPair, permission_names, permission_str_level, permission_level_str, permission_config,
  permission_never,
}
use sdk_dslink_c.Broker.Permission.Names.{str_level-level_str}
use sdk_dslink_c.Broker.Permission.Tree.{PermissionList}
use sdk_dslink_c.Broker.Permission.Spec.{Bounded}

pub record Jansson : Type 1 where
  pub Json : Type 0
  pub json_is_array : Json → Bool
  -- The elements of an array; none of any other value.
  pub json_elements : Json → List Json
  -- `none` where the value is no string.
  pub json_string_value : Json → Option Bytes
  pub json_array : List Json → Json
  pub json_string : Bytes → Json
  pub is_array-array : (xs : List Json) → json_is_array (json_array xs) ≡ true
  pub elements-array : (xs : List Json) → json_elements (json_array xs) ≡ xs
  pub string_value-string : (s : Bytes) → json_string_value (json_string s) ≡ some s

-- `PERMISSION_NAMES[p->permission]`, below `PERMISSION_NEVER`
abbrev pub name_of : ℕ → Bytes
name_of level = elim (get_elem? permission_names level) [ none ↦ [] | some name ↦ name ]

-- The pairs that are saved: all but those with `never`.
abbrev pub saved : List PermissionPair → List PermissionPair
saved [] = []
saved (p ∷ pairs) = if ltb p.permission permission_never then p ∷ saved pairs else saved pairs

str_level-name_of :
    (level : ℕ) → level < permission_never → permission_str_level (some (name_of level)) ≡ level
unfolding permission_level_str
str_level-name_of zero h = str_level-level_str 0 (omega arith)
str_level-name_of (suc zero) h = str_level-level_str 1 (omega arith)
str_level-name_of (suc (suc zero)) h = str_level-level_str 2 (omega arith)
str_level-name_of (suc (suc (suc zero))) h = str_level-level_str 3 (omega arith)
str_level-name_of (suc (suc (suc (suc zero)))) h = str_level-level_str 4 (omega arith)
str_level-name_of (suc (suc (suc (suc (suc n))))) h = absurd (omega arith)

module _ (jansson : Jansson) where
  open jansson use {
    Json, json_is_array, json_elements, json_string_value, json_array, json_string, is_array-array,
    elements-array, string_value-string,
  }

  -- The pair that one element of the array stands for, if it is one.
  unfoldable pub load_pair : List Json → Option PermissionPair
  load_pair (v0 ∷ (v1 ∷ [])) = elim (json_string_value v0) [
    | none ↦ none
    | some group ↦ elim (json_string_value v1) [
      | none ↦ none
      | some name ↦
          let p = permission_str_level (some name) in
          if leb p permission_config then some (record { group = group; permission = p }) else none
    ]
  ]
  load_pair _ = none

  unfoldable pub load_pairs : List Json → List PermissionPair
  unfolding load_pair
  load_pairs [] = []
  load_pairs (value ∷ values) = elim (load_pair (json_elements value)) [
    | none ↦ load_pairs values
    | some pair ↦ pair ∷ load_pairs values
  ]

  -- The argument may be NULL, and so may the result.
  unfoldable pub permission_list_load : Option Json → PermissionList
  unfolding load_pairs
  permission_list_load none = none
  permission_list_load (some json) =
      if not (json_is_array json) || length (json_elements json) == 0
      then none
      else some (load_pairs (json_elements json))

  unfoldable pub save_pairs : List PermissionPair → List Json
  save_pairs [] = []
  save_pairs (p ∷ pairs) =
      if ltb p.permission permission_never
      then json_array (json_string p.group ∷ (json_string (name_of p.permission) ∷ []))
        ∷ save_pairs pairs
      else save_pairs pairs

  unfoldable pub permission_list_save : PermissionList → Option Json
  unfolding save_pairs
  permission_list_save none = none
  permission_list_save (some []) = none
  permission_list_save (some (p ∷ pairs)) = some (json_array (save_pairs (p ∷ pairs)))

  load_pair-save :
      (p : PermissionPair)
      → p.permission < permission_never
      → load_pair (
          json_elements
            (json_array (json_string p.group ∷ (json_string (name_of p.permission) ∷ []))))
        ≡ some p
  unfolding load_pair
  load_pair-save p h = ground (
    arith,
    elements-array (json_string p.group ∷ (json_string (name_of p.permission) ∷ [])),
    string_value-string p.group,
    string_value-string (name_of p.permission),
    str_level-name_of p.permission,
  )

  load_pairs-save : (pairs : List PermissionPair) → load_pairs (save_pairs pairs) ≡ saved pairs
  unfolding load_pairs save_pairs
  load_pairs-save [] = refl
  load_pairs-save (p ∷ pairs) = elim (Bool-cases (ltb p.permission permission_never)) [
    | inl kept ↦ ground (arith, load_pair-save p, load_pairs-save pairs)
    | inr dropped ↦ ground (arith, load_pairs-save pairs)
  ]

  length-save_pairs :
      (pairs : List PermissionPair) → length (save_pairs pairs) ≡ length (saved pairs)
  unfolding save_pairs
  length-save_pairs [] = refl
  length-save_pairs (p ∷ pairs) = ground (arith, length-save_pairs pairs)

  load_pair-le :
      (values : List Json) {p : PermissionPair}
      → load_pair values ≡ some p
      → p.permission ≤ permission_config
  unfolding load_pair
  load_pair-le [] e = cc
  load_pair-le (v0 ∷ []) e = cc
  load_pair-le (v0 ∷ (v1 ∷ [])) e = ground arith
  load_pair-le (v0 ∷ (v1 ∷ (v2 ∷ vs))) e = cc

  load_pairs-Bounded : (values : List Json) → Bounded (load_pairs values)
  unfolding load_pairs
  load_pairs-Bounded [] = tt
  load_pairs-Bounded (value ∷ values) = elim (Option-cases (load_pair (json_elements value))) [
    | inl skip ↦ subst Bounded {x = load_pairs values} (ground arith) (load_pairs-Bounded values)
    | inr (p, e) ↦
        subst Bounded {x = p ∷ load_pairs values} (ground arith)
          (load_pair-le (json_elements value) e, load_pairs-Bounded values)
  ]

  -- A list that is saved and loaded again comes back without its `never` pairs. A list that had
  -- only such pairs, or none, comes back as no list.
  pub load-save :
      (pairs : List PermissionPair)
      → permission_list_load (permission_list_save (some pairs))
        ≡ (elim (saved pairs) [ [] ↦ none | p ∷ rest ↦ some (p ∷ rest) ])
  unfolding permission_list_load permission_list_save
  load-save [] = refl
  load-save (p ∷ pairs) =
      let json = save_pairs (p ∷ pairs) in
      ground (
        arith,
        is_array-array json,
        elements-array json,
        load_pairs-save (p ∷ pairs),
        length-save_pairs (p ∷ pairs),
      )

  -- What is loaded never goes beyond `config`: the bound that the walk relies on.
  pub load-Bounded :
      (json : Option Json) {pairs : List PermissionPair}
      → permission_list_load json ≡ some pairs
      → Bounded pairs
  unfolding permission_list_load
  load-Bounded none e = cc
  load-Bounded (some json) e =
      subst Bounded {x = load_pairs (json_elements json)} (ground arith)
        (load_pairs-Bounded (json_elements json))
