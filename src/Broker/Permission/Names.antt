-- ===== src/Broker/Permission/Names.antt =====
-- The names of the permission levels.
use sdk_dslink_c.Prelude.{ℕ, zero, suc, ◌≤◌, ◌≡◌, refl, ◌⊎◌, some, arith}
use sdk_dslink_c.Prelude.Bytes.{Bytes, beq, beq→eq, codes}
use sdk_dslink_c.Broker.Permission.{permission_level_str, permission_str_level, permission_never}

-- Parsing the name of a level gives the level, for every level.
pub str_level-level_str :
    (level : ℕ)
    → level ≤ permission_never
    → permission_str_level (some (permission_level_str level)) ≡ level
unfolding permission_level_str permission_str_level beq
str_level-level_str zero h = refl
str_level-level_str (suc zero) h = refl
str_level-level_str (suc (suc zero)) h = refl
str_level-level_str (suc (suc (suc zero))) h = refl
str_level-level_str (suc (suc (suc (suc zero)))) h = refl
str_level-level_str (suc (suc (suc (suc (suc zero))))) h = refl
str_level-level_str (suc (suc (suc (suc (suc (suc n)))))) h = absurd (omega arith)

-- Any other text is `never`, and printing what was parsed gives the text back unless it is that.
pub level_str-str_level :
    (str : Bytes)
    → (permission_str_level (some str) ≡ permission_never)
      ⊎ (permission_level_str (permission_str_level (some str)) ≡ str)
unfolding permission_level_str permission_str_level
level_str-str_level str = ground (
  arith,
  beq→eq str (codes "none"),
  beq→eq str (codes "list"),
  beq→eq str (codes "read"),
  beq→eq str (codes "write"),
  beq→eq str (codes "config"),
)
