-- ===== src/Broker/Query/Parse.antt =====
-- parse_query of broker/src/query/query.c.
use sdk_dslink_c.Prelude.{ℕ, ◌≡◌, refl, [], ◌∷◌, ◌++◌, none, some, if◌then◌else◌, ==_refl, ne→==}
use sdk_dslink_c.Prelude.Bytes.{Bytes, codes}
use sdk_dslink_c.Broker.Query.{strchr, has_prefix, parse_query}
use sdk_dslink_c.Broker.Query.Complete.{IsWithout}

strchr-append :
    (c : ℕ) (before behind : Bytes)
    → IsWithout c before
    → strchr c (before ++ (c ∷ behind)) ≡ some (before, behind)
unfolding strchr
strchr-append c [] behind h = rw (==_refl c) refl
strchr-append c (x ∷ before) behind (ne, h) =
    rw (ne→== x c ne, strchr-append c before behind h) refl

-- A command without a space, a space, a pattern without a bar, and a bar: parse_query gives the pattern if the command is
-- the beginning of "list", and NULL otherwise. The empty command counts as a beginning.
pub parse_query-pattern :
    (command pattern tail : Bytes)
    → IsWithout b' ' command
    → IsWithout b'|' pattern
    → parse_query (command ++ (b' ' ∷ pattern ++ (b'|' ∷ tail)))
      ≡ (if has_prefix command (codes "list") then some pattern else none)
unfolding parse_query
parse_query-pattern command pattern tail h k =
    rw
      (
        parse_query,
        strchr-append b' ' command (pattern ++ (b'|' ∷ tail)) h,
        strchr-append b'|' pattern tail k,
      )
      refl
