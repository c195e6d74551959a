-- ===== src/Broker/Permission/Groups.antt =====
-- permission.c: the permission groups of a requester, loaded from a list with commas.
use sdk_dslink_c.Prelude.{
  ℕ, ◌+◌, ◌*◌, ◌<◌, ◌≡◌, refl, sym, ap, List, [], ◌∷◌, ◌++◌, Option, none, some, arith, ltb, ◌==◌,
  if◌then◌else◌, length, append_assoc, append-nil, length-append, Bool-cases, true, false, inl, inr,
}
use sdk_dslink_c.Prelude.Run.{Run, ok, fault, ◌>>=◌}
use sdk_dslink_c.Prelude.Bytes.{Bytes, is_empty}

-- `PermissionGroups`, with the number of cells of its block beside the groups that are stored.
pub record PermissionGroups : Type 0 where
  pub groups : List Bytes
  pub allocated : ℕ

-- `groups->groups[len] = …; ++len`: the write has to lie inside the block.
abbrev pub push_group : PermissionGroups → Bytes → Run PermissionGroups
push_group g name =
    if ltb (length g.groups) g.allocated
    then ok (record g { groups = g.groups ++ (name ∷ []) })
    else fault

-- A segment between commas: an empty one is skipped, and the block is doubled if there is no room
-- for the segment and for the identifier of the link.
unfoldable pub end_segment : PermissionGroups → Bytes → Run PermissionGroups
end_segment g [] = ok g
end_segment g (c ∷ cs) =
    push_group
      (if ltb g.allocated (length g.groups + 2)
        then record g { allocated = g.allocated * 2 }
        else g)
      (c ∷ cs)

abbrev pub comma : ℕ
comma = b','

-- The loop over `str`; `segment` is the text from `start` up to `end`.
unfoldable pub load_segments : PermissionGroups → Bytes → Bytes → Run PermissionGroups
unfolding end_segment
load_segments g segment [] = end_segment g segment
load_segments g segment (c ∷ str) = elim (c == comma) [
  | true ↦ do g' ← end_segment g segment; load_segments g' [] str
  | false ↦ load_segments g (segment ++ (c ∷ [])) str
]

-- `str` may be NULL. What the groups held before is freed.
unfoldable pub permission_groups_load : Bytes → Option Bytes → Run PermissionGroups
unfolding load_segments
permission_groups_load ds_id none = push_group (record { groups = []; allocated = 1 }) ds_id
permission_groups_load ds_id (some str) = do
  g ← load_segments (record { groups = []; allocated = 4 }) [] str
  push_group g ds_id

-- The specification: the segments between commas, without the empty ones.
unfoldable pub split_commas : Bytes → Bytes → List Bytes
split_commas segment [] = segment ∷ []
split_commas segment (c ∷ str) =
    if c == comma then segment ∷ split_commas [] str else split_commas (segment ++ (c ∷ [])) str

unfoldable pub non_empty : List Bytes → List Bytes
non_empty [] = []
non_empty (s ∷ segments) = if is_empty s then non_empty segments else s ∷ non_empty segments

-- Room for the identifier of the link.
abbrev HasRoom : PermissionGroups → Type 0
HasRoom g = length g.groups < g.allocated

end_segment_lem :
    (g : PermissionGroups) (s : Bytes)
    → HasRoom g
    → (g' : PermissionGroups) × (end_segment g s ≡ ok g')
      × HasRoom g'
      × (g'.groups ≡ g.groups ++ non_empty (s ∷ []))
unfolding end_segment non_empty
end_segment_lem g [] h = (g, refl, h, sym (append-nil _))
end_segment_lem g (c ∷ cs) h = (
  record {
    groups = g.groups ++ ((c ∷ cs) ∷ []);
    allocated = (if ltb g.allocated (length g.groups + 2) then g.allocated * 2 else g.allocated);
  },
  ground arith,
  ground (arith, length-append g.groups ((c ∷ cs) ∷ [])),
  refl,
)

non_empty_cons :
    (s : Bytes) (segments : List Bytes)
    → non_empty (s ∷ segments) ≡ non_empty (s ∷ []) ++ non_empty segments
unfolding non_empty
non_empty_cons [] segments = refl
non_empty_cons (c ∷ cs) segments = refl

load_segments_lem :
    (g : PermissionGroups) (segment str : Bytes)
    → HasRoom g
    → (g' : PermissionGroups) × (load_segments g segment str ≡ ok g')
      × HasRoom g'
      × (g'.groups ≡ g.groups ++ non_empty (split_commas segment str))
unfolding load_segments split_commas
load_segments_lem g segment [] h = end_segment_lem g segment h
load_segments_lem g segment (c ∷ str) h = elim (Bool-cases (c == comma)) [
  | inl sep ↦
      let (g1, run1, room1, adds1) = end_segment_lem g segment h in
      let (g2, run2, room2, adds2) = load_segments_lem g1 [] str room1 in
      (
        g2,
        ground arith,
        room2,
        ground (
          arith,
          non_empty_cons segment (split_commas [] str),
          append_assoc g.groups (non_empty (segment ∷ [])) (non_empty (split_commas [] str)),
        ),
      )
  | inr char ↦
      let (g', run, room, adds) = load_segments_lem g (segment ++ (c ∷ [])) str h in
      (g', ground arith, room, ground arith)
]

-- `permission_groups_load` never writes outside its block. The groups are the segments of the text
-- between commas, in order and without the empty ones, and then the identifier of the link.
pub permission_groups_load-groups :
    (ds_id str : Bytes)
    → (g : PermissionGroups) × (permission_groups_load ds_id (some str) ≡ ok g)
      × (g.groups ≡ non_empty (split_commas [] str) ++ (ds_id ∷ []))
unfolding permission_groups_load
permission_groups_load-groups ds_id str =
    let (g, run, room, adds) =
      load_segments_lem (record { groups = []; allocated = 4 }) [] str (omega arith) in
    (record g { groups = g.groups ++ (ds_id ∷ []) }, ground arith, ap (λ l. l ++ (ds_id ∷ [])) adds)
