-- ===== src/Chain/Search.antt =====
-- The depths that the search finds are the distances from a root.
use backupos.Base.{
  some_inj, ℕ, zero, suc, ◌≤◌, ◌≡◌, ◌↔◌, ◌⊎◌, ◌≢◌, refl, true, false, inl, inr, some, List, [], ◌∷◌,
  ◌++◌, nat_eq, eqb_iff, ◌==◌, contains, contains_left, contains_right, All, All-append, ap, subst,
  sym, ◌∙◌, arith, Bool-cases, length,
}
use backupos.Base.Dict.{Dict, lookup, insert, lookup-insert, pair_eq, pair_beq}
use backupos.Models.{BackupSnapshot}
use backupos.Restore.{get_snapshot}
use backupos.Chain.{is_root, has_parent, children_of, roots_of, at_depth, search, depths}
use backupos.Chain.Ids.{count, UniqueIds, ids_where-found, found-ids_where}
use backupos.Chain.Ends.{has_parent_unique, root_no_parent, depths_end}

count-All : (P : ℕ → Type 0) (ids : List ℕ) → ((n : ℕ) → 1 ≤ count n ids → P n) → All P ids
count-All P [] h = tt
count-All P (n ∷ ids) h =
    (h n (ground (arith, eqb_iff n n)), count-All P ids (λ k some_k. h k (ground (arith, some_k))))

at_depth-All :
    (P : ℕ × ℕ → Type 0) (d : ℕ) (ids : List ℕ) → All (λ n. P (n, d)) ids → All P (at_depth d ids)
unfolding at_depth
at_depth-All P d [] h = tt
at_depth-All P d (n ∷ ids) h = (h.0, at_depth-All P d ids h.1)

contains-at_depth :
    (n d : ℕ) (ids : List ℕ) → 1 ≤ count n ids → contains (at_depth d ids) (n, d) ≡ true
unfolding at_depth pair_beq
contains-at_depth n d [] h = absurd (omega (arith, h))
contains-at_depth n d (k ∷ ids) h = ground (arith, contains-at_depth n d ids, h)

module _ {Float : Type 0} (snapshots : List (BackupSnapshot Float)) where
  -- A snapshot is at depth `d` where `d` steps from child to parent lead to a root.
  abbrev pub IsDepth : ℕ → ℕ → Type 0
  IsDepth n zero =
      (s : BackupSnapshot Float) × (get_snapshot n snapshots ≡ some s)
      × (is_root s.parent_snapshot_id ≡ true)
  IsDepth n (suc d) =
      (s : BackupSnapshot Float) × (get_snapshot n snapshots ≡ some s)
      × (p : ℕ) × (has_parent s.parent_snapshot_id p ≡ true)
      × IsDepth p d

  same_row :
      (n : ℕ) (s t : BackupSnapshot Float)
      → get_snapshot n snapshots ≡ some s
      → get_snapshot n snapshots ≡ some t
      → s ≡ t
  same_row n s t e e' = some_inj s t (sym e ∙ e')

  IsDepth-unique : (n d e : ℕ) → IsDepth n d → IsDepth n e → d ≡ e
  IsDepth-unique n zero zero h k = refl
  IsDepth-unique n zero (suc e) (s, here, root) (t, there, p, child, rest) = absurd (
      root_no_parent t.parent_snapshot_id p
        (subst (λ (x : BackupSnapshot Float). is_root x.parent_snapshot_id ≡ true)
          (same_row n s t here there) root)
        child)
  IsDepth-unique n (suc d) zero (t, there, p, child, rest) (s, here, root) = absurd (
      root_no_parent t.parent_snapshot_id p
        (subst (λ (x : BackupSnapshot Float). is_root x.parent_snapshot_id ≡ true)
          (same_row n s t here there) root)
        child)
  IsDepth-unique n (suc d) (suc e) (s, here, p, child, rest) (t, there, q, child', rest') =
      let child_t =
        subst (λ (x : BackupSnapshot Float). has_parent x.parent_snapshot_id p ≡ true)
          (same_row n s t here there) child in
      let same = has_parent_unique t.parent_snapshot_id p q child_t child' in
      ap suc (IsDepth-unique q d e (subst (λ k. IsDepth k d) same rest) rest')

  -- A depth is known, or it is on its way.
  abbrev Met : List (ℕ × ℕ) → Dict ℕ ℕ → ℕ → ℕ → Type 0
  Met queue depth_map n d = (lookup n depth_map ≡ some d) ⊎ (contains queue (n, d) ≡ true)

  record IsSearch (queue : List (ℕ × ℕ)) (depth_map : Dict ℕ ℕ) : Type 0 where
    coming : All (λ (entry : ℕ × ℕ). IsDepth entry.0 entry.1) queue
    known : (n d : ℕ) → lookup n depth_map ≡ some d → IsDepth n d
    roots :
        (n : ℕ) (s : BackupSnapshot Float)
        → get_snapshot n snapshots ≡ some s
        → is_root s.parent_snapshot_id ≡ true
        → Met queue depth_map n 0
    children :
        (p d n : ℕ) (s : BackupSnapshot Float)
        → lookup p depth_map ≡ some d
        → get_snapshot n snapshots ≡ some s
        → has_parent s.parent_snapshot_id p ≡ true
        → Met queue depth_map n (suc d)

  Met-step :
      (sid d : ℕ) (queue added : List (ℕ × ℕ)) (depth_map : Dict ℕ ℕ) (n e : ℕ)
      → IsDepth sid d
      → IsDepth n e
      → Met ((sid, d) ∷ queue) depth_map n e
      → Met (queue ++ added) (insert sid d depth_map) n e
  unfolding pair_beq
  Met-step sid d queue added depth_map n e head here met = elim (Bool-cases (sid == n)) [
    | inl same ↦
        let here_too = subst (λ k. IsDepth k d) ((eqb_iff sid n).0 same) head in
        inl
          (lookup-insert sid n d depth_map ∙ rw same (ap some (IsDepth-unique n d e here_too here)))
    | inr other ↦ elim met [
      | inl found ↦ inl (lookup-insert sid n d depth_map ∙ rw other found)
      | inr waits ↦ inr (contains_left queue added (n, e) (ground (arith, waits, other)))
    ]
  ]

  Met-added :
      (queue : List (ℕ × ℕ)) (ids : List ℕ) (depth_map : Dict ℕ ℕ) (n d : ℕ)
      → 1 ≤ count n ids
      → Met (queue ++ at_depth d ids) depth_map n d
  Met-added queue ids depth_map n d h =
      inr (contains_right queue (at_depth d ids) (n, d) (contains-at_depth n d ids h))

  module _ (u : UniqueIds snapshots) (sid d : ℕ) (queue : List (ℕ × ℕ)) (depth_map : Dict ℕ ℕ)
      (h : IsSearch ((sid, d) ∷ queue) depth_map) where
    child-IsDepth : (n : ℕ) → 1 ≤ count n (children_of sid snapshots) → IsDepth n (suc d)
    child-IsDepth n added =
        let (s, e, child) = ids_where-found (λ o. has_parent o sid) n snapshots u added in
        (s, e, sid, child, h.coming.0)

    inserted : (n e : ℕ) → lookup n (insert sid d depth_map) ≡ some e → (sid == n) ≡ true → d ≡ e
    inserted n e found same =
        some_inj d e (rw (same, found) at (sym (lookup-insert sid n d depth_map)))

    kept :
        (n e : ℕ)
        → lookup n (insert sid d depth_map) ≡ some e
        → (sid == n) ≡ false
        → lookup n depth_map ≡ some e
    kept n e found other = rw (other, found) at (sym (lookup-insert sid n d depth_map))

    step-known : (n e : ℕ) → lookup n (insert sid d depth_map) ≡ some e → IsDepth n e
    step-known n e found = elim (Bool-cases (sid == n)) [
      | inl same ↦
          subst (λ k. IsDepth n k) (inserted n e found same)
            (subst (λ k. IsDepth k d) ((eqb_iff sid n).0 same) h.coming.0)
      | inr other ↦ h.known n e (kept n e found other)
    ]

    step-children :
        (p e n : ℕ) (s : BackupSnapshot Float)
        → lookup p (insert sid d depth_map) ≡ some e
        → get_snapshot n snapshots ≡ some s
        → has_parent s.parent_snapshot_id p ≡ true
        → Met
            (queue ++ at_depth (suc d) (children_of sid snapshots))
            (insert sid d depth_map)
            n
            (suc e)
    step-children p e n s found here child =
        let added = at_depth (suc d) (children_of sid snapshots) in
        elim (Bool-cases (sid == p)) [
          | inl same ↦
              let d_is_e = inserted p e found same in
              let child_sid =
                subst (λ k. has_parent s.parent_snapshot_id k ≡ true) (sym ((eqb_iff sid p).0 same))
                  child in
              let member = found-ids_where (λ o. has_parent o sid) n snapshots s here child_sid in
              subst (λ k. Met (queue ++ added) (insert sid d depth_map) n (suc k)) d_is_e
                (Met-added queue (children_of sid snapshots) (insert sid d depth_map) n (suc d)
                  member)
          | inr other ↦
              let earlier = kept p e found other in
              Met-step sid d queue added depth_map n (suc e) h.coming.0
                (s, here, p, child, h.known p e earlier) (h.children p e n s earlier here child)
        ]

    step-IsSearch :
        IsSearch (queue ++ at_depth (suc d) (children_of sid snapshots)) (insert sid d depth_map)
    step-IsSearch = record {
      coming =
          All-append (λ (entry : ℕ × ℕ). IsDepth entry.0 entry.1) queue
            (at_depth (suc d) (children_of sid snapshots)) h.coming.1
            (at_depth-All (λ (entry : ℕ × ℕ). IsDepth entry.0 entry.1) (suc d)
              (children_of sid snapshots)
              (count-All (λ n. IsDepth n (suc d)) (children_of sid snapshots) child-IsDepth));
      known = step-known;
      roots = λ n s here root.
          Met-step sid d queue (at_depth (suc d) (children_of sid snapshots)) depth_map n 0
            h.coming.0 (s, here, root) (h.roots n s here root);
      children = step-children;
    }

  search-IsSearch :
      (u : UniqueIds snapshots) (fuel : ℕ) (queue : List (ℕ × ℕ)) (depth_map : Dict ℕ ℕ)
      → IsSearch queue depth_map
      → let (left, found) = search snapshots fuel queue depth_map in IsSearch left found
  unfolding search
  search-IsSearch u fuel [] depth_map h = h
  search-IsSearch u zero (entry ∷ queue) depth_map h = h
  search-IsSearch u (suc fuel) ((sid, d) ∷ queue) depth_map h =
      search-IsSearch u fuel (queue ++ at_depth (suc d) (children_of sid snapshots))
        (insert sid d depth_map) (step-IsSearch u sid d queue depth_map h)

  nothing : (n d : ℕ) → lookup n [] ≢ some d
  unfolding lookup
  nothing n d e = cc

  start-IsSearch : UniqueIds snapshots → IsSearch (at_depth 0 (roots_of snapshots)) []
  start-IsSearch u = record {
    coming =
        at_depth-All (λ (entry : ℕ × ℕ). IsDepth entry.0 entry.1) 0 (roots_of snapshots)
          (count-All (λ n. IsDepth n 0) (roots_of snapshots)
            (λ n h. ids_where-found is_root n snapshots u h));
    known = λ n d found. absurd (nothing n d found);
    roots = λ n s here root.
        Met-added [] (roots_of snapshots) [] n 0 (found-ids_where is_root n snapshots s here root);
    children = λ p d n s found here child. absurd (nothing p d found);
  }

  settled : (depth_map : Dict ℕ ℕ) (n d : ℕ) → Met [] depth_map n d → lookup n depth_map ≡ some d
  settled depth_map n d (inl found) = found
  settled depth_map n d (inr waits) = absurd (cc waits)

  found-depth :
      (depth_map : Dict ℕ ℕ) (n d : ℕ)
      → IsSearch [] depth_map
      → IsDepth n d
      → lookup n depth_map ≡ some d
  found-depth depth_map n zero h (s, here, root) = settled depth_map n 0 (h.roots n s here root)
  found-depth depth_map n (suc d) h (s, here, p, child, rest) =
      settled depth_map n (suc d) (h.children p d n s (found-depth depth_map p d h rest) here child)

  -- Where no two snapshots have the same id, the loop of the search ends with an empty queue, and
  -- it has found the depth of a snapshot exactly when that many steps from child to parent lead
  -- from it to a root.
  pub depths_exact :
      UniqueIds snapshots
      → let (left, depth_map) = depths snapshots in
        (left ≡ []) × ((n d : ℕ) → (lookup n depth_map ≡ some d) ↔ IsDepth n d)
  unfolding depths
  depths_exact u =
      let ends = depths_end snapshots u in
      let all =
        search-IsSearch u (length snapshots) (at_depth 0 (roots_of snapshots)) []
          (start-IsSearch u) in
      let done = subst (λ left. IsSearch left (depths snapshots).1) ends all in
      (ends, λ n d. (done.known n d, found-depth (depths snapshots).1 n d done))
