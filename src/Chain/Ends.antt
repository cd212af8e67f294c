-- ===== src/Chain/Ends.antt =====
-- The search for the depths ends: each snapshot is in the queue at most once, since it has one
-- parent.
use backupos.Base.{
  some_inj, ℕ, zero, suc, ◌+◌, ◌≤◌, ◌≡◌, ◌≢◌, refl, true, inl, inr, Option, none, some, List, [],
  ◌∷◌, ◌++◌, nat_eq, eqb, ltb, length, length-append, All, ap, subst, sym, ◌∙◌, arith, Bool-cases,
  if◌then◌else◌,
}
use backupos.Base.Dict.{Dict, insert}
use backupos.Models.{BackupSnapshot}
use backupos.Restore.{get_snapshot}
use backupos.Chain.{is_root, has_parent, ids_where, children_of, roots_of, at_depth, search, depths}
use backupos.Chain.Ids.{
  count, count-append, UniqueIds, ids_where_once, ids_where-found, found-ids_where, UniqueIds-All,
}

abbrev pub queued : List (ℕ × ℕ) → List ℕ
queued [] = []
queued ((sid, d) ∷ queue) = sid ∷ queued queue

queued-at_depth : (d : ℕ) (ids : List ℕ) → queued (at_depth d ids) ≡ ids
unfolding at_depth
queued-at_depth d [] = refl
queued-at_depth d (n ∷ ids) = ap (λ ns. n ∷ ns) (queued-at_depth d ids)

length-at_depth : (d : ℕ) (ids : List ℕ) → length (at_depth d ids) ≡ length ids
unfolding at_depth
length-at_depth d [] = refl
length-at_depth d (n ∷ ids) = ap suc (length-at_depth d ids)

queued-append :
    (queue : List (ℕ × ℕ)) (d : ℕ) (ids : List ℕ)
    → queued (queue ++ at_depth d ids) ≡ queued queue ++ ids
queued-append [] d ids = queued-at_depth d ids
queued-append ((sid, e) ∷ queue) d ids = ap (λ ns. sid ∷ ns) (queued-append queue d ids)

pub has_parent_unique :
    (o : Option ℕ) (p q : ℕ) → has_parent o p ≡ true → has_parent o q ≡ true → p ≡ q
has_parent_unique none p q h k = absurd (cc h)
has_parent_unique (some parent) p q h k = ground (arith, h, k)

pub root_no_parent : (o : Option ℕ) (p : ℕ) → is_root o ≡ true → has_parent o p ≢ true
root_no_parent none p h k = cc (k)
root_no_parent (some parent) p h k = ground (arith, h, k)

module _ {Float : Type 0} (snapshots : List (BackupSnapshot Float)) where
  -- How the search stands, with the ids that it has visited: nothing is met twice, and the parent
  -- of what it has met is visited.
  record IsForest (visited queue : List ℕ) : Type 0 where
    once : (n : ℕ) → count n visited + count n queue ≤ 1
    closed :
        (n p : ℕ) (s : BackupSnapshot Float)
        → 1 ≤ count n visited + count n queue
        → get_snapshot n snapshots ≡ some s
        → has_parent s.parent_snapshot_id p ≡ true
        → 1 ≤ count p visited

  -- How many of some snapshots are not met yet.
  abbrev unmet : List ℕ → List ℕ → List (BackupSnapshot Float) → ℕ
  unmet visited queue [] = 0
  unmet visited queue (s ∷ ss) =
      (if eqb (count s.id visited + count s.id queue) 0 then 1 else 0) + unmet visited queue ss

  module _ (u : UniqueIds snapshots) (visited queue : List ℕ) (sid : ℕ)
      (f : IsForest visited (sid ∷ queue)) where
    -- The children of the first in the queue are not met yet.
    fresh :
        (n : ℕ)
        → 1 ≤ count n (children_of sid snapshots)
        → count n visited + count n (sid ∷ queue) ≡ 0
    fresh n h = elim (Bool-cases (ltb 0 (count n visited + count n (sid ∷ queue)))) [
      | inr unmet_yet ↦ ground (arith, unmet_yet)
      | inl met ↦
          let (s, e, child) = ids_where-found (λ o. has_parent o sid) n snapshots u h in
          absurd (ground (arith, f.closed n sid s (ground (arith, met)) e child, f.once sid))
    ]

    once-step : (n : ℕ) → count n (sid ∷ visited) + count n (queue ++ children_of sid snapshots) ≤ 1
    once-step n =
        let both = count-append n queue (children_of sid snapshots) in
        let few = ids_where_once (λ o. has_parent o sid) n snapshots u in
        elim (Bool-cases (ltb 0 (count n (children_of sid snapshots)))) [
          | inl child ↦ ground (arith, both, few, fresh n (ground (arith, child)))
          | inr other ↦ ground (arith, both, f.once n, other)
        ]

    closed-step :
        (n p : ℕ) (s : BackupSnapshot Float)
        → 1 ≤ count n (sid ∷ visited) + count n (queue ++ children_of sid snapshots)
        → get_snapshot n snapshots ≡ some s
        → has_parent s.parent_snapshot_id p ≡ true
        → 1 ≤ count p (sid ∷ visited)
    closed-step n p s met e child =
        elim (Bool-cases (ltb 0 (count n (children_of sid snapshots)))) [
          | inr other ↦
              let both = count-append n queue (children_of sid snapshots) in
              ground (arith, f.closed n p s (ground (arith, met, both, other)) e child)
          | inl added ↦
              let (t, e', parent) =
                ids_where-found (λ o. has_parent o sid) n snapshots u (ground (arith, added)) in
              let same : some t ≡ some s = sym e' ∙ e in
              let parent_s =
                subst (λ (x : BackupSnapshot Float). has_parent x.parent_snapshot_id sid ≡ true)
                  (some_inj t s same) parent in
              ground (arith, has_parent_unique s.parent_snapshot_id sid p parent_s child)
        ]

    step-IsForest : IsForest (sid ∷ visited) (queue ++ children_of sid snapshots)
    step-IsForest = record { once = once-step; closed = closed-step }

    unmet-step :
        (ss : List (BackupSnapshot Float))
        → All (λ (s : BackupSnapshot Float). get_snapshot s.id snapshots ≡ some s) ss
        → length (children_of sid ss)
            + unmet (sid ∷ visited) (queue ++ children_of sid snapshots) ss
          ≤ unmet visited (sid ∷ queue) ss
    unfolding ids_where
    unmet-step [] h = omega arith
    unmet-step (s ∷ ss) h =
        let both = count-append s.id queue (children_of sid snapshots) in
        let rest = unmet-step ss h.1 in
        elim (Bool-cases (has_parent s.parent_snapshot_id sid)) [
          | inr other ↦ ground (arith, both, rest, other)
          | inl child ↦
              let added = found-ids_where (λ o. has_parent o sid) s.id snapshots s h.0 child in
              ground (arith, both, rest, child, added, fresh s.id added)
        ]

  search_ends :
      (u : UniqueIds snapshots) (fuel : ℕ) (visited : List ℕ) (queue : List (ℕ × ℕ))
      (depth_map : Dict ℕ ℕ)
      → IsForest visited (queued queue)
      → length queue + unmet visited (queued queue) snapshots ≤ fuel
      → (search snapshots fuel queue depth_map).0 ≡ []
  unfolding search
  search_ends u fuel visited [] depth_map f h = refl
  search_ends u zero visited (entry ∷ queue) depth_map f h = absurd (omega (arith, h))
  search_ends u (suc fuel) visited ((sid, d) ∷ queue) depth_map f h =
      let ids = children_of sid snapshots in
      let added = at_depth (suc d) ids in
      let split = queued-append queue (suc d) ids in
      let fewer = unmet-step u visited (queued queue) sid f snapshots (UniqueIds-All snapshots u) in
      let sizes =
        length-append queue added ∙ ap (λ n. length queue + n) (length-at_depth (suc d) ids) in
      search_ends u fuel (sid ∷ visited) (queue ++ added) (insert sid d depth_map)
        (subst (IsForest (sid ∷ visited)) (sym split)
          (step-IsForest u visited (queued queue) sid f))
        (rw (split, sizes) (omega (arith, h, fewer)))

  unmet-start :
      (ss : List (BackupSnapshot Float))
      → All (λ (s : BackupSnapshot Float). get_snapshot s.id snapshots ≡ some s) ss
      → length (roots_of ss) + unmet [] (roots_of snapshots) ss ≤ length ss
  unfolding ids_where
  unmet-start [] h = omega arith
  unmet-start (s ∷ ss) h = elim (Bool-cases (is_root s.parent_snapshot_id)) [
    | inr other ↦ ground (arith, unmet-start ss h.1, other)
    | inl root ↦
        ground (arith, unmet-start ss h.1, root, found-ids_where is_root s.id snapshots s h.0 root)
  ]

  start-closed :
      (u : UniqueIds snapshots) (n p : ℕ) (s : BackupSnapshot Float)
      → 1 ≤ count n [] + count n (roots_of snapshots)
      → get_snapshot n snapshots ≡ some s
      → has_parent s.parent_snapshot_id p ≡ true
      → 1 ≤ count p []
  start-closed u n p s met e child =
      let (t, e', root) = ids_where-found is_root n snapshots u (ground (arith, met)) in
      let same : some t ≡ some s = sym e' ∙ e in
      let root_s =
        subst (λ (x : BackupSnapshot Float). is_root x.parent_snapshot_id ≡ true)
          (some_inj t s same) root in
      absurd (root_no_parent s.parent_snapshot_id p root_s child)

  pub depths_end : UniqueIds snapshots → (depths snapshots).0 ≡ []
  unfolding depths
  depths_end u =
      search_ends u (length snapshots) [] (at_depth 0 (roots_of snapshots)) []
        (subst (IsForest []) (sym (queued-at_depth 0 (roots_of snapshots))) (record {
          once = λ n. ground (arith, ids_where_once is_root n snapshots u);
          closed = start-closed u;
        }))
        (rw (queued-at_depth, length-at_depth) (unmet-start snapshots (UniqueIds-All snapshots u)))
