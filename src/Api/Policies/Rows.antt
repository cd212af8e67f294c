-- ===== src/Api/Policies/Rows.antt =====
-- What a change of the policies means for the scheduler, which reads the active policies with their
-- sources.
use backupos.Base.{
  ℕ, ◌≡◌, refl, inl, inr, false, ◌||◌, some, List, [], ◌∷◌, ◌++◌, nat_eq, ◌==◌, arith, Bool-cases,
  Option-cases, if◌then◌else◌,
}
use backupos.Models.{BackupPolicy, PolicyAttachment, Database}
use backupos.Http.{failed_ne, answer}
use backupos.Backup.Alerts.{get_policy}
use backupos.Scheduler.{PolicyRow, join_policies, policy_rows}
use backupos.Snapshots.{DataSource, owns}
use backupos.Api.Backups.{log_event}
use backupos.Api.Policies.{find_policy, drop_policies}
use backupos.Api.Policies.Attachments.{
  attached, detach, attach_found, attach_policy, remove_policy, delete_policy,
}

-- No policy is attached twice to one source.
abbrev pub IsUnique : List PolicyAttachment → Type 0
IsUnique [] = Unit
IsUnique (a ∷ attachments) =
    (attached a.policy_id a.source_id attachments ≡ false) × IsUnique attachments

attached-append :
    (p s : ℕ) (xs ys : List PolicyAttachment)
    → attached p s (xs ++ ys) ≡ (attached p s xs || attached p s ys)
unfolding attached
attached-append p s [] ys = refl
attached-append p s (x ∷ xs) ys = ground (arith, attached-append p s xs ys)

append-IsUnique :
    (xs : List PolicyAttachment) (a : PolicyAttachment)
    → attached a.policy_id a.source_id xs ≡ false
    → IsUnique xs
    → IsUnique (xs ++ a ∷ [])
unfolding attached
append-IsUnique [] a h u = (refl, tt)
append-IsUnique (x ∷ xs) a h u = (
  ground (arith, attached-append x.policy_id x.source_id xs (a ∷ []), u.0, h),
  append-IsUnique xs a (ground (arith, h)) u.1,
)

detach-attached :
    (n p s : ℕ) (xs : List PolicyAttachment)
    → attached p s xs ≡ false
    → attached p s (detach n xs) ≡ false
unfolding attached detach
detach-attached n p s [] h = refl
detach-attached n p s (x ∷ xs) h = ground (arith, detach-attached n p s xs)

detach-IsUnique : (n : ℕ) (xs : List PolicyAttachment) → IsUnique xs → IsUnique (detach n xs)
unfolding detach
detach-IsUnique n [] u = tt
detach-IsUnique n (x ∷ xs) u = elim (Bool-cases (x.policy_id == n)) [
  | inl gone ↦ rw gone (detach-IsUnique n xs u.1)
  | inr kept ↦ rw kept (detach-attached n x.policy_id x.source_id xs u.0, detach-IsUnique n xs u.1)
]

module _ {Float : Type 0} where
  -- The rows of the other policies.
  unfoldable pub without : ℕ → List (PolicyRow Float) → List (PolicyRow Float)
  without n [] = []
  without n (r ∷ rows) = let rest = without n rows in if r.policy.id == n then rest else r ∷ rest

  get_policy-id :
      (n : ℕ) (policies : List (BackupPolicy Float)) (p : BackupPolicy Float)
      → get_policy n policies ≡ some p
      → p.id ≡ n
  unfolding get_policy
  get_policy-id n [] p e = absurd (cc e)
  get_policy-id n (q ∷ policies) p e = ground (arith, get_policy-id n policies p)

  get_policy-drop :
      (n k : ℕ) (policies : List (BackupPolicy Float))
      → (k == n) ≡ false
      → get_policy k (drop_policies n policies) ≡ get_policy k policies
  unfolding get_policy drop_policies
  get_policy-drop n k [] e = refl
  get_policy-drop n k (q ∷ policies) e = ground (arith, get_policy-drop n k policies)

  join-drop :
      (n : ℕ) (policies : List (BackupPolicy Float)) (attachments : List PolicyAttachment)
      → join_policies (drop_policies n policies) (detach n attachments)
        ≡ without n (join_policies policies attachments)
  unfolding join_policies detach without
  join-drop n policies [] = refl
  join-drop n policies (a ∷ attachments) =
      let rest = join-drop n policies attachments in
      elim (Option-cases (get_policy a.policy_id policies)) [
        | inl missing ↦ ground (arith, rest, missing, get_policy-drop n a.policy_id policies)
        | inr (p, found) ↦ ground (
          arith,
          rest,
          found,
          get_policy-id a.policy_id policies p found,
          get_policy-drop n a.policy_id policies,
        )
      ]

  -- A delete of a policy that is answered takes the rows of the policy from what the scheduler
  -- reads, and no others.
  pub delete_policy-rows :
      (tenant_id policy_id : ℕ) (db : Database Float)
      → (delete_policy tenant_id policy_id db).0 ≡ answer tt
      → policy_rows (delete_policy tenant_id policy_id db).1 ≡ without policy_id (policy_rows db)
  unfolding delete_policy remove_policy policy_rows log_event
  delete_policy-rows tenant_id policy_id db done =
      elim (Option-cases (find_policy policy_id tenant_id db.policies)) [
        | inl missing ↦ absurd (failed_ne _ tt (rw (missing, delete_policy) at done))
        | inr (p, found) ↦
            rw (found, delete_policy) (join-drop policy_id db.policies db.attachments)
      ]

  attach_found-IsUnique :
      (tenant_id policy_id source_id : ℕ) (sources : List DataSource) (db : Database Float)
      → IsUnique db.attachments
      → IsUnique (attach_found tenant_id sources policy_id source_id db).1.attachments
  unfolding attach_found log_event
  attach_found-IsUnique tenant_id policy_id source_id sources db u =
      elim (Bool-cases (owns tenant_id source_id sources)) [
        | inr other ↦ rw other u
        | inl mine ↦ elim (Bool-cases (attached policy_id source_id db.attachments)) [
          | inl there ↦ rw (mine, there) u
          | inr free ↦
              rw (mine, free)
                (append-IsUnique db.attachments
                  (record { policy_id = policy_id; source_id = source_id }) free u)
        ]
      ]

  -- Where no policy is attached to a source twice, attaching and deleting a policy keep it so,
  -- whatever they answer.
  pub attach-IsUnique :
      (tenant_id policy_id source_id : ℕ) (sources : List DataSource) (db : Database Float)
      → IsUnique db.attachments
      → IsUnique (attach_policy tenant_id sources policy_id source_id db).1.attachments
        × IsUnique (delete_policy tenant_id policy_id db).1.attachments
  unfolding attach_policy delete_policy remove_policy log_event
  attach-IsUnique tenant_id policy_id source_id sources db u =
      elim (Option-cases (find_policy policy_id tenant_id db.policies)) [
        | inl missing ↦ rw (missing, attach_policy, delete_policy) (u, u)
        | inr (p, found) ↦
            rw (found, attach_policy, delete_policy)
              (
                attach_found-IsUnique tenant_id policy_id source_id sources db u,
                detach-IsUnique policy_id db.attachments u,
              )
      ]
