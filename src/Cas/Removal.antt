-- ===== src/Cas/Removal.antt =====
-- `delete`: what `retrieve` gives of every digest after it.
use backupos.Base.{
  ◌≡◌, refl, sym, ap, ◌∙◌, Bool, true, false, Option, none, some, Bytes, bytes_eq, arith, ◌==◌,
  if◌then◌else◌,
}
use backupos.Base.Dict.{lookup, pair_eq}
use backupos.Entropy.{FloatOps}
use backupos.Cas.{CasStore, CasEnv, file_not_found, err, chunk_path, delete, retrieve}
use backupos.Cas.Laws.{delete_exact}
use backupos.Cas.Decode.{IsFaithful, decode_found, retrieve-decode_found}

module _ (F : FloatOps) (env : CasEnv F) where
  deleted_if :
      (b : Bool) (found : Option Bytes)
      → decode_found F env (if b then none else found)
        ≡ (if b then err file_not_found else decode_found F env found)
  unfolding decode_found
  deleted_if true found = refl
  deleted_if false found = refl

  -- After `delete` of a digest `retrieve` no longer finds it, and gives of every other digest
  -- what it gave before.
  pub retrieve-delete :
      (h j : Bytes) (s : CasStore)
      → retrieve F env j (delete h s).1
        ≡ (if h == j then err file_not_found else retrieve F env j s)
  retrieve-delete h j s =
      retrieve-decode_found F env j (delete h s).1
      ∙ ap (decode_found F env) (delete_exact h j s).1
      ∙ deleted_if (h == j) (lookup (chunk_path j) s.files)
      ∙ ap (λ x. if h == j then err file_not_found else x) (sym (retrieve-decode_found F env j s))

  none_if :
      (b : Bool) (o : Option Bytes) (x : Bytes) → (if b then none else o) ≡ some x → o ≡ some x
  none_if b o x e = ground arith

  pub delete-IsFaithful :
      (h : Bytes) (s : CasStore) → IsFaithful F env s → IsFaithful F env (delete h s).1
  delete-IsFaithful h s faithful =
      λ j found q at. faithful j found q (none_if _ _ found (sym (delete_exact h j s).1 ∙ at))
