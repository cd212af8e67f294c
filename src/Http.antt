-- ===== src/Http.antt =====
-- What a handler under app/api gives: its answer, or the `HTTPException` that it raises. The
-- statuses are those of the exceptions in the handlers.
use backupos.Base.{◌≡◌, ◌≢◌}

pub data Status : Type 0 where
  bad_request unauthorized not_found conflict unprocessable too_many_requests server_error : Status

pub data Response (A : Type 0) : Type 0 where
  answer : A → Response A
  failed_with : Status → Response A

pub failed_ne : {A : Type 0} (status : Status) (a : A) → failed_with status ≢ answer a
failed_ne status a e = cc

pub answer_inj : {A : Type 0} (a b : A) → answer a ≡ answer b → a ≡ b
answer_inj a b e = cc
