-- ===== src/Exceptions.antt =====
-- The exceptions that the services throw, and results that may be one of them
-- (common/exceptions/domain.exception.ts; the other classes are NestJS's, told apart by name).
use pathway_backend.Prelude.{ℕ, String, Bool, true, false}

pub data Exception : Type 0 where
  bad_request : String → Exception
  unauthorized : String → Exception
  forbidden : String → Exception
  not_found : String → Exception
  conflict : String → Exception
  -- `new DomainException(status, code, message)`; the details object is not modelled
  domain : (status : ℕ) (code : String) (message : String) → Exception

pub data Result {ℓ} (A : Type ℓ) : Type ℓ where
  ok : A → Result A
  err : Exception → Result A

abbrev pub is_ok {ℓ} : {A : Type ℓ} → Result A → Bool
is_ok (ok a) = true
is_ok (err e) = false
