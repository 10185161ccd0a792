-- ===== src/Relayer/Services.antt =====
-- What the relayer's parts have in common: the errors, and the answers of the services that they
-- call.
use aegis_link.Common.{Bool, false, ◌≡◌, refl, ◌⊎◌, inl, inr}
use aegis_link.Text.{Text}
use aegis_link.Errors.{Error}

pub data Failure : Type 0 where
  -- an error of a called service, and what its `Temporary()` says
  service_failed : Bool → Failure
  -- an error of the chain's types
  refused : Error → Failure
  -- an error of a `Validate` of the relayer, and of the two tests of `SubmitDepositClaim`
  invalid_request : Failure
  cancelled : Failure
  -- the `unexpected ack status` of the routes
  unexpected_status : Text → Failure
  source_unavailable store_unavailable threshold_not_met : Failure

-- `isTemporary`, which looks through the wrapping of an error.
abbrev pub is_temporary : Failure → Bool
is_temporary (service_failed temporary) = temporary
is_temporary _ = false

-- What a service that returns a value or an error answers.
pub data Answer {ℓ} (A : Type ℓ) : Type ℓ where
  answer : A → Answer A
  failed : Failure → Answer A

pub Answer-cases {ℓ} :
    {A : Type ℓ} (r : Answer A) → ((f : Failure) × (r ≡ failed f)) ⊎ ((a : A) × (r ≡ answer a))
Answer-cases (answer a) = inr (a, refl)
Answer-cases (failed f) = inl (f, refl)
