-- ===== src/Compute/Calls.antt =====
-- Requests to a service outside: a run reads the list of the requests that were sent before it and
-- adds its own. What the service answers may depend on all of them.
use clotho.Prelude.{◌≡◌, sym, ap, ◌∙◌, List, [], ◌++◌, append_assoc, append-nil, All, All-append}
use clotho.Prelude.Results.{Result, ok, err}

abbrev pub Run : (Call E A : Type 0) → Type 0
Run Call E A = List Call → Result E A × List Call

module _ {Call E : Type 0} where
  abbrev pub pure : {A : Type 0} → A → Run Call E A
  pure a sent = (ok a, sent)

  abbrev pub throw : {A : Type 0} → E → Run Call E A
  throw e sent = (err e, sent)

  abbrev pub continue :
      {A B : Type 0} → (A → Run Call E B) → Result E A × List Call → Result E B × List Call
  continue next (err e, sent) = (err e, sent)
  continue next (ok a, sent) = next a sent

  infixl 5 ◌>>=◌
  abbrev pub ◌>>=◌ : {A B : Type 0} → Run Call E A → (A → Run Call E B) → Run Call E B
  (first >>= next) sent = continue next (first sent)

  infixl 5 ◌>>◌
  abbrev pub ◌>>◌ : {B : Type 0} → Run Call E (Unit {0}) → Run Call E B → Run Call E B
  first >> next = first >>= λ passed. next

  -- A result that is known without a request.
  abbrev pub lift : {A : Type 0} → Result E A → Run Call E A
  lift result sent = (result, sent)

  -- Nothing is forgotten, and each request that is added satisfies `P`.
  abbrev pub Sends : {A : Type 0} → (P : Call → Type 0) → Run Call E A → Type 0
  Sends P run =
      (sent : List Call) → (added : List Call) × ((run sent).1 ≡ sent ++ added) × All P added

  pub lift-Sends : {A : Type 0} (P : Call → Type 0) (result : Result E A) → Sends P (lift result)
  lift-Sends P result sent = ([], sym (append-nil sent), tt)

  continue-Sends :
      {A B : Type 0} (P : Call → Type 0) (next : A → Run Call E B) (sent added : List Call)
      (step : Result E A × List Call)
      → ((a : A) → Sends P (next a))
      → step.1 ≡ sent ++ added
      → All P added
      → (more : List Call) × ((continue next step).1 ≡ sent ++ more) × All P more
  continue-Sends P next sent added (err e, now) each h all = (added, h, all)
  continue-Sends P next sent added (ok a, now) each h all =
      let (more, h', all') = each a now in
      (
        added ++ more,
        h' ∙ ap (λ x. x ++ more) h ∙ append_assoc sent added more,
        All-append P added more all all',
      )

  -- Two runs one after the other.
  pub >>=-Sends :
      {A B : Type 0} (P : Call → Type 0) (first : Run Call E A) (next : A → Run Call E B)
      → Sends P first
      → ((a : A) → Sends P (next a))
      → Sends P (first >>= next)
  >>=-Sends P first next h each sent =
      let (added, e, all) = h sent in continue-Sends P next sent added (first sent) each e all
