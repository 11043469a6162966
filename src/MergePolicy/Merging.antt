-- ===== src/MergePolicy/Merging.antt =====
-- What a call of `merge_pull` does.
use clotho.Prelude.{◌≡◌, ◌⊎◌, inl, inr, refl, true}
use clotho.Prelude.Bytes.{Bytes}
use clotho.Prelude.Results.{Result, ok, err, guard, >>=-eq-ok, guard-eq-ok}
use clotho.ApiErrors.{ApiError}
use clotho.MergePolicy.{
  MergePolicy, PullInfo, Services, MergeError, or_api, or_blocked, is_method, approvals,
  statuses_of, checks, merge_pull,
}
use clotho.MergePolicy.Evaluation.{IsPermitted, evaluate-eq-ok_iff}

or_api-eq-ok : {A : Type 0} (r : Result ApiError A) {a : A} → or_api r ≡ ok a → r ≡ ok a
or_api-eq-ok (ok x) h = cc
or_api-eq-ok (err e) h = cc

or_blocked-eq-ok : {A : Type 0} (r : Result _ A) {a : A} → or_blocked r ≡ ok a → r ≡ ok a
or_blocked-eq-ok (ok x) h = cc
or_blocked-eq-ok (err e) h = cc

checked_cases : {E : Type 0} (c : Result E (Unit {0})) → ((e : E) × (c ≡ err e)) ⊎ (c ≡ ok tt)
checked_cases (ok u) = inr refl
checked_cases (err e) = inl (e, refl)

-- The caller may write, the method is one of the four, and the repository's policy permits the
-- merge of the pull request as Forgejo reports it.
pub record IsMergeable {World : Type 0} (services : Services World) (method : Bytes) (w : World)
    : Type 0 where
  pub may_write : services.may_write w ≡ ok tt
  pub method_known : is_method method ≡ true
  pub pull : PullInfo
  pub is_pull : services.get_pull w ≡ ok pull
  pub policy : MergePolicy
  pub is_policy : services.policy_for_repo w ≡ ok policy
  pub permitted :
      IsPermitted policy pull.mergeable (statuses_of services pull w) (approvals services w)

module _ {World : Type 0} (services : Services World) (method : Bytes) (w : World) where
  checks-IsMergeable : checks services method w ≡ ok tt → IsMergeable services method w
  unfolding checks
  checks-IsMergeable h =
      let (u, writes, h1) = >>=-eq-ok (or_api (services.may_write w)) _ h in
      let (v, known, h2) = >>=-eq-ok (guard (is_method method) _) _ h1 in
      let (pull, got, h3) = >>=-eq-ok (or_api (services.get_pull w)) _ h2 in
      let (policy, has, h4) = >>=-eq-ok (or_api (services.policy_for_repo w)) _ h3 in
      record {
        may_write = or_api-eq-ok _ writes;
        method_known = guard-eq-ok _ _ known;
        pull = pull;
        is_pull = or_api-eq-ok _ got;
        policy = policy;
        is_policy = or_api-eq-ok _ has;
        permitted = (evaluate-eq-ok_iff _ _ _ _).0 (or_blocked-eq-ok _ h4);
      }

  checks_complete : IsMergeable services method w → checks services method w ≡ ok tt
  unfolding checks
  checks_complete h = rw (
    h.may_write,
    h.method_known,
    h.is_pull,
    h.is_policy,
    (evaluate-eq-ok_iff _ _ _ _).1 h.permitted,
  )

  -- A merge request that may not be merged is refused without an effect, and one that may be
  -- merged does exactly the merge that Forgejo is asked for.
  pub merge_pull-cases :
      (¬ IsMergeable services method w
        × ((e : MergeError) × (merge_pull services method w ≡ (err e, w))))
      ⊎ (IsMergeable services method w
          × (merge_pull services method w
              ≡ (or_api (services.merge method w).0, (services.merge method w).1)))
  unfolding merge_pull
  merge_pull-cases = elim (checked_cases (checks services method w)) [
    | inl (e, h) ↦ inl (λ m. cc (h, checks_complete m), (e, rw h))
    | inr h ↦ inr (checks-IsMergeable h, rw h)
  ]
