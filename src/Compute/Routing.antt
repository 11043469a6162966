-- ===== src/Compute/Routing.antt =====
-- Which provider a job goes to.
use clotho.Prelude.{
  ◌≡◌, inl, inr, refl, sym, ap, ◌∙◌, Bool, true, false, Option, none, some, List, [], ◌∷◌,
  Bool-cases,
}
use clotho.Prelude.Bytes.{Bytes}
use clotho.Prelude.Results.{ok}
use clotho.Compute.{
  ComputeProvider, ProviderRegistry, first_where, supports_jobs, provider_by_id, route, or_capable,
  resolve,
}

module _ {R : Type 0} where
  first_where-test :
      (test : ComputeProvider R → Bool) (ps : List (ComputeProvider R)) (p : ComputeProvider R)
      → first_where test ps ≡ some p
      → test p ≡ true
  unfolding first_where
  first_where-test test [] p h = cc
  first_where-test test (q ∷ qs) p h = elim (Bool-cases (test q)) [
    | inl yes_ ↦ let same : q ≡ p = cc (rw yes_ at h) in ap test (sym same) ∙ yes_
    | inr no_ ↦ first_where-test test qs p (rw no_ at h)
  ]

  -- The default provider if it can run jobs, or else one that can.
  pub data IsChosen (default : Option (ComputeProvider R)) (p : ComputeProvider R) : Type 0 where
    is_default : default ≡ some p → IsChosen default p
    stands_in :
        ((d : ComputeProvider R) → default ≡ some d → supports_jobs d ≡ false) → IsChosen default p

  route-capable :
      (registry : ProviderRegistry R) (capable : ComputeProvider R)
      (default : Option (ComputeProvider R)) (to_lowercase : Bytes → Bytes)
      → supports_jobs capable ≡ true
      → (p : ComputeProvider R) × (route to_lowercase registry (some capable) default ≡ ok p)
        × (supports_jobs p ≡ true)
        × IsChosen default p
  unfolding route or_capable
  route-capable registry capable none to_lowercase h = (capable, refl, h, stands_in (λ d e. cc))
  route-capable registry capable (some d) to_lowercase h = elim (Bool-cases (supports_jobs d)) [
    | inl can ↦ (d, rw can refl, can, is_default refl)
    | inr cannot ↦ (
      capable,
      rw cannot refl,
      h,
      stands_in (λ e same. ap supports_jobs (sym (some_same d e same)) ∙ cannot),
    )
  ]
    where
      some_same :
          (a b : ComputeProvider R) → ◌≡◌ {A = Option (ComputeProvider R)} (some a) (some b) → a ≡ b
      some_same a b e = cc

  -- A job that names no provider goes to one that can run jobs, if there is one: to the default
  -- provider if that can, and to another only if the default one cannot.
  pub resolve-IsChosen :
      (registry : ProviderRegistry R) (to_lowercase : Bytes → Bytes) (capable : ComputeProvider R)
      → first_where supports_jobs registry.providers ≡ some capable
      → (p : ComputeProvider R) × (resolve to_lowercase registry [] ≡ ok p)
        × (supports_jobs p ≡ true)
        × IsChosen (provider_by_id to_lowercase registry registry.default_id) p
  unfolding resolve
  resolve-IsChosen registry to_lowercase capable h = rw h (
      route-capable registry capable (provider_by_id to_lowercase registry registry.default_id)
        to_lowercase (first_where-test supports_jobs registry.providers capable h))
