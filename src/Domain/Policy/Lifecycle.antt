-- ===== src/Domain/Policy/Lifecycle.antt =====
-- When a policy of policy.go is in force, through publishing, locking and retiring.
use orbit_telemetry_orchestr.Prelude.{
  ◌≡◌, ◌↔◌, true, false, none, arith, ◌==◌, if◌then◌else◌, Time, is_zero, before, ok,
}
use orbit_telemetry_orchestr.Domain.Policy.{
  draft, published, locked, retired, CollectionPolicy, publish, lock, retire, active_at,
  policy_status_eq,
}

module _ {F : Type 0} where
  -- Publishing succeeds exactly for drafts. A policy that is published with no end is in force from
  -- its start on, or from the moment of publishing if it had no start, and not before.
  active_at-publish :
      (p : CollectionPolicy F) (now t : Time)
      → p.effective_until ≡ none
      → (p.status ≡ draft) ↔ (
          (p' : CollectionPolicy F) × (publish p now ≡ ok p')
          × (active_at p' t ≡ (
              if before t (if is_zero p.effective_from then now else p.effective_from)
              then false
              else true)))
  unfolding publish active_at
  active_at-publish p now t e = (
    (λ d. (
      record p {
        effective_from = if is_zero p.effective_from then now else p.effective_from;
        status = published;
        updated_at = now;
      },
      ground arith,
      ground arith,
    )),
    λ r. ground (arith, r.1),
  )

  -- Locking succeeds exactly for published policies, and changes at no time whether the policy is
  -- in force. Retiring always succeeds, and a retired policy never is in force.
  active_at-lock :
      (p : CollectionPolicy F) (now t : Time)
      → ((p.status ≡ published)
          ↔ ((p' : CollectionPolicy F) × (lock p now ≡ ok p') × (active_at p' t ≡ active_at p t)))
        × ((p' : CollectionPolicy F) × (retire p now ≡ ok p') × (active_at p' t ≡ false))
  unfolding lock retire active_at
  active_at-lock p now t = (
    (
      (λ d. (record p { status = locked; updated_at = now }, ground arith, ground arith)),
      λ r. ground (arith, r.1),
    ),
    (
      (if p.status == retired then p else record p { status = retired; updated_at = now }),
      ground arith,
      ground arith,
    ),
  )
