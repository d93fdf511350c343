-- ===== src/TwinLab/Export/Valid.antt =====
-- What the check in front of an export accepts.
use net_twin.Prelude.{
  ℕ, ◌≡◌, refl, ◌↔◌, String, true, List, [], ◌∷◌, none, some, string_eq, Option-cases, inl, inr,
  arith,
}
use net_twin.Prelude.Result.{ok, Result-cases}
use net_twin.Core.Models.{ChangeResult, VerificationReport, Attestation}
use net_twin.Core.Attest.{verify}
use net_twin.TwinLab.Export.{last_change, signature, covers, attested, validate}

module _ (hmac : String → String → String) (isoformat : ℕ → String) where
  -- An attestation that carries a valid signature, is for the policy in force, and for the
  -- snapshot of the report and after a change.
  unfoldable pub IsCovered : String → String → ChangeResult → VerificationReport → Type 0
  IsCovered key policy_sha256 last v =
      (a : Attestation) × (v.attestation ≡ some a)
      × (verify hmac isoformat key a ≡ ok true)
      × (a.snapshot_id ≡ v.snapshot_id)
      × (a.policy_sha256 ≡ policy_sha256)
      × (a.snapshot_id ≡ last.after_snapshot_id)

  signature-ok :
      (key : String) (a : Attestation)
      → signature (verify hmac isoformat key a) ≡ ok tt
      → verify hmac isoformat key a ≡ ok true
  unfolding signature
  signature-ok key a h = elim (Result-cases (verify hmac isoformat key a)) [
    | inl (b, p) ↦ ground (arith, p)
    | inr (e, p) ↦ ground (arith, p)
  ]

  attested-some :
      (a : Attestation) (sid key sha : String) (last : ChangeResult)
      → attested hmac isoformat (some a) sid key sha last ≡ ok tt
      → (verify hmac isoformat key a ≡ ok true)
        × (a.snapshot_id ≡ sid)
        × (a.policy_sha256 ≡ sha)
        × (a.snapshot_id ≡ last.after_snapshot_id)
  unfolding attested covers signature
  attested-some a sid key sha last h = elim (Result-cases (verify hmac isoformat key a)) [
    | inl (b, p) ↦ ground (arith, p)
    | inr (e, p) ↦ ground (arith, p)
  ]

  attested-covers :
      (a : Attestation) (sid key sha : String) (last : ChangeResult)
      → verify hmac isoformat key a ≡ ok true
      → a.snapshot_id ≡ sid
      → a.policy_sha256 ≡ sha
      → a.snapshot_id ≡ last.after_snapshot_id
      → attested hmac isoformat (some a) sid key sha last ≡ ok tt
  unfolding attested covers signature
  attested-covers a sid key sha last h p q r = ground (arith, h, p, q, r)

  attested-none :
      (sid key sha : String) (last : ChangeResult)
      → attested hmac isoformat none sid key sha last ≡ ok tt
      → ⊥
  unfolding attested
  attested-none sid key sha last h = ground (arith, h)

  attested_iff :
      (key sha : String) (last : ChangeResult) (v : VerificationReport)
      → (attested hmac isoformat v.attestation v.snapshot_id key sha last ≡ ok tt)
        ↔ IsCovered key sha last v
  unfolding IsCovered
  attested_iff key sha last v = (
    λ h. elim (Option-cases v.attestation) [
      | inl gone ↦ elim (attested-none v.snapshot_id key sha last (rw gone at h)) [ ]
      | inr (a, p) ↦
          let parts = attested-some a v.snapshot_id key sha last (rw p at h) in
          (a, p, parts.0, parts.1, parts.2, parts.3)
    ],
    λ (a, p, valid, s, o, l). rw p (attested-covers a v.snapshot_id key sha last valid s o l),
  )

  validate-cons :
      (c : ChangeResult) (cs : List ChangeResult) (v : VerificationReport) (key sha : String)
      → (validate hmac isoformat (c ∷ cs) v key sha ≡ ok tt) ↔ (
          (v.passed ≡ true)
          × (attested hmac isoformat v.attestation v.snapshot_id key sha (last_change c cs)
              ≡ ok tt))
  unfolding validate
  validate-cons c cs v key sha = (λ h. ground (arith, h), λ (p, q). ground (arith, p, q))

  validate-nil :
      (v : VerificationReport) (key sha : String) → validate hmac isoformat [] v key sha ≡ ok tt → ⊥
  unfolding validate
  validate-nil v key sha h = ground (arith, h)

  -- The check in front of an export lets it through exactly if changes are given, the report
  -- passed, and its attestation is validly signed under the key, for the policy in force, and for
  -- the snapshot of the report, which is the one after the last change.
  pub validate_iff :
      (changes : List ChangeResult) (v : VerificationReport) (key sha : String)
      → (validate hmac isoformat changes v key sha ≡ ok tt) ↔ (
          (c : ChangeResult) × (cs : List ChangeResult) × (changes ≡ c ∷ cs)
          × (v.passed ≡ true)
          × IsCovered key sha (last_change c cs) v)
  unfolding validate
  validate_iff [] v key sha =
      (λ h. elim (validate-nil v key sha h) [ ], λ (c, cs, e, _, _). ground (arith, e))
  validate_iff (c ∷ cs) v key sha = (
    λ h.
        let (p, a) = (validate-cons c cs v key sha).0 h in
        (c, cs, refl, p, (attested_iff key sha (last_change c cs) v).0 a),
    λ (d, ds, e, p, covered).
        let same : last_change d ds ≡ last_change c cs = cc in
        (validate-cons c cs v key sha).1
          (p, (attested_iff key sha (last_change c cs) v).1 (rw same at covered)),
  )
