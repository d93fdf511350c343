-- ===== src/Core/Attest.antt =====
-- packages/nettwin_core/src/nettwin_core/attest.py: signed attestations. The keyed hash of the
-- standard library (`hmac.new(key, message, sha256).hexdigest()`) and the text of a time
-- (`datetime.isoformat`) are parameters; a key is the text of its bytes.
pub mod Message
use net_twin.Prelude.{ℕ, String, ◌<>◌, Bool, true, false, ◌&&◌, ◌==◌, string_eq, if◌then◌else◌, ltb}
use net_twin.Prelude.Text.{all_chars}
use net_twin.Prelude.Result.{Result, ok, err}
use net_twin.Core.Models.{Attestation}

-- What `hmac.compare_digest` raises on a text that is not ASCII.
pub data DigestFault : Type 0 where
  not_ascii : DigestFault

unfoldable pub is_ascii : String → Bool
is_ascii = all_chars (λ c. ltb c 128)

unfoldable pub compare_digest : String → String → Result DigestFault Bool
unfolding is_ascii
compare_digest a b = if is_ascii a && is_ascii b then ok (a == b) else err not_ascii

module _ (hmac : String → String → String) (isoformat : ℕ → String) where
  unfoldable pub message : String → String → ℕ → String
  message snapshot_id policy_sha256 issued_at =
      snapshot_id <> ("|" <> (policy_sha256 <> ("|" <> isoformat issued_at)))

  unfoldable pub sign : String → String → String → ℕ → String
  unfolding message
  sign key snapshot_id policy_sha256 issued_at =
      hmac key (message snapshot_id policy_sha256 issued_at)

  -- With the time `datetime.now(UTC)` returns.
  unfoldable pub issue : String → String → String → ℕ → Attestation
  unfolding sign
  issue key snapshot_id policy_sha256 now = record {
    snapshot_id = snapshot_id;
    policy_sha256 = policy_sha256;
    issued_at = now;
    mac = sign key snapshot_id policy_sha256 now;
  }

  unfoldable pub verify : String → Attestation → Result DigestFault Bool
  unfolding sign compare_digest
  verify key a = compare_digest (sign key a.snapshot_id a.policy_sha256 a.issued_at) a.mac
