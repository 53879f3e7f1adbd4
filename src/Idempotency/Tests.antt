-- ===== src/Idempotency/Tests.antt =====
-- One request, its retry before and after its completion.
use skillplane.Common.{ℕ, ◌≡◌, refl, arith, not, none, [], ◌∷◌, str_eq, ok, err, if◌then◌else◌}
use skillplane.Common.Text.{trim}
use skillplane.Common.Errors.{DomainError}
use skillplane.Access.{WorkspaceRole, user}
use skillplane.Idempotency.{
  IdempotencyIdentity, Records, Claim, claimed, replay, reused, slot_of, validate_idempotency_key,
  claim, complete,
}
use skillplane.Idempotency.Laws.{release_op, claim_left, complete_left, run_ops, complete-replays}
use skillplane.Idempotency.Locks.{claim-excludes}

abbrev asking : ℕ → Claim
asking now = record {
  workspace_id = "w";
  principal = user (record {
    actor_id = "a";
    workspace_id = "w";
    display_name = none;
    user_id = "u";
    session_id = "s";
    role = WorkspaceRole.editor;
    email = none;
  });
  operation = "op";
  key = "k1";
  request_hash = "h";
  now = now;
}

abbrev identity : IdempotencyIdentity
identity = record { slot = slot_of (asking 1) "k1"; request_hash = "h" }

abbrev none_yet : Records
none_yet = λ slot. none

abbrev pending : Records
pending = claim_left none_yet (claim 30000 86400000 (asking 1) none_yet)

abbrev finished : Records
finished = complete_left pending (complete identity 200 "{}" 50 pending)

key_test : validate_idempotency_key "k1" ≡ ok "k1"
unfolding validate_idempotency_key trim
key_test = refl

claimed_test : claim 30000 86400000 (asking 1) none_yet ≡ ok (claimed identity, pending)
unfolding claim validate_idempotency_key trim
claimed_test = refl

finished_test : complete identity 200 "{}" 50 pending ≡ ok finished
unfolding claim complete validate_idempotency_key trim
finished_test = refl

complete-replays_example :
    claim 30000 86400000 (asking 60) (run_ops 30000 86400000 (release_op identity ∷ []) finished)
    ≡ (if not (str_eq "h" "h")
        then err reused
        else ok (replay 200 "{}", run_ops 30000 86400000 (release_op identity ∷ []) finished))
complete-replays_example =
    complete-replays 30000 86400000 identity 200 "{}" 50 pending finished finished_test
      (release_op identity ∷ []) (asking 60) "k1" key_test refl

claim-excludes_example : (e : DomainError) × (claim 30000 86400000 (asking 20) pending ≡ err e)
claim-excludes_example =
    claim-excludes 30000 86400000 (asking 1) (asking 20) "k1" "k1" identity none_yet pending
      key_test key_test refl claimed_test (omega arith)
