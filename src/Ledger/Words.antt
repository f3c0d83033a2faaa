-- ===== src/Ledger/Words.antt =====
-- The fixed words of the attempt ledger: src/app_contracts/r5_attempt_ledger.py, and the test failure
-- codes of src/app_contracts/repository_process.py.
use agent00x.Prelude.{Text, text, List, [], ◌∷◌, ◌++◌}

-- `_OUTCOMES`
abbrev pub outcomes : List Text
outcomes =
    text "verified" ∷ text "failed" ∷ text "needs_input" ∷ text "blocked" ∷ text "denied" ∷ []

-- `_UNKNOWN_PHASE_REASONS`
abbrev pub unknown_phase_reasons : List Text
unknown_phase_reasons =
    text "input-validation-error"
    ∷ text "executor-uncaught-error"
    ∷ text "result-validation-error"
    ∷ text "executor-request-rejected"
    ∷ text "executor-worker-rejected"
    ∷ text "executor-sandbox-rejected"
    ∷ text "executor-snapshot-rejected"
    ∷ text "executor-preparation-rejected"
    ∷ text "executor-verifier-rejected"
    ∷ text "executor-stage-rejected"
    ∷ text "executor-marker-unmapped"
    ∷ text "executor-value-error"
    ∷ text "executor-type-error"
    ∷ text "executor-os-error"
    ∷ text "executor-runtime-error"
    ∷ text "executor-key-error"
    ∷ text "executor-attribute-error"
    ∷ text "executor-workspace-error"
    ∷ text "executor-contract-invalid"
    ∷ text "executor-test-result-malformed"
    ∷ []

-- `_UNKNOWN_REASONS`
abbrev pub unknown_reasons : List Text
unknown_reasons =
    text "interrupted" ∷ text "result-unavailable" ∷ text "pipeline-error" ∷ unknown_phase_reasons

-- `SAFE_TARGET_TEST_FAILURE_CODES`
abbrev pub safe_target_test_failure_codes : List Text
safe_target_test_failure_codes =
    text "target-test-readiness-exit"
    ∷ text "target-test-readiness-timeout"
    ∷ text "target-test-malformed-status"
    ∷ text "target-test-malformed-no-write"
    ∷ text "target-test-overflow-status"
    ∷ text "target-test-overflow-no-write"
    ∷ text "target-test-sqlite-range-status"
    ∷ text "target-test-sqlite-range-no-write"
    ∷ text "target-test-valid-status"
    ∷ text "target-test-valid-body"
    ∷ text "target-test-valid-row"
    ∷ text "target-test-malformed-no-write-correct-bool"
    ∷ text "target-test-malformed-no-write-correct-fractional"
    ∷ text "target-test-malformed-no-write-correct-numeric-string"
    ∷ text "target-test-malformed-no-write-level-bool"
    ∷ text "target-test-malformed-no-write-level-fractional"
    ∷ text "target-test-malformed-no-write-level-numeric-string"
    ∷ text "target-test-malformed-no-write-time_ms-bool"
    ∷ text "target-test-malformed-no-write-time_ms-fractional"
    ∷ text "target-test-malformed-no-write-time_ms-numeric-string"
    ∷ text "target-test-malformed-no-write-total-bool"
    ∷ text "target-test-malformed-no-write-total-fractional"
    ∷ text "target-test-malformed-no-write-total-numeric-string"
    ∷ text "target-test-malformed-no-write-wrong-bool"
    ∷ text "target-test-malformed-no-write-wrong-fractional"
    ∷ text "target-test-malformed-no-write-wrong-numeric-string"
    ∷ text "target-test-malformed-status-correct-bool"
    ∷ text "target-test-malformed-status-correct-fractional"
    ∷ text "target-test-malformed-status-correct-numeric-string"
    ∷ text "target-test-malformed-status-level-bool"
    ∷ text "target-test-malformed-status-level-fractional"
    ∷ text "target-test-malformed-status-level-numeric-string"
    ∷ text "target-test-malformed-status-time_ms-bool"
    ∷ text "target-test-malformed-status-time_ms-fractional"
    ∷ text "target-test-malformed-status-time_ms-numeric-string"
    ∷ text "target-test-malformed-status-total-bool"
    ∷ text "target-test-malformed-status-total-fractional"
    ∷ text "target-test-malformed-status-total-numeric-string"
    ∷ text "target-test-malformed-status-wrong-bool"
    ∷ text "target-test-malformed-status-wrong-fractional"
    ∷ text "target-test-malformed-status-wrong-numeric-string"
    ∷ text "target-test-sqlite-range-no-write-correct-above"
    ∷ text "target-test-sqlite-range-no-write-correct-below"
    ∷ text "target-test-sqlite-range-no-write-level-above"
    ∷ text "target-test-sqlite-range-no-write-level-below"
    ∷ text "target-test-sqlite-range-no-write-time_ms-above"
    ∷ text "target-test-sqlite-range-no-write-time_ms-below"
    ∷ text "target-test-sqlite-range-no-write-total-above"
    ∷ text "target-test-sqlite-range-no-write-total-below"
    ∷ text "target-test-sqlite-range-no-write-wrong-above"
    ∷ text "target-test-sqlite-range-no-write-wrong-below"
    ∷ text "target-test-sqlite-range-status-correct-above"
    ∷ text "target-test-sqlite-range-status-correct-below"
    ∷ text "target-test-sqlite-range-status-level-above"
    ∷ text "target-test-sqlite-range-status-level-below"
    ∷ text "target-test-sqlite-range-status-time_ms-above"
    ∷ text "target-test-sqlite-range-status-time_ms-below"
    ∷ text "target-test-sqlite-range-status-total-above"
    ∷ text "target-test-sqlite-range-status-total-below"
    ∷ text "target-test-sqlite-range-status-wrong-above"
    ∷ text "target-test-sqlite-range-status-wrong-below"
    ∷ text "target-test-allowlisted-tests-failed"
    ∷ []

-- `R5_EXECUTION_FAILURE_REASONS`
abbrev pub execution_failure_reasons : List Text
execution_failure_reasons =
    text "observation-gate-failed"
    ∷ text "sandbox-command-failed"
    ∷ text "sandbox-create-failed"
    ∷ text "sandbox-observation-gate-failed"
    ∷ text "sandbox-outcome-unknown"
    ∷ text "stage-observation-gate-failed"
    ∷ text "stage-operation-failed"
    ∷ text "stage-outcome-unknown"
    ∷ text "stage-persistence-failed"
    ∷ text "verification-replay-failed"
    ∷ text "verifier-attestation-invalid"
    ∷ text "verifier-failed"
    ∷ text "verifier-not-pass"
    ∷ text "verifier-observation-gate-failed"
    ∷ text "verifier-outcome-unknown"
    ∷ text "verifier-trust-unestablished"
    ∷ text "worker-failed"
    ∷ text "worker-outcome-unknown"
    ∷ text "worker-proposal-invalid"
    ∷ text "target-tests-failed"
    ∷ text "target-test-readiness-exit"
    ∷ text "target-test-readiness-timeout"
    ∷ text "target-test-overflow-status"
    ∷ text "target-test-overflow-no-write"
    ∷ text "target-test-valid-status"
    ∷ text "target-test-valid-body"
    ∷ text "target-test-valid-row"
    ∷ safe_target_test_failure_codes

-- `_REASONS`
abbrev pub reasons : List Text
reasons =
    text "none"
    ∷ text "execution-failed"
    ∷ text "worker-clarification"
    ∷ text "worker-blocked"
    ∷ text "worker-denied"
    ∷ text "worker-error"
    ∷ text "pipeline-error"
    ∷ text "interrupted"
    ∷ text "result-unavailable"
    ∷ (execution_failure_reasons ++ unknown_phase_reasons)

-- `_FIRST_FIVE`
abbrev pub first_five : List Text
first_five = text "R5-001" ∷ text "R5-002" ∷ text "R5-003" ∷ text "R5-004" ∷ text "R5-005" ∷ []
