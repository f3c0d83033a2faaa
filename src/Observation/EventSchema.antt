-- ===== src/Observation/EventSchema.antt =====
-- schemas/observation-event.schema.json, as `json.load` reads it.
use agent00x.Prelude.{Text, text, false, List, [], ◌∷◌}
use agent00x.Values.{int, pos, negsuc, str, list, dict, bool, Fields, end, field, Items, nil, cons}

abbrev pub names : List Text → Items
names [] = nil
names (s ∷ ss) = cons (str s) (names ss)

abbrev event_properties_3 : Fields
event_properties_3 =
    field (text "authority_refs")
      (dict (
        field (text "type") (str (text "array")) (
          field (text "minItems") (int (pos 1)) (
            field (text "items")
              (dict (
                field (text "type") (str (text "string"))
                  (field (text "pattern") (str (text "^artifact://")) (end))))
              (end)))))
      (field (text "status")
        (dict (
          field (text "enum")
            (list (
              names
                (text "pending" ∷ text "ok" ∷ text "failed" ∷ text "denied" ∷ text "unknown" ∷ [])))
            (end)))
        (field (text "error_code")
          (dict (
            field (text "type") (str (text "string"))
              (field (text "minLength") (int (pos 1)) (end))))
          (field (text "classification")
            (dict (
              field (text "enum")
                (list (
                  names (
                    text "public"
                    ∷ text "internal"
                    ∷ text "confidential"
                    ∷ text "restricted"
                    ∷ [])))
                (end)))
            (field (text "redaction_status")
              (dict
                (field (text "enum") (list (names (text "complete" ∷ text "redacted" ∷ []))) (end)))
              (end)))))

abbrev event_properties_2 : Fields
event_properties_2 =
    field (text "agent_build_id")
      (dict
        (field (text "type") (str (text "string")) (field (text "minLength") (int (pos 1)) (end))))
      (field (text "procedure_version")
        (dict (
          field (text "type") (str (text "string")) (field (text "minLength") (int (pos 1)) (end))))
        (field (text "input_refs")
          (dict (
            field (text "type") (str (text "array")) (
              field (text "minItems") (int (pos 1)) (
                field (text "items")
                  (dict (
                    field (text "type") (str (text "string"))
                      (field (text "pattern") (str (text "^artifact://")) (end))))
                  (end)))))
          (field (text "output_refs")
            (dict (
              field (text "type") (str (text "array")) (
                field (text "minItems") (int (pos 1)) (
                  field (text "items")
                    (dict (
                      field (text "type") (str (text "string"))
                        (field (text "pattern") (str (text "^artifact://")) (end))))
                    (end)))))
            (field (text "decision_or_tool")
              (dict (
                field (text "type") (str (text "string"))
                  (field (text "minLength") (int (pos 1)) (end))))
              (field (text "safe_parameters")
                (dict (
                  field (text "type") (str (text "object")) (
                    field (text "additionalProperties") (bool false) (
                      field (text "properties")
                        (dict (
                          field (text "path")
                            (dict (
                              field (text "type") (str (text "string")) (
                                field (text "pattern") (str (text "^[A-Za-z0-9_./-]+$")) (
                                  field (text "minLength") (int (pos 1))
                                    (field (text "maxLength") (int (pos 256)) (end))))))
                            (field (text "max_bytes")
                              (dict (
                                field (text "type") (str (text "integer"))
                                  (field (text "minimum") (int (pos 0)) (end))))
                              (field (text "limit")
                                (dict (
                                  field (text "type") (str (text "integer"))
                                    (field (text "minimum") (int (pos 0)) (end))))
                                (field (text "offset")
                                  (dict (
                                    field (text "type") (str (text "integer"))
                                      (field (text "minimum") (int (pos 0)) (end))))
                                  (field (text "artifact_ref")
                                    (dict (
                                      field (text "type") (str (text "string")) (
                                        field (text "pattern")
                                          (str (text "^artifact://[A-Za-z0-9_./-]+$"))
                                          (field (text "minLength") (int (pos 12))
                                            (field (text "maxLength") (int (pos 256)) (end))))))
                                    (field (text "worker_outcome")
                                      (dict (
                                        field (text "enum")
                                          (list (
                                            names (
                                              text "clarification_required"
                                              ∷ text "blocked"
                                              ∷ text "denied"
                                              ∷ [])))
                                          (end)))
                                      (field (text "sandbox_return_code")
                                        (dict (
                                          field (text "type") (str (text "integer")) (
                                            field (text "minimum") (int (negsuc 254))
                                              (field (text "maximum") (int (pos 255)) (end)))))
                                        (field (text "sandbox_failure_code")
                                          (dict (
                                            field (text "enum")
                                              (list (
                                                names (
                                                  text "readiness-exit"
                                                  ∷ text "readiness-timeout"
                                                  ∷ text "overflow-status"
                                                  ∷ text "overflow-no-write"
                                                  ∷ text "valid-status"
                                                  ∷ text "valid-body"
                                                  ∷ text "valid-row"
                                                  ∷ text "malformed-status-level-bool"
                                                  ∷ text "malformed-no-write-level-bool"
                                                  ∷ text "malformed-status-level-fractional"
                                                  ∷ text "malformed-no-write-level-fractional"
                                                  ∷ text "malformed-status-level-numeric-string"
                                                  ∷ text "malformed-no-write-level-numeric-string"
                                                  ∷ text "sqlite-range-status-level-above"
                                                  ∷ text "sqlite-range-no-write-level-above"
                                                  ∷ text "sqlite-range-status-level-below"
                                                  ∷ text "sqlite-range-no-write-level-below"
                                                  ∷ text "malformed-status-correct-bool"
                                                  ∷ text "malformed-no-write-correct-bool"
                                                  ∷ text "malformed-status-correct-fractional"
                                                  ∷ text "malformed-no-write-correct-fractional"
                                                  ∷ text "malformed-status-correct-numeric-string"
                                                  ∷ text "malformed-no-write-correct-numeric-string"
                                                  ∷ text "sqlite-range-status-correct-above"
                                                  ∷ text "sqlite-range-no-write-correct-above"
                                                  ∷ text "sqlite-range-status-correct-below"
                                                  ∷ text "sqlite-range-no-write-correct-below"
                                                  ∷ text "malformed-status-wrong-bool"
                                                  ∷ text "malformed-no-write-wrong-bool"
                                                  ∷ text "malformed-status-wrong-fractional"
                                                  ∷ text "malformed-no-write-wrong-fractional"
                                                  ∷ text "malformed-status-wrong-numeric-string"
                                                  ∷ text "malformed-no-write-wrong-numeric-string"
                                                  ∷ text "sqlite-range-status-wrong-above"
                                                  ∷ text "sqlite-range-no-write-wrong-above"
                                                  ∷ text "sqlite-range-status-wrong-below"
                                                  ∷ text "sqlite-range-no-write-wrong-below"
                                                  ∷ text "malformed-status-total-bool"
                                                  ∷ text "malformed-no-write-total-bool"
                                                  ∷ text "malformed-status-total-fractional"
                                                  ∷ text "malformed-no-write-total-fractional"
                                                  ∷ text "malformed-status-total-numeric-string"
                                                  ∷ text "malformed-no-write-total-numeric-string"
                                                  ∷ text "sqlite-range-status-total-above"
                                                  ∷ text "sqlite-range-no-write-total-above"
                                                  ∷ text "sqlite-range-status-total-below"
                                                  ∷ text "sqlite-range-no-write-total-below"
                                                  ∷ text "malformed-status-time_ms-bool"
                                                  ∷ text "malformed-no-write-time_ms-bool"
                                                  ∷ text "malformed-status-time_ms-fractional"
                                                  ∷ text "malformed-no-write-time_ms-fractional"
                                                  ∷ text "malformed-status-time_ms-numeric-string"
                                                  ∷ text "malformed-no-write-time_ms-numeric-string"
                                                  ∷ text "sqlite-range-status-time_ms-above"
                                                  ∷ text "sqlite-range-no-write-time_ms-above"
                                                  ∷ text "sqlite-range-status-time_ms-below"
                                                  ∷ text "sqlite-range-no-write-time_ms-below"
                                                  ∷ [])))
                                              (end)))
                                          (event_properties_3))))))))))
                        (end)))))
                (field (text "rationale")
                  (dict (
                    field (text "type") (str (text "string"))
                      (field (text "minLength") (int (pos 1)) (end))))
                  (field (text "expected_result")
                    (dict (
                      field (text "type") (str (text "string"))
                        (field (text "minLength") (int (pos 1)) (end))))
                    (event_properties_3))))))))

abbrev event_properties_1 : Fields
event_properties_1 =
    field (text "parent_agent_id")
      (dict (
        field (text "type") (str (text "string"))
          (field (text "pattern") (str (text "^(agent|service)-[a-z0-9-]+$")) (end))))
      (field (text "sequence")
        (dict
          (field (text "type") (str (text "integer")) (field (text "minimum") (int (pos 0)) (end))))
        (field (text "occurred_at")
          (dict (
            field (text "type") (str (text "string"))
              (field (text "format") (str (text "date-time")) (end))))
          (field (text "recorded_at")
            (dict (
              field (text "type") (str (text "string"))
                (field (text "format") (str (text "date-time")) (end))))
            (field (text "causal_event_ids")
              (dict (
                field (text "type") (str (text "array")) (
                  field (text "minItems") (int (pos 1)) (
                    field (text "items")
                      (dict (
                        field (text "type") (str (text "string"))
                          (field (text "pattern") (str (text "^event-[a-z0-9-]+$")) (end))))
                      (end)))))
              (field (text "checkpoint_id")
                (dict (
                  field (text "type") (str (text "string"))
                    (field (text "pattern") (str (text "^checkpoint-[a-z0-9-]+$")) (end))))
                (field (text "invocation_id")
                  (dict (
                    field (text "type") (str (text "string"))
                      (field (text "pattern") (str (text "^invocation-[a-z0-9-]+$")) (end))))
                  (field (text "state_version")
                    (dict (
                      field (text "type") (str (text "integer"))
                        (field (text "minimum") (int (pos 1)) (end))))
                    (event_properties_2))))))))

abbrev event_properties : Fields
event_properties = field (text "schema_version") (dict (field (text "const") (int (pos 1)) (end))) (
    field (text "event_id")
      (dict (
        field (text "type") (str (text "string"))
          (field (text "pattern") (str (text "^event-[a-z0-9-]+$")) (end))))
      (field (text "event_type")
        (dict (
          field (text "enum")
            (list (
              names (
                text "decision_proposed"
                ∷ text "decision_applied"
                ∷ text "tool_requested"
                ∷ text "tool_completed"
                ∷ text "tool_failed"
                ∷ text "tool_denied"
                ∷ text "outcome_unknown"
                ∷ text "agent_started"
                ∷ text "agent_finished"
                ∷ text "run_finished"
                ∷ text "correction_proposed"
                ∷ text "branch_created"
                ∷ [])))
            (end)))
        (field (text "process_id")
          (dict (
            field (text "type") (str (text "string"))
              (field (text "pattern") (str (text "^process-[a-z0-9-]+$")) (end))))
          (field (text "run_id")
            (dict (
              field (text "type") (str (text "string"))
                (field (text "pattern") (str (text "^run-[a-z0-9-]+$")) (end))))
            (field (text "branch_id")
              (dict (
                field (text "type") (str (text "string"))
                  (field (text "pattern") (str (text "^branch-[a-z0-9-]+$")) (end))))
              (field (text "task_id")
                (dict (
                  field (text "type") (str (text "string"))
                    (field (text "pattern") (str (text "^task-[a-z0-9-]+$")) (end))))
                (field (text "agent_id")
                  (dict (
                    field (text "type") (str (text "string"))
                      (field (text "pattern") (str (text "^(agent|service)-[a-z0-9-]+$")) (end))))
                  (event_properties_1))))))))

-- `EVENT_SCHEMA`
abbrev pub event_schema : Fields
event_schema = field (text "$schema") (str (text "https://json-schema.org/draft/2020-12/schema")) (
    field (text "$id")
      (str (text "https://agent-process.local/schemas/observation-event.schema.json"))
      (field (text "title") (str (text "ObservationEvent")) (
        field (text "description")
          (str (
            text
              "Minimal R0 contract for a structured observer event from document 28. safe_parameters is a strict allowlist of typed redacted metadata; raw payload, secret-like keys and prompt text are rejected."))
          (field (text "type") (str (text "object")) (
            field (text "additionalProperties") (bool false) (
              field (text "required")
                (list (
                  names (
                    text "schema_version"
                    ∷ text "event_id"
                    ∷ text "event_type"
                    ∷ text "process_id"
                    ∷ text "run_id"
                    ∷ text "branch_id"
                    ∷ text "task_id"
                    ∷ text "agent_id"
                    ∷ text "sequence"
                    ∷ text "occurred_at"
                    ∷ text "recorded_at"
                    ∷ text "classification"
                    ∷ text "redaction_status"
                    ∷ [])))
                (field (text "properties") (dict event_properties) (end))))))))
