-- ===== src/Observation/CheckpointSchema.antt =====
-- schemas/checkpoint.schema.json, as `json.load` reads it.
use agent00x.Prelude.{text, false, [], ◌∷◌}
use agent00x.Observation.EventSchema.{names}
use agent00x.Values.{int, pos, str, list, dict, bool, Fields, end, field}

abbrev checkpoint_properties_2 : Fields
checkpoint_properties_2 =
    field (text "in_flight_invocation_ids")
      (dict (
        field (text "type") (str (text "array")) (
          field (text "minItems") (int (pos 1)) (
            field (text "items")
              (dict (
                field (text "type") (str (text "string"))
                  (field (text "pattern") (str (text "^invocation-[a-z0-9-]+$")) (end))))
              (end)))))
      (field (text "external_effect_refs")
        (dict (
          field (text "type") (str (text "array")) (
            field (text "minItems") (int (pos 1)) (
              field (text "items")
                (dict (
                  field (text "type") (str (text "string")) (
                    field (text "pattern") (str (text "^artifact://[A-Za-z0-9_./-]+$")) (
                      field (text "minLength") (int (pos 12))
                        (field (text "maxLength") (int (pos 256)) (end))))))
                (end)))))
        (field (text "restore_mode")
          (dict (
            field (text "enum")
              (list (names (text "simulation" ∷ text "supervised" ∷ text "none" ∷ []))) (end)))
          (field (text "completeness")
            (dict
              (field (text "enum") (list (names (text "complete" ∷ text "partial" ∷ []))) (end)))
            (field (text "created_at")
              (dict (
                field (text "type") (str (text "string"))
                  (field (text "format") (str (text "date-time")) (end))))
              (end)))))

abbrev checkpoint_properties_1 : Fields
checkpoint_properties_1 =
    field (text "parent_checkpoint_id")
      (dict (
        field (text "type") (str (text "string"))
          (field (text "pattern") (str (text "^checkpoint-[a-z0-9-]+$")) (end))))
      (field (text "event_cursor")
        (dict
          (field (text "type") (str (text "integer")) (field (text "minimum") (int (pos 0)) (end))))
        (field (text "state_ref")
          (dict (
            field (text "type") (str (text "string")) (
              field (text "pattern") (str (text "^artifact://[A-Za-z0-9_./-]+$")) (
                field (text "minLength") (int (pos 12))
                  (field (text "maxLength") (int (pos 256)) (end))))))
          (field (text "context_manifest_ref")
            (dict (
              field (text "type") (str (text "string")) (
                field (text "pattern") (str (text "^artifact://[A-Za-z0-9_./-]+$")) (
                  field (text "minLength") (int (pos 12))
                    (field (text "maxLength") (int (pos 256)) (end))))))
            (field (text "workspace_manifest_ref")
              (dict (
                field (text "type") (str (text "string")) (
                  field (text "pattern") (str (text "^artifact://[A-Za-z0-9_./-]+$")) (
                    field (text "minLength") (int (pos 12))
                      (field (text "maxLength") (int (pos 256)) (end))))))
              (field (text "configuration_refs")
                (dict (
                  field (text "type") (str (text "array")) (
                    field (text "minItems") (int (pos 1)) (
                      field (text "items")
                        (dict (
                          field (text "type") (str (text "string")) (
                            field (text "pattern") (str (text "^artifact://[A-Za-z0-9_./-]+$")) (
                              field (text "minLength") (int (pos 12))
                                (field (text "maxLength") (int (pos 256)) (end))))))
                        (end)))))
                (field (text "authority_refs")
                  (dict (
                    field (text "type") (str (text "array")) (
                      field (text "minItems") (int (pos 1)) (
                        field (text "items")
                          (dict (
                            field (text "type") (str (text "string")) (
                              field (text "pattern") (str (text "^artifact://[A-Za-z0-9_./-]+$")) (
                                field (text "minLength") (int (pos 12))
                                  (field (text "maxLength") (int (pos 256)) (end))))))
                          (end)))))
                  (field (text "pending_action_ref")
                    (dict (
                      field (text "type") (str (text "string")) (
                        field (text "pattern") (str (text "^artifact://[A-Za-z0-9_./-]+$")) (
                          field (text "minLength") (int (pos 12))
                            (field (text "maxLength") (int (pos 256)) (end))))))
                    (checkpoint_properties_2))))))))

abbrev checkpoint_properties : Fields
checkpoint_properties =
    field (text "schema_version") (dict (field (text "const") (int (pos 1)) (end))) (
      field (text "checkpoint_id")
        (dict (
          field (text "type") (str (text "string"))
            (field (text "pattern") (str (text "^checkpoint-[a-z0-9-]+$")) (end))))
        (field (text "kind")
          (dict
            (field (text "enum") (list (names (text "decision" ∷ text "tool_call" ∷ []))) (end)))
          (field (text "process_id")
            (dict (
              field (text "type") (str (text "string"))
                (field (text "pattern") (str (text "^process-[a-z0-9-]+$")) (end))))
            (field (text "run_id")
              (dict (
                field (text "type") (str (text "string"))
                  (field (text "pattern") (str (text "^run-[a-z0-9-]+$")) (end))))
              (field (text "branch_id")
                (dict (
                  field (text "type") (str (text "string"))
                    (field (text "pattern") (str (text "^branch-[a-z0-9-]+$")) (end))))
                (field (text "agent_id")
                  (dict (
                    field (text "type") (str (text "string"))
                      (field (text "pattern") (str (text "^(agent|service)-[a-z0-9-]+$")) (end))))
                  (field (text "trigger_event_id")
                    (dict (
                      field (text "type") (str (text "string"))
                        (field (text "pattern") (str (text "^event-[a-z0-9-]+$")) (end))))
                    (checkpoint_properties_1))))))))

-- `CHECKPOINT_SCHEMA`
abbrev pub checkpoint_schema : Fields
checkpoint_schema =
    field (text "$schema") (str (text "https://json-schema.org/draft/2020-12/schema")) (
      field (text "$id") (str (text "https://agent-process.local/schemas/checkpoint.schema.json")) (
        field (text "title") (str (text "Checkpoint")) (
          field (text "description")
            (str (
              text
                "Minimal R0 contract for a pre-action checkpoint from document 28. Holds versioned references only; never credentials, approval values or secret contents."))
            (field (text "type") (str (text "object")) (
              field (text "additionalProperties") (bool false) (
                field (text "required")
                  (list (
                    names (
                      text "schema_version"
                      ∷ text "checkpoint_id"
                      ∷ text "kind"
                      ∷ text "process_id"
                      ∷ text "run_id"
                      ∷ text "branch_id"
                      ∷ text "agent_id"
                      ∷ text "trigger_event_id"
                      ∷ text "event_cursor"
                      ∷ text "state_ref"
                      ∷ text "completeness"
                      ∷ text "restore_mode"
                      ∷ text "created_at"
                      ∷ [])))
                  (field (text "properties") (dict checkpoint_properties) (end))))))))
