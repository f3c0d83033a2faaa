-- ===== src/Tests/GatewayRuns.antt =====
-- src/app_contracts/gateway.py on concrete inputs.
use agent00x.Prelude.{
  text, text_eq, true, false, List, [], ◌∷◌, Outcome, ok, err, ◌≡◌, ◌↔◌, ◌⊎◌, Kind,
}
use agent00x.Gateway.{
  Request, GatewayDecision, GatewayEvent, fast, decide, read_only, slow_port, privileged, sensitive,
  enforce,
}
use agent00x.Gateway.Safety.{decide-allowed_iff, decide-fast_iff, enforce_total}
use agent00x.Values.{Value, end, field, str, bool, dict}

abbrev reading : Request
reading = record {
  operation = text "repository.read";
  port = text "workspace";
  protocol = text "internal";
  tainted = false;
  sensitivity = text "internal";
}

decide-allowed_iff_example :
    ((decide reading false).allowed ≡ true)
    ↔ ((read_only (text "repository.read") ≡ true) ⊎ ((false ≡ true) × (false ≡ false)))
decide-allowed_iff_example = decide-allowed_iff reading false

decide-fast_iff_example : ((decide reading true).path ≡ fast) ↔ (
    (true ≡ true)
    × (false ≡ false)
    × (text_eq (text "internal") (text "internal") ≡ true)
    × (slow_port (text "workspace") ≡ false)
    × (privileged (text "repository.read") ≡ false)
    × (read_only (text "repository.read") ≡ true)
    × (sensitive (text "internal") ≡ false))
decide-fast_iff_example = decide-fast_iff reading true

abbrev envelope : Value
envelope = dict (
    field (text "correlation_id") (str (text "process-1")) (
      field (text "intent") (dict (field (text "operation") (str (text "repository.read")) end)) (
        field (text "destination") (dict (field (text "port") (str (text "workspace")) end)) (
          field (text "source")
            (dict (
              field (text "protocol") (str (text "internal"))
                (field (text "principal_id") (str (text "agent-1")) end)))
            (field (text "security")
              (dict (
                field (text "tainted") (bool false)
                  (field (text "sensitivity") (str (text "internal")) end)))
              (field (text "payload")
                (dict (field (text "content_digest") (str (text "sha256:0")) end)) end))))))

-- An audit sink that keeps the events.
abbrev keeping : GatewayEvent → List GatewayEvent → Outcome (List GatewayEvent) (Unit {0})
keeping event events = (ok tt, event ∷ events)

-- An audit sink that is down.
abbrev failing : GatewayEvent → List GatewayEvent → Outcome (List GatewayEvent) (Unit {0})
failing event events = (err Kind.runtime_error (text "unavailable"), events)

abbrev allowed_read : GatewayDecision
allowed_read = record { path = fast; allowed = true; reason_codes = text "internal-read-only" ∷ [] }

enforce_total_example : (d : GatewayDecision) × ((enforce failing envelope (bool true) []).0 ≡ ok d)
enforce_total_example = enforce_total failing envelope (bool true) []
