-- ===== src/ApprovalSignature.antt =====
-- src/app_contracts/approval_signature.py: the signed payload of an approval, and its verification.
use agent00x.Prelude.{
  or_raise, ℕ, ◌+◌, ◌-◌, ◌*◌, Text, text, Bool, true, false, ◌&&◌, ◌||◌, not, List, [], ◌∷◌, ◌++◌,
  Kind, Result, ok, err, raise_if, ◌>>=◌, ◌>>◌, if◌then◌else◌, ltb, ◌==◌, length, all_codes,
}
use agent00x.Digests.{canonical_json}
use agent00x.Digests.Shape.{lower_hex}
use agent00x.Host.{Host}
use agent00x.Values.{Value, Fields, end, field, get, has, size, is_str, text_of, dict}

abbrev pub signed_fields : List Text
signed_fields =
    text "schema_version"
    ∷ text "approval_id"
    ∷ text "approver_id"
    ∷ text "process_id"
    ∷ text "operation"
    ∷ text "repository_id"
    ∷ text "staged_change_digest"
    ∷ text "approved_intent_digest"
    ∷ text "policy_version"
    ∷ text "approved_at"
    ∷ text "expires_at"
    ∷ []

unfoldable pub has_all : Fields → List Text → Bool
has_all d [] = true
has_all d (k ∷ ks) = has d k && has_all d ks

-- `{field: d[field] for field in fields}`
unfoldable pub restrict : Fields → List Text → Fields
restrict d [] = end
restrict d (k ∷ ks) = field k (get d k) (restrict d ks)

-- `set(approval)` is the signed fields, with or without the signature.
unfoldable pub signed_shape : Fields → Bool
unfolding has_all size
signed_shape d =
    has_all d signed_fields && (size d == 11 || (size d == 12 && has d (text "signature")))

-- `approval_signature_payload`
unfoldable pub approval_signature_payload : Fields → Result (List ℕ)
unfolding signed_shape restrict
approval_signature_payload approval = do
  raise_if (not (signed_shape approval)) Kind.value_error
      (text "approval signature: payload is invalid")
  encoded ←
      or_raise (canonical_json (dict (restrict approval signed_fields))) Kind.value_error
        (text "approval signature: payload is invalid")
  ok (text "agent00x-approval-ed25519-v1" ++ 0 ∷ encoded)

hex_digit_value : ℕ → ℕ
hex_digit_value c = if ltb c 97 then c - 48 else c - 87

-- `bytes.fromhex`, of lower-case hexadecimal digits
unfoldable pub from_hex : Text → List ℕ
unfolding hex_digit_value
from_hex [] = []
from_hex (a ∷ []) = []
from_hex (a ∷ b ∷ s) = (hex_digit_value a * 16 + hex_digit_value b) ∷ from_hex s

-- `_SIGNATURE_PATTERN.fullmatch`
unfoldable pub is_signature : Value → Bool
unfolding is_str text_of all_codes lower_hex
is_signature v = is_str v && (length (text_of v) == 128 && all_codes lower_hex (text_of v))

module _ (host : Host) where
  verifies_payload : List ℕ → List ℕ → Result (List ℕ) → Bool
  verifies_payload key signature (ok payload) = host.ed25519_verifies key signature payload
  verifies_payload key signature (err _ _) = false

  -- `verify_approval_signature`
  unfoldable pub verify_approval_signature : Fields → List ℕ → Bool
  unfolding verifies_payload is_signature from_hex approval_signature_payload
  verify_approval_signature approval key =
      length key == 32
      && (is_signature (get approval (text "signature"))
          && verifies_payload key (from_hex (text_of (get approval (text "signature"))))
              (approval_signature_payload approval))
