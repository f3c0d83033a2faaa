-- ===== src/Tests/MockRuns.antt =====
-- src/app_contracts/mock_github.py on concrete inputs.
use agent00x.Prelude.{Text, text, true, some, [], ◌∷◌, ok, ◌≡◌, refl}
use agent00x.Publication.Keys.{refused_in_base, refused_part}
use agent00x.Publication.MockGithub.{MockPullRequest, publish_pull_request, find_by_idempotency_key}
use agent00x.Publication.MockLookup.{find-publish}
use agent00x.Publication.MockRetries.{publish-again}
use agent00x.Values.{Value, bool, str, dict, end, field, as_dict, has, py_eq, get, is_true, is_name}

abbrev digest : Text
digest = text "sha256:aaaaaaaaaaaaaaaaaaaaaaaaaaaaaaaaaaaaaaaaaaaaaaaaaaaaaaaaaaaaaaaa"

abbrev key : Text
key =
    text "publish/fix/main/sha256:aaaaaaaaaaaaaaaaaaaaaaaaaaaaaaaaaaaaaaaaaaaaaaaaaaaaaaaaaaaaaaaa"

abbrev request : Value
request = dict (
    field (text "operation") (str (text "publish_pull_request")) (
      field (text "repository_id") (str (text "owner/name")) (
        field (text "branch") (str (text "agent/fix")) (
          field (text "base_branch") (str (text "main")) (
            field (text "staged_change_digest") (str digest) (
              field (text "idempotency_key") (str key) (
                field (text "policy_effect") (str (text "allow"))
                  (field (text "approval_valid") (bool true) end))))))))

abbrev first_pull : MockPullRequest
first_pull = record {
  pull_request_id = 1;
  repository_id = text "owner/name";
  branch = text "agent/fix";
  staged_change_digest = digest;
  idempotency_key = key;
  base_branch = text "main";
}

published : publish_pull_request request [] ≡ (ok first_pull, first_pull ∷ [])
unfolding publish_pull_request text as_dict has py_eq get is_true is_name refused_in_base
    refused_part
published = refl

publish-again_example :
    publish_pull_request request (first_pull ∷ []) ≡ (ok first_pull, first_pull ∷ [])
publish-again_example = publish-again request [] (first_pull ∷ []) first_pull published

find-publish_example :
    find_by_idempotency_key key (some (text "owner/name")) (some (text "main")) (first_pull ∷ [])
    ≡ ok (some first_pull)
find-publish_example = find-publish request [] (first_pull ∷ []) first_pull published
