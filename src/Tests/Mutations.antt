-- ===== src/Tests/Mutations.antt =====
-- `ApplyMutation` on the small repository.
use git_memo.Base.{◌++◌}
use git_memo.Service.Operation.Frame.{IsDone}
use git_memo.Service.Operation.Done.{apply_operation-IsDone}
use git_memo.Service.Apply.{apply_request_fingerprint}
use git_memo.Service.Paths.{canonical_paths, title_slug}
use git_memo.Service.Store.{Code, idempotency_conflict, write_proposed_document, old_paths}
use git_memo.Base.Result.{Result, err}
use git_memo.Tests.Data.{any_time, one_digest, two_digest, two_proposal}
use git_memo.Service.Apply.Safety.{IsLawfulWriter, IsPublished, handed}
use git_memo.Service.Apply.Retry.{FindsPublished, apply_mutation-retry, apply_mutation-conflict}
use git_memo.Service.Apply.Head.{
  apply_mutation-head, apply_mutation-applied, apply_mutation-unapplied,
}
use git_memo.Service.Store.{Files}
use git_memo.Memory.Fields.{is_short_slug, check_optional_string}
use git_memo.Memory.Pattern.{is_slug, are_content_parts}
use git_memo.Service.Apply.{commit_metadata}
use git_memo.Base.Dict.{lookup, insert}
use git_memo.Base.Int.{int_eq}
use git_memo.Base.Lists.{all_of}
use git_memo.Base.Text.{to_lower, split_on, join, contains, strip_prefix}
use git_memo.Memory.Decode.{validate_required, decode}
use git_memo.Memory.Fields.{
  gather, check_relationships, validate_labels, check_enum, check_date_time, check_slug_array,
  validate_links, validate_fields, check_string, validate_origin, check_optional_date,
  check_loop_status, validate_head, check_string_array, rune_count, check_sources, check_entities,
}
use git_memo.Memory.Pattern.{is_content_path, is_memory_id}
use git_memo.Repository.Message.{
  parse_applied_operation, replace_crlf, is_sha256, split_comma_list, is_operation_key,
  message_lines, format_mutation_commit_message,
}
use git_memo.Service.Apply.{mutation_commit_subject}
use git_memo.Service.Store.{extension_from, canonical_document_at, load_all, transition_lifecycle}
use git_memo.Base.Text.{trim_space, is_space, is_empty}
use git_memo.Service.Request.{normalize_apply_request, validate_apply_request}
use git_memo.Base.{◌≡◌, ◌≢◌, ◌⊎◌, refl, ap, Option, none, some, List, [], ◌∷◌, arith, sort}
use git_memo.Base.Text.{Text, text, text_le, ◌==◌, eq_refl}
use git_memo.Base.Result.{ok}
use git_memo.Repository.Message.{AppliedOperation}
use git_memo.Service.Operation.{ApplyMutationRequest, MutationPlan, apply_operation}
use git_memo.Service.Apply.{Outcome, ApplyMutationResult, applied, already_applied, apply_mutation}
use git_memo.Tests.Data.{
  one_id, one_file, one_platform, one_writer, one_tools, one_world, World, withdraw_request,
  create_request, find_operation, publish_pending, record_operation, members_named,
}

-- What the repository and its result are after the withdrawal.
unfoldable run_withdrawal : Outcome one_writer one_platform one_tools
unfolding apply_mutation validate_apply_request normalize_apply_request is_empty trim_space is_space
    is_operation_key contains ◌==◌ to_lower is_memory_id find_operation publish_pending
    apply_operation canonical_document_at load_all sort lookup decode all_of strip_prefix
    extension_from text_le validate_required validate_fields validate_head validate_labels
    validate_origin validate_links check_date_time check_optional_date rune_count check_string
    check_enum check_slug_array check_string_array check_entities check_sources check_relationships
    check_loop_status is_content_path split_on gather transition_lifecycle insert
    format_mutation_commit_message mutation_commit_subject message_lines join
    parse_applied_operation replace_crlf is_sha256 split_comma_list members_named int_eq
    is_short_slug is_slug check_optional_string are_content_parts commit_metadata
run_withdrawal = apply_mutation one_writer one_platform one_tools withdraw_request one_world

withdrawn : ApplyMutationResult
withdrawn = record {
  status = applied;
  operation = text "withdraw";
  idempotency_key = text "k1";
  previous_revision = text "c1";
  revision = text "c2";
  commit = text "c2";
  primary_memory_id = one_id;
  target_memory_id = one_id;
  changed_memory_ids = one_id ∷ [];
}

withdraw_test : run_withdrawal.0 ≡ ok withdrawn
unfolding apply_mutation withdrawn run_withdrawal
withdraw_test = refl

applied_test : withdrawn.status ≡ applied
unfolding withdrawn
applied_test = refl

publish_pending-head :
    (pending : Option (Files × Text)) (revision : Text) (w : World)
    → (publish_pending pending revision w).0 ≡ ok tt
    → (publish_pending pending revision w).1.head ≡ revision
unfolding publish_pending
publish_pending-head none revision w h = ground arith
publish_pending-head (some (files, message)) revision w h = refl

one_writer-IsLawful : IsLawfulWriter one_writer (λ w. w.head)
one_writer-IsLawful = record {
  state-head = λ r st h. ground arith;
  head-begin = λ r revision. refl;
  head-commit = λ r files message. refl;
  head-close = λ r. refl;
  head-publish = λ r branch expected revision h. publish_pending-head r.pending revision r h;
}

find_operation-record :
    (o : Option AppliedOperation) (a : AppliedOperation) (rest : List AppliedOperation) (key : Text)
    → o ≡ some a
    → a.idempotency_key ≡ key
    → find_operation (record_operation o rest) key ≡ some a
unfolding find_operation record_operation
find_operation-record none a rest key e k = ground arith
find_operation-record (some b) a rest key e k = ground (arith, eq_refl key)

one_writer-FindsPublished : FindsPublished one_writer one_platform one_tools (λ w. w.head)
unfolding FindsPublished handed publish_pending
one_writer-FindsPublished r request files message branch revision a fresh committed published read
      same =
    let at : revision ≡ text "c2" = ground arith in
    ap some (
      find_operation-record (parse_applied_operation revision message) a r.operations
        request.idempotency_key read same)

apply_mutation-retry_example :
    apply_mutation one_writer one_platform one_tools withdraw_request run_withdrawal.1 ≡ (
      ok (record withdrawn { status = already_applied; changed_memory_ids = one_id ∷ [] }),
      run_withdrawal.1,
    )
unfolding withdrawn run_withdrawal sort
apply_mutation-retry_example =
    apply_mutation-retry one_writer one_platform one_tools (λ w. w.head) one_writer-IsLawful
      one_writer-FindsPublished withdraw_request one_world withdrawn withdraw_test refl

apply_mutation-applied_example : (text "c1" ≡ one_world.head) × (text "c2" ≡ run_withdrawal.1.head)
unfolding withdrawn run_withdrawal
apply_mutation-applied_example =
    apply_mutation-applied one_writer one_platform one_tools (λ w. w.head) one_writer-IsLawful
      withdraw_request one_world withdrawn withdraw_test refl

apply_mutation-head_example :
    (run_withdrawal.1.head ≡ one_world.head)
    ⊎ IsPublished one_writer one_platform one_tools
        (λ w. w.head)
        (normalize_apply_request withdraw_request)
        one_world
        run_withdrawal
unfolding run_withdrawal
apply_mutation-head_example =
    apply_mutation-head one_writer one_platform one_tools (λ w. w.head) one_writer-IsLawful
      withdraw_request one_world

-- A second request under the key of the first finds it, and changes nothing.
retried : ApplyMutationResult
retried = record withdrawn { status = already_applied }

retried_test :
    (apply_mutation one_writer one_platform one_tools withdraw_request run_withdrawal.1).0
    ≡ ok retried
unfolding retried withdrawn run_withdrawal
retried_test =
    ap (λ o. o.0)
      (apply_mutation-retry one_writer one_platform one_tools (λ w. w.head) one_writer-IsLawful
        one_writer-FindsPublished withdraw_request one_world withdrawn withdraw_test refl)

retried-unapplied : retried.status ≢ applied
unfolding retried
retried-unapplied e = ground arith

apply_mutation-unapplied_example :
    (apply_mutation one_writer one_platform one_tools withdraw_request run_withdrawal.1).1
    ≡ run_withdrawal.1
apply_mutation-unapplied_example =
    apply_mutation-unapplied one_writer one_platform one_tools (λ w. w.head) withdraw_request
      run_withdrawal.1 retried retried_test retried-unapplied

-- Another request under the key of the withdrawal.
abbrev other_request : ApplyMutationRequest
other_request = record create_request { idempotency_key = text "k1" }

other_request-valid :
    validate_apply_request any_time (normalize_apply_request other_request) ≡ ok tt
unfolding validate_apply_request normalize_apply_request is_empty trim_space is_space
    is_operation_key contains ◌==◌ to_lower is_memory_id all_of
other_request-valid = refl

other_request-digest :
    apply_request_fingerprint one_tools (normalize_apply_request other_request) ≡ some two_digest
unfolding apply_request_fingerprint normalize_apply_request trim_space is_space to_lower ◌==◌
other_request-digest = refl

withdraw_request-digest :
    apply_request_fingerprint one_tools (normalize_apply_request withdraw_request) ≡ some one_digest
unfolding apply_request_fingerprint normalize_apply_request trim_space is_space to_lower ◌==◌
withdraw_request-digest = refl

other_request-digested :
    apply_request_fingerprint one_tools (normalize_apply_request other_request) ≢ none
other_request-digested e = ground (arith, other_request-digest)

other_request-apart :
    apply_request_fingerprint one_tools (normalize_apply_request other_request)
    ≢ apply_request_fingerprint one_tools (normalize_apply_request withdraw_request)
other_request-apart e = ground (arith, other_request-digest, withdraw_request-digest)

other_request-key :
    (normalize_apply_request other_request).idempotency_key
    ≡ (normalize_apply_request withdraw_request).idempotency_key
unfolding normalize_apply_request trim_space is_space
other_request-key = refl

apply_mutation-conflict_example :
    apply_mutation one_writer one_platform one_tools other_request run_withdrawal.1
    ≡ (err idempotency_conflict, run_withdrawal.1)
unfolding run_withdrawal
apply_mutation-conflict_example =
    apply_mutation-conflict one_writer one_platform one_tools (λ w. w.head) one_writer-IsLawful
      one_writer-FindsPublished withdraw_request other_request one_world withdrawn withdraw_test
      applied_test other_request-valid other_request-key other_request-digested other_request-apart

-- The files and the plan of a creation.
run_creation : Result Code (MutationPlan × Files)
unfolding apply_operation canonical_document_at load_all sort lookup decode all_of strip_prefix
    extension_from text_le validate_required validate_fields validate_head validate_labels
    validate_origin validate_links check_date_time check_optional_date rune_count check_string
    check_enum check_slug_array check_string_array check_entities check_sources check_relationships
    check_loop_status is_content_path split_on gather insert write_proposed_document canonical_paths
    title_slug trim_space is_space to_lower is_empty contains is_memory_id members_named int_eq
    is_short_slug is_slug check_optional_string are_content_parts ◌==◌ old_paths
run_creation = apply_operation one_platform one_file create_request

created : MutationPlan × Files
created = (
  record {
    primary_memory_id = two_proposal.memory.id;
    target_memory_id = [];
    changed_memory_ids = two_proposal.memory.id ∷ [];
  },
  one_file
      ++ (text "memories/general/milk--4567abcd.md", text "# Milk")
        ∷ (text "memories/general/milk--4567abcd.json", text "{}" ++ 10 ∷ [])
        ∷ [],
)

creation_test : apply_operation one_platform one_file create_request ≡ ok (created.0, created.1)
unfolding run_creation created
creation_test = refl

create_request-valid : validate_apply_request any_time create_request ≡ ok tt
unfolding validate_apply_request is_empty is_operation_key contains ◌==◌ is_memory_id all_of
create_request-valid = refl

apply_operation-IsDone_example : IsDone one_platform one_file create_request created.0 created.1
apply_operation-IsDone_example =
    apply_operation-IsDone one_platform any_time one_file create_request created.0 created.1
      create_request-valid creation_test
