-- ===== src/Tests/Queries.antt =====
-- `Get`, `PrepareMutation` and `legalOperations` on the small repository.
use git_memo.Base.Dict.{lookup, insert}
use git_memo.Base.Int.{int_eq}
use git_memo.Base.Text.{strip_prefix, split_on, is_space, is_empty}
use git_memo.Memory.Decode.{validate_required, decode}
use git_memo.Memory.Fields.{
  validate_labels, check_loop_status, validate_origin, check_entities, check_optional_date,
  validate_links, check_sources, check_date_time, check_optional_string, is_short_slug,
  validate_head, gather, check_string, check_relationships, check_enum, rune_count, validate_fields,
  check_slug_array, check_string_array,
}
use git_memo.Memory.Pattern.{is_slug, is_content_path, are_content_parts}
use git_memo.Service.Store.{load_all, extension_from, canonical_document_at}
use git_memo.Base.{true, false, ◌↔◌, ◌⊎◌, Any, ◌≡◌, refl, none, some, [], ◌∷◌, map, sort, all_of}
use git_memo.Base.Int.{pos}
use git_memo.Base.Text.{text, text_le, ◌==◌, to_lower, trim_space, contains}
use git_memo.Base.Result.{Result, ok}
use git_memo.Memory.Pattern.{is_memory_id}
use git_memo.Repository.Git.{RepoState}
use git_memo.Service.Store.{Code, Document}
use git_memo.Service.Query.{
  Index, PrepareMutationRequest, PreparedMutation, get, prepare_mutation, legal_operations,
}
use git_memo.Service.Query.Laws.{IsDistinct, get-identified, prepare_mutation-IsDistinct}
use git_memo.Service.Query.Legal.{Allows, legal_operations_iff}
use git_memo.Tests.Data.{
  one_id, one_path, one_sidecar, one_memory, one_file, one_platform, members_named,
}

-- An index that finds the one memory by every query, twice, and no memory by its ID.
abbrev one_index : Index
one_index = record {
  search = λ files query n. some (one_id ∷ one_id ∷ []);
  lookup_by_id = λ files id. some none;
}

one_document : Document
one_document = record {
  sidecar_path = one_sidecar;
  markdown_path = one_path;
  memory = one_memory;
  markdown = text "# Tea";
}

abbrev clean_state : RepoState
clean_state = record {
  revision = text "c1";
  branch = text "main";
  clean = true;
  dirty_entries = [];
}

abbrev tea_request : PrepareMutationRequest
tea_request = record { query = text "tea"; candidate_ids = one_id ∷ []; limit = pos 0 }

prepared : PreparedMutation
prepared = record {
  expected_revision = text "c1";
  candidates = one_document ∷ [];
  legal =
      text "correct"
      ∷ text "create"
      ∷ text "noop"
      ∷ text "supersede"
      ∷ text "update"
      ∷ text "withdraw"
      ∷ [];
}

run_preparation : Result Code PreparedMutation
unfolding prepare_mutation canonical_document_at load_all sort lookup decode all_of strip_prefix
    extension_from text_le validate_required validate_fields validate_head validate_labels
    validate_origin validate_links check_date_time check_optional_date check_string check_enum
    check_slug_array check_string_array check_entities check_sources check_relationships
    check_loop_status is_content_path split_on gather rune_count to_lower is_memory_id members_named
    int_eq is_short_slug is_slug check_optional_string are_content_parts ◌==◌ trim_space is_space
    is_empty contains
run_preparation =
    prepare_mutation one_platform one_index (λ files. false) (some clean_state) one_file tea_request

prepared_test :
    prepare_mutation one_platform one_index (λ files. false) (some clean_state) one_file tea_request
    ≡ ok prepared
unfolding run_preparation prepared one_document insert
prepared_test = refl

prepare_mutation-IsDistinct_example :
    (true ≡ true)
    × (false ≡ false)
    × (prepared.expected_revision ≡ text "c1")
    × (prepared.legal ≡ legal_operations prepared.candidates)
    × IsDistinct (map (λ doc. doc.memory.id) prepared.candidates)
prepare_mutation-IsDistinct_example =
    prepare_mutation-IsDistinct one_platform one_index (λ files. false) clean_state one_file
      tea_request prepared prepared_test

get_test : get one_platform one_index (λ files. false) one_file one_id ≡ ok one_document
unfolding run_preparation one_document get
get_test = refl

get-identified_example :
    (one_document.memory.id ≡ to_lower (trim_space one_id))
    × (is_memory_id one_document.memory.id ≡ true)
get-identified_example =
    get-identified one_platform one_index (λ files. false) one_file one_id one_document get_test

legal_operations_iff_example :
    (contains (legal_operations (one_document ∷ [])) (text "withdraw") ≡ true) ↔ (
      (text "withdraw" ≡ text "create")
      ⊎ (text "withdraw" ≡ text "noop")
      ⊎ Any (λ doc. Allows doc (text "withdraw")) (one_document ∷ []))
legal_operations_iff_example = legal_operations_iff (one_document ∷ []) (text "withdraw")
