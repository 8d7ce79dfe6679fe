-- ===== src/Tests/Documents.antt =====
-- Documents of the small repository, found and written.
use git_memo.Base.Dict.{insert, remove}
use git_memo.Base.Int.{int_eq}
use git_memo.Base.Text.{is_empty, contains, split_on, trim_space, strip_prefix, to_lower, is_space}
use git_memo.Memory.Decode.{validate_required, decode}
use git_memo.Memory.Fields.{
  check_string, check_slug_array, rune_count, check_entities, check_optional_date, validate_origin,
  is_short_slug, validate_labels, check_relationships, check_sources, check_loop_status,
  validate_head, validate_links, check_string_array, validate_fields, check_enum, gather,
  check_optional_string, check_date_time,
}
use git_memo.Memory.Pattern.{is_memory_id, are_content_parts}
use git_memo.Service.Store.{extension_from, old_paths}
use git_memo.Base.{
  true, ◌≡◌, ◌≢◌, refl, Option, none, some, List, [], ◌∷◌, ◌++◌, arith, All, sort, all_of, length,
  ◌≤◌,
}
use git_memo.Base.Text.{Text, text, text_le, ◌==◌}
use git_memo.Base.Dict.{lookup}
use git_memo.Service.Store.{Code}
use git_memo.Base.Result.{Result, ok}
use git_memo.Memory.{Record}
use git_memo.Memory.Pattern.{is_slug, is_content_path}
use git_memo.Service.Paths.{DocumentPaths, canonical_paths, title_slug}
use git_memo.Service.Paths.Laws.{title_slug-IsSlug}
use git_memo.Service.Paths.Canonical.{canonical_paths-IsContentPath}
use git_memo.Service.Store.{
  Files, Document, canonical_document_at, load_all, write_proposed_document, transition_lifecycle,
}
use git_memo.Service.Store.Find.{
  IsDocumentOf, canonical_document_at-some, canonical_document_at-none,
}
use git_memo.Service.Store.Write.{
  IsWritten, write_proposed_document-IsWritten, transition_lifecycle-keeps,
}
use git_memo.Tests.Data.{
  one_id, one_path, one_sidecar, one_memory, one_file, one_platform, two_proposal, members_named,
}

title_slug-IsSlug_example : (is_slug (text "green-tea") ≡ true) × (length (text "green-tea") ≤ 80)
unfolding title_slug is_slug trim_space is_space to_lower is_empty
title_slug-IsSlug_example = title_slug-IsSlug (text " Green: TEA! ")

two_paths : DocumentPaths
two_paths = record {
  markdown = text "memories/general/milk--4567abcd.md";
  sidecar = text "memories/general/milk--4567abcd.json";
}

two_paths_test : canonical_paths two_proposal.memory ≡ ok two_paths
unfolding two_paths canonical_paths title_slug is_memory_id trim_space is_space to_lower is_empty
two_paths_test = refl

canonical_paths-IsContentPath_example :
    (is_content_path two_paths.markdown ≡ true)
    × ((stem : Text) × (two_paths.markdown ≡ stem ++ text ".md")
        × (two_paths.sidecar ≡ stem ++ text ".json"))
canonical_paths-IsContentPath_example =
    canonical_paths-IsContentPath two_proposal.memory two_paths two_paths_test

one_document : Document
one_document = record {
  sidecar_path = one_sidecar;
  markdown_path = one_path;
  memory = one_memory;
  markdown = text "# Tea";
}

-- The lookup of an ID, and what is stored under it.
look_up : Text → Result Code (Option Document)
unfolding canonical_document_at load_all sort lookup decode all_of strip_prefix extension_from
    text_le validate_required validate_fields validate_head validate_labels validate_origin
    validate_links check_date_time check_optional_date check_string check_enum check_slug_array
    check_string_array check_entities check_sources check_relationships check_loop_status
    is_content_path split_on gather rune_count to_lower is_memory_id members_named int_eq
    is_short_slug is_slug check_optional_string are_content_parts ◌==◌
look_up id = canonical_document_at one_platform one_file id

one_document_test : canonical_document_at one_platform one_file one_id ≡ ok (some one_document)
unfolding look_up one_document
one_document_test = refl

canonical_document_at-some_example : IsDocumentOf one_platform one_file one_id one_document
canonical_document_at-some_example =
    canonical_document_at-some one_platform one_file one_id one_document one_document_test

no_document_test : canonical_document_at one_platform one_file (text "x") ≡ ok none
unfolding look_up
no_document_test = refl

canonical_document_at-none_example :
    (records : List Record) × (load_all one_platform one_file ≡ some records)
    × All (λ r. r.memory.id ≢ text "x") records
canonical_document_at-none_example =
    canonical_document_at-none one_platform one_file (text "x") no_document_test

two_document : Document
two_document = record {
  sidecar_path = text "memories/general/milk--4567abcd.json";
  markdown_path = text "memories/general/milk--4567abcd.md";
  memory = record two_proposal.memory { content_path = text "memories/general/milk--4567abcd.md" };
  markdown = text "# Milk";
}

two_files : Files
two_files =
    one_file
    ++ (text "memories/general/milk--4567abcd.md", text "# Milk")
      ∷ (text "memories/general/milk--4567abcd.json", text "{}" ++ 10 ∷ [])
      ∷ []

two_files_test :
    write_proposed_document one_platform one_file none two_proposal ≡ ok (two_document, two_files)
unfolding look_up two_document two_files write_proposed_document canonical_paths title_slug
    trim_space is_space is_empty insert contains old_paths
two_files_test = refl

-- The same document in the place of the one that was there.
moved_files : Files
moved_files =
    (text "README.md", text "hi")
    ∷ (text "memories/general/milk--4567abcd.md", text "# Milk")
    ∷ (text "memories/general/milk--4567abcd.json", text "{}" ++ 10 ∷ [])
    ∷ []

moved_files_test :
    write_proposed_document one_platform one_file (some one_document) two_proposal
    ≡ ok (two_document, moved_files)
unfolding look_up one_document two_document moved_files write_proposed_document canonical_paths
    title_slug trim_space is_space is_empty insert remove contains old_paths
moved_files_test = refl

write_proposed_document-IsWritten_example :
    (p : DocumentPaths) × (canonical_paths two_proposal.memory ≡ ok p)
    × IsWritten one_platform p
        (some one_document)
        (record two_proposal { memory = record two_proposal.memory { content_path = p.markdown } })
        one_file
        two_document
        moved_files
write_proposed_document-IsWritten_example =
    write_proposed_document-IsWritten one_platform one_file (some one_document) two_proposal
      two_document moved_files moved_files_test

withdrawn_files : Files
withdrawn_files =
    (one_path, text "# Tea")
    ∷ (one_sidecar, text "{}" ++ 10 ∷ [])
    ∷ (text "README.md", text "hi")
    ∷ []

withdrawn_files_test :
    transition_lifecycle one_platform one_file one_document (text "withdrawn") (text "t")
    ≡ ok withdrawn_files
unfolding look_up one_document withdrawn_files transition_lifecycle insert
withdrawn_files_test = refl

one_document-apart : one_document.sidecar_path ≢ text "README.md"
unfolding one_document
one_document-apart e = ground arith

transition_lifecycle-keeps_example :
    lookup (text "README.md") withdrawn_files ≡ lookup (text "README.md") one_file
transition_lifecycle-keeps_example =
    transition_lifecycle-keeps one_platform one_file one_document (text "withdrawn") (text "t")
      withdrawn_files (text "README.md") withdrawn_files_test one_document-apart
