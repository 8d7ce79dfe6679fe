-- ===== src/Tests/Repositories.antt =====
-- Two memories of which one supersedes the other, a small file system and a contract.
use git_memo.Base.{
  ◌≡◌, ◌++◌, ◌↔◌, refl, true, false, none, some, List, [], ◌∷◌, All, sort, if◌then◌else◌,
}
use git_memo.Base.Text.{Text, text, ◌==◌, split_on, trim_space, is_space, text_le}
use git_memo.Base.Int.{pos}
use git_memo.Base.Sorting.{IsSorted}
use git_memo.Base.Result.{ok, err}
use git_memo.Memory.{Record, Relationship}
use git_memo.Validation.{Issue, issue_le, warning, has_errors}
use git_memo.Validation.Sound.{IsSound, validate-IsSound}
use git_memo.Validation.Cycles.{check_supersession_cycles}
use git_memo.Validation.Cycles.Graph.{Above}
use git_memo.Validation.Cycles.Correct.{cycles_iff}
use git_memo.Validation.Relations.{check_relations}
use git_memo.Validation.Linked.{IsLinked, check_relations-IsLinked}
use git_memo.Validation.Validate.{Repository, validate}
use git_memo.Validation.Laws.{validate-IsSorted}
use git_memo.Safety.{
  folder, regular, symlink, FileSystem, object_under, is_upward, is_skipped, is_symlink,
}
use git_memo.Safety.Resolved.{IsResolved, CleansToNames, object_under-IsResolved}
use git_memo.Trust.{Lock, Contract, check, digest_differs}
use git_memo.Trust.Clean.{IsPinned, check-IsPinned}
use git_memo.Tests.Data.{one_id, one_path, one_sidecar, one_memory}

abbrev old_id : Text
old_id = text "89abcdef-0123-4123-8123-0123456789ab"

abbrev old_record : Record
old_record = record {
  path = text "memories/general/tea--89abcdef.json";
  memory = record one_memory { id = old_id; lifecycle = text "superseded" };
}

abbrev supersedes : Text → Relationship
supersedes id = record { relation = text "supersedes"; target_id = id; note = none }

abbrev new_record : Record
new_record = record {
  path = one_sidecar;
  memory = record one_memory { relationships = supersedes old_id ∷ [] };
}

-- The old memory supersedes the new one in turn.
abbrev circular_record : Record
circular_record = record old_record {
  memory = record one_memory {
    id = old_id;
    lifecycle = text "superseded";
    relationships = supersedes one_id ∷ [];
  };
}

linked_clean : check_relations (new_record ∷ old_record ∷ []) ≡ []
unfolding check_relations ◌==◌
linked_clean = refl

check_relations-IsLinked_example :
    All (IsLinked (new_record ∷ old_record ∷ [])) (new_record ∷ old_record ∷ [])
check_relations-IsLinked_example =
    check_relations-IsLinked (new_record ∷ old_record ∷ []) linked_clean

line_clean : check_supersession_cycles (new_record ∷ old_record ∷ []) ≡ some []
unfolding check_supersession_cycles sort ◌==◌
line_clean = refl

abbrev cycle_issues : List Issue
cycle_issues =
    record {
      severity = text "ERROR";
      code = text "SUPERSESSION_CYCLE";
      path = text "memories/general/tea--89abcdef.json";
      message =
          text
            "supersession cycle: 0123abcd-0123-4123-8123-0123456789ab -> 89abcdef-0123-4123-8123-0123456789ab -> 0123abcd-0123-4123-8123-0123456789ab";
    }
    ∷ []

circle_found : check_supersession_cycles (new_record ∷ circular_record ∷ []) ≡ some cycle_issues
unfolding check_supersession_cycles sort ◌==◌ text_le
circle_found = refl

cycles_iff_example :
    (cycle_issues ≡ []) ↔ ((id : Text) → Above (new_record ∷ circular_record ∷ []) id id → ⊥)
cycles_iff_example = cycles_iff (new_record ∷ circular_record ∷ []) cycle_issues circle_found

abbrev small_repository : Repository
small_repository = record {
  trust_problems = (text ".runethread/lock.json", text "read trust lock: missing") ∷ [];
  schema_error = none;
  discovered = ok (one_sidecar ∷ [], one_path ∷ []);
  load = λ path. ok one_memory;
  stale_indexes = ok (text "index/projects.md" ∷ []);
  env = record {
    relative = λ path. some path;
    is_regular = λ path. true;
    read = λ path. some (text "# Tea");
    quote = λ s. s;
  };
  time = record { rfc3339 = λ s. some 1; iso_date = λ s. none };
}

validate-IsSorted_example :
    (issues : List Issue) × (validate small_repository ≡ some issues) × IsSorted issue_le issues
validate-IsSorted_example = validate-IsSorted small_repository

abbrev small_file_system : FileSystem
small_file_system = record {
  clean = λ p. text "memories/tea.md";
  stat = λ p. if p == text "memories/tea.md" then regular else folder;
  entries = λ p. [];
  read = λ p. some (text "# Tea");
}

small_cleans : CleansToNames small_file_system
unfolding split_on is_skipped ◌==◌
small_cleans p relative down = (refl, (refl, tt))

small_resolves :
    object_under small_file_system (text "memories//tea.md") false ≡ ok (text "memories/tea.md")
unfolding object_under trim_space is_space ◌==◌
small_resolves = refl

object_under-IsResolved_example :
    IsResolved small_file_system false 0
      (split_on b'/' (text "memories/tea.md"))
      (text "memories/tea.md")
    × (is_upward (text "memories/tea.md") ≡ false)
object_under-IsResolved_example =
    object_under-IsResolved small_file_system small_cleans (text "memories//tea.md") false
      (text "memories/tea.md") small_resolves

-- A symbolic link among the folders is refused.
linked_folder :
    object_under
      (record small_file_system { stat = λ p. if p == [] then folder else symlink })
      (text "memories/tea.md")
      false
    ≡ err (is_symlink (text "memories"))
unfolding object_under trim_space is_space ◌==◌
linked_folder = refl

abbrev small_lock : Lock
small_lock = record {
  lock_version = pos 2;
  source_repository = text "runethread/core";
  runethread_version = text "v0.8.0";
  repository_format = pos 2;
  schema_version = pos 1;
  contract_version = pos 8;
  contract_sha256 = text "c";
  files_sha256 = (text "AGENTS.md", text "guide") ∷ [];
}

abbrev small_contract : Contract
small_contract = record {
  expected_lock = some small_lock;
  read = λ path. some (text "guide");
  decode_lock = λ bytes. some small_lock;
  decode_config = λ bytes. some (record {
    repository_format = pos 2;
    schema_version = pos 1;
    contract_version = pos 8;
    runethread_version = text "v0.8.0";
  });
  sha256_hex = λ bytes. bytes;
}

small_pinned : check small_contract ≡ []
unfolding check ◌==◌ sort
small_pinned = refl

check-IsPinned_example :
    (expected : Lock) × (actual : Lock) × (bytes : Text) × (small_contract.expected_lock
      ≡ some expected)
    × (small_contract.read (text ".runethread/lock.json") ≡ some bytes)
    × (small_contract.decode_lock bytes ≡ some actual)
    × IsPinned small_contract expected actual
check-IsPinned_example = check-IsPinned small_contract small_pinned

-- A file whose bytes were changed.
changed_file :
    check (record small_contract { sha256_hex = λ bytes. text "other" })
    ≡ record { path = text "AGENTS.md"; reason = digest_differs } ∷ []
unfolding check ◌==◌ sort
changed_file = refl

-- Nothing is wrong here but a stale index.
abbrev good_repository : Repository
good_repository = record small_repository {
  trust_problems = [];
  env = record {
    relative = λ path. some path;
    is_regular = λ path. true;
    read = λ path. some (
        text "# Tea"
        ++ 10 ∷ text "**Memory ID:** `"
        ++ one_id
        ++ text "` "
        ++ 10 ∷ text "**Type:** `fact`");
    quote = λ s. s;
  };
}

abbrev good_issues : List Issue
good_issues =
    warning (text "INDEX_STALE") (text "index/projects.md") (
      text
        "generated index is missing or stale; canonical memories/projects remain authoritative and the index may be regenerated")
    ∷ []

good_repository-validate : validate good_repository ≡ some good_issues
unfolding validate sort ◌==◌ split_on
good_repository-validate = refl

good_issues-clean : has_errors good_issues ≡ false
unfolding has_errors ◌==◌ warning
good_issues-clean = refl

validate-IsSound_example : IsSound good_repository
validate-IsSound_example =
    validate-IsSound good_repository good_issues good_repository-validate good_issues-clean
