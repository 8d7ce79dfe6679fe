-- ===== src/Tests/Machine.antt =====
-- The machine indexes of one memory, with JSON for the entries of memories that say little.
use git_memo.Base.{
  ◌≤◌, ◌+◌, ◌≡◌, ◌↔◌, refl, arith, true, false, Option, none, some, List, [], ◌∷◌, if◌then◌else◌,
  length, leb, sort,
}
use git_memo.Base.Text.{Text, text, ◌==◌, text_le, trim_space, is_space, to_lower}
use git_memo.Base.Int.{pos}
use git_memo.Base.Dict.{lookup}
use git_memo.Base.Result.{ok}
use git_memo.Base.Sorting.{IsSorted}
use git_memo.Memory.{Record}
use git_memo.Memory.Pattern.{is_memory_id}
use git_memo.Index.Chunks.{Files}
use git_memo.Index.Terms.{Unicode, score_of, weighted_terms}
use git_memo.Index.Terms.Weights.{weight_of, weighted_terms-eq}
use git_memo.Index.Machine.{make_index_entry, Codecs}
use git_memo.Index.Machine.Render.{render_with_digest}
use git_memo.Index.Query.{
  Worktree, missing, contents, SearchResult, ensure_index_usable, lookup_by_id, result_from_entry,
}
use git_memo.Index.Query.Found.{lookup-rendered}
use git_memo.Index.Query.Search.{Ranked, results_of, search_limit, search_terms}
use git_memo.Index.Query.Search.Order.{result_le, search_terms-IsSorted}
use git_memo.Index.Query.Search.Cache.{fresh_results, results_of-fresh}
use git_memo.Index.Generate.{check}
use git_memo.Index.Generate.Fresh.{IsFresh, check-IsFresh}
use git_memo.Index.Generate.Replace.{
  Faults, Folders, failed, replaced, not_activated, replace_index_directory,
}
use git_memo.Index.Generate.Kept.{IsKept, replace-IsKept}
use git_memo.Index.Generate.Replaced.{IsMap, index_paths, read_index, replace-check}
use git_memo.Tests.Indexes.{write_texts, read_texts}
use git_memo.Tests.Entries.{entries_codec, entries_codec-IsLawfulMap, write_shard, read_shard}
use git_memo.Tests.Data.{one_id, one_sidecar, one_memory}

abbrev one_record : Record
one_record = record { path = one_sidecar; memory = one_memory }

-- ASCII, with capital letters turned to small ones and nothing but small letters for terms.
abbrev ascii : Unicode
ascii = record {
  runes = λ s. s;
  is_letter = λ c. leb 65 c;
  is_digit = λ c. false;
  lower = λ c. if leb c 90 then c + 32 else c;
  to_text = λ s. s;
}

weighted_terms-eq_example :
    (score_of (weighted_terms ascii one_memory) (text "tea")
      ≡ weight_of ascii one_memory (text "tea"))
    × (weight_of ascii one_memory (text "tea") ≤ 38)
weighted_terms-eq_example = weighted_terms-eq ascii one_memory (text "tea")

-- The memory's title and topic have the term.
tea_weight : score_of (weighted_terms ascii one_memory) (text "tea") ≡ 13
unfolding weighted_terms score_of ◌==◌
tea_weight = refl

-- The other values of the machine indexes, which no lookup by ID reads but the version.
abbrev small_codecs : Codecs
small_codecs = record {
  entries = entries_codec;
  id_list = record { marshal = λ d. some (text "list"); unmarshal = λ b. none };
  id_chunk = record { marshal = λ d. some (text "chunk"); unmarshal = λ b. none };
  terms = record {
    marshal = λ d. some (text "terms");
    unmarshal = λ b. some (
        (
          text "tea",
          record {
            document_frequency = pos 1;
            suppressed = false;
            postings = some (record { id = one_id; score = pos 13 } ∷ []);
            chunk_size = pos 0;
            chunk_count = pos 0;
          },
        )
        ∷ []);
  };
  posting_chunk = record { marshal = λ d. some (text "chunk"); unmarshal = λ b. none };
  catalog = record {
    marshal = λ c. some (text "catalog");
    unmarshal =
        λ b. some (record { index_version = 2; record_count = 1; memory_source_sha256 = text "d" });
  };
}

abbrev small_hash : Text → Text
small_hash s = text "abc123"

abbrev files_or_none : Option Files → Files
files_or_none none = []
files_or_none (some files) = files

abbrev index_files : Files
index_files =
    files_or_none (render_with_digest small_codecs small_hash ascii (one_record ∷ []) (text "d"))

-- A worktree with these files.
abbrev index_tree : Worktree
index_tree = record {
  read = λ path. elim (lookup path index_files) [ none ↦ missing | some bytes ↦ contents bytes ];
  is_unsafe_tree = λ path. false;
  is_marked_stale = false;
}

index_rendered :
    render_with_digest small_codecs small_hash ascii (one_record ∷ []) (text "d") ≡ some index_files
unfolding render_with_digest to_lower trim_space is_space write_shard sort ◌==◌
index_rendered = refl

index_usable : ensure_index_usable small_codecs small_hash index_tree ≡ ok tt
unfolding ensure_index_usable render_with_digest to_lower trim_space is_space write_shard sort ◌==◌
index_usable = refl

index_reads :
    (path bytes : Text)
    → lookup path index_files ≡ some bytes
    → index_tree.read path ≡ contents bytes
index_reads path bytes h = ground arith

one_id-valid : is_memory_id one_id ≡ true
unfolding is_memory_id
one_id-valid = refl

lookup-rendered_example :
    lookup_by_id small_codecs small_hash index_tree one_id
    ≡ ok (some (result_from_entry (make_index_entry one_memory) (pos 0) []))
lookup-rendered_example =
    lookup-rendered small_codecs small_hash index_tree entries_codec-IsLawfulMap ascii [] one_record
      [] (text "d") index_files tt one_id-valid index_rendered index_usable index_reads

abbrev tea_results : List SearchResult
tea_results = result_from_entry (make_index_entry one_memory) (pos 13) (text "tea" ∷ []) ∷ []

tea_search :
    search_terms small_codecs small_hash index_tree (text "tea" ∷ text "milk" ∷ []) (pos 1)
    ≡ ok tea_results
unfolding search_terms render_with_digest to_lower trim_space is_space write_shard sort ◌==◌
    read_shard read_texts write_texts
tea_search = refl

search_terms-IsSorted_example :
    IsSorted result_le tea_results × (length tea_results ≤ search_limit (pos 1))
search_terms-IsSorted_example =
    search_terms-IsSorted small_codecs small_hash index_tree (text "tea" ∷ text "milk" ∷ []) (pos 1)
      tea_results tea_search

abbrev same_twice : List Ranked
same_twice =
    record { id = one_id; score = pos 13; matched = text "tea" ∷ [] }
    ∷ record { id = one_id; score = pos 2; matched = text "tea" ∷ [] }
    ∷ []

results_of-fresh_example :
    results_of small_codecs small_hash index_tree same_twice []
    ≡ fresh_results small_codecs small_hash index_tree same_twice
results_of-fresh_example = results_of-fresh small_codecs small_hash index_tree same_twice

abbrev two_files : Files
two_files =
    (text "index/catalog.json", text "catalog") ∷ (text "index/projects.md", text "# Projects") ∷ []

check-IsFresh_example :
    (check two_files (text "index/STALE" ∷ []) (λ path. lookup path two_files) ≡ [])
    ↔ IsFresh two_files (text "index/STALE" ∷ []) (λ path. lookup path two_files)
check-IsFresh_example =
    check-IsFresh two_files (text "index/STALE" ∷ []) (λ path. lookup path two_files)

abbrev no_faults : Faults
no_faults = record {
  mkdir_root = false;
  make_new = false;
  mkdir_for = λ path. false;
  write_file = λ path. false;
  reserve_backup = false;
  free_backup = false;
  inspect_old = false;
  move_old = false;
  activate_new = false;
  move_back = false;
  remove_backup = false;
}

abbrev renames_fail : Faults
renames_fail = record no_faults { activate_new = true; move_back = true }

abbrev old_files : Files
old_files = (text "catalog.json", text "old") ∷ []

abbrev stranded : Folders
stranded = record { index = none; backup = some old_files }

index_stranded :
    replace_index_directory renames_fail two_files (some old_files) ≡ failed not_activated stranded
unfolding replace_index_directory sort text_le ◌==◌
index_stranded = refl

replace-IsKept_example : IsKept renames_fail (some old_files) not_activated stranded
replace-IsKept_example =
    replace-IsKept renames_fail two_files (some old_files) not_activated stranded index_stranded

abbrev new_files : Files
new_files = (text "catalog.json", text "catalog") ∷ (text "projects.md", text "# Projects") ∷ []

abbrev in_place : Folders
in_place = record { index = some new_files; backup = none }

index_replaced : replace_index_directory no_faults two_files (some old_files) ≡ replaced in_place
unfolding replace_index_directory sort text_le ◌==◌
index_replaced = refl

two_files-IsMap : IsMap two_files
unfolding lookup ◌==◌
two_files-IsMap = (refl, (refl, tt))

replace-check_example :
    (new : Files) × (some new_files ≡ some new)
    × (check two_files (index_paths new) (read_index new) ≡ [])
replace-check_example =
    replace-check no_faults two_files two_files-IsMap (some old_files) in_place index_replaced
