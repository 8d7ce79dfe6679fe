-- ===== src/Trust.antt =====
-- internal/trust/lock.go: `Check`, which compares a repository with the contract of the runtime.
pub mod Pinned
pub mod Clean
use git_memo.Base.{
  ℕ, Bool, true, false, not, ◌&&◌, ◌||◌, Option, none, some, List, [], ◌∷◌, ◌++◌, nat_eq, length,
  is_some, sort, if◌then◌else◌,
}
use git_memo.Base.Text.{Text, text, ◌==◌, text_le}
use git_memo.Base.Int.{ℤ, pos, int_eq}
use git_memo.Base.Dict.{Dict, lookup, insert}

-- `FilesSHA256` is a map, so no path has two entries.
pub record Lock : Type 0 where
  pub lock_version : ℤ
  pub source_repository : Text
  pub runethread_version : Text
  pub repository_format : ℤ
  pub schema_version : ℤ
  pub contract_version : ℤ
  pub contract_sha256 : Text
  pub files_sha256 : Dict Text

-- `repositoryConfig`
pub record Config : Type 0 where
  pub repository_format : ℤ
  pub schema_version : ℤ
  pub contract_version : ℤ
  pub runethread_version : Text

-- The messages of `Problem`.
pub data Reason : Type 0 where
  no_contract unreadable unparsable : Reason
  lock_version source_repository runethread_version versions contract_sha256 file_count : Reason
  missing_digest locked_digest unexpected_digest : Text → Reason
  digest_differs config_pins : Reason

pub record Problem : Type 0 where
  pub path : Text
  pub reason : Reason

-- `ManagedMetadataDir` is a constant of internal/buildinfo.
abbrev pub lock_path : Text
lock_path = text ".runethread/lock.json"

abbrev pub config_path : Text
config_path = text ".runethread/config.json"

-- What the check stands on: `ExpectedLock` of the embedded files, the reading of files of the
-- repository, `encoding/json` that allows no unknown field, and SHA-256 in hexadecimal digits.
pub record Contract : Type 0 where
  pub expected_lock : Option Lock
  pub read : Text → Option Text
  pub decode_lock : Text → Option Lock
  pub decode_config : Text → Option Config
  pub sha256_hex : Text → Text

unfoldable pub problem_if : Bool → Text → Reason → List Problem
problem_if test path reason = if test then record { path = path; reason = reason } ∷ [] else []

-- The comparison of the fields of the two locks.
unfoldable pub field_problems : Lock → Lock → List Problem
unfolding problem_if int_eq
field_problems actual expected =
    problem_if (not (int_eq actual.lock_version expected.lock_version)) lock_path lock_version
    ++ problem_if (not (actual.source_repository == expected.source_repository)) lock_path
        source_repository
    ++ problem_if (not (actual.runethread_version == expected.runethread_version)) lock_path
        runethread_version
    ++ problem_if
        (not (int_eq actual.repository_format expected.repository_format)
          || not (int_eq actual.schema_version expected.schema_version)
          || not (int_eq actual.contract_version expected.contract_version))
        lock_path versions
    ++ problem_if (not (actual.contract_sha256 == expected.contract_sha256)) lock_path
        contract_sha256
    ++ problem_if (not (nat_eq (length actual.files_sha256) (length expected.files_sha256)))
        lock_path file_count

unfoldable pub keys_of : Dict Text → List Text
keys_of [] = []
keys_of ((path, digest) ∷ files) = path ∷ keys_of files

-- `sortedPaths`
unfoldable pub sorted_paths : Dict Text → List Text
unfolding keys_of
sorted_paths files = sort text_le (keys_of files)

-- `expected.FilesSHA256[rel]`; the empty text for a path without an entry.
unfoldable pub digest_of : Dict Text → Text → Text
unfolding lookup
digest_of files path = elim (lookup path files) [ none ↦ [] | some digest ↦ digest ]

-- The paths that only the lock of the repository has.
unfoldable pub unexpected_problems : Dict Text → Dict Text → List Problem
unfolding problem_if lookup
unexpected_problems expected [] = []
unexpected_problems expected ((path, digest) ∷ actual) =
    problem_if (not (is_some (lookup path expected))) lock_path (unexpected_digest path)
    ++ unexpected_problems expected actual

module _ (contract : Contract) where
  open contract use {read, sha256_hex}

  -- A file of the repository against the digest that is expected of it.
  unfoldable pub local_problems : Text → Text → List Problem
  unfolding problem_if
  local_problems rel expected_hash = elim (read rel) [
    | none ↦ problem_if true rel unreadable
    | some bytes ↦ problem_if (not (sha256_hex bytes == expected_hash)) rel digest_differs
  ]

  -- One round of the loop over the paths of the contract.
  unfoldable pub file_problems : Dict Text → Text → Text → List Problem
  unfolding lookup problem_if local_problems
  file_problems actual rel expected_hash = elim (lookup rel actual) [
    | none ↦ problem_if true lock_path (missing_digest rel)
    | some locked_hash ↦
        if not (locked_hash == expected_hash)
        then problem_if true lock_path (locked_digest rel)
        else local_problems rel expected_hash
  ]

  unfoldable pub files_problems : Dict Text → Dict Text → List Text → List Problem
  unfolding file_problems digest_of
  files_problems actual expected [] = []
  files_problems actual expected (rel ∷ paths) =
      file_problems actual rel (digest_of expected rel) ++ files_problems actual expected paths

  -- `checkConfig`
  unfoldable pub check_config : Lock → List Problem
  unfolding problem_if int_eq
  check_config expected = elim (read config_path) [
    | none ↦ problem_if true config_path unreadable
    | some bytes ↦ elim (contract.decode_config bytes) [
      | none ↦ problem_if true config_path unparsable
      | some cfg ↦
          problem_if
            (not (int_eq cfg.repository_format expected.repository_format)
              || not (int_eq cfg.schema_version expected.schema_version)
              || not (int_eq cfg.contract_version expected.contract_version)
              || not (cfg.runethread_version == expected.runethread_version))
            config_path config_pins
    ]
  ]

  -- `Check`, once the lock has been parsed.
  unfoldable pub check_lock : Lock → Lock → List Problem
  unfolding field_problems files_problems sorted_paths unexpected_problems check_config
  check_lock expected actual =
      field_problems actual expected
      ++ files_problems actual.files_sha256 expected.files_sha256
          (sorted_paths expected.files_sha256)
      ++ unexpected_problems expected.files_sha256 actual.files_sha256
      ++ check_config expected

  -- `Check`
  unfoldable pub check : List Problem
  unfolding problem_if check_lock
  check = elim contract.expected_lock [
    | none ↦ problem_if true lock_path no_contract
    | some expected ↦ elim (read lock_path) [
      | none ↦ problem_if true lock_path unreadable
      | some bytes ↦ elim (contract.decode_lock bytes) [
        | none ↦ problem_if true lock_path unparsable
        | some actual ↦ check_lock expected actual
      ]
    ]
  ]

-- What `aggregateDigest` writes to the hash.
unfoldable pub digest_bytes : Dict Text → List Text → Text
unfolding digest_of
digest_bytes files [] = []
digest_bytes files (rel ∷ paths) = rel ++ 0 ∷ (digest_of files rel ++ 10 ∷ digest_bytes files paths)

-- `aggregateDigest`
unfoldable pub aggregate_digest : (Text → Text) → Dict Text → Text
unfolding digest_bytes sorted_paths
aggregate_digest sha256_hex files = sha256_hex (digest_bytes files (sorted_paths files))

-- The digests of the embedded files; one that cannot be read fails the lock.
unfoldable pub contract_digests :
    (Text → Text) → (Text → Option Text) → List Text → Option (Dict Text)
unfolding insert
contract_digests sha256_hex embedded [] = some []
contract_digests sha256_hex embedded (rel ∷ paths) = elim (embedded rel) [
  | none ↦ none
  | some bytes ↦ elim (contract_digests sha256_hex embedded paths) [
    | none ↦ none
    | some files ↦ some (insert rel (sha256_hex bytes) files)
  ]
]

-- `ExpectedLock`, of the embedded files, with the constants of internal/buildinfo.
unfoldable pub expected_lock : (Text → Text) → (Text → Option Text) → List Text → Option Lock
unfolding contract_digests aggregate_digest
expected_lock sha256_hex embedded paths = elim (contract_digests sha256_hex embedded paths) [
  | none ↦ none
  | some files ↦ some (record {
    lock_version = pos 2;
    source_repository = text "runethread/core";
    runethread_version = text "v0.8.0";
    repository_format = pos 2;
    schema_version = pos 1;
    contract_version = pos 8;
    contract_sha256 = aggregate_digest sha256_hex files;
    files_sha256 = files;
  })
]
