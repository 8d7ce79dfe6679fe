-- ===== src/Trust/Clean.antt =====
-- What a trust check without a problem says of a repository.
use git_memo.Base.{
  ◌≡◌, refl, arith, Bool, true, false, not, ◌||◌, some, List, [], ◌∷◌, ◌++◌, Bool-cases,
  Option-cases, inl, inr, subst, is_some, All, All-sort,
}
use git_memo.Base.Text.{Text, ◌==◌, eq_iff, text_le}
use git_memo.Base.Int.{ℤ, int_eq, int_eq_sound}
use git_memo.Base.Dict.{Dict, lookup}
use git_memo.Trust.{
  Lock, Config, Problem, Reason, unexpected_digest, versions, config_pins, Contract, problem_if,
  lock_path, config_path, field_problems, digest_of, unexpected_problems, local_problems,
  file_problems, files_problems, check_config, check_lock, check, sorted_paths, keys_of,
}

append-nil : (xs ys : List Problem) → (xs ++ ys) ≡ [] → (xs ≡ []) × (ys ≡ [])
append-nil [] ys h = (refl, h)
append-nil (x ∷ xs) ys h = absurd (ground arith)

problem_if-nil :
    (test : Bool) (path : Text) (reason : Reason) → problem_if test path reason ≡ [] → test ≡ false
unfolding problem_if
problem_if-nil true path reason h = absurd (ground arith)
problem_if-nil false path reason h = refl

module _ (contract : Contract) where
  -- A file of the repository whose bytes have the digest.
  abbrev pub HasDigest : Text → Text → Type 0
  HasDigest rel expected_hash =
      (bytes : Text) × (contract.read rel ≡ some bytes)
      × (contract.sha256_hex bytes ≡ expected_hash)

  file_problems-nil :
      (actual : Dict Text) (rel expected_hash : Text)
      → file_problems contract actual rel expected_hash ≡ []
      → (lookup rel actual ≡ some expected_hash) × HasDigest rel expected_hash
  unfolding file_problems local_problems problem_if
  file_problems-nil actual rel expected_hash h = elim (Option-cases (lookup rel actual)) [
    | inl missing ↦ absurd (ground arith)
    | inr (locked, found) ↦ elim (Option-cases (contract.read rel)) [
      | inl unread ↦ absurd (ground arith)
      | inr (bytes, done) ↦ (
        ground (arith, eq_iff locked expected_hash),
        (
          bytes,
          done,
          ground (
            arith,
            eq_iff locked expected_hash,
            eq_iff (contract.sha256_hex bytes) expected_hash,
          ),
        ),
      )
    ]
  ]

  -- What the loop over the paths of the contract has found of each.
  abbrev IsIntact : Dict Text → Dict Text → Text → Type 0
  IsIntact actual expected rel =
      (lookup rel actual ≡ some (digest_of expected rel)) × HasDigest rel (digest_of expected rel)

  files_problems-nil :
      (actual expected : Dict Text) (paths : List Text)
      → files_problems contract actual expected paths ≡ []
      → All (IsIntact actual expected) paths
  unfolding files_problems
  files_problems-nil actual expected [] h = tt
  files_problems-nil actual expected (rel ∷ paths) h =
      let (this, rest) =
        append-nil (file_problems contract actual rel (digest_of expected rel))
          (files_problems contract actual expected paths) h in
      (
        file_problems-nil actual rel (digest_of expected rel) this,
        files_problems-nil actual expected paths rest,
      )

digest_of-found :
    (files : Dict Text) (rel digest : Text)
    → lookup rel files ≡ some digest
    → digest_of files rel ≡ digest
unfolding digest_of
digest_of-found files rel digest found = ground arith

keys-member :
    (P : Text → Type 0) (dict : Dict Text) (rel digest : Text)
    → All P (keys_of dict)
    → lookup rel dict ≡ some digest
    → P rel
unfolding keys_of lookup
keys-member P [] rel digest h found = absurd (ground arith)
keys-member P ((other, value) ∷ dict) rel digest (this, rest) found =
    elim (Bool-cases (other == rel)) [
      | inl same ↦ subst P (ground (arith, eq_iff other rel)) this
      | inr apart ↦ keys-member P dict rel digest rest (ground arith)
    ]

not-false : (b : Bool) → not b ≡ false → b ≡ true
not-false true h = refl
not-false false h = absurd (ground arith)

unexpected-nil :
    (expected actual : Dict Text) (rel digest : Text)
    → unexpected_problems expected actual ≡ []
    → lookup rel actual ≡ some digest
    → is_some (lookup rel expected) ≡ true
unfolding unexpected_problems lookup
unexpected-nil expected [] rel digest h found = absurd (ground arith)
unexpected-nil expected ((other, value) ∷ actual) rel digest h found =
    let (this, rest) =
      append-nil
        (problem_if (not (is_some (lookup other expected))) lock_path (unexpected_digest other))
        (unexpected_problems expected actual) h in
    let known = problem_if-nil _ _ _ this in
    elim (Bool-cases (other == rel)) [
      | inl same ↦
          subst (λ t. is_some (lookup t expected) ≡ true) {x = other}
            (ground (arith, eq_iff other rel)) (not-false _ known)
      | inr apart ↦ unexpected-nil expected actual rel digest rest (ground arith)
    ]

-- The parts of the two locks that the check compares agree.
abbrev pub SameLock : Lock → Lock → Type 0
SameLock actual expected =
    (actual.lock_version ≡ expected.lock_version)
    × (actual.source_repository ≡ expected.source_repository)
    × (actual.runethread_version ≡ expected.runethread_version)
    × (actual.repository_format ≡ expected.repository_format)
    × (actual.schema_version ≡ expected.schema_version)
    × (actual.contract_version ≡ expected.contract_version)
    × (actual.contract_sha256 ≡ expected.contract_sha256)

same_text : (a b path : Text) (reason : Reason) → problem_if (not (a == b)) path reason ≡ [] → a ≡ b
same_text a b path reason h =
    ground (arith, eq_iff a b, problem_if-nil (not (a == b)) path reason h)

same_int :
    (a b : ℤ) (path : Text) (reason : Reason)
    → problem_if (not (int_eq a b)) path reason ≡ []
    → a ≡ b
same_int a b path reason h =
    int_eq_sound a b (ground (arith, problem_if-nil (not (int_eq a b)) path reason h))

-- Three numbers that are compared at once.
same_three :
    (a b c d e f : ℤ) (rest : Bool) (path : Text) (reason : Reason)
    → problem_if (not (int_eq a b) || not (int_eq c d) || rest) path reason ≡ []
    → (a ≡ b) × (c ≡ d) × (rest ≡ false)
same_three a b c d e f rest path reason h =
    let tests = problem_if-nil (not (int_eq a b) || not (int_eq c d) || rest) path reason h in
    (int_eq_sound a b (ground arith), int_eq_sound c d (ground arith), ground arith)

field_problems-nil :
    (actual expected : Lock) → field_problems actual expected ≡ [] → SameLock actual expected
unfolding field_problems
field_problems-nil actual expected h =
    let (h₁, count) = append-nil _ _ h in
    let (h₂, digest) = append-nil _ _ h₁ in
    let (h₃, numbers) = append-nil _ _ h₂ in
    let (h₄, release) = append-nil _ _ h₃ in
    let (version, source) = append-nil _ _ h₄ in
    let (format, schema, contract) =
      same_three actual.repository_format expected.repository_format actual.schema_version
        expected.schema_version actual.contract_version expected.contract_version
        (not (int_eq actual.contract_version expected.contract_version)) lock_path versions
        numbers in
    (
      same_int _ _ _ _ version,
      same_text _ _ _ _ source,
      same_text _ _ _ _ release,
      format,
      schema,
      int_eq_sound _ _ (not-false _ contract),
      same_text _ _ _ _ digest,
    )

-- A configuration that pins the versions of the lock.
abbrev pub Pins : Config → Lock → Type 0
Pins cfg expected =
    (cfg.repository_format ≡ expected.repository_format)
    × (cfg.schema_version ≡ expected.schema_version)
    × (cfg.contract_version ≡ expected.contract_version)
    × (cfg.runethread_version ≡ expected.runethread_version)

module _ (contract : Contract) where
  abbrev pub HasConfig : Lock → Type 0
  HasConfig expected =
      (bytes : Text) × (cfg : Config) × (contract.read config_path ≡ some bytes)
      × (contract.decode_config bytes ≡ some cfg)
      × Pins cfg expected

  check_config-nil : (expected : Lock) → check_config contract expected ≡ [] → HasConfig expected
  unfolding check_config problem_if
  check_config-nil expected h = elim (Option-cases (contract.read config_path)) [
    | inl unread ↦ absurd (ground arith)
    | inr (bytes, done) ↦ elim (Option-cases (contract.decode_config bytes)) [
      | inl failed ↦ absurd (ground arith)
      | inr (cfg, decoded) ↦
          let clean : problem_if
                (not (int_eq cfg.repository_format expected.repository_format)
                  || not (int_eq cfg.schema_version expected.schema_version)
                  || (not (int_eq cfg.contract_version expected.contract_version)
                      || not (cfg.runethread_version == expected.runethread_version)))
                config_path config_pins
              ≡ [] =
            ground arith in
          let (format, schema, others) =
            same_three cfg.repository_format expected.repository_format cfg.schema_version
              expected.schema_version cfg.contract_version expected.contract_version
              (not (int_eq cfg.contract_version expected.contract_version)
                || not (cfg.runethread_version == expected.runethread_version))
              config_path config_pins clean in
          (
            bytes,
            cfg,
            done,
            decoded,
            (
              format,
              schema,
              int_eq_sound _ _ (ground arith),
              ground (arith, eq_iff cfg.runethread_version expected.runethread_version),
            ),
          )
    ]
  ]

  -- What `Check` has compared: the lock of the repository, the files of the contract, the paths of
  -- the two locks, and the configuration.
  abbrev pub IsPinned : Lock → Lock → Type 0
  IsPinned expected actual =
      SameLock actual expected
      × ((rel digest : Text)
          → lookup rel expected.files_sha256 ≡ some digest
          → (lookup rel actual.files_sha256 ≡ some digest) × HasDigest contract rel digest)
      × ((rel digest : Text)
          → lookup rel actual.files_sha256 ≡ some digest
          → is_some (lookup rel expected.files_sha256) ≡ true)
      × HasConfig expected

  check_lock-nil :
      (expected actual : Lock) → check_lock contract expected actual ≡ [] → IsPinned expected actual
  unfolding check_lock sorted_paths digest_of
  check_lock-nil expected actual h =
      let theirs = actual.files_sha256 in
      let ours = expected.files_sha256 in
      let (h₁, config) = append-nil _ _ h in
      let (h₂, extra) = append-nil _ _ h₁ in
      let (fields, files) = append-nil _ _ h₂ in
      let intact =
        All-sort (IsIntact contract theirs ours) text_le (keys_of ours)
          (files_problems-nil contract theirs ours (sorted_paths ours) files) in
      (
        field_problems-nil actual expected fields,
        (λ rel digest found.
            let known = keys-member (IsIntact contract theirs ours) ours rel digest intact found in
            subst (λ d. (lookup rel theirs ≡ some d) × HasDigest contract rel d)
              (digest_of-found ours rel digest found) known),
        (λ rel digest found. unexpected-nil ours theirs rel digest extra found),
        check_config-nil expected config,
      )

  -- If `Check` of the trust lock reports no problem, then the repository's lock agrees with the
  -- contract of the runtime in its version, source, release, formats and digest; every file of
  -- the contract is locked with its digest and has bytes with that digest; the lock has no
  -- other path; and the configuration pins the versions of the contract.
  pub check-IsPinned :
      check contract ≡ []
      → (expected : Lock) × (actual : Lock) × (bytes : Text) × (contract.expected_lock
          ≡ some expected)
        × (contract.read lock_path ≡ some bytes)
        × (contract.decode_lock bytes ≡ some actual)
        × IsPinned expected actual
  unfolding check problem_if
  check-IsPinned h = elim (Option-cases contract.expected_lock) [
    | inl failed ↦ absurd (ground arith)
    | inr (expected, made) ↦ elim (Option-cases (contract.read lock_path)) [
      | inl unread ↦ absurd (ground arith)
      | inr (bytes, done) ↦ elim (Option-cases (contract.decode_lock bytes)) [
        | inl garbled ↦ absurd (ground arith)
        | inr (actual, decoded) ↦ (
          expected,
          actual,
          bytes,
          made,
          done,
          decoded,
          check_lock-nil expected actual (ground arith),
        )
      ]
    ]
  ]
