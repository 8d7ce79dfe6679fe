-- ===== src/Service/Apply/Written.antt =====
-- internal/memoryservice/mutation.go: the words of a commit message for an operation.
use mathlib.Core.List.{reverse, reverse-append, reverse-reverse}
use git_memo.Base.{
  ℕ, ◌<◌, Bool, true, false, not, ◌&&◌, ◌≡◌, ◌≢◌, inl, inr, refl, sym, ap, subst, ◌∙◌, List, [],
  ◌∷◌, ◌++◌, arith, All, All-map, all_of-All, All-append, Bool-cases, ltb, nat_eq, all_of,
}
use git_memo.Base.Text.{
  Text, text, ◌==◌, eq_iff, is_empty, trim_space, trim_left, trim_right, is_space, contains,
}
use git_memo.Base.TextLaws.{IsToken, All-reverse}
use git_memo.Base.Result.{ok, reject_if-ok}
use git_memo.Memory.Pattern.{is_memory_id, matches, fits, Place, hex, variant, exactly, uuid_places}
use git_memo.Memory.Fields.{TimeFormat}
use git_memo.Repository.Message.{is_operation_key}
use git_memo.Repository.Message.Lines.{IsId, IsToken-IsLine, IsLineByte}
use git_memo.Repository.Message.RoundTrip.{IsWritable}
use git_memo.Service.Store.{Files, Platform}
use git_memo.Service.Operation.{ApplyMutationRequest, MutationPlan}
use git_memo.Service.Operation.Frame.{IsDone}
use git_memo.Service.Request.{validate_apply_request, operations}
use git_memo.Service.Apply.{mutation_commit_subject, commit_metadata}

-- Every place of the pattern wants a byte that a word may hold.
is_word_place : Place → Bool
is_word_place hex = true
is_word_place variant = true
is_word_place (exactly d) = ltb 32 d && not (nat_eq d b',')

IsWordByte : ℕ → Type 0
IsWordByte c = (32 < c) × (c ≢ b',')

fits-IsWordByte : (p : Place) (c : ℕ) → is_word_place p ≡ true → fits p c ≡ true → IsWordByte c
unfolding is_word_place IsWordByte fits
fits-IsWordByte hex c w h = (ground arith, ground arith)
fits-IsWordByte variant c w h = (ground arith, ground arith)
fits-IsWordByte (exactly d) c w h = (ground arith, ground arith)

matches-IsWordByte :
    (places : List Place) (s : Text)
    → all_of is_word_place places ≡ true
    → matches places s ≡ true
    → All IsWordByte s
unfolding matches all_of
matches-IsWordByte [] [] w h = tt
matches-IsWordByte [] (c ∷ s) w h = ground arith
matches-IsWordByte (p ∷ places) [] w h = ground arith
matches-IsWordByte (p ∷ places) (c ∷ s) w h = (
  fits-IsWordByte p c (ground arith) (ground arith),
  matches-IsWordByte places s (ground arith) (ground arith),
)

is_memory_id-IsId : (s : Text) → is_memory_id s ≡ true → IsId s
unfolding is_memory_id IsWordByte matches is_word_place all_of
is_memory_id-IsId s h =
    let bytes = matches-IsWordByte uuid_places s refl h in
    (
      All-map s (λ c (k : IsWordByte c). k.0) bytes,
      All-map s (λ c (k : IsWordByte c). k.1) bytes,
      λ e. ground arith,
    )

trim_left-solid : (c : ℕ) (s : Text) → 32 < c → trim_left (c ∷ s) ≡ c ∷ s
unfolding trim_left is_space
trim_left-solid c s h = ground arith

trim_right-solid :
    (s : Text) (d : ℕ) (rest : Text) → reverse s ≡ d ∷ rest → 32 < d → trim_right s ≡ s
unfolding trim_right
trim_right-solid s d rest e h =
    rw e (rw (trim_left-solid d rest h) (ap reverse (sym e) ∙ reverse-reverse s))

first_of :
    (l : Text) → l ≢ [] → All (λ c. 32 < c) l → (d : ℕ) × (rest : Text) × (l ≡ d ∷ rest) × (32 < d)
first_of [] n h = absurd (n refl)
first_of (d ∷ rest) n (hd, h) = (d, rest, refl, hd)

-- A text that begins and ends with a solid byte is trimmed already.
trim_space-solid :
    (c : ℕ) (s id : Text)
    → 32 < c
    → IsToken id
    → id ≢ []
    → trim_space (c ∷ (s ++ id)) ≡ c ∷ (s ++ id)
unfolding trim_space
trim_space-solid c s id hc h n =
    let (d, rest, e, hd) =
      first_of (reverse id) (λ e. n (sym (reverse-reverse id) ∙ ap reverse e))
        (All-reverse (λ c. 32 < c) id h) in
    ap trim_right (trim_left-solid c (s ++ id) hc)
    ∙ trim_right-solid (c ∷ (s ++ id)) d (rest ++ reverse (c ∷ s))
        (reverse-append (c ∷ s) id ∙ ap (λ t. t ++ reverse (c ∷ s)) e) hd

-- The operations are words of letters.
is_word : Text → Bool
is_word s = all_of (ltb 32) s && not (is_empty s)

contains-all_of :
    (p : Text → Bool) (xs : List Text) (s : Text)
    → all_of p xs ≡ true
    → contains xs s ≡ true
    → p s ≡ true
unfolding contains all_of
contains-all_of p [] s a h = ground arith
contains-all_of p (x ∷ xs) s a h = elim (Bool-cases (x == s)) [
  | inl e ↦ subst (λ t. p t ≡ true) {x = x} (ground (arith, eq_iff x s)) (ground arith)
  | inr e ↦ contains-all_of p xs s (ground arith) (ground arith)
]

operations-is_word : all_of is_word operations ≡ true
unfolding all_of is_word is_empty
operations-is_word = refl

validate_apply_request-IsWord :
    (time : TimeFormat) (r : ApplyMutationRequest)
    → validate_apply_request time r ≡ ok tt
    → IsToken r.operation × (is_empty r.operation ≡ false)
unfolding validate_apply_request is_word
validate_apply_request-IsWord time r h =
    let (_, h₁) = reject_if-ok (is_empty r.expected_revision) _ h in
    let (_, h₂) = reject_if-ok (not (is_operation_key r.idempotency_key)) _ h₁ in
    let (e, _) = reject_if-ok (not (contains operations r.operation)) _ h₂ in
    let word = contains-all_of is_word operations r.operation operations-is_word (ground arith) in
    (all_of-All (ltb 32) r.operation (λ c k. ground arith) (ground arith), ground arith)

memory_prefix-IsLine : All IsLineByte (text "memory:")
unfolding all_of
memory_prefix-IsLine =
    IsToken-IsLine (text "memory:")
      (all_of-All {P = λ c. 32 < c} (ltb 32) (text "memory:") (λ c k. ground arith) refl)

-- The subject of a commit about one memory.
subject-IsLine :
    (operation id : Text)
    → IsToken operation
    → IsId id
    → (trim_space (text "memory: " ++ operation ++ text " " ++ id)
        ≡ text "memory: " ++ operation ++ text " " ++ id)
      × All IsLineByte (text "memory: " ++ operation ++ text " " ++ id)
subject-IsLine operation id word (token, plain, n) =
    let rest = text "emory: " ++ operation ++ text " " in
    let space : All IsLineByte (text " ") = ((omega arith, omega arith), tt) in
    let front =
      All-append IsLineByte (text "memory: ") operation
        (All-append IsLineByte (text "memory:") (text " ") memory_prefix-IsLine space)
        (IsToken-IsLine operation word) in
    (
      trim_space-solid b'm' rest id (omega arith) token n,
      All-append IsLineByte (text "memory: " ++ operation ++ text " ") id
          (All-append IsLineByte (text "memory: " ++ operation) (text " ") front space)
          (IsToken-IsLine id token),
    )

is_empty-nonempty : (s : Text) → s ≢ [] → is_empty s ≡ false
unfolding is_empty
is_empty-nonempty [] n = absurd (n refl)
is_empty-nonempty (c ∷ s) n = refl

module _ (platform : Platform) where
  pub commit_metadata-IsWritable :
      (time : TimeFormat) (files : Files) (r : ApplyMutationRequest) (fingerprint : Text)
      (plan : MutationPlan) (files' : Files)
      → validate_apply_request time r ≡ ok tt
      → IsDone platform files r plan files'
      → IsWritable (mutation_commit_subject r.operation plan) (commit_metadata r fingerprint plan)
  unfolding mutation_commit_subject commit_metadata
  commit_metadata-IsWritable time files r fingerprint plan files' v d =
      let (word, named) = validate_apply_request-IsWord time r v in
      let id = plan.primary_memory_id in
      let (token, plain, n) = is_memory_id-IsId id d.primary in
      let (trimmed, line) = subject-IsLine r.operation id word (token, plain, n) in
      let subject : mutation_commit_subject r.operation plan
          ≡ text "memory: " ++ r.operation ++ text " " ++ id =
        ground (arith, is_empty-nonempty id n) in
      let starts : b'm' ≢ b'R' = omega arith in
      let target_word : IsToken plan.target_memory_id = elim d.target [
        | inl e ↦ subst IsToken {x = []} (sym e) tt
        | inr (e, i) ↦ (is_memory_id-IsId _ i).0
      ] in
      record {
        subject_line = rw (subject, trimmed) line;
        subject_start = rw (subject, trimmed) starts;
        operation_word = word;
        operation_named = named;
        primary_word = token;
        target_word = target_word;
        changed_words =
            All-map plan.changed_memory_ids (λ s (h : is_memory_id s ≡ true). is_memory_id-IsId s h)
              d.changed;
      }
