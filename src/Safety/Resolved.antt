-- ===== src/Safety/Resolved.antt =====
-- What a path that `objectUnder` has resolved is.
use mathlib.Core.List.{append_assoc}
use git_memo.Base.{
  ℕ, suc, ◌≤◌, ◌<◌, ◌≡◌, ◌≢◌, refl, sym, ap, subst, ◌∙◌, inl, inr, arith, Bool, true, false, Option,
  none, some, List, [], ◌∷◌, ◌++◌, Bool-cases, All, All-append, is_some, length, length-append,
  nat_eq, take,
}
use git_memo.Base.Text.{
  Text, text, is_empty, join, split_on, strip_prefix, trim_space, push_byte-ne,
}
use git_memo.Base.Result.{Result, ok, ok-injective, ◌>>◌, bind-ok, reject_if-ok}
use git_memo.Safety.{
  Stat, absent, failed, symlink, folder, regular, special, FileSystem, SafetyError, join_path,
  check_last, check_ancestor, is_skipped, is_upward, walk_parts, clean_path, object_under,
  not_relative, escapes, empty_path, unsafe_root, require_directory,
}

-- What an object is to be.
pub kind : Bool → Stat
kind true = folder
kind false = regular

check_last-ok :
    (want : Bool) (current path : Text) (stat : Stat)
    → check_last want current stat ≡ ok path
    → (current ≡ path) × (stat ≡ kind want)
unfolding check_last kind
check_last-ok true current path folder h = (ok-injective h, refl)
check_last-ok false current path regular h = (ok-injective h, refl)
check_last-ok true current path absent h = absurd (ground arith)
check_last-ok true current path failed h = absurd (ground arith)
check_last-ok true current path symlink h = absurd (ground arith)
check_last-ok true current path regular h = absurd (ground arith)
check_last-ok true current path special h = absurd (ground arith)
check_last-ok false current path absent h = absurd (ground arith)
check_last-ok false current path failed h = absurd (ground arith)
check_last-ok false current path symlink h = absurd (ground arith)
check_last-ok false current path folder h = absurd (ground arith)
check_last-ok false current path special h = absurd (ground arith)

check_ancestor-ok :
    (current path : Text) (stat : Stat) (rest : Result SafetyError Text)
    → (check_ancestor current stat >> rest) ≡ ok path
    → (stat ≡ folder) × (rest ≡ ok path)
unfolding check_ancestor
check_ancestor-ok current path folder rest h = (refl, h)
check_ancestor-ok current path absent rest h = absurd (ground arith)
check_ancestor-ok current path failed rest h = absurd (ground arith)
check_ancestor-ok current path symlink rest h = absurd (ground arith)
check_ancestor-ok current path regular rest h = absurd (ground arith)
check_ancestor-ok current path special rest h = absurd (ground arith)

-- A part that the loop does not skip.
abbrev pub IsName : Text → Type 0
IsName part = is_skipped part ≡ false

join-append :
    (d : Text) (done : List Text) (part : Text)
    → join b'/' ((d ∷ done) ++ part ∷ []) ≡ join b'/' (d ∷ done) ++ b'/' ∷ part
unfolding join
join-append d [] part = refl
join-append d (e ∷ done) part =
    ap (λ s. d ++ b'/' ∷ s) (join-append e done part)
    ∙ sym (append_assoc d (b'/' ∷ join b'/' (e ∷ done)) (b'/' ∷ part))

join_path-append : (dir part : Text) → dir ≢ [] → join_path dir part ≡ dir ++ b'/' ∷ part
unfolding join_path
join_path-append [] part h = absurd (h refl)
join_path-append (c ∷ dir) part h = refl

join-nonempty : (d : Text) (done : List Text) → IsName d → join b'/' (d ∷ done) ≢ []
unfolding join is_skipped is_empty
join-nonempty [] done named e = absurd (ground arith)
join-nonempty (c ∷ d) [] named e = ground arith
join-nonempty (c ∷ d) (next ∷ done) named e = ground arith

-- The path that the loop goes on with joins the parts read.
join_path-join :
    (done : List Text) (part : Text)
    → All IsName done
    → join_path (join b'/' done) part ≡ join b'/' (done ++ part ∷ [])
unfolding join_path join
join_path-join [] part named = refl
join_path-join (d ∷ done) part (here, named) =
    join_path-append (join b'/' (d ∷ done)) part (join-nonempty d done here)
    ∙ sym (join-append d done part)

take-done :
    (done : List Text) (part : Text) (rest : List Text)
    → take (suc (length done)) (done ++ part ∷ rest) ≡ done ++ part ∷ []
take-done [] part rest = refl
take-done (d ∷ done) part rest = ap (◌∷◌ d) (take-done done part rest)

split_on-ne : (s : Text) → split_on b'/' s ≢ []
unfolding split_on
split_on-ne [] e = ground arith
split_on-ne (c ∷ s) e = elim (Bool-cases (nat_eq c b'/')) [
  | inl slash ↦ ground arith
  | inr other ↦ push_byte-ne c (split_on b'/' s) (ground arith)
]

is_some-none : (o : Option Text) → is_some o ≡ false → o ≡ none
is_some-none none h = refl
is_some-none (some t) h = absurd (ground arith)

module _ (fs : FileSystem) where
  -- The object at the end of the parts is of the kind wanted, and what stands before it from that
  -- many parts on are folders.
  pub record IsResolved (want : Bool) (from : ℕ) (parts : List Text) (path : Text) : Type 0 where
    pub joined : path ≡ join b'/' parts
    pub last_kind : fs.stat path ≡ kind want
    pub ancestors :
        (n : ℕ)
        → from ≤ n
        → suc n < length parts
        → fs.stat (join b'/' (take (suc n) parts)) ≡ folder

  walk_parts-IsResolved :
      (want : Bool) (done : List Text) (part : Text) (parts : List Text) (path : Text)
      → All IsName done
      → All IsName (part ∷ parts)
      → walk_parts fs want (join b'/' done) (part ∷ parts) ≡ ok path
      → IsResolved want (length done) (done ++ part ∷ parts) path
  unfolding walk_parts
  walk_parts-IsResolved want done part [] path named (here, tt) h =
      let next = join_path (join b'/' done) part in
      let (same, stat) = check_last-ok want next path (fs.stat next) (ground arith) in
      record {
        joined = sym same ∙ join_path-join done part named;
        last_kind = ap fs.stat (sym same) ∙ stat;
        ancestors = λ n le more. absurd (omega (arith, length-append done (part ∷ [])));
      }
  walk_parts-IsResolved want done part (more ∷ parts) path named (here, names) h =
      let next = join_path (join b'/' done) part in
      let joins = join_path-join done part named in
      let (stat, rest) =
        check_ancestor-ok next path (fs.stat next) (walk_parts fs want next (more ∷ parts))
          (ground arith) in
      let shape = append_assoc done (part ∷ []) (more ∷ parts) in
      let inner =
        subst (λ ps. IsResolved want (length (done ++ part ∷ [])) ps path) shape
          (walk_parts-IsResolved want (done ++ part ∷ []) more parts path
            (All-append IsName done (part ∷ []) named (here, tt)) names
            (ap (λ p. walk_parts fs want p (more ∷ parts)) (sym joins) ∙ rest)) in
      record {
        joined = inner.joined;
        last_kind = inner.last_kind;
        ancestors = λ n le less. elim (Bool-cases (nat_eq n (length done))) [
          | inl first ↦
              let equal : n ≡ length done = ground arith in
              subst (λ k. fs.stat (join b'/' (take (suc k) (done ++ part ∷ more ∷ parts))) ≡ folder)
                (sym equal)
                (ap (λ ps. fs.stat (join b'/' ps)) (take-done done part (more ∷ parts))
                  ∙ ap fs.stat (sym joins)
                  ∙ stat)
          | inr later ↦ inner.ancestors n (ground (arith, length-append done (part ∷ []))) less
        ];
      }

  split-some : (s : Text) → (part : Text) × (parts : List Text) × (split_on b'/' s ≡ part ∷ parts)
  unfolding split_on
  split-some s = cut (split_on b'/' s) refl
    where
      cut :
          (ps : List Text)
          → split_on b'/' s ≡ ps
          → (part : Text) × (parts : List Text) × (split_on b'/' s ≡ part ∷ parts)
      cut (part ∷ parts) e = (part, parts, e)
      cut [] e = absurd (split_on-ne s e)

  -- `filepath.Clean` of a path that is relative and does not lead upwards has only names.
  abbrev pub CleansToNames : Type 0
  CleansToNames =
      (p : Text)
      → strip_prefix (text "/") p ≡ none
      → is_upward (fs.clean p) ≡ false
      → All IsName (split_on b'/' (fs.clean p))

  -- If `objectUnder` returns a path, then the clean path does not lead upwards, the returned
  -- path joins its parts, the object there is of the kind asked for, and what stands at every
  -- shorter row of the parts is a folder and so no symbolic link, over a `filepath.Clean` that
  -- leaves no empty part and no part `.` in such a path.
  pub object_under-IsResolved :
      CleansToNames
      → (rel : Text) (want : Bool) (path : Text) → object_under fs rel want ≡ ok path
      → IsResolved want 0 (split_on b'/' (fs.clean rel)) path × (is_upward (fs.clean rel) ≡ false)
  unfolding object_under clean_path join
  object_under-IsResolved cleans rel want path h =
      let (clean, found, walked) = bind-ok (clean_path fs rel) h in
      let (nonempty, f₁) = reject_if-ok (is_empty (trim_space rel)) empty_path found in
      let (unit, is_folder, f₂) = bind-ok (require_directory (fs.stat []) unsafe_root) f₁ in
      let (relative, f₃) = reject_if-ok (is_some (strip_prefix (text "/") rel)) not_relative f₂ in
      let (down, f₄) = reject_if-ok (is_upward (fs.clean rel)) escapes f₃ in
      let same : fs.clean rel ≡ clean = ok-injective f₄ in
      let (part, parts, split) = split-some (fs.clean rel) in
      let names = cleans rel (is_some-none (strip_prefix (text "/") rel) relative) down in
      (
        subst (λ ps. IsResolved want 0 ps path) (sym split)
            (walk_parts-IsResolved want [] part parts path tt (subst (All IsName) split names)
              (ap (walk_parts fs want []) (sym split ∙ ap (split_on b'/') same) ∙ walked)),
        down,
      )
