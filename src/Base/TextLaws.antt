-- ===== src/Base/TextLaws.antt =====
-- Laws of the text functions: splitting undoes joining, trimming keeps a token.
use mathlib.Core.List.{reverse, reverse-reverse, reverse-append}
use git_memo.Base.{ℕ, ◌<◌, ◌≡◌, ◌≢◌, refl, ap, ◌∙◌, List, [], ◌∷◌, ◌++◌, arith, All, All-append}
use git_memo.Base.Text.{Text, split_on, join, trim_left, trim_right, trim_space, is_space}

module _ (sep : ℕ) where
  pub split_on-plain : (s : Text) → All (λ c. c ≢ sep) s → split_on sep s ≡ s ∷ []
  unfolding split_on
  split_on-plain [] h = refl
  split_on-plain (c ∷ s) (hc, h) = rw (split_on-plain s h) (ground arith)

  pub split_on-append :
      (s t : Text) → All (λ c. c ≢ sep) s → split_on sep (s ++ sep ∷ t) ≡ s ∷ split_on sep t
  unfolding split_on
  split_on-append [] t h = ground arith
  split_on-append (c ∷ s) t (hc, h) = rw (split_on-append s t h) (ground arith)

  -- Parts without the separator come back from the joined text.
  pub split_on-join :
      (part : Text) (parts : List Text)
      → All (All (λ c. c ≢ sep)) (part ∷ parts)
      → split_on sep (join sep (part ∷ parts)) ≡ part ∷ parts
  unfolding join
  split_on-join part [] (h, hs) = split_on-plain part h
  split_on-join part (next ∷ parts) (h, hs) =
      split_on-append part (join sep (next ∷ parts)) h ∙ ap (◌∷◌ part) (split_on-join next parts hs)

  pub join-All :
      (P : ℕ → Type 0) (parts : List Text) → P sep → All (All P) parts → All P (join sep parts)
  unfolding join
  join-All P [] h hs = tt
  join-All P (part ∷ []) h (hp, hs) = hp
  join-All P (part ∷ next ∷ parts) h (hp, hs) =
      All-append P part (sep ∷ join sep (next ∷ parts)) hp (h, join-All P (next ∷ parts) h hs)

-- The bytes of a token: no white space, no control character.
abbrev pub IsToken : Text → Type 0
IsToken s = All (λ c. 32 < c) s

trim_left-token : (s : Text) → IsToken s → trim_left s ≡ s
unfolding trim_left is_space
trim_left-token [] h = refl
trim_left-token (c ∷ s) (hc, h) = ground arith

pub All-reverse {κ} : (P : ℕ → Type κ) (s : Text) → All P s → All P (reverse s)
All-reverse P [] h = tt
All-reverse P (c ∷ s) (hc, h) =
    rw (reverse-append (c ∷ []) s) (All-append P (reverse s) (c ∷ []) (All-reverse P s h) (hc, tt))

pub trim_space-token : (s : Text) → IsToken s → trim_space s ≡ s
unfolding trim_space trim_right
trim_space-token s h =
    rw (trim_left-token s h, trim_left-token (reverse s) (All-reverse (λ c. 32 < c) s h))
      (reverse-reverse s)
