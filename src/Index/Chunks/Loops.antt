-- ===== src/Index/Chunks/Loops.antt =====
-- The two loops of internal/indexer/chunks.go, over any codec.
use mathlib.Core.List.{append_assoc, append-nil}
use Prim.Native.Nat.{min}
use git_memo.Base.{
  ℕ, zero, suc, ◌+◌, ◌-◌, ◌*◌, ◌≤◌, ◌<◌, ◌≡◌, ◌≢◌, sym, subst, ap, ap₂, All, All-take, All-drop,
  ◌∙◌, inl, inr, Option, some, List, ◌++◌, length, take, drop, take-all, take-add, drop-add,
  length-take, length-drop, Option-cases, Bool-cases, ltb, arith,
}
use git_memo.Base.Text.{Text, eq_iff, eq_refl}
use git_memo.Base.Int.{pos}
use git_memo.Base.Dict.{lookup, insert, lookup-insert}
use git_memo.Base.Result.{ok}
use git_memo.Index.Codec.{Codec, IsLawfulOn, marshal_line, unmarshal-marshal_line}
use git_memo.Index.Chunks.{Files, chunk_items, render_chunks, load_chunks}

module _ {A : Type 0} where
  -- The slice of one round is the next 1024 items, or what is left of them.
  pub chunk_items-eq-take :
      (items : List A) (i : ℕ) → chunk_items items i ≡ take 1024 (drop (i * 1024) items)
  unfolding chunk_items
  chunk_items-eq-take items i = elim (Bool-cases (ltb (i * 1024 + 1024) (length items))) [
    | inl more ↦ rw more (
        ap (λ (n : ℕ). take n (drop (i * 1024) items))
          (let e : (i * 1024 + 1024) - i * 1024 ≡ 1024 = omega arith in e))
    | inr last ↦ rw last (rest (ground arith))
  ]
    where
      left : List A
      left = drop (i * 1024) items

      rest : length items ≤ i * 1024 + 1024 → take (length items - i * 1024) left ≡ take 1024 left
      rest h =
          take-all _ left (omega (arith, length-drop (i * 1024) items))
          ∙ sym (take-all 1024 left (omega (arith, length-drop (i * 1024) items)))

  -- A round and those after it are one longer piece.
  next-items :
      (items : List A) (i n : ℕ)
      → chunk_items items i ++ take (n * 1024) (drop (suc i * 1024) items)
        ≡ take (suc n * 1024) (drop (i * 1024) items)
  next-items items i n =
      let left : List A = drop (i * 1024) items in
      let start : suc i * 1024 ≡ i * 1024 + 1024 = omega arith in
      let total : suc n * 1024 ≡ 1024 + n * 1024 = omega arith in
      ap₂ ◌++◌ (chunk_items-eq-take items i)
        (ap (take (n * 1024)) (ap (λ (k : ℕ). drop k items) start ∙ drop-add (i * 1024) 1024 items))
      ∙ sym (ap (λ (k : ℕ). take k left) total ∙ take-add 1024 (n * 1024) left)

  chunk_items-All :
      (Q : A → Type 0) (items : List A) (i : ℕ) → All Q items → All Q (chunk_items items i)
  chunk_items-All Q items i h =
      subst (All Q) (sym (chunk_items-eq-take items i))
        (All-take Q 1024 (drop (i * 1024) items) (All-drop Q (i * 1024) items h))

  module _ (path : ℕ → Text) (codec : Codec (List A)) where
    -- A path that no round writes keeps its bytes.
    pub lookup-render_chunks :
        (k : Text) (items : List A) (i n : ℕ) (files : Files) {out : Files}
        → ((j : ℕ) → i ≤ j → path j ≢ k)
        → render_chunks path codec items i n files ≡ some out
        → lookup k out ≡ lookup k files
    unfolding render_chunks
    lookup-render_chunks k items i zero files away h = ground arith
    lookup-render_chunks k items i (suc n) files away h =
        elim (Option-cases (marshal_line codec (chunk_items items i))) [
          | inl failed ↦ ground arith
          | inr (bytes, done) ↦
              lookup-render_chunks k items (suc i) n (insert (path i) bytes files)
                (λ j le. away j (omega arith)) (ground arith)
              ∙ ground (
                arith,
                lookup-insert (path i) k bytes files,
                away i (omega arith),
                eq_iff (path i) k,
              )
        ]

    -- The items that rounds `i`, …, `i + n - 1` wrote come back in their order.
    pub load-render_chunks :
        {Q : A → Type 0}
        → IsLawfulOn codec (All Q)
        → ((i j : ℕ) → path i ≡ path j → i ≡ j)
        → (items : List A) (i n : ℕ) (files : Files) (out : Files) (read : Text → Option Text)
          (loaded : List A)
        → All Q items
        → (i + n) * 1024 < length items + 1024
        → render_chunks path codec items i n files ≡ some out
        → ((j : ℕ) → i ≤ j → read (path j) ≡ lookup (path j) out)
        → load_chunks path codec read (pos 1024) i n loaded
          ≡ ok (loaded ++ take (n * 1024) (drop (i * 1024) items))
    unfolding render_chunks load_chunks
    load-render_chunks lawful inj items i zero files out read loaded each fits h same =
        ap ok (sym (append-nil loaded))
    load-render_chunks lawful inj items i (suc n) files out read loaded each fits h same =
        elim (Option-cases (marshal_line codec (chunk_items items i))) [
          | inl failed ↦ ground arith
          | inr (bytes, done) ↦
              let slice = chunk_items items i in
              let later : render_chunks path codec items (suc i) n (insert (path i) bytes files)
                  ≡ some out =
                ground arith in
              let apart : (j : ℕ) → suc i ≤ j → path j ≢ path i =
                λ j le e. absurd (omega (arith, inj j i e)) in
              let kept : lookup (path i) out ≡ some bytes =
                lookup-render_chunks (path i) items (suc i) n (insert (path i) bytes files) apart
                  later
                ∙ ground (arith, lookup-insert (path i) (path i) bytes files, eq_refl (path i)) in
              let found : read (path i) ≡ some bytes = same i (omega arith) ∙ kept in
              let parsed : codec.unmarshal bytes ≡ some slice =
                unmarshal-marshal_line codec lawful slice bytes (chunk_items-All _ items i each)
                  done in
              let size : length slice ≡ min 1024 (length items - i * 1024) =
                ap length (chunk_items-eq-take items i)
                ∙ length-take 1024 (drop (i * 1024) items)
                ∙ ap (min 1024) (length-drop (i * 1024) items) in
              let rest =
                load-render_chunks lawful inj items (suc i) n (insert (path i) bytes files) out read
                  (loaded ++ slice) each (omega arith) later (λ j le. same j (omega arith)) in
              let step : load_chunks path codec read (pos 1024) i (suc n) loaded
                  ≡ load_chunks path codec read (pos 1024) (suc i) n (loaded ++ slice) =
                ground arith in
              step
              ∙ rest
              ∙ ap ok (append_assoc loaded slice _ ∙ ap (◌++◌ loaded) (next-items items i n))
        ]
