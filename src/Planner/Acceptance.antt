-- ===== src/Planner/Acceptance.antt =====
-- A plan covers what it has to, and goes on covering it while its chunks are worked on and divided.
use code_astra.Base.{
  ℕ, String, Bool, false, ◌||◌, List, [], ◌∷◌, ◌++◌, string_eq, ◌≡◌, ◌≢◌, refl, ◌∙◌, arith,
}
use code_astra.Base.Lists.{All, All-append}
use code_astra.Domain.Chunks.{ReviewChunk, ChunkStatus, is_superseded}
use code_astra.Coverage.{is_covered, leaf_chunks}
use code_astra.Planner.PythonChunks.{Tools}
use code_astra.Planner.{split}
use code_astra.Planner.Halves.{Sized, Divides, IsChild, split_keeps_lines}

-- The same lines of the same file, and neither chunk superseded.
pub record SameTarget (a b : ReviewChunk) : Type 0 where
  pub file : b.target_file_id ≡ a.target_file_id
  pub start : b.target_start_line ≡ a.target_start_line
  pub end : b.target_end_line ≡ a.target_end_line
  pub code : b.target_code ≡ a.target_code
  pub leaf_before : is_superseded a.status ≡ false
  pub leaf_after : is_superseded b.status ≡ false

-- How the chunks of a review change: one takes another state, or is divided and superseded.
pub data Evolves (tools : Tools) : List ReviewChunk → List ReviewChunk → Type 0 where
  stays : {chunks : List ReviewChunk} → Evolves tools chunks chunks
  moves :
      (before after : List ReviewChunk) (a b : ReviewChunk) {chunks : List ReviewChunk}
      → SameTarget a b
      → Evolves tools (before ++ b ∷ after) chunks
      → Evolves tools (before ++ a ∷ after) chunks
  divides :
      (before after : List ReviewChunk) (parent : ReviewChunk) {chunks : List ReviewChunk}
      → is_superseded parent.status ≡ false
      → split tools parent ≢ []
      → Evolves tools
          (before
            ++ (record parent { status = ChunkStatus.superseded } ∷ (after ++ split tools parent)))
          chunks
      → Evolves tools (before ++ parent ∷ after) chunks

-- Superseded, or with a text that has no more lines than its range.
abbrev pub Fits : ReviewChunk → Type 0
Fits chunk = is_superseded chunk.status ≡ false → Sized chunk

-- The line is in a chunk that counts.
abbrev pub in_leaf : String → ℕ → List ReviewChunk → Bool
in_leaf file_id line chunks = is_covered file_id line (leaf_chunks chunks)

module _ (file_id : String) (line : ℕ) where
  in_leaf-append :
      (a b : List ReviewChunk)
      → in_leaf file_id line (a ++ b) ≡ in_leaf file_id line a || in_leaf file_id line b
  unfolding leaf_chunks is_covered
  in_leaf-append [] b = refl
  in_leaf-append (chunk ∷ a) b = ground (arith, in_leaf-append a b)

  in_leaf-moved :
      (a b : ReviewChunk) (after : List ReviewChunk)
      → SameTarget a b
      → in_leaf file_id line (b ∷ after) ≡ in_leaf file_id line (a ∷ after)
  unfolding leaf_chunks is_covered
  in_leaf-moved a b after h = rw (h.leaf_before, h.leaf_after, h.file, h.start, h.end) refl

  children_leaves :
      (parent : ReviewChunk) (children : List ReviewChunk)
      → All (IsChild parent) children
      → in_leaf file_id line children ≡ is_covered file_id line children
  unfolding leaf_chunks is_covered
  children_leaves parent [] h = refl
  children_leaves parent (child ∷ children) h =
      rw h.0.waits (ground (arith, children_leaves parent children h.1))

  in_leaf-superseded :
      (parent : ReviewChunk) (chunks : List ReviewChunk)
      → in_leaf file_id line (record parent { status = ChunkStatus.superseded } ∷ chunks)
        ≡ in_leaf file_id line chunks
  unfolding leaf_chunks
  in_leaf-superseded parent chunks = refl

  in_leaf-cons :
      (chunk : ReviewChunk) (chunks : List ReviewChunk)
      → is_superseded chunk.status ≡ false
      → in_leaf file_id line (chunk ∷ chunks)
        ≡ is_covered file_id line (chunk ∷ []) || in_leaf file_id line chunks
  unfolding leaf_chunks is_covered
  in_leaf-cons chunk chunks leaf = in_leaf-append (chunk ∷ []) chunks ∙ rw leaf refl

  or_comm : (a b : Bool) → a || b ≡ b || a
  or_comm a b = ground arith

  divided_lem :
      (parent : ReviewChunk) (children after : List ReviewChunk)
      → is_superseded parent.status ≡ false
      → children ≢ []
      → Divides parent children
      → Sized parent
      → in_leaf file_id line (record parent { status = ChunkStatus.superseded } ∷ after ++ children)
        ≡ in_leaf file_id line (parent ∷ after)
  divided_lem parent [] after leaf h d fits = absurd (h refl)
  divided_lem parent (child ∷ children) after leaf h d fits =
      rw
        (
          in_leaf-superseded parent (after ++ child ∷ children),
          in_leaf-append after (child ∷ children),
          children_leaves parent (child ∷ children) d.0,
          (d.1 fits).1 file_id line,
          in_leaf-cons parent after leaf,
        )
        (or_comm (in_leaf file_id line after) (is_covered file_id line (parent ∷ [])))

All-left {κ} : (P : ReviewChunk → Type κ) (a b : List ReviewChunk) → All P (a ++ b) → All P a
All-left P [] b h = tt
All-left P (chunk ∷ a) b h = (h.0, All-left P a b h.1)

All-right {κ} : (P : ReviewChunk → Type κ) (a b : List ReviewChunk) → All P (a ++ b) → All P b
All-right P [] b h = h
All-right P (chunk ∷ a) b h = All-right P a b h.1

moved-Fits :
    (before after : List ReviewChunk) (a b : ReviewChunk)
    → SameTarget a b
    → All Fits (before ++ a ∷ after)
    → All Fits (before ++ b ∷ after)
moved-Fits before after a b same h =
    let there = All-right Fits before (a ∷ after) h in
    All-append Fits before (b ∷ after) (All-left Fits before (a ∷ after) h)
      ((λ _. rw (same.start, same.end, same.code) (there.0 same.leaf_before)), there.1)

children-Fits :
    (tools : Tools) (parent : ReviewChunk) → Sized parent → All Fits (split tools parent)
children-Fits tools parent fits = go (split tools parent) (split_keeps_lines tools parent)
  where
    each : (children : List ReviewChunk) → All Sized children → All Fits children
    each [] h = tt
    each (child ∷ children) h = ((λ _. h.0), each children h.1)

    go : (children : List ReviewChunk) → Divides parent children → All Fits children
    go [] d = tt
    go (child ∷ children) d = each (child ∷ children) (d.1 fits).0

divided-Fits :
    (tools : Tools) (before after : List ReviewChunk) (parent : ReviewChunk)
    → is_superseded parent.status ≡ false
    → All Fits (before ++ parent ∷ after)
    → All Fits (
        before
        ++ (record parent { status = ChunkStatus.superseded } ∷ (after ++ split tools parent)))
divided-Fits tools before after parent leaf h =
    let there = All-right Fits before (parent ∷ after) h in
    All-append Fits before
      (record parent { status = ChunkStatus.superseded } ∷ (after ++ split tools parent))
      (All-left Fits before (parent ∷ after) h)
      (
        (λ e. absurd (ground (arith, e))),
        All-append Fits after (split tools parent) there.1
            (children-Fits tools parent (there.0 leaf)),
      )

-- However the chunks change, a line is in a chunk that counts exactly if it was before, if each text
-- has no more lines than its range.
pub lines_stay_covered :
    (tools : Tools) (chunks later : List ReviewChunk) (file_id : String) (line : ℕ)
    → All Fits chunks
    → Evolves tools chunks later
    → in_leaf file_id line later ≡ in_leaf file_id line chunks
lines_stay_covered tools chunks later file_id line h stays = refl
lines_stay_covered tools chunks later file_id line h (moves before after a b same rest) =
    lines_stay_covered tools _ later file_id line (moved-Fits before after a b same h) rest
    ∙ rw
        (
          in_leaf-append file_id line before (b ∷ after),
          in_leaf-append file_id line before (a ∷ after),
          in_leaf-moved file_id line a b after same,
        )
        refl
lines_stay_covered tools chunks later file_id line h
      (divides before after parent leaf some_child rest) =
    lines_stay_covered tools _ later file_id line (divided-Fits tools before after parent leaf h)
      rest
    ∙ rw
        (
          in_leaf-append file_id line before
              (record parent { status = ChunkStatus.superseded } ∷ (after ++ split tools parent)),
          in_leaf-append file_id line before (parent ∷ after),
          divided_lem file_id line parent (split tools parent) after leaf some_child
              (split_keeps_lines tools parent) ((All-right Fits before (parent ∷ after) h).0 leaf),
        )
        refl
