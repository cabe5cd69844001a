-- ===== src/Tree/Plug.antt =====
-- A child put back into the frame that it came from, and a change of its size.
use btree_vec.Common.{
  ℕ, suc, ◌+◌, ◌≡◌, some, List, [], ◌∷◌, ◌++◌, Result, ok, arith, length, take, drop, length-append,
  take-append, drop-append, take-add, drop-add,
}
use btree_vec.Node.{Ptr, Cell}
use btree_vec.Node.Internal.{Internal, Entry, change, change_size}
use btree_vec.Node.Internal.Children.{concat_with, concat_with-append, IsSized, Children-append}
use btree_vec.Node.Internal.Inserting.{IsNode}
use btree_vec.Tree.{Frame}
use btree_vec.Tree.Valid.{IsFrame}

-- The parent with the child in its place, of the size `n`.
abbrev pub plug_sized {ℓ} : {C : Type ℓ} → Cell (Frame C) → Cell C → ℕ → Internal C
plug_sized f c n = record {
  addr = f.addr;
  prefix = f.prefix;
  body = record { children = f.body.before ++ ((c, n) ∷ f.body.after); spare = f.body.spare };
}

module _ {ℓ} {C : Type ℓ} where
  change-middle :
      (g : ℕ → Result ℕ) (es : List (Entry C)) (c : Cell C) (n m : ℕ) (fs : List (Entry C))
      (spare : List ℕ)
      → g n ≡ ok m
      → change g (length es) (es ++ ((c, n) ∷ fs)) spare
        ≡ ok (record { children = es ++ ((c, m) ∷ fs); spare = spare })
  unfolding change
  change-middle g [] c n m fs spare e = rw e
  change-middle g (x ∷ es) c n m fs spare e = rw (change-middle g es c n m fs spare e)

  pub change_size-plug :
      (g : ℕ → Result ℕ) (f : Cell (Frame C)) (c : Cell C) (n m : ℕ)
      → g n ≡ ok m
      → change_size g (length f.body.before) (plug_sized f c n) ≡ ok (plug_sized f c m)
  unfolding change_size
  change_size-plug g f c n m e =
      rw (change-middle g f.body.before c n m f.body.after f.body.spare e)

  pub length-plug :
      (f : Cell (Frame C)) (c : Cell C) (n : ℕ)
      → length (plug_sized f c n).body.children ≡ length f.body.before + suc (length f.body.after)
  length-plug f c n = length-append f.body.before ((c, n) ∷ f.body.after)

  pub plug-IsNode :
      (B : ℕ) (P : Ptr → C → Type 0) (w : Ptr → C → ℕ) (f : Cell (Frame C)) (c : Cell C) (n : ℕ)
      → IsFrame B P w f
      → c.prefix.parent ≡ some f.addr
      → c.prefix.index ≡ length f.body.before
      → IsSized P w c n
      → IsNode B P w f.addr (plug_sized f c n).body
  plug-IsNode B P w f c n v p i s = record {
    capacity = omega (arith, length-plug f c n, v.capacity);
    children_are =
        Children-append P w f.addr 0 f.body.before _ v.before_are
          (rw zero_is (record { parent_is = p; index_is = i; sized = s }, v.after_are));
  }
    where
      zero_is : 0 + length f.body.before ≡ length f.body.before
      zero_is = omega arith

  module _ {κ} {X : Type κ} (L : Ptr → C → List X) (f : Cell (Frame C)) (c : Cell C) (n : ℕ) where
    pub concat_with-plug :
        concat_with L (plug_sized f c n).body.children
        ≡ concat_with L f.body.before ++ (L c.addr c.body ++ concat_with L f.body.after)
    concat_with-plug = concat_with-append L f.body.before ((c, n) ∷ f.body.after)

    -- The parts up to the child and after it.
    pub concat_with-take-plug :
        concat_with L (take (length f.body.before + 1) (plug_sized f c n).body.children)
        ≡ concat_with L f.body.before ++ (L c.addr c.body ++ [])
    concat_with-take-plug =
        rw
          (
            take-add (length f.body.before) 1 (f.body.before ++ ((c, n) ∷ f.body.after)),
            take-append f.body.before ((c, n) ∷ f.body.after),
            drop-append f.body.before ((c, n) ∷ f.body.after),
          )
          (concat_with-append L f.body.before ((c, n) ∷ []))

    pub drop-plug : drop (length f.body.before + 1) (plug_sized f c n).body.children ≡ f.body.after
    drop-plug = rw (
      drop-add (length f.body.before) 1 (f.body.before ++ ((c, n) ∷ f.body.after)),
      drop-append f.body.before ((c, n) ∷ f.body.after),
    )
