-- ===== src/Tree/Unplug.antt =====
-- A child taken out of an internal node.
use btree_vec.Common.{
  ℕ, suc, ◌+◌, ◌≡◌, sym, ap, subst, ◌∙◌, none, List, ◌∷◌, ◌++◌, ok, arith, length, length-append,
  take-append, drop-append, zero-add,
}
use btree_vec.Node.{Ptr, Cell, set_prefix}
use btree_vec.Node.Internal.{Internal, Entry, reindex, remove_head, simple_remove}
use btree_vec.Node.Internal.Children.{
  concat_with, concat_with-append, concat_with-reindex, length-reindex, Children, Children-append,
  Children-append_left, Children-append_right, Children-reindex,
}
use btree_vec.Node.Internal.Inserting.{IsNode}
use btree_vec.Tree.{Frame, frame}
use btree_vec.Tree.Valid.{IsFrame}
use btree_vec.Tree.Plug.{plug_sized}

module _ {ℓ} {C : Type ℓ} where
  -- The node without the child, whose right siblings have moved up.
  abbrev pub unplug : Cell (Frame C) → Internal C
  unplug f = record {
    addr = f.addr;
    prefix = f.prefix;
    body = record {
      children = f.body.before ++ reindex (length f.body.before) f.body.after;
      spare = 0 ∷ f.body.spare;
    };
  }

  pub simple_remove-plug :
      (f : Cell (Frame C)) (c : Cell C) (n : ℕ)
      → simple_remove (plug_sized f c n) (length f.body.before)
        ≡ ok (unplug f, (set_prefix none 0 c, n))
  unfolding simple_remove remove_head
  simple_remove-plug f c n = rw (
    take-append f.body.before ((c, n) ∷ f.body.after),
    drop-append f.body.before ((c, n) ∷ f.body.after),
  )

  pub length-unplug :
      (f : Cell (Frame C))
      → length (unplug f).body.children ≡ length f.body.before + length f.body.after
  length-unplug f = omega (
    arith,
    length-append f.body.before (reindex (length f.body.before) f.body.after),
    length-reindex (length f.body.before) f.body.after,
  )

  pub concat_with-unplug {κ} :
      {X : Type κ} (L : Ptr → C → List X) (f : Cell (Frame C))
      → concat_with L (unplug f).body.children
        ≡ concat_with L f.body.before ++ concat_with L f.body.after
  concat_with-unplug L f =
      concat_with-append L f.body.before (reindex (length f.body.before) f.body.after)
      ∙ ap (λ xs. concat_with L f.body.before ++ xs)
          (concat_with-reindex L (length f.body.before) f.body.after)

  -- A node is its frame around one of its children.
  pub as_plug :
      (n : Internal C) (es : List (Entry C)) (c : Cell C) (m : ℕ) (fs : List (Entry C))
      → n.body.children ≡ es ++ ((c, m) ∷ fs)
      → n ≡ plug_sized (frame n es m fs) c m
  as_plug n es c m fs e = λ i. record {
    addr = n.addr;
    prefix = n.prefix;
    body = record { children = e i; spare = n.body.spare };
  }

module _ {ℓ} {C : Type ℓ} (B : ℕ) (P : Ptr → C → Type 0) (w : Ptr → C → ℕ) where
  pub unplug-IsNode : (f : Cell (Frame C)) → IsFrame B P w f → IsNode B P w f.addr (unplug f).body
  unplug-IsNode f v = record {
    capacity = omega (arith, v.capacity, length-unplug f);
    children_are =
        Children-append P w f.addr 0 f.body.before (reindex (length f.body.before) f.body.after)
          v.before_are
          (subst (λ i. Children P w f.addr i (reindex (length f.body.before) f.body.after))
            (sym (zero-add (length f.body.before)))
            (Children-reindex P w f.addr (suc (length f.body.before)) (length f.body.before)
              f.body.after v.after_are));
  }

  module _ (n : Internal C) (es : List (Entry C)) (c : Cell C) (m : ℕ) (fs : List (Entry C))
      (e : n.body.children ≡ es ++ ((c, m) ∷ fs)) (v : IsNode B P w n.addr n.body) where
    all-Children : Children P w n.addr 0 (es ++ ((c, m) ∷ fs))
    all-Children = subst (Children P w n.addr 0) e v.children_are

    -- The child in the frame, with those after it.
    pub Children-from : Children P w n.addr (length es) ((c, m) ∷ fs)
    Children-from =
        subst (λ i. Children P w n.addr i ((c, m) ∷ fs)) (zero-add (length es))
          (Children-append_right P w n.addr 0 es ((c, m) ∷ fs) all-Children)

    pub frame-IsFrame : IsFrame B P w (frame n es m fs)
    frame-IsFrame = record {
      capacity = omega (arith, v.capacity, ap length e, length-append es ((c, m) ∷ fs));
      before_are = Children-append_left P w n.addr 0 es ((c, m) ∷ fs) all-Children;
      after_are = Children-from.1;
    }
