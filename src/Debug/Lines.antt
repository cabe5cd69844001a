-- ===== src/Debug/Lines.antt =====
-- The items that are printed.
use btree_vec.Common.{
  ℕ, zero, suc, ◌+◌, ◌≡◌, refl, sym, ap, ap₂, ◌∙◌, Option, none, some, List, [], ◌∷◌, ◌++◌,
  append-nil,
}
use btree_vec.Node.{Allocator}
use btree_vec.Node.Internal.{Entry}
use btree_vec.Node.Internal.Children.{concat_with}
use btree_vec.Tree.{Body, Tree, Root}
use btree_vec.Tree.Valid.{leaves, items, items-append}
use btree_vec.Vec.{BTreeVec}
use btree_vec.Vec.Valid.{contents, root_items}
use btree_vec.Debug.{
  IdMap, Line, open_graph, close_graph, size_line, root_edge, internal_line, leaf_line, child_edge,
  item_edge, item_line, get_id, fmt_items, fmt_leaf, fmt_children, fmt_prefix, fmt_root, fmt,
}

module _ {ℓ} {A : Type ℓ} where
  -- The items that the lines show.
  abbrev pub shown : List (Line A) → List A
  shown [] = []
  shown (item_line id i x ∷ ls) = x ∷ shown ls
  shown (open_graph ∷ ls) = shown ls
  shown (close_graph ∷ ls) = shown ls
  shown (size_line n ∷ ls) = shown ls
  shown (root_edge id ∷ ls) = shown ls
  shown (internal_line id i n ∷ ls) = shown ls
  shown (leaf_line id i n ∷ ls) = shown ls
  shown (child_edge id c n ∷ ls) = shown ls
  shown (item_edge id i ∷ ls) = shown ls

  shown-append : (ls ks : List (Line A)) → shown (ls ++ ks) ≡ shown ls ++ shown ks
  shown-append [] ks = refl
  shown-append (item_line id i x ∷ ls) ks = ap (λ xs. x ∷ xs) (shown-append ls ks)
  shown-append (open_graph ∷ ls) ks = shown-append ls ks
  shown-append (close_graph ∷ ls) ks = shown-append ls ks
  shown-append (size_line n ∷ ls) ks = shown-append ls ks
  shown-append (root_edge id ∷ ls) ks = shown-append ls ks
  shown-append (internal_line id i n ∷ ls) ks = shown-append ls ks
  shown-append (leaf_line id i n ∷ ls) ks = shown-append ls ks
  shown-append (child_edge id c n ∷ ls) ks = shown-append ls ks
  shown-append (item_edge id i ∷ ls) ks = shown-append ls ks

  fmt_items-shown : (id i : ℕ) (xs : List A) → shown (fmt_items id i xs) ≡ xs
  unfolding fmt_items
  fmt_items-shown id i [] = refl
  fmt_items-shown id i (x ∷ xs) = ap (λ ys. x ∷ ys) (fmt_items-shown id (i + 1) xs)

  fmt_children-shown :
      (h : ℕ)
      → ((m : IdMap) (c : Tree A h) → shown (fmt_prefix h m c).0 ≡ items (leaves A h c.addr c.body))
      → (id : ℕ) (m : IdMap) (es : List (Entry (Body A h)))
      → shown (fmt_children (fmt_prefix h) id m es).0 ≡ items (concat_with (leaves A h) es)
  unfolding fmt_children
  fmt_children-shown h ih id m [] = refl
  fmt_children-shown h ih id m ((c, n) ∷ es) =
      let m1 = (get_id m c.addr).1 in
      shown-append (fmt_prefix h m1 c).0 (fmt_children (fmt_prefix h) id (fmt_prefix h m1 c).1 es).0
      ∙ ap₂ (λ xs ys. xs ++ ys) (ih m1 c) (fmt_children-shown h ih id (fmt_prefix h m1 c).1 es)
      ∙ sym (items-append (leaves A h c.addr c.body) (concat_with (leaves A h) es))

  fmt_prefix-shown :
      (h : ℕ) (m : IdMap) (c : Tree A h)
      → shown (fmt_prefix h m c).0 ≡ items (leaves A h c.addr c.body)
  unfolding fmt_prefix fmt_leaf
  fmt_prefix-shown zero m c =
      fmt_items-shown (get_id m c.addr).0 0 c.body.children ∙ sym (append-nil c.body.children)
  fmt_prefix-shown (suc h) m c =
      fmt_children-shown h (fmt_prefix-shown h) (get_id m c.addr).0 (get_id m c.addr).1
        c.body.children

  fmt_root-shown :
      (m : IdMap) (root : Option (Root A)) → shown (fmt_root m root).0 ≡ root_items root
  unfolding fmt_root
  fmt_root-shown m none = refl
  fmt_root-shown m (some r) = fmt_prefix-shown r.height (get_id m r.node.addr).1 r.node

  -- The items that a vector is printed with are its contents, in their order.
  pub fmt_lem : {al : Allocator} (m : IdMap) (v : BTreeVec al A) → shown (fmt m v).0 ≡ contents v
  unfolding fmt
  fmt_lem m v =
      shown-append (fmt_root m v.root).0 (close_graph ∷ [])
      ∙ append-nil (shown (fmt_root m v.root).0)
      ∙ fmt_root-shown m v.root
