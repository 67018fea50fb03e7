-- ===== src/Upgrade/Apart.antt =====
-- When no file of an installation meets a directory of the release, or a directory a file: then the
-- carry-forward of `_replace_framework_dir` (`cairn-core/cc-cairn.py`) gets through.
use cairness.Base.{
  ◌≡◌, ◌⊎◌, refl, sym, ap, ◌∙◌, String, Bool, true, false, not, ◌&&◌, List, [], ◌∷◌, ◌==◌, eq_iff,
  mem, arith, inl, inr, subst, Bool-cases, Option-cases,
}
use cairness.Base.Dict
use cairness.Base.Dict.{Dict, mem-keys-put}
use cairness.Base.Sorting.{sorted, mem-sorted}
use cairness.Upgrade.Files.{Tree}
use cairness.Upgrade.Replace.{
  copy_tree, Fate, dropped, carried, replaced, fate, is_below, has_below, is_beneath_file, put_file,
  put_some, copy_file, handle_file, carry_forward, finished, then_carry,
}
use cairness.Upgrade.Exact.{plain_put, plain_handle, plain_carry}

-- None of the paths is a directory of the tree.
unfoldable pub are_no_dirs : (rels : List String) → Tree → Bool
unfolding has_below
are_no_dirs [] tree = true
are_no_dirs (rel ∷ rels) tree = not (has_below rel tree) && are_no_dirs rels tree

-- No file of the old tree is a directory of it or of the release, nor one of the release a directory
-- of the old tree.
unfoldable pub are_apart : (src old : Tree) → Bool
unfolding are_no_dirs
are_apart src old =
    are_no_dirs (Dict.keys old) old
    && are_no_dirs (Dict.keys old) src
    && are_no_dirs (Dict.keys src) old

not_below :
    (dir rel : String) (tree : Tree)
    → has_below dir tree ≡ false
    → mem rel (Dict.keys tree) ≡ true
    → is_below dir rel ≡ false
unfolding has_below Dict.keys
not_below dir rel [] h m = absurd (cc)
not_below dir rel ((x, b) ∷ tree) h m = elim (Bool-cases (rel == x)) [
  | inl e ↦ ap (is_below dir) ((eq_iff rel x).0 e) ∙ ground (arith, h)
  | inr e ↦ not_below dir rel tree (ground (arith, h)) (ground (arith, m, e))
]

no_dir :
    (rel : String) (rels : List String) (tree : Tree)
    → are_no_dirs rels tree ≡ true
    → mem rel rels ≡ true
    → has_below rel tree ≡ false
unfolding are_no_dirs
no_dir rel [] tree h m = absurd (cc)
no_dir rel (x ∷ rels) tree h m = elim (Bool-cases (rel == x)) [
  | inl e ↦ ap (λ y. has_below y tree) ((eq_iff rel x).0 e) ∙ ground (arith, h)
  | inr e ↦ no_dir rel rels tree (ground (arith, h)) (ground (arith, m, e))
]

nothing_below :
    (dir : String) (tree : Tree)
    → ((x : String) → mem x (Dict.keys tree) ≡ true → is_below dir x ≡ false)
    → has_below dir tree ≡ false
unfolding has_below Dict.keys
nothing_below dir [] h = refl
nothing_below dir ((x, b) ∷ tree) h = ground (
  arith,
  h x (ground (arith, eq_iff x x)),
  nothing_below dir tree (λ y m. h y (ground (arith, m))),
)

beneath_nothing :
    (rel : String) (tree : Tree)
    → ((x : String) → mem x (Dict.keys tree) ≡ true → is_below x rel ≡ false)
    → is_beneath_file rel tree ≡ false
unfolding is_beneath_file Dict.keys
beneath_nothing rel [] h = refl
beneath_nothing rel ((x, b) ∷ tree) h = ground (
  arith,
  h x (ground (arith, eq_iff x x)),
  beneath_nothing rel tree (λ y m. h y (ground (arith, m))),
)

keys-copy_tree :
    (roots : List String) (tree : Tree) (x : String)
    → mem x (Dict.keys (copy_tree roots tree)) ≡ true
    → mem x (Dict.keys tree) ≡ true
unfolding copy_tree Dict.keys
keys-copy_tree roots [] x m = m
keys-copy_tree roots ((rel, bytes) ∷ tree) x m = ground (arith, m, keys-copy_tree roots tree x)

module _ (src old : Tree) (apart : are_apart src old ≡ true) where
  -- The files of the new tree are of the old one or of the release.
  abbrev IsWithin : Tree → Type 0
  IsWithin fresh =
      (x : String)
      → mem x (Dict.keys fresh) ≡ true
      → (mem x (Dict.keys old) ≡ true) ⊎ (mem x (Dict.keys src) ≡ true)

  put_file-apart :
      (rel bytes : String) (fresh : Tree)
      → IsWithin fresh
      → mem rel (Dict.keys old) ≡ true
      → put_file rel bytes fresh ≡ finished (Dict.put fresh rel bytes)
  unfolding put_file are_apart
  put_file-apart rel bytes fresh within m =
      let below = nothing_below rel fresh (λ x k. elim (within x k) [
        | inl o ↦ not_below rel x old (no_dir rel (Dict.keys old) old (ground (arith, apart)) m) o
        | inr s ↦ not_below rel x src (no_dir rel (Dict.keys old) src (ground (arith, apart)) m) s
      ]) in
      let beneath = beneath_nothing rel fresh (λ x k. elim (within x k) [
        | inl o ↦ not_below x rel old (no_dir x (Dict.keys old) old (ground (arith, apart)) o) m
        | inr s ↦ not_below x rel old (no_dir x (Dict.keys src) old (ground (arith, apart)) s) m
      ]) in
      rw beneath (rw below refl)

  handle_file-apart :
      (f : Fate) (rel : String) (fresh : Tree)
      → IsWithin fresh
      → mem rel (Dict.keys old) ≡ true
      → (handle_file f old rel fresh ≡ finished (plain_handle f old rel fresh))
        × IsWithin (plain_handle f old rel fresh)
  unfolding handle_file copy_file put_some plain_handle plain_put
  handle_file-apart dropped rel fresh within m = (refl, within)
  handle_file-apart replaced rel fresh within m = (refl, within)
  handle_file-apart carried rel fresh within m = elim (Option-cases (Dict.get old rel)) [
    | inl e ↦ rw e (refl, within)
    | inr (bytes, e) ↦ rw e (
      put_file-apart rel bytes fresh within m,
      λ x k. elim (Bool-cases (x == rel)) [
        | inl q ↦ inl (subst (λ y. mem y (Dict.keys old) ≡ true) (sym ((eq_iff x rel).0 q)) m)
        | inr q ↦ within x (ground (arith, mem-keys-put x fresh rel bytes, k, q))
      ],
    )
  ]

  carry_forward-apart :
      (roots rels : List String) (fresh : Tree)
      → IsWithin fresh
      → ((x : String) → mem x rels ≡ true → mem x (Dict.keys old) ≡ true)
      → carry_forward src roots old rels fresh ≡ finished (plain_carry src roots old rels fresh)
  unfolding carry_forward plain_carry
  carry_forward-apart roots [] fresh within inside = refl
  carry_forward-apart roots (rel ∷ rels) fresh within inside =
      let (done, within') =
        handle_file-apart (fate src roots rel) rel fresh within
          (inside rel (ground (arith, eq_iff rel rel))) in
      ap (λ c. then_carry c (carry_forward src roots old rels)) done
      ∙ carry_forward-apart roots rels (plain_handle (fate src roots rel) old rel fresh) within'
          (λ x m. inside x (ground (arith, m)))

  -- The whole carry-forward.
  pub carry_all-apart :
      (roots : List String)
      → carry_forward src roots old (sorted (Dict.keys old)) (copy_tree roots src)
        ≡ finished (plain_carry src roots old (sorted (Dict.keys old)) (copy_tree roots src))
  carry_all-apart roots =
      carry_forward-apart roots (sorted (Dict.keys old)) (copy_tree roots src)
        (λ x m. inr (keys-copy_tree roots src x m)) (λ x m. sym (mem-sorted x (Dict.keys old)) ∙ m)
