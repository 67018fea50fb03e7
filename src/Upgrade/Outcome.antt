-- ===== src/Upgrade/Outcome.antt =====
-- Every outcome of `_replace_framework_dir`, the rollback after it, and the report that
-- `_upgrade_file_changes` makes before it (`cairn-core/cc-cairn.py`).
use cairness.Base.{
  ◌≡◌, subst, refl, sym, ap, ◌∙◌, String, Bool, true, false, not, ◌&&◌, ◌||◌, Option, none, some,
  List, [], ◌∷◌, ◌==◌, eq_iff, if◌then◌else◌, mem, is_given, filter_b, mem-filter_b, arith,
  Bool-cases, ◌⊎◌, inl, inr,
}
use cairness.Base.Dict
use cairness.Base.Dict.{Dict}
use cairness.Base.Sorting.{sorted, mem-sorted}
use cairness.Upgrade.Files.{
  Tree, tree_of, is_preserved, is_excluded_relative, in_source, is_stale, is_framework_owned,
  upgrade_file_changes,
}
use cairness.Upgrade.Replace.{
  Dirs, copy_tree, Fate, dropped, carried, replaced, fate, fate_of, is_dropped, dropped_files,
  Copying, complete, broken, no_temp, interrupted, after_carry, Replacing, refused, failed, done,
  has_version, is_accepted, replace_at, swap_over, install, replace_framework_dir,
  restore_failed_adapter_swap,
}
use cairness.Upgrade.Exact.{
  shipped, get-copy_tree, after_fate, plain_carry, get-plain_carry, given→mem, expected,
  after-expected,
}
use cairness.Upgrade.Apart.{are_apart, carry_all-apart}

-- What stands at a path of a directory that may be missing.
unfoldable pub at : Option Tree → String → Option String
at none rel = none
at (some tree) rel = Dict.get tree rel

-- What is left of the old directory if something raises.
abbrev pub KeepsOld : Copying → (dirs left : Dirs) → Type 0
KeepsOld complete dirs left = ⊥
KeepsOld broken dirs left = left.dst ≡ dirs.dst
KeepsOld no_temp dirs left = (left.dst ≡ dirs.dst) ⊎ (left.backup ≡ dirs.dst)
KeepsOld (interrupted n report) dirs left = left.backup ≡ dirs.dst

-- The copy is in place.
abbrev pub is_through : Copying → Bool
is_through complete = true
is_through (interrupted n report) = true
is_through _ = false

unfoldable pub IsExpected :
    (name : String) (src : Tree) (force : Bool) (roots : List String)
    → Dirs
    → Copying
    → Replacing
    → Type 0
IsExpected name src force roots dirs copying (refused reason) =
    (name ≡ ".cairness")
    ⊎ ((old : Tree) × (dirs.dst ≡ some old) × (force ≡ false) × (has_version old ≡ false))
IsExpected name src force roots dirs copying (failed d) = KeepsOld copying dirs d
IsExpected name src force roots dirs copying (done d has_backup removed) =
    (is_through copying ≡ true)
    × ((rel : String) → at d.dst rel ≡ expected src roots (at dirs.dst rel) rel)
    × ((rel : String)
        → mem rel removed ≡ mem rel (upgrade_file_changes src dirs.dst roots).dropped_stale_files)
    × ((restore_failed_adapter_swap has_backup d).dst ≡ dirs.dst)

nothing_mine : (f : Fate) (theirs : Option String) → after_fate f none theirs ≡ theirs
unfolding after_fate
nothing_mine dropped theirs = refl
nothing_mine carried theirs = refl
nothing_mine replaced theirs = refl

carried-expected :
    (src : Tree) (roots : List String) (old : Tree) (rel : String)
    → Dict.get (plain_carry src roots old (sorted (Dict.keys old)) (copy_tree roots src)) rel
      ≡ expected src roots (Dict.get old rel) rel
carried-expected src roots old rel =
    get-plain_carry src roots old (sorted (Dict.keys old)) (copy_tree roots src) rel
    ∙ ap
        (λ t.
          if mem rel (sorted (Dict.keys old))
          then after_fate (fate src roots rel) (Dict.get old rel) t
          else t)
        (get-copy_tree src roots rel)
    ∙ known (mem rel (sorted (Dict.keys old))) (Dict.get old rel)
        (given→mem old rel ∙ sym (mem-sorted rel (Dict.keys old)))
    ∙ after-expected src roots (Dict.get old rel) rel
  where
    known :
        (b : Bool) (mine : Option String)
        → is_given mine ≡ b
        → (if b
            then after_fate (fate src roots rel) mine (shipped src roots rel)
            else shipped src roots rel)
          ≡ after_fate (fate src roots rel) mine (shipped src roots rel)
    known true mine h = refl
    known false none h = sym (nothing_mine (fate src roots rel) (shipped src roots rel))
    known false (some m) h = absurd (cc)

fresh-expected :
    (src : Tree) (roots : List String) (rel : String)
    → shipped src roots rel ≡ expected src roots none rel
fresh-expected src roots rel =
    sym (nothing_mine (fate src roots rel) (shipped src roots rel))
    ∙ after-expected src roots none rel

dropped-stale :
    (excluded preserved in_src owned : Bool)
    → is_dropped (fate_of excluded preserved in_src owned) ≡ (excluded || (not in_src && owned))
unfolding is_dropped fate_of
dropped-stale excluded preserved in_src owned = ground arith

one_more :
    (x rel : String) (xs ys : List String) (b c : Bool)
    → b ≡ c
    → mem rel xs ≡ mem rel ys
    → mem rel (if b then x ∷ xs else xs) ≡ mem rel (if c then x ∷ ys else ys)
one_more x rel xs ys b c same h = ground (arith, same, h)

mem-dropped_files :
    (src : Tree) (roots rels : List String) (rel : String)
    → mem rel (dropped_files src roots rels) ≡ mem rel (filter_b (is_stale src roots) rels)
unfolding dropped_files fate is_stale
mem-dropped_files src roots [] rel = refl
mem-dropped_files src roots (x ∷ rels) rel =
    let same =
      dropped-stale (is_excluded_relative roots x) (is_preserved x) (in_source src roots x)
        (is_framework_owned x) in
    one_more x rel (dropped_files src roots rels) (filter_b (is_stale src roots) rels)
      (is_dropped (fate src roots x)) (is_stale src roots x) same
      (mem-dropped_files src roots rels rel)

announced :
    (src : Tree) (roots : List String) (old : Tree) (rel : String)
    → mem rel (dropped_files src roots (sorted (Dict.keys old)))
      ≡ mem rel (upgrade_file_changes src (some old) roots).dropped_stale_files
unfolding upgrade_file_changes
announced src roots old rel = ground (
  arith,
  mem-dropped_files src roots (sorted (Dict.keys old)) rel,
  mem-filter_b (is_stale src roots) rel (sorted (Dict.keys old)),
  mem-filter_b (is_stale src roots) rel (Dict.keys old),
  mem-sorted rel (Dict.keys old),
  mem-sorted rel (filter_b (is_stale src roots) (Dict.keys old)),
)

swap-IsExpected :
    (name : String) (src : Tree) (force : Bool) (roots : List String) (dirs : Dirs)
    (copying : Copying) (old : Tree)
    → dirs.dst ≡ some old
    → are_apart src old ≡ true
    → IsExpected name src force roots dirs copying
        (swap_over src roots dirs.merge_report old copying)
unfolding IsExpected swap_over after_carry at restore_failed_adapter_swap upgrade_file_changes
swap-IsExpected name src force roots dirs no_temp old e apart = inr (sym e)
swap-IsExpected name src force roots dirs broken old e apart = sym e
swap-IsExpected name src force roots dirs (interrupted n report) old e apart = sym e
swap-IsExpected name src force roots dirs complete old e apart =
    subst
      (λ c.
        IsExpected name src force roots dirs complete
          (after_carry src roots dirs.merge_report old c))
      (sym (carry_all-apart src old apart roots))
      (
        refl,
        (λ rel.
            carried-expected src roots old rel
            ∙ ap (λ o. expected src roots (at o rel) rel) (sym e)),
        (λ rel.
            announced src roots old rel
            ∙ ap (λ o. mem rel (upgrade_file_changes src o roots).dropped_stale_files) (sym e)),
        sym e,
      )

install-through :
    (name : String) (src : Tree) (force : Bool) (roots : List String) (dirs : Dirs)
    (copying : Copying)
    → dirs.dst ≡ none
    → is_through copying ≡ true
    → IsExpected name src force roots dirs copying
        (done (record dirs { dst = some (copy_tree roots src) }) false [])
unfolding IsExpected at restore_failed_adapter_swap upgrade_file_changes
install-through name src force roots dirs copying e h = (
  h,
  (λ rel.
      get-copy_tree src roots rel
      ∙ fresh-expected src roots rel
      ∙ ap (λ o. expected src roots (at o rel) rel) (sym e)),
  (λ rel. ap (λ o. mem rel (upgrade_file_changes src o roots).dropped_stale_files) (sym e)),
  sym e,
)

install-IsExpected :
    (name : String) (src : Tree) (force : Bool) (roots : List String) (dirs : Dirs)
    (copying : Copying)
    → dirs.dst ≡ none
    → IsExpected name src force roots dirs copying (install src roots dirs copying)
unfolding IsExpected install at restore_failed_adapter_swap upgrade_file_changes
install-IsExpected name src force roots dirs no_temp e = inl refl
install-IsExpected name src force roots dirs broken e = refl
install-IsExpected name src force roots dirs (interrupted n report) e =
    install-through name src force roots dirs (interrupted n report) e refl
install-IsExpected name src force roots dirs complete e =
    install-through name src force roots dirs complete e refl

not_forced :
    (force : Bool) (old : Tree)
    → is_accepted force old ≡ false
    → (force ≡ false) × (has_version old ≡ false)
unfolding is_accepted
not_forced force old h = (ground (arith, h), ground (arith, h))

existing-IsExpected :
    (name : String) (src : Tree) (force : Bool) (roots : List String) (dirs : Dirs)
    (copying : Copying) (old : Tree)
    → dirs.dst ≡ some old
    → are_apart src old ≡ true
    → IsExpected name src force roots dirs copying
        (replace_at src force roots dirs copying (some old))
unfolding replace_at IsExpected
existing-IsExpected name src force roots dirs copying old e apart =
    elim (Bool-cases (is_accepted force old)) [
      | inl h ↦ rw (h) (swap-IsExpected name src force roots dirs copying old e apart)
      | inr h ↦ rw (h) (inr (old, e, (not_forced force old h).0, (not_forced force old h).1))
    ]

-- If no file of the old directory is a directory of it or of the release, and none of the release a
-- directory of the old one, `_replace_framework_dir` refuses only `.cairness` and, unless forced, a
-- directory without a VERSION file, and fails only if the system raises. If it returns, every path of
-- the new directory has what is expected (nothing if it is excluded, else the user's file if it is to
-- be preserved, else the release's, else the user's unless its directory belongs to the framework),
-- the files listed as removed are those that `_upgrade_file_changes` announces, and
-- `_restore_failed_adapter_swap` brings the old directory back. If it fails, the old directory is in
-- place when the copy or its renaming has raised, and else in place or in the backup.
pub replace_framework_dir-IsExpected :
    (name : String) (src : Tree) (force : Bool) (roots : List String) (dirs : Dirs)
    (copying : Copying)
    → are_apart src (tree_of dirs.dst) ≡ true
    → IsExpected name src force roots dirs copying
        (replace_framework_dir name src force roots dirs copying)
unfolding replace_framework_dir replace_at IsExpected
replace_framework_dir-IsExpected name src force roots dirs copying apart =
    elim (Bool-cases (name == ".cairness")) [
      | inl e ↦ rw (e) (inl ((eq_iff name ".cairness").0 e))
      | inr e ↦ rw (e) (at_dst dirs.dst refl)
    ]
  where
    at_dst :
        (o : Option Tree)
        → dirs.dst ≡ o
        → IsExpected name src force roots dirs copying (replace_at src force roots dirs copying o)
    at_dst none e = install-IsExpected name src force roots dirs copying e
    at_dst (some old) e =
        existing-IsExpected name src force roots dirs copying old e
          (ap (λ o. are_apart src (tree_of o)) (sym e) ∙ apart)
