-- ===== src/Upgrade/Exact.antt =====
-- What an upgrade leaves in the framework directory (`_replace_framework_dir` of
-- `cairn-core/cc-cairn.py`).
use cairness.Base.{
  ◌≡◌, refl, sym, ap, ◌∙◌, String, Bool, true, false, not, ◌&&◌, ◌||◌, Option, none, some, List, [],
  ◌∷◌, ◌==◌, eq_iff, if◌then◌else◌, mem, is_given, arith, codes, equal_codes, Bool-cases, inl, inr,
}
use cairness.Base.Dict
use cairness.Base.Dict.{Dict}
use cairness.Upgrade.Files.{
  Tree, is_preserved, is_shipped, is_excluded_relative, in_source, is_framework_owned, top_of,
  any_dir,
}
use cairness.Upgrade.Replace.{copy_tree, Fate, dropped, carried, replaced, fate, fate_of}

-- The copies, when none of them raises or meets a directory.
unfoldable pub plain_put : (bytes : Option String) (rel : String) (to : Tree) → Tree
plain_put none rel to = to
plain_put (some bytes) rel to = Dict.put to rel bytes

unfoldable pub plain_handle : Fate → (old : Tree) (rel : String) (fresh : Tree) → Tree
unfolding plain_put
plain_handle carried old rel fresh = plain_put (Dict.get old rel) rel fresh
plain_handle dropped old rel fresh = fresh
plain_handle replaced old rel fresh = fresh

unfoldable pub plain_carry :
    (src : Tree) (roots : List String) (old : Tree) (rels : List String) (fresh : Tree) → Tree
unfolding plain_handle
plain_carry src roots old [] fresh = fresh
plain_carry src roots old (rel ∷ rels) fresh =
    plain_carry src roots old rels (plain_handle (fate src roots rel) old rel fresh)

-- What the release puts at a path.
unfoldable pub shipped : (src : Tree) (roots : List String) → String → Option String
shipped src roots rel =
    if is_shipped rel && not (is_excluded_relative roots rel) then Dict.get src rel else none

pub get-copy_tree :
    (src : Tree) (roots : List String) (rel : String)
    → Dict.get (copy_tree roots src) rel ≡ shipped src roots rel
unfolding copy_tree shipped Dict.get
get-copy_tree [] roots rel = ground arith
get-copy_tree ((x, bytes) ∷ src) roots rel = elim (Bool-cases (x == rel)) [
  | inl e ↦ ground (
    arith,
    e,
    ap is_shipped ((eq_iff x rel).0 e),
    ap (is_excluded_relative roots) ((eq_iff x rel).0 e),
    get-copy_tree src roots rel,
  )
  | inr e ↦ ground (arith, e, get-copy_tree src roots rel)
]

-- What the upgrade leaves at a path of the old tree.
unfoldable pub after_fate : Fate → (mine theirs : Option String) → Option String
after_fate carried none theirs = theirs
after_fate carried (some bytes) theirs = some bytes
after_fate dropped mine theirs = theirs
after_fate replaced mine theirs = theirs

get-plain_put :
    (o : Option String) (rel : String) (fresh : Tree) (x : String)
    → Dict.get (plain_put o rel fresh) x
      ≡ (if rel == x then after_fate carried o (Dict.get fresh x) else Dict.get fresh x)
unfolding plain_put after_fate
get-plain_put none rel fresh x = ground arith
get-plain_put (some bytes) rel fresh x = Dict.get-put fresh rel bytes x

after_twice :
    (f : Fate) (mine theirs : Option String)
    → after_fate f mine (after_fate f mine theirs) ≡ after_fate f mine theirs
unfolding after_fate
after_twice dropped mine theirs = refl
after_twice replaced mine theirs = refl
after_twice carried none theirs = refl
after_twice carried (some bytes) theirs = refl

get-plain_handle :
    (f : Fate) (old : Tree) (rel : String) (fresh : Tree) (x : String)
    → Dict.get (plain_handle f old rel fresh) x
      ≡ (if rel == x then after_fate f (Dict.get old x) (Dict.get fresh x) else Dict.get fresh x)
unfolding plain_handle after_fate
get-plain_handle dropped old rel fresh x = ground arith
get-plain_handle replaced old rel fresh x = ground arith
get-plain_handle carried old rel fresh x = elim (Bool-cases (rel == x)) [
  | inl e ↦ ground (
    arith,
    e,
    get-plain_put (Dict.get old rel) rel fresh x,
    ap (Dict.get old) ((eq_iff rel x).0 e),
  )
  | inr e ↦ ground (arith, e, get-plain_put (Dict.get old rel) rel fresh x)
]

-- The path of this round.
taken :
    (f : Fate) (mine theirs : Option String) {next last : Option String} (later here : Bool)
    → last ≡ (if later then after_fate f mine next else next)
    → next ≡ after_fate f mine theirs
    → after_fate f mine (after_fate f mine theirs) ≡ after_fate f mine theirs
    → here ≡ true
    → last ≡ (if here || later then after_fate f mine theirs else theirs)
taken f mine theirs true true h i j k = h ∙ ap (after_fate f mine) i ∙ j
taken f mine theirs false true h i j k = h ∙ i
taken f mine theirs true false h i j k = absurd (cc)
taken f mine theirs false false h i j k = absurd (cc)

-- Another path.
passed :
    (f : Fate) (mine theirs : Option String) {next last : Option String} (later here : Bool)
    → last ≡ (if later then after_fate f mine next else next)
    → next ≡ theirs
    → here ≡ false
    → last ≡ (if here || later then after_fate f mine theirs else theirs)
passed f mine theirs true false h i k = h ∙ ap (after_fate f mine) i
passed f mine theirs false false h i k = h ∙ i
passed f mine theirs true true h i k = absurd (cc)
passed f mine theirs false true h i k = absurd (cc)

pub get-plain_carry :
    (src : Tree) (roots : List String) (old : Tree) (rels : List String) (fresh : Tree) (x : String)
    → Dict.get (plain_carry src roots old rels fresh) x ≡ (
        if mem x rels
        then after_fate (fate src roots x) (Dict.get old x) (Dict.get fresh x)
        else Dict.get fresh x)
unfolding plain_carry
get-plain_carry src roots old [] fresh x = ground arith
get-plain_carry src roots old (rel ∷ rels) fresh x =
    let f = fate src roots x in
    let rest =
      get-plain_carry src roots old rels (plain_handle (fate src roots rel) old rel fresh) x in
    let here = get-plain_handle (fate src roots rel) old rel fresh x in
    elim (Bool-cases (rel == x)) [
      | inl e ↦
          let same = (eq_iff rel x).0 e in
          let again = after_twice f (Dict.get old x) (Dict.get fresh x) in
          let moved =
            here
            ∙ ground (
              arith,
              e,
              ap (λ y. after_fate (fate src roots y) (Dict.get old x) (Dict.get fresh x)) same,
            ) in
          taken f (Dict.get old x) (Dict.get fresh x) (mem x rels) (x == rel) rest moved again
            ((eq_iff x rel).1 (sym same))
      | inr e ↦
          passed f (Dict.get old x) (Dict.get fresh x) (mem x rels) (x == rel) rest
            (here ∙ ground (arith, e)) (ground (arith, e, eq_iff x rel, eq_iff rel x))
    ]

pub given→mem : (old : Tree) (x : String) → is_given (Dict.get old x) ≡ mem x (Dict.keys old)
unfolding Dict.get Dict.keys
given→mem [] x = refl
given→mem ((y, b) ∷ old) x = ground (arith, given→mem old x, eq_iff y x, eq_iff x y)

unfoldable pub expected_of :
    (excluded preserved shipped owned : Bool) (mine theirs : Option String) → Option String
expected_of excluded preserved shipped owned mine theirs =
    if excluded
    then none
    else if preserved && is_given mine
    then mine
    else if is_given theirs
    then (if shipped then theirs else none)
    else if owned
    then none
    else mine

-- What the user should find at a path after the upgrade: never an excluded file; the local files
-- that are to be preserved; what the release ships; and of the rest what the user has added outside
-- the directories that belong to the framework.
unfoldable pub expected :
    (src : Tree) (roots : List String) (mine : Option String) → String → Option String
unfolding expected_of
expected src roots mine rel =
    expected_of (is_excluded_relative roots rel) (is_preserved rel) (is_shipped rel)
      (is_framework_owned rel) mine (Dict.get src rel)

settings_free : is_framework_owned "settings.local.json" ≡ false
unfolding is_framework_owned top_of any_dir equal_codes codes
settings_free = refl

config_free : is_framework_owned "harness.config.yaml" ≡ false
unfolding is_framework_owned top_of any_dir equal_codes codes
config_free = refl

pub preserved-free : (rel : String) → is_preserved rel ≡ true → is_framework_owned rel ≡ false
preserved-free rel h = elim (Bool-cases (rel == "settings.local.json")) [
  | inl e ↦ ap is_framework_owned ((eq_iff rel "settings.local.json").0 e) ∙ settings_free
  | inr e ↦
      ap is_framework_owned ((eq_iff rel "harness.config.yaml").0 (ground (arith, e, h)))
      ∙ config_free
]

after-expected_of :
    (excluded preserved shipped owned : Bool) (mine theirs : Option String)
    → (preserved ≡ true → owned ≡ false)
    → after_fate
        (fate_of excluded preserved (is_given theirs && not excluded) owned)
        mine
        (if shipped && not excluded then theirs else none)
      ≡ expected_of excluded preserved shipped owned mine theirs
unfolding after_fate fate_of expected_of
after-expected_of excluded preserved shipped owned none none free = ground (arith, free)
after-expected_of excluded preserved shipped owned none (some t) free = ground (arith, free)
after-expected_of excluded preserved shipped owned (some m) none free = ground (arith, free)
after-expected_of excluded preserved shipped owned (some m) (some t) free = ground (arith, free)

pub after-expected :
    (src : Tree) (roots : List String) (mine : Option String) (rel : String)
    → after_fate (fate src roots rel) mine (shipped src roots rel) ≡ expected src roots mine rel
unfolding fate shipped expected in_source
after-expected src roots mine rel =
    after-expected_of (is_excluded_relative roots rel) (is_preserved rel) (is_shipped rel)
      (is_framework_owned rel) mine (Dict.get src rel) (preserved-free rel)
