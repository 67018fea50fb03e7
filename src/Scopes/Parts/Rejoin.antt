-- ===== src/Scopes/Parts/Rejoin.antt =====
-- `"/".join(parts)` before `_declared_path_parts` (`cairn-core/scripts/change_docs.py`).
use cairness.Base.{
  ℕ, ◌≡◌, refl, ap, true, false, ◌&&◌, none, some, List, [], ◌∷◌, ◌++◌, eqb, ◌∙◌, if◌then◌else◌,
  arith, equal_codes, starts_with, subst, append-nil,
}
use cairness.Scopes.Parts.{
  is_space, strip_right, strip_both, is_empty, drop_dots, join_slashes, is_relative, any_part,
  segments, ends_with_slash, is_rejected, declared_path_parts, raw_parts, stripped_parts,
}
use cairness.Scopes.Parts.Plain.{
  none_of, is_special, is_plain_part, all_plain, none_of-join, strip_both-none, has_code-none,
  no_slash, split-join,
}

-- A path does not end with a slash if its last segment is plain.
part-ends : (part : List ℕ) → none_of (eqb b'/') part ≡ true → ends_with_slash part ≡ false
unfolding none_of ends_with_slash
part-ends [] h = refl
part-ends (c ∷ []) h = ground (arith, h)
part-ends (c ∷ d ∷ cs) h = part-ends (d ∷ cs) (ground (arith, h))

append-ends :
    (part : List ℕ) (c : ℕ) (cs : List ℕ)
    → ends_with_slash (part ++ (c ∷ cs)) ≡ ends_with_slash (c ∷ cs)
unfolding ends_with_slash
append-ends [] c cs = refl
append-ends (d ∷ []) c cs = refl
append-ends (d ∷ e ∷ part) c cs = append-ends (e ∷ part) c cs

more-ends : (cs : List ℕ) → is_empty cs ≡ false → ends_with_slash (b'/' ∷ cs) ≡ ends_with_slash cs
unfolding is_empty ends_with_slash
more-ends [] h = absurd (cc)
more-ends (c ∷ cs) h = refl

plain-full : (part : List ℕ) → is_plain_part part ≡ true → is_empty part ≡ false
unfolding is_plain_part is_relative equal_codes is_empty
plain-full [] h = absurd (ground arith)
plain-full (c ∷ cs) h = refl

join-full :
    (part : List ℕ) (parts : List (List ℕ))
    → all_plain (part ∷ parts) ≡ true
    → is_empty (join_slashes (part ∷ parts)) ≡ false
unfolding join_slashes all_plain is_empty
join-full part [] h = plain-full part (ground (arith, h))
join-full [] (next ∷ parts) h = refl
join-full (c ∷ cs) (next ∷ parts) h = refl

join-ends :
    (part : List ℕ) (parts : List (List ℕ))
    → all_plain (part ∷ parts) ≡ true
    → ends_with_slash (join_slashes (part ∷ parts)) ≡ false
unfolding join_slashes all_plain
join-ends part [] h = part-ends part (no_slash part (ground (arith, h)))
join-ends part (next ∷ parts) h =
    append-ends part b'/' (join_slashes (next ∷ parts))
    ∙ more-ends (join_slashes (next ∷ parts)) (join-full next parts (ground (arith, h)))
    ∙ join-ends next parts (ground (arith, h))

strip_slash-ends : (cs : List ℕ) → ends_with_slash cs ≡ false → strip_right (eqb b'/') cs ≡ cs
unfolding ends_with_slash strip_right is_empty
strip_slash-ends [] h = refl
strip_slash-ends (c ∷ []) h = ground (arith, h)
strip_slash-ends (c ∷ d ∷ cs) h = keep c (d ∷ cs) (strip_slash-ends (d ∷ cs) h) refl
  where
    keep :
        (b : ℕ) (bs : List ℕ)
        → strip_right (eqb b'/') bs ≡ bs
        → is_empty bs ≡ false
        → strip_right (eqb b'/') (b ∷ bs) ≡ b ∷ bs
    keep b bs e full = ground (arith, e, ap is_empty e, full)

empty_part : is_relative [] ≡ true
unfolding is_relative equal_codes
empty_part = refl

drop_dots-second :
    (a b : ℕ) (cs : List ℕ) → eqb a b'.' && eqb b b'/' ≡ false → drop_dots (a ∷ b ∷ cs) ≡ a ∷ b ∷ cs
unfolding drop_dots
drop_dots-second a b cs h = ground (arith, h)

one_code : (a : ℕ) → is_relative (a ∷ []) ≡ false → eqb a b'.' ≡ false
unfolding is_relative equal_codes
one_code a h = ground (arith, h)

second_code :
    (a b : ℕ) (part : List ℕ) → none_of (eqb b'/') (a ∷ b ∷ part) ≡ true → eqb b b'/' ≡ false
unfolding none_of
second_code a b part h = ground (arith, h)

drop_dots-part :
    (part : List ℕ) (cs : List ℕ)
    → none_of (eqb b'/') part ≡ true
    → is_relative part ≡ false
    → drop_dots (part ++ cs) ≡ part ++ cs
unfolding drop_dots
drop_dots-part [] cs h r = absurd (ground (arith, r, empty_part))
drop_dots-part (a ∷ []) [] h r = refl
drop_dots-part (a ∷ []) (c ∷ cs) h r =
    drop_dots-second a c cs (ap (λ b. b && eqb c b'/') (one_code a r))
drop_dots-part (a ∷ b ∷ part) cs h r =
    drop_dots-second a b (part ++ cs) (ground (arith, second_code a b part h))

not_relative : (part : List ℕ) → is_plain_part part ≡ true → is_relative part ≡ false
unfolding is_plain_part
not_relative part h = ground (arith, h)

drop_dots-join :
    (part : List ℕ) (parts : List (List ℕ))
    → all_plain (part ∷ parts) ≡ true
    → drop_dots (join_slashes (part ∷ parts)) ≡ join_slashes (part ∷ parts)
unfolding join_slashes all_plain
drop_dots-join part [] h =
    subst (λ cs. drop_dots cs ≡ cs) (append-nil part)
      (drop_dots-part part [] (no_slash part (ground (arith, h)))
        (not_relative part (ground (arith, h))))
drop_dots-join part (next ∷ parts) h =
    drop_dots-part part (b'/' ∷ join_slashes (next ∷ parts)) (no_slash part (ground (arith, h)))
      (not_relative part (ground (arith, h)))

refl_empty : is_empty {A = ℕ} [] ≡ true
unfolding is_empty
refl_empty = refl

part-starts :
    (part cs : List ℕ) → is_plain_part part ≡ true → starts_with (b'/' ∷ []) (part ++ cs) ≡ false
unfolding none_of starts_with
part-starts [] cs h = absurd (ground (arith, plain-full [] h, refl_empty))
part-starts (c ∷ part) cs h = ground (arith, no_slash (c ∷ part) h)

join-starts :
    (part : List ℕ) (parts : List (List ℕ))
    → all_plain (part ∷ parts) ≡ true
    → starts_with (b'/' ∷ []) (join_slashes (part ∷ parts)) ≡ false
unfolding join_slashes all_plain
join-starts part [] h =
    subst (λ cs. starts_with (b'/' ∷ []) cs ≡ false) (append-nil part)
      (part-starts part [] (ground (arith, h)))
join-starts part (next ∷ parts) h =
    part-starts part (b'/' ∷ join_slashes (next ∷ parts)) (ground (arith, h))

plain-relative :
    (parts : List (List ℕ)) → all_plain parts ≡ true → any_part is_relative parts ≡ false
unfolding all_plain is_plain_part any_part
plain-relative [] h = refl
plain-relative (part ∷ parts) h = ground (arith, h, plain-relative parts)

join-IsAccepted :
    (part : List ℕ) (parts : List (List ℕ))
    → all_plain (part ∷ parts) ≡ true
    → is_rejected (join_slashes (part ∷ parts)) ≡ false
unfolding is_rejected is_special
join-IsAccepted part parts h =
    let cs = join_slashes (part ∷ parts) in
    let backslash =
      has_code-none b'\\' cs
        (none_of-join (eqb b'\\') refl (λ c i. ground (arith, i)) (part ∷ parts) h) in
    let null =
      has_code-none 0 cs (none_of-join (eqb 0) refl (λ c i. ground (arith, i)) (part ∷ parts) h) in
    ground (arith, join-full part parts h, join-starts part parts h, backslash, null)

strip-join :
    (part : List ℕ) (parts : List (List ℕ))
    → all_plain (part ∷ parts) ≡ true
    → strip_both (eqb b'`') (strip_both is_space (join_slashes (part ∷ parts)))
      ≡ join_slashes (part ∷ parts)
unfolding is_special
strip-join part parts h =
    let cs = join_slashes (part ∷ parts) in
    let space = none_of-join is_space refl (λ c i. ground (arith, i)) (part ∷ parts) h in
    let tick = none_of-join (eqb b'`') refl (λ c i. ground (arith, i)) (part ∷ parts) h in
    ap (strip_both (eqb b'`')) (strip_both-none is_space cs space)
    ∙ strip_both-none (eqb b'`') cs tick

segments-join :
    (part : List ℕ) (parts : List (List ℕ))
    → all_plain (part ∷ parts) ≡ true
    → segments false (join_slashes (part ∷ parts)) ≡ some (part ∷ parts)
unfolding segments
segments-join part parts h =
    let split = split-join part parts h in
    let relative = ap (any_part is_relative) split ∙ plain-relative (part ∷ parts) h in
    ground (arith, join-full part parts h, split, relative)

stripped-accepted :
    (cs : List ℕ)
    → is_rejected cs ≡ false
    → stripped_parts false cs ≡ raw_parts false (drop_dots cs)
unfolding stripped_parts
stripped-accepted cs h = ap (λ b. if b then none else raw_parts false (drop_dots cs)) h

raw-join :
    (part : List ℕ) (parts : List (List ℕ))
    → all_plain (part ∷ parts) ≡ true
    → raw_parts false (join_slashes (part ∷ parts)) ≡ some (part ∷ parts)
unfolding raw_parts
raw-join part parts h =
    let ends = join-ends part parts h in
    ap (λ b. segments b (strip_right (eqb b'/') (join_slashes (part ∷ parts)))) ends
    ∙ ap (segments false) (strip_slash-ends (join_slashes (part ∷ parts)) ends)
    ∙ segments-join part parts h

-- Segments without spaces, backticks, slashes, backslashes and NUL, none of them empty, `.` or
-- `..`, are read back unchanged when they are joined with slashes.
pub declared_path_parts-join_slashes :
    (part : List ℕ) (parts : List (List ℕ))
    → all_plain (part ∷ parts) ≡ true
    → declared_path_parts (join_slashes (part ∷ parts)) false ≡ some (part ∷ parts)
unfolding declared_path_parts
declared_path_parts-join_slashes part parts h =
    let accepted = join-IsAccepted part parts h in
    ap (stripped_parts false) (strip-join part parts h)
    ∙ stripped-accepted (join_slashes (part ∷ parts)) accepted
    ∙ ap (raw_parts false) (drop_dots-join part parts h)
    ∙ raw-join part parts h
