-- ===== src/Env/Objects/Complete.antt =====
-- listObjects reads every object of a platform that cuts its list into pages.
use astro_cli.Env.Objects.{
  normalize_list, max_list_pages, default_list_limit, build_list_params, validate, list_objects,
  list_pages,
}
use astro_cli.Prelude.{
  append_assoc, inr, inl, Bool-cases, take-drop, refl, some, append-nil, length-append, drop-append,
  none, length-take-drop, ◌∙◌, leb, length-drop, length-zero, sym, ◌||◌, arith, [], ap, ltb, true,
  if◌then◌else◌, Bool, zero, suc, ◌*◌, ◌+◌, ◌≤◌, ◌++◌, length, ok, drop, ◌≡◌, take, Result, List, ℕ,
}
use astro_cli.Env.{answered, EnvironmentObject, Page, EnvError, Platform, Scope, ObjectType}

-- The page at an offset, as the platform documents it.
abbrev pub page_of : ℕ → List EnvironmentObject → ℕ → Page
page_of limit all offset = record {
  objects = take limit (drop offset all);
  total_count = length all;
}

-- The test that ends the loop, on a page that was taken from what is left.
abbrev pub is_last :
    ℕ → List EnvironmentObject → List EnvironmentObject → List EnvironmentObject → Bool
is_last limit all pre rest =
    ltb (length (take limit rest)) limit || leb (length all) (length (pre ++ take limit rest))

list_pages-step :
    (fetch : ℕ → Result EnvError Page) (limit : ℕ) (all pre rest : List EnvironmentObject)
    (pages : ℕ)
    → fetch (length pre) ≡ ok (page_of limit all (length pre))
    → pre ++ rest ≡ all
    → list_pages fetch limit (suc pages) pre ≡ (
        if is_last limit all pre rest
        then ok (pre ++ take limit rest)
        else list_pages fetch limit pages (pre ++ take limit rest))
unfolding list_pages
list_pages-step fetch limit all pre rest pages answer split =
    let left : drop (length pre) all ≡ rest =
      ap (λ xs. drop (length pre) xs) (sym split) ∙ drop-append pre rest in
    rw (answer, left) refl

last_complete :
    (limit : ℕ) (all pre rest : List EnvironmentObject)
    → pre ++ rest ≡ all
    → is_last limit all pre rest ≡ true
    → pre ++ take limit rest ≡ all
last_complete limit all pre rest split last =
    let none_left : drop limit rest ≡ [] = length-zero (drop limit rest) (
      ground (
        arith,
        length-drop limit rest,
        length-take-drop limit rest,
        length-append pre rest,
        length-append pre (take limit rest),
        ap (λ xs. length xs) split,
      )) in
    ap (λ xs. pre ++ xs)
      (sym (append-nil (take limit rest))
        ∙ ap (λ xs. take limit rest ++ xs) (sym none_left)
        ∙ take-drop limit rest)
    ∙ split

short-last :
    (limit : ℕ) (all pre rest : List EnvironmentObject)
    → pre ++ rest ≡ all
    → length rest ≤ limit
    → is_last limit all pre rest ≡ true
short-last limit all pre rest split short = ground (
  arith,
  length-drop limit rest,
  length-take-drop limit rest,
  length-append pre rest,
  length-append pre (take limit rest),
  ap (λ xs. length xs) split,
)

list_pages_complete :
    (fetch : ℕ → Result EnvError Page) (limit : ℕ) (all : List EnvironmentObject)
    → ((offset : ℕ) → fetch offset ≡ ok (page_of limit all offset))
    → (pages : ℕ) (pre rest : List EnvironmentObject) → pre ++ rest ≡ all
    → length rest ≤ limit + pages * limit
    → list_pages fetch limit (suc pages) pre ≡ ok all
list_pages_complete fetch limit all answers zero pre rest split bound =
    list_pages-step fetch limit all pre rest zero (answers (length pre)) split
    ∙ (let last = short-last limit all pre rest split (omega (arith, bound)) in
        rw last (ap ok (last_complete limit all pre rest split last)))
list_pages_complete fetch limit all answers (suc pages) pre rest split bound =
    list_pages-step fetch limit all pre rest (suc pages) (answers (length pre)) split
    ∙ elim (Bool-cases (is_last limit all pre rest)) [
      | inl last ↦ rw last (ap ok (last_complete limit all pre rest split last))
      | inr more ↦ rw more (
          list_pages_complete fetch limit all answers pages (pre ++ take limit rest)
            (drop limit rest)
            (append_assoc pre (take limit rest) (drop limit rest)
              ∙ ap (λ xs. pre ++ xs) (take-drop limit rest)
              ∙ split)
            (omega (arith, bound, length-drop limit rest)))
    ]

-- On a platform that answers each offset with the objects from there on, at most a page of them,
-- and with the number of all, and that holds at most a hundred pages of objects, listObjects
-- returns all of them, in their order.
pub list_objects_complete :
    (p : Platform) (scope : Scope) (object_type : ObjectType)
    (resolve_linked include_secrets : Bool) (all : List EnvironmentObject)
    → validate scope ≡ ok tt
    → p.has_context ≡ true
    → ((offset : ℕ)
        → p.list
            (record (build_list_params scope object_type none resolve_linked include_secrets
              default_list_limit) { offset = some offset })
          ≡ answered (page_of default_list_limit all offset))
    → length all ≤ max_list_pages * default_list_limit
    → list_objects p scope object_type resolve_linked include_secrets ≡ ok all
unfolding list_objects normalize_list
list_objects_complete p scope object_type resolve_linked include_secrets all valid ctx answers
      fits =
    rw (valid, ctx)
      (list_pages_complete _ default_list_limit all (λ offset. rw (answers offset) refl) 99 [] all
        refl (omega (arith, fits)))
