-- ===== src/Pagination/Complete.antt =====
-- Collect reads everything.
use astro_cli.Pagination.Finds.{is_last, collect_pages-step}
use astro_cli.Prelude.{
  drop-append, take-drop, length-take-drop, length-drop, ◌*◌, length-zero, ◌+◌, true, drop, ◌≤◌,
  take, append-nil, zero, append_assoc, inr, ap, [], inl, Bool-cases, arith, length-append, ◌∙◌,
  refl, sym, ◌++◌, ok, suc, length, ◌≡◌, Result, ℕ, List, String,
}
use astro_cli.Pagination.{max_list_pages, collect, collect_pages, ListError}

module _ {A : Type 0} (what : String) (fetch : ℕ → Result ListError (List A × ℕ)) where
  -- A page of an endpoint that answers with the items from the offset on, `size` of them at most.
  abbrev pub page_of : ℕ → List A → ℕ → List A × ℕ
  page_of size all offset = (take size (drop offset all), length all)

  read_complete :
      (size : ℕ) (all pre rest : List A)
      → 1 ≤ size
      → pre ++ rest ≡ all
      → is_last what fetch (take size rest) (length all) (length (pre ++ take size rest)) ≡ true
      → pre ++ take size rest ≡ all
  read_complete size all pre rest one split last =
      let none_left : drop size rest ≡ [] = length-zero (drop size rest) (
        ground (
          arith,
          length-drop size rest,
          length-take-drop size rest,
          length-append pre rest,
          length-append pre (take size rest),
          ap (λ xs. length xs) split,
        )) in
      ap (λ xs. pre ++ xs)
        (sym (append-nil (take size rest))
          ∙ ap (λ xs. take size rest ++ xs) (sym none_left)
          ∙ take-drop size rest)
      ∙ split

  page_at :
      (size : ℕ) (all pre rest : List A)
      → fetch (length pre) ≡ ok (page_of size all (length pre))
      → pre ++ rest ≡ all
      → fetch (length pre) ≡ ok (take size rest, length all)
  page_at size all pre rest answer split =
      let left : drop (length pre) all ≡ rest =
        ap (λ xs. drop (length pre) xs) (sym split) ∙ drop-append pre rest in
      answer ∙ ap (λ xs. ok (take size xs, length all)) left

  collect_pages_complete :
      (size : ℕ) (all : List A)
      → 1 ≤ size
      → ((offset : ℕ) → fetch offset ≡ ok (page_of size all offset))
      → (pages : ℕ) (pre rest : List A) → pre ++ rest ≡ all
      → length rest ≤ size + pages * size
      → collect_pages what fetch (suc pages) pre ≡ ok all
  collect_pages_complete size all one answers zero pre rest split bound =
      collect_pages-step what fetch zero pre (take size rest) (length all)
        (page_at size all pre rest (answers (length pre)) split)
      ∙ (let last : is_last what fetch (take size rest) (length all)
                (length (pre ++ take size rest))
              ≡ true =
            ground (
              arith,
              length-drop size rest,
              length-take-drop size rest,
              length-append pre rest,
              length-append pre (take size rest),
              ap (λ xs. length xs) split,
            ) in
          rw last (ap ok (read_complete size all pre rest one split last)))
  collect_pages_complete size all one answers (suc pages) pre rest split bound =
      collect_pages-step what fetch (suc pages) pre (take size rest) (length all)
        (page_at size all pre rest (answers (length pre)) split)
      ∙ elim (Bool-cases
          (is_last what fetch (take size rest) (length all) (length (pre ++ take size rest)))) [
            | inl last ↦ rw last (ap ok (read_complete size all pre rest one split last))
            | inr more ↦ rw more (
                collect_pages_complete size all one answers pages (pre ++ take size rest)
                  (drop size rest)
                  (append_assoc pre (take size rest) (drop size rest)
                    ∙ ap (λ xs. pre ++ xs) (take-drop size rest)
                    ∙ split)
                  (omega (arith, bound, length-drop size rest)))
          ]

  -- On an endpoint that answers each offset with the items from there on, at most a page of them,
  -- and with the number of all, and that holds at most a hundred pages, Collect returns all the
  -- items, in their order.
  pub collect_complete :
      (size : ℕ) (all : List A)
      → 1 ≤ size
      → ((offset : ℕ) → fetch offset ≡ ok (page_of size all offset))
      → length all ≤ max_list_pages * size
      → collect what fetch ≡ ok all
  unfolding collect
  collect_complete size all one answers fits =
      collect_pages_complete size all one answers 99 [] all refl (omega (arith, fits))
