-- ===== src/Pagination/Finds.antt =====
-- Find finds what Collect would.
use astro_cli.Prelude.{
  append-nil, zero, append_assoc, inr, ap, [], inl, Option-cases, Bool-cases, arith, ◌∷◌,
  length-append, ◌∙◌, leb, refl, sym, bind-ok, if◌then◌else◌, ◌||◌, ◌++◌, ok, err, suc, length,
  some, none, eqb, ◌≡◌, Result, find_by, ℕ, List, String, Bool,
}
use astro_cli.Pagination.{
  max_list_pages, find, collect, found_or, find_pages, collect_pages, ListError,
}

module _ {A : Type 0} (pred : A → Bool) where
  find_by-append_none :
      (xs ys : List A) → find_by pred xs ≡ none → find_by pred (xs ++ ys) ≡ find_by pred ys
  find_by-append_none [] ys h = refl
  find_by-append_none (x ∷ xs) ys h = ground (arith, find_by-append_none xs ys)

  find_by-append_some :
      (xs ys : List A) (a : A) → find_by pred xs ≡ some a → find_by pred (xs ++ ys) ≡ some a
  find_by-append_some [] ys a h = absurd (cc)
  find_by-append_some (x ∷ xs) ys a h = ground (arith, find_by-append_some xs ys a)

module _ {A : Type 0} (what : String) (fetch : ℕ → Result ListError (List A × ℕ)) where
  -- The test that ends the loops.
  abbrev pub is_last : List A → ℕ → ℕ → Bool
  is_last items total next = eqb (length items) 0 || leb total next

  pub collect_pages-step :
      (pages : ℕ) (pre items : List A) (total : ℕ)
      → fetch (length pre) ≡ ok (items, total)
      → collect_pages what fetch (suc pages) pre ≡ (
          if is_last items total (length (pre ++ items))
          then ok (pre ++ items)
          else collect_pages what fetch pages (pre ++ items))
  unfolding collect_pages
  collect_pages-step pages pre items total answer = rw answer refl

  collect_pages-ok :
      (pages : ℕ) (pre all : List A)
      → collect_pages what fetch (suc pages) pre ≡ ok all
      → (items : List A) × (total : ℕ) × (fetch (length pre) ≡ ok (items, total))
  unfolding collect_pages
  collect_pages-ok pages pre all h =
      let ((items, total), answer, next) = bind-ok (fetch (length pre)) _ h in
      (items, total, answer)

  collect_pages-zero :
      (pre : List A) → collect_pages what fetch 0 pre ≡ err (ListError.aborted_listing what)
  unfolding collect_pages
  collect_pages-zero pre = refl

  -- What is collected starts with what was read before.
  collect_pages-prefix :
      (pages : ℕ) (pre all : List A)
      → collect_pages what fetch pages pre ≡ ok all
      → (rest : List A) × (all ≡ pre ++ rest)
  collect_pages-prefix zero pre all h = absurd (cc (collect_pages-zero pre, h))
  collect_pages-prefix (suc pages) pre all h =
      let (items, total, answer) = collect_pages-ok pages pre all h in
      let next = sym (collect_pages-step pages pre items total answer) ∙ h in
      elim (Bool-cases (is_last items total (length (pre ++ items)))) [
        | inl last ↦ (items, cc (rw last at next))
        | inr more ↦
            let (rest, e) = collect_pages-prefix pages (pre ++ items) all (rw more at next) in
            (items ++ rest, e ∙ append_assoc pre items rest)
      ]

  collect_pages-read :
      (pages : ℕ) (pre items all : List A) (total : ℕ)
      → (if is_last items total (length (pre ++ items))
          then ok (pre ++ items)
          else collect_pages what fetch pages (pre ++ items))
        ≡ ok all
      → (rest : List A) × (all ≡ (pre ++ items) ++ rest)
  collect_pages-read pages pre items all total next =
      elim (Bool-cases (is_last items total (length (pre ++ items)))) [
        | inl last ↦ ([], cc (rw last at next, append-nil (pre ++ items)))
        | inr more ↦ collect_pages-prefix pages (pre ++ items) all (rw more at next)
      ]

  find_pages-step :
      (pred : A → Bool) (pages : ℕ) (pre items : List A) (total : ℕ)
      → fetch (length pre) ≡ ok (items, total)
      → find_pages what fetch pred (suc pages) (length pre)
        ≡ found_or what fetch pred (find_by pred items) (
            if is_last items total (length (pre ++ items))
            then ok none
            else find_pages what fetch pred pages (length (pre ++ items)))
  unfolding find_pages
  find_pages-step pred pages pre items total answer = rw (answer, length-append pre items) refl

  find_pages-collect :
      (pred : A → Bool) (pages : ℕ) (pre all : List A)
      → collect_pages what fetch pages pre ≡ ok all
      → find_by pred pre ≡ none
      → find_pages what fetch pred pages (length pre) ≡ ok (find_by pred all)
  find_pages-collect pred zero pre all h fresh = absurd (cc (collect_pages-zero pre, h))
  find_pages-collect pred (suc pages) pre all h fresh =
      let (items, total, answer) = collect_pages-ok pages pre all h in
      let next = sym (collect_pages-step pages pre items total answer) ∙ h in
      let (rest, whole) = collect_pages-read pages pre items all total next in
      let joined = find_by-append_none pred pre items fresh in
      find_pages-step pred pages pre items total answer ∙ elim (Option-cases (find_by pred items)) [
        | inl gone ↦ elim (Bool-cases (is_last items total (length (pre ++ items)))) [
          | inl last ↦
              let read : pre ++ items ≡ all = cc (rw last at next) in
              rw (gone, last) (ap ok (sym gone ∙ sym joined ∙ ap (find_by pred) read))
          | inr more ↦
              rw (gone, more)
                (find_pages-collect pred pages (pre ++ items) all (rw more at next) (joined ∙ gone))
        ]
        | inr (a, there) ↦ rw there (
            ap ok (
              sym (
                ap (find_by pred) whole
                ∙ find_by-append_some pred (pre ++ items) rest a (joined ∙ there))))
      ]

  -- Whenever Collect returns the items of all pages, Find returns the first of them that passes the
  -- test, or nothing if none does.
  pub find-collect :
      (pred : A → Bool) {all : List A}
      → collect what fetch ≡ ok all
      → find what fetch pred ≡ ok (find_by pred all)
  unfolding collect find
  find-collect pred {all} h = find_pages-collect pred max_list_pages [] all h refl
