-- ===== src/Pagination.antt =====
-- cloud/pagination/pagination.go: reading all the pages of a list. The endpoint is a parameter, a
-- function from the offset to a page's items and the number of all items, or an error.
mod Finds
mod Complete
mod Tests
use astro_cli.Prelude.{
  zero, leb, ◌||◌, eqb, if◌then◌else◌, none, find_by, ◌++◌, ◌+◌, ok, length, ◌>>=◌, some, suc,
  Option, Bool, [], err, List, String, ℕ, Result,
}

pub data ListError : Type 0 where
  fetch_failed aborted_listing : String → ListError

abbrev pub max_list_pages : ℕ
max_list_pages = 100

module _ {A : Type 0} (what : String) (fetch : ℕ → Result ListError (List A × ℕ)) where
  -- The loop of Collect: the offset is always the length of what was read.
  unfoldable pub collect_pages : ℕ → List A → Result ListError (List A)
  collect_pages zero all = err (aborted_listing what)
  collect_pages (suc pages) all = do
    (items, total) ← fetch (length all)
    let next = all ++ items
    let more = collect_pages pages next
    if eqb (length items) 0 || leb total (length next) then ok next else more

  unfoldable pub collect : Result ListError (List A)
  collect = collect_pages max_list_pages []

  module _ (pred : A → Bool) where
    -- What Find does with a page: the first match, or the end, or the pages after it.
    abbrev pub found_or : Option A → Result ListError (Option A) → Result ListError (Option A)
    found_or (some item) more = ok (some item)
    found_or none more = more

    unfoldable pub find_pages : ℕ → ℕ → Result ListError (Option A)
    find_pages zero scanned = err (aborted_listing what)
    find_pages (suc pages) scanned = do
      (items, total) ← fetch scanned
      let next = scanned + length items
      let more = find_pages pages next
      found_or (find_by pred items)
          (if eqb (length items) 0 || leb total next then ok none else more)

    unfoldable pub find : Result ListError (Option A)
    find = find_pages max_list_pages 0
