-- ===== src/Pagination/Tests.antt =====
-- The theorems on paged lists at a concrete endpoint.
use astro_cli.Pagination.Finds.{find-collect}
use astro_cli.Pagination.Complete.{collect_complete}
use astro_cli.Prelude.{refl, arith, drop, some, take, leb, ok, [], ◌≡◌, Bool, Result, ◌∷◌, ℕ, List}
use astro_cli.Pagination.{find, collect, ListError}

-- An endpoint that answers with two numbers a page.
abbrev numbers : List ℕ
numbers = 4 ∷ 8 ∷ 15 ∷ 16 ∷ 23 ∷ []

abbrev fetch_two : ℕ → Result ListError (List ℕ × ℕ)
fetch_two offset = ok (take 2 (drop offset numbers), 5)

abbrev over_ten : ℕ → Bool
over_ten n = leb 10 n

collect-complete_example : collect "numbers" fetch_two ≡ ok numbers
collect-complete_example =
    collect_complete "numbers" fetch_two 2 numbers (omega arith) (λ offset. refl) (omega arith)

find-collect_example : find "numbers" fetch_two over_ten ≡ ok (some 15)
find-collect_example = find-collect "numbers" fetch_two over_ten {all = numbers} collected
  where
    collected : collect "numbers" fetch_two ≡ ok numbers
    collected =
        collect_complete "numbers" fetch_two 2 numbers (omega arith) (λ offset. refl) (omega arith)
