-- ===== src/Proxy/Tests.antt =====
-- The theorems on routes at concrete inputs, and runs of the code.
use astro_cli.Prelude.Int.{ℤ, eq_ℤ, pos}
use astro_cli.Prelude.{
  eq_iff, arith, some, [], find_by, ok, ◌∷◌, refl, false, ◌≡◌, List, String, true,
}
use astro_cli.Proxy.Routes.{
  Route, Disk, Os, add_route, remove_route, get_route, holds, has_host, read_routes,
}
use astro_cli.Proxy.Routes.Unique.{Command, add, remove, list, run, IsWellFormed, run-IsWellFormed}
use astro_cli.Proxy.Routes.Views.{answer}
use astro_cli.Proxy.Routes.Lookup.{live_routes, Works, get_route-add_route, add_route-answer}
use astro_cli.Proxy.Routes.Table.{table_of, run_table, outcomes, run-run_table}
use astro_cli.Proxy.Routes.Failure.{fails, run-fails}

abbrev working : Os
working = record {
  lock_ok = true;
  mkdir_ok = true;
  write_ok = true;
  partial = false;
  rename_ok = true;
  remove_ok = true;
  is_pid_alive = λ pid. eq_ℤ pid (pos 7);
}

abbrev route : String → String → ℤ → Route
route host dir pid = record {
  hostname = host;
  port = "12000";
  project_dir = dir;
  pid = pid;
  services = [];
  mode = "";
}

abbrev disk : Disk
disk = record {
  file = holds (route "a.localhost" "/a" (pos 7) ∷ route "b.localhost" "/b" (pos 8) ∷ []);
  tmp_left = false;
}

abbrev script : List Command
script =
    add working (route "b.localhost" "/b2" (pos 7))
    ∷ remove (record working { rename_ok = false }) "a.localhost"
    ∷ list working
    ∷ []

disk-IsWellFormed : IsWellFormed disk
disk-IsWellFormed = (((ground (arith, eq_iff "b.localhost" "a.localhost")), tt), (tt, tt))

run-IsWellFormed_example : IsWellFormed (run script disk)
run-IsWellFormed_example = run-IsWellFormed script disk disk-IsWellFormed

run-run_table_example :
    table_of (run script disk) ≡ run_table (outcomes script disk) (table_of disk)
run-run_table_example = run-run_table script disk disk-IsWellFormed

-- "b.localhost" was stale, so another project takes it over.
added_run : (add_route working (route "b.localhost" "/b2" (pos 7)) disk).0 ≡ ok tt
unfolding add_route
added_run = refl

get_route-add_route_example :
    get_route "b.localhost" (add_route working (route "b.localhost" "/b2" (pos 7)) disk).1
    ≡ ok (some (route "b.localhost" "/b2" (pos 7)))
get_route-add_route_example =
    get_route-add_route working (route "b.localhost" "/b2" (pos 7)) disk "b.localhost" added_run

disk-Works : Works working disk
unfolding read_routes
disk-Works = record { locked = refl; made = refl; wrote = refl; renamed = refl; readable = refl }

add_route-answer_example :
    (add_route working (route "a.localhost" "/other" (pos 7)) disk).0
    ≡ answer
        (route "a.localhost" "/other" (pos 7))
        (find_by (has_host "a.localhost") (live_routes working disk))
add_route-answer_example =
    add_route-answer working (route "a.localhost" "/other" (pos 7)) disk disk-Works

removed_run : (remove_route working "a.localhost" disk).0 ≡ ok 0
unfolding remove_route
removed_run = refl

failed_run : fails (remove (record working { rename_ok = false }) "a.localhost") disk ≡ true
unfolding remove_route
failed_run = refl

run-fails_example :
    (run (remove (record working { rename_ok = false }) "a.localhost" ∷ []) disk).file ≡ disk.file
run-fails_example =
    run-fails (remove (record working { rename_ok = false }) "a.localhost") disk failed_run
