-- ===== src/Ports/Tests.antt =====
-- Runs of the port registry, and its laws at concrete rows.
use emarecloud.Prelude.{
  ℕ, ◌≤◌, ◌<◌, ◌≡◌, refl, inl, true, false, none, some, List, [], ◌∷◌, ◌==◌, nat_eq, string_eq,
  pair_eq,
}
use emarecloud.Lists.{any}
use emarecloud.Ports.Registry.{
  port_min, port_max, PortRecord, Project, not_unique, is_used, next_free_port, new_record,
  allocate, release,
}
use emarecloud.Ports.Released.{allocate-release}
use emarecloud.Ports.Laws.{next_free_port_least, IsUnique, allocate-IsUnique}

abbrev shop : Project
shop = record {
  project_name = "Shop";
  project_slug = "shop";
  project_path = none;
  dc = none;
  stack = some "node";
  description = none;
  allocated_by = "system";
}

abbrev two_rows : List PortRecord
two_rows = new_record shop 8001 0 ∷ new_record shop 8002 1 ∷ []

two_rows_next : next_free_port two_rows ≡ some 8003
unfolding next_free_port is_used any emarecloud.Lists.is_in
two_rows_next = refl

next_free_port_least_example :
    (is_used 8003 two_rows ≡ false)
    × (port_min ≤ 8003)
    × (8003 ≤ port_max)
    × ((i : ℕ) → port_min ≤ i → i < 8003 → is_used i two_rows ≡ true)
next_free_port_least_example = next_free_port_least two_rows 8003 two_rows_next

two_rows-IsUnique : IsUnique two_rows
unfolding any
two_rows-IsUnique = (refl, (refl, tt))

allocate-IsUnique_example : IsUnique (allocate shop (some 8500) 2 two_rows).1
allocate-IsUnique_example = allocate-IsUnique shop (some 8500) 2 two_rows two_rows-IsUnique

abbrev released_rows : List PortRecord
released_rows = record (new_record shop 8001 0) { status = "released"; released_at = some 5 } ∷ []

release_marks : release 8001 5 (new_record shop 8001 0 ∷ []) ≡ released_rows
unfolding release
release_marks = refl

released_rows_next : next_free_port released_rows ≡ some 8001
unfolding next_free_port is_used any emarecloud.Lists.is_in
released_rows_next = refl

released_rows_hold : any (λ r. r.port == 8001) released_rows ≡ true
unfolding any
released_rows_hold = refl

allocate-release_example :
    allocate shop none 6 (release 8001 2 (new_record shop 8001 1 ∷ []))
    ≡ (inl not_unique, release 8001 2 (new_record shop 8001 1 ∷ []))
unfolding allocate next_free_port emarecloud.Lists.any is_used emarecloud.Lists.is_in
allocate-release_example =
    allocate-release shop shop 1 2 6 [] (new_record shop 8001 1 ∷ []) (new_record shop 8001 1) refl
