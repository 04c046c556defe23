-- ===== src/Ports/Registry.antt =====
-- The rows of the port registry and its operations (`PortRegistry`, models.py). The column `port` is
-- unique: a commit that would give two rows one port raises and changes nothing.
use emarecloud.Prelude.{
  ℕ, zero, suc, ◌+◌, ◌-◌, String, ◌⊎◌, inl, inr, Bool, ◌&&◌, ◌||◌, Option, none, some, List, [],
  ◌∷◌, ◌++◌, if◌then◌else◌, ◌==◌, nat_eq, string_eq, pair_eq,
}
use emarecloud.Lists.{any, is_in}

abbrev pub port_min : ℕ
port_min = 8000

abbrev pub port_max : ℕ
port_max = 9999

abbrev pub reserved_ports : List ℕ
reserved_ports =
    5555 ∷ 8000 ∷ 3000 ∷ 3001 ∷ 3002 ∷ 3003 ∷ 5432 ∷ 6379 ∷ 7474 ∷ 7687 ∷ 9378 ∷ 11434 ∷ []

pub record PortRecord : Type 0 where
  pub port : ℕ
  pub project_name : String
  pub project_slug : String
  pub project_path : Option String
  pub dc : String
  pub stack : String
  pub description : Option String
  pub status : String
  pub allocated_by : String
  pub allocated_at : ℕ
  pub released_at : Option ℕ

-- `status in (STATUS_ALLOCATED, STATUS_RESERVED)`
abbrev pub is_taken : PortRecord → Bool
is_taken r = r.status == "allocated" || r.status == "reserved"

-- `p in used`: a taken row has the port, or the system reserves it.
unfoldable pub is_used : ℕ → List PortRecord → Bool
is_used p rows = any (λ r. is_taken r && r.port == p) rows || is_in p reserved_ports

-- The first of `count` ports from `p` on that is not used.
unfoldable pub first_free : (count p : ℕ) → List PortRecord → Option ℕ
first_free zero p rows = none
first_free (suc count) p rows =
    let rest = first_free count (p + 1) rows in if is_used p rows then rest else some p

-- `next_free_port`; `none` is its `ValueError`.
unfoldable pub next_free_port : List PortRecord → Option ℕ
unfolding first_free
next_free_port rows = first_free (port_max + 1 - port_min) port_min rows

-- The exceptions of `allocate`.
pub data Refusal : Type 0 where
  port_reserved : (port : ℕ) → Refusal
  port_in_use : (port : ℕ) (project_name : String) → Refusal
  no_port_left : Refusal
  not_unique : Refusal

-- The arguments of `allocate`, an empty text counting as none.
pub record Project : Type 0 where
  pub project_name : String
  pub project_slug : String
  pub project_path : Option String
  pub dc : Option String
  pub stack : Option String
  pub description : Option String
  pub allocated_by : String

abbrev pub or_else : Option String → String → String
or_else none d = d
or_else (some s) d = if s == "" then d else s

abbrev pub new_record : Project → (port now : ℕ) → PortRecord
new_record p port now = record {
  port = port;
  project_name = p.project_name;
  project_slug = p.project_slug;
  project_path = p.project_path;
  dc = or_else p.dc "dc1";
  stack = or_else p.stack "python";
  description = p.description;
  status = "allocated";
  allocated_by = p.allocated_by;
  allocated_at = now;
  released_at = none;
}

-- `filter_by(port=...).first()`
unfoldable pub find_port : ℕ → List PortRecord → Option PortRecord
find_port p [] = none
find_port p (r ∷ rows) = if r.port == p then some r else find_port p rows

-- `db.session.add(record)` and the commit.
unfoldable pub insert_record :
    PortRecord → List PortRecord → (Refusal ⊎ PortRecord) × List PortRecord
insert_record r rows =
    if any (λ q. q.port == r.port) rows then (inl not_unique, rows) else (inr r, rows ++ r ∷ [])

-- The check of a preferred port, by the row that has it.
abbrev pub check_preferred : ℕ → Option PortRecord → Option Refusal
check_preferred p row = if is_in p reserved_ports then some (port_reserved p) else elim row [
  | none ↦ none
  | some r ↦ if is_taken r then some (port_in_use p r.project_name) else none
]

abbrev pub insert_checked :
    Option Refusal → PortRecord → List PortRecord → (Refusal ⊎ PortRecord) × List PortRecord
insert_checked (some e) r rows = (inl e, rows)
insert_checked none r rows = insert_record r rows

abbrev pub insert_free :
    Project → Option ℕ → (now : ℕ) → List PortRecord → (Refusal ⊎ PortRecord) × List PortRecord
insert_free p none now rows = (inl no_port_left, rows)
insert_free p (some port) now rows = insert_record (new_record p port now) rows

-- `allocate`; a preferred port of 0 counts as none.
unfoldable pub allocate :
    Project
    → (preferred_port : Option ℕ) (now : ℕ) → List PortRecord
    → (Refusal ⊎ PortRecord) × List PortRecord
unfolding insert_record next_free_port find_port
allocate p none now rows = insert_free p (next_free_port rows) now rows
allocate p (some zero) now rows = insert_free p (next_free_port rows) now rows
allocate p (some (suc n)) now rows =
    insert_checked (check_preferred (suc n) (find_port (suc n) rows)) (new_record p (suc n) now)
      rows

-- `release` of the row with a port.
unfoldable pub release : ℕ → (now : ℕ) → List PortRecord → List PortRecord
release p now [] = []
release p now (r ∷ rows) =
    (if r.port == p then record r { status = "released"; released_at = some now } else r)
    ∷ release p now rows
