-- ===== src/LogStore/Tests.antt =====
-- The theorems on the log at concrete inputs, over a database that is the list of its rows.
use emarecloud.Prelude.{
  String, true, refl, none, some, List, [], ◌∷◌, ◌++◌, arith, nat_eq, string_eq, pair_eq,
}
use emarecloud.Lists.{last}
use emarecloud.LogEntry.{TsaResult, Entry}
use emarecloud.Law5651.{disabled}
use emarecloud.LogStore.Stats.{no_stats, update_stats}
use emarecloud.LogStore.Stats.Laws.{Counts, update_stats-Counts, no_stats-Counts}
use emarecloud.LogStore.Store.{Backend, Log, Request, empty_log, entry_of, add}
use emarecloud.LogStore.Store.Order.{IsOrdered, add-IsOrdered}
use emarecloud.LogStore.Store.Durable.{Appends, IsDurable, add-IsDurable}
use emarecloud.LogStore.Query.{Filters}

abbrev rows_backend : Backend
rows_backend = record {
  Db = List Entry;
  load_recent = λ n d. some (last n d);
  insert_batch = λ es d. (true, d ++ es);
  delete_before = λ cutoff d. (true, d);
  delete_all = λ d. (true, []);
}

abbrev rows : List Entry → List Entry
rows d = d

rows_appends : Appends rows_backend rows
rows_appends hi es d h = (d ++ es, refl, refl)

abbrev fresh : Log rows_backend
fresh = empty_log rows_backend 2 (some []) 30 none

abbrev plain : String → String
plain text = text

abbrev message_of : Entry → String
message_of e = e.message

abbrev no_answer : String → TsaResult
no_answer hash = disabled "t0"

abbrev request : Request rows_backend
request = record {
  level = "WARNING";
  category = "RATE_LIMIT";
  method = "POST";
  path = "/login";
  ip = "10.0.0.9";
  status_code = 429;
  message = "slow down";
  server_id = "";
  extra = [];
}

fresh-IsOrdered : IsOrdered rows_backend fresh
fresh-IsOrdered = record { bounded = omega arith; ascending = tt; below = tt }

add-IsOrdered_example :
    IsOrdered rows_backend (add rows_backend plain message_of no_answer "t1" request fresh).1
add-IsOrdered_example =
    add-IsOrdered rows_backend plain message_of no_answer "t1" request fresh fresh-IsOrdered

fresh-IsDurable : IsDurable rows_backend rows [] fresh
fresh-IsDurable = record {
  db = [];
  present = refl;
  kept = refl;
  rising = omega arith;
  short = omega arith;
}

add-IsDurable_example :
    let (e, s') = add rows_backend plain message_of no_answer "t1" request fresh in
    IsDurable rows_backend rows (e ∷ []) s'
add-IsDurable_example =
    add-IsDurable rows_backend rows rows_appends plain message_of no_answer [] "t1" request fresh
      fresh-IsDurable

abbrev waiting : Entry
waiting = entry_of rows_backend 1 "t1" request

abbrev one_waiting : Log rows_backend
one_waiting = record fresh { entries = waiting ∷ []; counter = 1; write_buf = waiting ∷ [] }

update_stats-Counts_example : Counts (waiting ∷ []) (update_stats waiting no_stats)
update_stats-Counts_example = update_stats-Counts [] waiting no_stats no_stats-Counts

abbrev by_ip : Filters
by_ip = record {
  level = "";
  category = "";
  ip = "10.0.0.9";
  method = "";
  path_contains = "";
  since_id = 0;
  since_ts = "";
  category_prefix = "";
}
