-- ===== src/TenantStore/Tasks.antt =====
-- Scheduled tasks and bulk jobs of a tenant (`DictTenantStore`, emarefirewall/tenants.py).
use emarecloud.Prelude.{
  ℕ, min, String, true, not, ◌||◌, Option, none, some, List, [], ◌∷◌, if◌then◌else◌, ◌==◌, nat_eq,
  string_eq, pair_eq,
}
use emarecloud.Dict
use emarecloud.Dict.{Dict, values}
use emarecloud.Lists.{filter, take, sort, descending, any, length}
use emarecloud.Text.{words, is_empty}
use emarecloud.TenantStore.State.{Task, Job, Store, Error, Reply, ok, failure, next_id}

abbrev pub valid_tasks : List String
valid_tasks =
    "backup" ∷ "security_scan" ∷ "l7_scan" ∷ "rule_apply" ∷ "rule_remove" ∷ "log_cleanup" ∷ []

unfoldable pub add_scheduled_task :
    (tenant_id : ℕ) (task_type cron_expr server_id now : String) → Store → Reply ℕ × Store
unfolding next_id
add_scheduled_task tenant_id task_type cron_expr server_id now s =
    let (tid, s') = next_id s in
    let task : Task = record {
      id = tid;
      tenant_id = tenant_id;
      task_type = task_type;
      server_id = server_id;
      cron_expr = cron_expr;
      active = true;
      last_run = none;
      next_run = none;
      created_at = now;
    } in
    if not (any (λ t. t == task_type) valid_tasks)
    then (failure Error.invalid_task_type, s)
    else if not (length (words cron_expr) == 5)
    then (failure Error.invalid_cron, s)
    else (ok tid, record s' { scheduled = Dict.set tid task s'.scheduled })

unfoldable pub list_scheduled_tasks : ℕ → Store → List Task
list_scheduled_tasks tenant_id s = filter (λ t. t.tenant_id == tenant_id) (values s.scheduled)

unfoldable pub remove_scheduled_task : (tenant_id task_id : ℕ) → Store → Reply (Unit {0}) × Store
remove_scheduled_task tenant_id task_id s = elim (Dict.get task_id s.scheduled) [
  | none ↦ (failure Error.task_not_found, s)
  | some t ↦
      (if t.tenant_id == tenant_id
        then (ok tt, record s { scheduled = Dict.delete task_id s.scheduled })
        else (failure Error.task_not_found, s))
]

unfoldable pub create_bulk_job :
    (tenant_id : ℕ) (job_type : String) (total : ℕ)
    → Dict String String
    → (now : String) → Store
    → ℕ × Store
unfolding next_id
create_bulk_job tenant_id job_type total payload now s =
    let (jid, s') = next_id s in
    let job : Job = record {
      id = jid;
      tenant_id = tenant_id;
      job_type = job_type;
      status = "running";
      total = total;
      completed = 0;
      failed = 0;
      results = [];
      payload = payload;
      created_at = now;
      finished_at = none;
    } in
    (jid, record s' { bulk_jobs = Dict.set jid job s'.bulk_jobs })

-- `status` is `none` where the caller passes no status; an empty one counts as none too.
abbrev with_status : Option String → (now : String) → Job → Job
with_status none now j = j
with_status (some status) now j =
    if is_empty status
    then j
    else if status == "completed" || status == "failed"
    then record j { status = status; finished_at = some now }
    else record j { status = status }

abbrev with_results : Option (List String) → Job → Job
with_results none j = j
with_results (some results) j = record j { results = results }

unfoldable pub update_bulk_job :
    (job_id completed failed : ℕ)
    → Option (List String)
    → Option String
    → (now : String) → Store
    → Store
update_bulk_job job_id completed failed results status now s = elim (Dict.get job_id s.bulk_jobs) [
  | none ↦ s
  | some j ↦
      (let j' = with_results results (record j { completed = completed; failed = failed }) in
        record s { bulk_jobs = Dict.set job_id (with_status status now j') s.bulk_jobs })
]

unfoldable pub get_bulk_job : ℕ → Store → Option Job
get_bulk_job job_id s = Dict.get job_id s.bulk_jobs

unfoldable pub list_bulk_jobs : (tenant_id limit : ℕ) → Store → List Job
list_bulk_jobs tenant_id limit s =
    take (min limit 100)
      (sort (descending (λ j. j.id)) (filter (λ j. j.tenant_id == tenant_id) (values s.bulk_jobs)))
