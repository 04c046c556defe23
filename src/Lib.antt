-- ===== src/Lib.antt =====
-- EmareCloud: the core logic of the server panel and of its firewall service, module by module.
--
-- Prelude, Lists, Dict and Text are the shared helpers: Boolean tests and equality of keys, list
-- slices and sorts, Python's dict as a list of pairs in the order of insertion, and Python's str
-- operations (case is that of ASCII).
--
-- emarefirewall/tenants.py
--   TenantStore models DictTenantStore: State has its records, Plans the plan limits and the name check,
--   and Tenants, Servers, Audits, Webhooks, Alerts, Tasks, Cgnat, Ipam and Reports one function per
--   method. A method takes the store last and returns its reply beside the new store. A reply under
--   success: False is a constructor of Error, one per message. The clock, the random key and the
--   SHA-256 of a key are arguments. The PostgreSQL store and the HTTP dispatcher are not modelled.
-- emarefirewall/law5651.py
--   Law5651 models the hash chain (stamp_entry, verify_entries, restore_from_entries); SHA-256 and the
--   JSON text of an entry are parameters. Law5651.Tsa models the branches of the time stamping client
--   over the outcomes of openssl and of the network.
-- emarefirewall/store.py
--   LogEntry is a row of the log, LogStore.Stats its statistics, LogStore.Store the state and the
--   operations that change it (add, clear, _flush_db, _persist, _load_from_db), LogStore.Query the
--   reading operations. The database is a record of the calls that LogStore makes of its backend; what a
--   call that raises leaves of it is anything. Locks are not modelled: every operation is one step, also the
--   flush of the timer, which takes no lock. Risk scores, which are floating-point numbers, are not modelled.
--
-- rbac.py
--   Rbac.Catalog and Rbac.Matrix are the tables of roles and permissions, Rbac.Access the look-ups and
--   the decorators. A decorator takes the caller (what the code reads of current_user and of request)
--   and returns the view's value, a JSON refusal or an abort.
-- failover_monitor.py
--   Failover.Monitor models one run of the script: what the two probes meet and the state that is loaded
--   give the state that is saved and the requests that are sent to the name service.
-- blockchain/reward_engine.py, models.py (EmarePoint)
--   Rewards.Points has the rows of points and their queries, Rewards.Engine the award of points and
--   their claims. A time is in microseconds; one call reads the clock once. The chain is a parameter.
--
-- core/tenant.py, core/helpers.py (tenant isolation)
--   Tenancy.Request is the tenant of a request (the tables of tokens and the hash are arguments),
--   Tenancy.Access the filters: a query is the list of rows that it returns. Integers reads a text as
--   Python's int does.
-- emarefirewall/cache.py
--   Cache.Memory is DictCache, Cache.Breaker RedisCache over a record of the calls that it makes of the
--   Redis client; a call that raises leaves the database as it was. A time is in nanoseconds.
-- models.py (PortRegistry)
--   Ports.Registry has the rows and the operations. The search for a free port is structural over the
--   number of ports of the range.
--
-- scheduler.py, backup_manager.py (_should_run)
--   Schedule.Cron is the match of a schedule, Schedule.Loop one turn of the loop, Schedule.Tasks the run
--   of the tasks. A time is in microseconds; SSH is a parameter.
-- command_security.py
--   Commands.Patterns are the regular expressions as texts, Commands.Check the checks; the engine is a
--   parameter.
-- license_manager.py
--   License.Info is what a licence says, License.Verify its check over what the file and the signature
--   turn out to be. A payload has values of the types that the code expects.
--
-- models.py (User)
--   Accounts.User has the list of permissions that may be assigned to a user and the recovery codes;
--   json is a parameter.
--
-- emarefirewall/manager.py
--   Firewall.Forms are the regular expressions as recognisers, Firewall.Validate the checks (_validate_*),
--   Firewall.Quote and Firewall.Mq the quoting (_sq, _mq). Firewall.Program is the language of the operations:
--   a program sends a command to a server and goes on with the reply, which is any; the caches of the
--   manager are its state, the answers of a cache service about the kinds of servers are any, and a ValueError that no try catches ends it.
--   Firewall.Detect has detect_type and the caches, Firewall.Rules, Block, Forward, Services and Network one
--   program per method. An index is an int that the caller has converted. The digits of a
--   pattern are those of Unicode (Text.Digits). Firewall.Terse reads what an Emare OS server
--   prints (_parse_emareos_terse), Firewall.Network.Readers the listings. get_status is not modelled.
--
-- emarefirewall/rmm.py
--   Rmm models tables of RMMStore, one module for each: Tasks, Tickets, Alerts (with the risk factors),
--   Correlation, Threats, Devices (with the metrics),
--   Cases (with their evidence and history) and Playbooks, over Actions. A table is its rows in the order
--   of insertion, a query a filter and a stable sort; a key that the table refuses makes an insertion answer none. A time is in
--   microseconds, for which ISO texts of one zone compare alike. The type of REAL is a parameter. A
--   method is one step, also where it takes the lock of the store several times, as the evaluation of the
--   correlation rules, the execution of a playbook and the link of an alert do.
--
-- All recursion is structural over lists, texts and numbers, so there is no fuel.
pub mod Prelude
pub mod Lists
pub mod Dict
pub mod Text
pub mod Integers
pub mod TenantStore
pub mod LogEntry
pub mod Law5651
pub mod LogStore
pub mod Rbac
pub mod Failover
pub mod Rewards
pub mod Tenancy
pub mod Cache
pub mod Ports
pub mod Schedule
pub mod Commands
pub mod License
pub mod Accounts
pub mod Firewall
pub mod Rmm
