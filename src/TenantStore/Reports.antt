-- ===== src/TenantStore/Reports.antt =====
-- The dashboard and a tenant's report (`DictTenantStore`, emarefirewall/tenants.py). The texts of
-- `quota_usage` are left out of the report: they format the two numbers that it gives here.
use emarecloud.Prelude.{ℕ, not, ◌&&◌, Option, none, some, ◌==◌, nat_eq, string_eq, pair_eq}
use emarecloud.Dict.{values}
use emarecloud.Lists.{filter, length}
use emarecloud.TenantStore.State.{Tenant, Store}
use emarecloud.TenantStore.Tenants.{get_tenant}
use emarecloud.TenantStore.Servers.{list_servers}

pub record Dashboard : Type 0 where
  pub total_tenants : ℕ
  pub total_servers : ℕ
  pub pending_alerts : ℕ
  pub running_jobs : ℕ
  pub audit_last_24h : ℕ
  pub cgnat_active_mappings : ℕ
  pub ipam_assigned_ips : ℕ

unfoldable pub get_isp_dashboard : Store → Dashboard
get_isp_dashboard s = record {
  total_tenants = length (filter (λ t. t.active) (values s.tenants));
  total_servers = length s.servers;
  pending_alerts = length (filter (λ a. not a.acknowledged) (values s.alerts));
  running_jobs = length (filter (λ j. j.status == "running") (values s.bulk_jobs));
  audit_last_24h = length s.audits;
  cgnat_active_mappings = length s.cgnat_mappings;
  ipam_assigned_ips = length s.ipam_assignments;
}

pub record Report : Type 0 where
  pub tenant : Tenant
  pub server_count : ℕ
  pub pending_alerts : ℕ
  pub audit_last_24h : ℕ
  pub active_webhooks : ℕ
  pub active_scheduled_tasks : ℕ

unfoldable pub get_tenant_report : ℕ → Store → Option Report
unfolding get_tenant list_servers
get_tenant_report tenant_id s = elim (get_tenant tenant_id s) [
  | none ↦ none
  | some t ↦ some (record {
    tenant = t;
    server_count = length (list_servers tenant_id s);
    pending_alerts =
        length (filter (λ a. a.tenant_id == tenant_id && not a.acknowledged) (values s.alerts));
    audit_last_24h = length (filter (λ a. a.tenant_id == tenant_id) s.audits);
    active_webhooks =
        length (filter (λ w. w.tenant_id == tenant_id && w.active) (values s.webhooks));
    active_scheduled_tasks =
        length (filter (λ t. t.tenant_id == tenant_id && t.active) (values s.scheduled));
  })
]
