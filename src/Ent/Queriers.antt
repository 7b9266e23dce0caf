-- ===== src/Ent/Queriers.antt =====
-- internal/ent/*_query.go and *_delete.go: the builders of a table as blocks, with the variants that panic.
use shareserver.Base.{ℕ, Bool, Option, none, some, List, if◌then◌else◌}
use shareserver.Ent.{Value, Failure, Result, ok, err, Schema, Row}
use shareserver.Ent.Predicate.{Predicate}
use shareserver.Ent.Query.{
  Ordering, Query, Driver, is_not_found, where_, limited, from_offset, is_unique, ordered, all_rows,
  first, first_id, only, only_id, ids, count, exist, delete_exec, delete_one_exec,
}
use shareserver.Ent.Shares
use shareserver.Ent.Admins
use shareserver.Ent.AuditEvents
use shareserver.Ent.IpBans
use shareserver.Ent.LoginFailureEvents
use shareserver.Ent.Sessions

-- What a method that panics leaves.
pub data Panicking (A : Type 0) : Type 0 where
  returned : A → Panicking A
  panicked : Failure → Panicking A

abbrev pub or_panic : {A : Type 0} → Result A → Panicking A
or_panic (ok a) = returned a
or_panic (err e) = panicked e

-- `FirstX` and `FirstIDX`: not found is no panic, but the zero value.
abbrev pub or_panic_found : {A : Type 0} → Result A → Panicking (Option A)
or_panic_found (ok a) = returned (some a)
or_panic_found (err e) = if is_not_found e then returned none else panicked e

-- `Where`, `Limit`, `Offset`, `Unique` and `Order`
pub record QueryBuilders (C : Type 0) : Type 0 where
  pub where_rows : List (Predicate C) → Query C → Query C
  pub limit_rows : ℕ → Query C → Query C
  pub offset_rows : ℕ → Query C → Query C
  pub unique_rows : Bool → Query C → Query C
  pub order_rows : List (Ordering C) → Query C → Query C

-- `First` to `OnlyIDX`
pub record SingleQueries (C : Type 0) : Type 0 where
  pub first_row : Query C → Result (Row C)
  pub first_row_x : Query C → Panicking (Option (Row C))
  pub first_row_id : Query C → Result Value
  pub first_row_id_x : Query C → Panicking (Option Value)
  pub only_row : Query C → Result (Row C)
  pub only_row_x : Query C → Panicking (Row C)
  pub only_row_id : Query C → Result Value
  pub only_row_id_x : Query C → Panicking Value

-- `All` to `ExistX`
pub record ListQueries (C : Type 0) : Type 0 where
  pub rows : Query C → Result (List (Row C))
  pub rows_x : Query C → Panicking (List (Row C))
  pub row_ids : Query C → Result (List Value)
  pub row_ids_x : Query C → Panicking (List Value)
  pub row_count : Query C → Result ℕ
  pub row_count_x : Query C → Panicking ℕ
  pub has_rows : Query C → Result Bool
  pub has_rows_x : Query C → Panicking Bool

-- `Exec` and `ExecX` of a Delete builder, and of a DeleteOne builder.
pub record DeleteMethods (C : Type 0) : Type 0 where
  pub delete_rows : List (Predicate C) → Result ℕ
  pub delete_rows_x : List (Predicate C) → Panicking ℕ

pub record DeleteOneMethods (C : Type 0) : Type 0 where
  pub delete_single : Predicate C → Result (Unit {0})
  pub delete_single_x : Predicate C → Panicking (Unit {0})

abbrev pub query_builders : {C : Type 0} → QueryBuilders C
query_builders = record {
  where_rows = where_;
  limit_rows = limited;
  offset_rows = from_offset;
  unique_rows = is_unique;
  order_rows = ordered;
}

module _ {C : Type 0} (s : Schema C) (d : Driver C) where
  abbrev pub single_queries : SingleQueries C
  single_queries = record {
    first_row = first s d;
    first_row_x = λ q. or_panic_found (first s d q);
    first_row_id = first_id s d;
    first_row_id_x = λ q. or_panic_found (first_id s d q);
    only_row = only s d;
    only_row_x = λ q. or_panic (only s d q);
    only_row_id = only_id s d;
    only_row_id_x = λ q. or_panic (only_id s d q);
  }

  abbrev pub list_queries : ListQueries C
  list_queries = record {
    rows = all_rows s d;
    rows_x = λ q. or_panic (all_rows s d q);
    row_ids = ids s d;
    row_ids_x = λ q. or_panic (ids s d q);
    row_count = count s d;
    row_count_x = λ q. or_panic (count s d q);
    has_rows = exist s d;
    has_rows_x = λ q. or_panic (exist s d q);
  }

  abbrev pub delete_methods : DeleteMethods C
  delete_methods = record {
    delete_rows = delete_exec s d;
    delete_rows_x = λ ps. or_panic (delete_exec s d ps);
  }

  abbrev pub delete_one_methods : DeleteOneMethods C
  delete_one_methods = record {
    delete_single = delete_one_exec s d;
    delete_single_x = λ p. or_panic (delete_one_exec s d p);
  }

abbrev pub share_query_builders : QueryBuilders Shares.ShareColumn
share_query_builders = query_builders

abbrev pub share_single_queries : Driver Shares.ShareColumn → SingleQueries Shares.ShareColumn
share_single_queries = single_queries Shares.schema

abbrev pub share_list_queries : Driver Shares.ShareColumn → ListQueries Shares.ShareColumn
share_list_queries = list_queries Shares.schema

abbrev pub share_deletes : Driver Shares.ShareColumn → DeleteMethods Shares.ShareColumn
share_deletes = delete_methods Shares.schema

abbrev pub share_delete_ones : Driver Shares.ShareColumn → DeleteOneMethods Shares.ShareColumn
share_delete_ones = delete_one_methods Shares.schema

abbrev pub admin_query_builders : QueryBuilders Admins.AdminColumn
admin_query_builders = query_builders

abbrev pub admin_single_queries : Driver Admins.AdminColumn → SingleQueries Admins.AdminColumn
admin_single_queries = single_queries Admins.schema

abbrev pub admin_list_queries : Driver Admins.AdminColumn → ListQueries Admins.AdminColumn
admin_list_queries = list_queries Admins.schema

abbrev pub admin_deletes : Driver Admins.AdminColumn → DeleteMethods Admins.AdminColumn
admin_deletes = delete_methods Admins.schema

abbrev pub admin_delete_ones : Driver Admins.AdminColumn → DeleteOneMethods Admins.AdminColumn
admin_delete_ones = delete_one_methods Admins.schema

abbrev pub audit_event_query_builders : QueryBuilders AuditEvents.AuditEventColumn
audit_event_query_builders = query_builders

abbrev pub audit_event_single_queries :
    Driver AuditEvents.AuditEventColumn → SingleQueries AuditEvents.AuditEventColumn
audit_event_single_queries = single_queries AuditEvents.schema

abbrev pub audit_event_list_queries :
    Driver AuditEvents.AuditEventColumn → ListQueries AuditEvents.AuditEventColumn
audit_event_list_queries = list_queries AuditEvents.schema

abbrev pub audit_event_deletes :
    Driver AuditEvents.AuditEventColumn → DeleteMethods AuditEvents.AuditEventColumn
audit_event_deletes = delete_methods AuditEvents.schema

abbrev pub audit_event_delete_ones :
    Driver AuditEvents.AuditEventColumn → DeleteOneMethods AuditEvents.AuditEventColumn
audit_event_delete_ones = delete_one_methods AuditEvents.schema

abbrev pub ip_ban_query_builders : QueryBuilders IpBans.IpBanColumn
ip_ban_query_builders = query_builders

abbrev pub ip_ban_single_queries : Driver IpBans.IpBanColumn → SingleQueries IpBans.IpBanColumn
ip_ban_single_queries = single_queries IpBans.schema

abbrev pub ip_ban_list_queries : Driver IpBans.IpBanColumn → ListQueries IpBans.IpBanColumn
ip_ban_list_queries = list_queries IpBans.schema

abbrev pub ip_ban_deletes : Driver IpBans.IpBanColumn → DeleteMethods IpBans.IpBanColumn
ip_ban_deletes = delete_methods IpBans.schema

abbrev pub ip_ban_delete_ones : Driver IpBans.IpBanColumn → DeleteOneMethods IpBans.IpBanColumn
ip_ban_delete_ones = delete_one_methods IpBans.schema

abbrev pub login_failure_query_builders : QueryBuilders LoginFailureEvents.LoginFailureEventColumn
login_failure_query_builders = query_builders

abbrev pub login_failure_single_queries :
    Driver LoginFailureEvents.LoginFailureEventColumn
    → SingleQueries LoginFailureEvents.LoginFailureEventColumn
login_failure_single_queries = single_queries LoginFailureEvents.schema

abbrev pub login_failure_list_queries :
    Driver LoginFailureEvents.LoginFailureEventColumn
    → ListQueries LoginFailureEvents.LoginFailureEventColumn
login_failure_list_queries = list_queries LoginFailureEvents.schema

abbrev pub login_failure_deletes :
    Driver LoginFailureEvents.LoginFailureEventColumn
    → DeleteMethods LoginFailureEvents.LoginFailureEventColumn
login_failure_deletes = delete_methods LoginFailureEvents.schema

abbrev pub login_failure_delete_ones :
    Driver LoginFailureEvents.LoginFailureEventColumn
    → DeleteOneMethods LoginFailureEvents.LoginFailureEventColumn
login_failure_delete_ones = delete_one_methods LoginFailureEvents.schema

abbrev pub session_query_builders : QueryBuilders Sessions.SessionColumn
session_query_builders = query_builders

abbrev pub session_single_queries :
    Driver Sessions.SessionColumn → SingleQueries Sessions.SessionColumn
session_single_queries = single_queries Sessions.schema

abbrev pub session_list_queries : Driver Sessions.SessionColumn → ListQueries Sessions.SessionColumn
session_list_queries = list_queries Sessions.schema

abbrev pub session_deletes : Driver Sessions.SessionColumn → DeleteMethods Sessions.SessionColumn
session_deletes = delete_methods Sessions.schema

abbrev pub session_delete_ones :
    Driver Sessions.SessionColumn → DeleteOneMethods Sessions.SessionColumn
session_delete_ones = delete_one_methods Sessions.schema
