-- ===== src/Restore/Admin.antt =====
-- internal/integration/postgres/admin.go: the statements that prepare a target database and hand it to
-- its owner. pq.QuoteIdentifier and pq.QuoteLiteral are arguments.
use pgwarden.Prelude.{Result, ok, err, ◌++◌, Bytes, codes, text_eq, is_empty, if◌then◌else◌}
use pgwarden.Go.Strings.{trim_space}
use pgwarden.Dump.{PgVersion}
use pgwarden.Conn.{
  ConnInfo, ConnError, empty_string, bad_uri, no_uri_database, no_host, no_database,
  parse_conn_string, with_database,
}
use pgwarden.Restore.{
  Calls, RestoreTargetOptions, psql_command, psql_script, Traced, ◌>>=◌, ◌>>◌, lift, act, with_text,
}

abbrev pub maintenance_database : Bytes
maintenance_database = codes "postgres"

-- The text of an error of ParseConnString.
unfoldable pub conn_error : Calls → Bytes → ConnError → Bytes
conn_error calls conn empty_string = codes "connection string is empty"
conn_error calls conn bad_uri = codes "parse connection URI: " ++ calls.url_error (trim_space conn)
conn_error calls conn no_uri_database = codes "database name is missing in connection URI"
conn_error calls conn no_host = codes "host is missing in connection string"
conn_error calls conn no_database = codes "dbname is missing in connection string"

abbrev pub info_or : (ConnError → Bytes) → Result ConnError ConnInfo → Result Bytes ConnInfo
info_or text (ok info) = ok info
info_or text (err e) = err (text e)

unfoldable pub parsed : Calls → Bytes → Result Bytes ConnInfo
parsed calls conn = info_or (conn_error calls conn) (parse_conn_string calls.parse_url conn)

-- A name that may be dropped.
unfoldable pub droppable : Bytes → Result Bytes Bytes
droppable db_name =
    if is_empty db_name
    then err (codes "target database name is required")
    else if text_eq db_name maintenance_database
    then err (codes "refusing to drop maintenance database \"postgres\"")
    else ok db_name

-- The name of the database to drop, if it may be dropped: the given one, or the connection's own.
unfoldable pub target_name : Bytes → Bytes → Result Bytes Bytes
target_name given own =
    let name = trim_space given in droppable (if is_empty name then own else name)

unfoldable pub terminate_sql : Calls → Bytes → Bytes
terminate_sql calls db_name =
    codes "SELECT pg_terminate_backend(pid) FROM pg_stat_activity WHERE datname = "
    ++ (calls.quote_literal db_name ++ codes " AND pid <> pg_backend_pid();")

unfoldable pub drop_sql : Calls → Bytes → Bytes
drop_sql calls db_name =
    codes "DROP DATABASE IF EXISTS " ++ (calls.quote_identifier db_name ++ codes ";")

unfoldable pub create_sql : Calls → Bytes → Bytes → Bytes
create_sql calls db_name owner =
    let create = codes "CREATE DATABASE " ++ calls.quote_identifier db_name in
    if is_empty owner
    then create ++ codes ";"
    else create ++ (codes " OWNER " ++ (calls.quote_identifier owner ++ codes ";"))

-- PrepareTargetDatabase
unfoldable pub prepare_target_database :
    Calls → PgVersion → Bytes → RestoreTargetOptions → Traced (Unit {0})
prepare_target_database calls version conn params = do
  info ← lift (parsed calls conn)
  db_name ← lift (target_name params.database_name info.database)
  let maintenance = with_database info maintenance_database
  with_text (codes "terminate connections: ")
      (act calls (psql_command version maintenance (terminate_sql calls db_name)))
  with_text (codes "drop database: ")
      (act calls (psql_command version maintenance (drop_sql calls db_name)))
  with_text (codes "create database: ") (
      act calls
        (psql_command version maintenance (create_sql calls db_name (trim_space params.owner))))

-- The script of ReassignDatabaseOwner, given the trimmed owner.
unfoldable pub reassign_script : Calls → PgVersion → Bytes → Bytes → Traced (Unit {0})
reassign_script calls version conn owner = do
  info ← lift (parsed calls conn)
  act calls (psql_script version conn owner info.database)

-- ReassignDatabaseOwner
unfoldable pub reassign_database_owner : Calls → PgVersion → Bytes → Bytes → Traced (Unit {0})
reassign_database_owner calls version conn owner =
    let name = trim_space owner in
    if is_empty name then lift (ok tt) else reassign_script calls version conn name
