-- ===== src/Limits.antt =====
-- src/snowglobe/mvp_limits.py: the fixed budgets. The time to live is in microseconds.
use snowglobe.Prelude.{ℕ}
use snowglobe.Arrow.Types.{ArrowAdmissionLimits}

abbrev pub mvp_maximum_ttl : ℕ
mvp_maximum_ttl = 300000000

abbrev pub mvp_maximum_pending_requests : ℕ
mvp_maximum_pending_requests = 1

abbrev pub mvp_maximum_requests : ℕ
mvp_maximum_requests = 100

abbrev pub mvp_login_timeout_seconds : ℕ
mvp_login_timeout_seconds = 30

abbrev pub mvp_network_timeout_seconds : ℕ
mvp_network_timeout_seconds = 60

abbrev pub mvp_socket_timeout_seconds : ℕ
mvp_socket_timeout_seconds = 15

abbrev pub mvp_statement_timeout_seconds : ℕ
mvp_statement_timeout_seconds = 60

abbrev pub mvp_queued_timeout_seconds : ℕ
mvp_queued_timeout_seconds = 15

abbrev pub mvp_maximum_viewport_rows : ℕ
mvp_maximum_viewport_rows = 50

abbrev pub mvp_maximum_viewport_bytes : ℕ
mvp_maximum_viewport_bytes = 262144

abbrev pub mvp_arrow_limits : ArrowAdmissionLimits
mvp_arrow_limits = record {
  maximum_rows = mvp_maximum_viewport_rows;
  maximum_columns = 32;
  maximum_cell_bytes = 16384;
  maximum_arrow_bytes = mvp_maximum_viewport_bytes;
  maximum_decoded_bytes = mvp_maximum_viewport_bytes;
}
