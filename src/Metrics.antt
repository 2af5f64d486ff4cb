-- ===== src/Metrics.antt =====
-- src/core/MetricsCollector.ts: the counters and their text for Prometheus. `Date.now()` is an
-- argument.
use live_r.Base.{ℕ, ◌+◌, ◌-◌, ◌/◌, List, [], ◌∷◌, ◌++◌}
use live_r.Base.Text.{Str, codes}
use live_r.Base.Decimal.{decimal}

pub record MetricsCollector : Type 0 where
  pub messages_received : ℕ
  pub messages_sent : ℕ
  pub connections_opened : ℕ
  pub connections_closed : ℕ
  pub errors : ℕ
  pub rate_limit_hits : ℕ
  pub started_at : ℕ

pub record MetricsSnapshot : Type 0 where
  pub messages_received : ℕ
  pub messages_sent : ℕ
  pub connections_opened : ℕ
  pub connections_closed : ℕ
  pub errors : ℕ
  pub rate_limit_hits : ℕ
  pub uptime_seconds : ℕ

-- new MetricsCollector()
unfoldable pub create : ℕ → MetricsCollector
create now = record {
  messages_received = 0;
  messages_sent = 0;
  connections_opened = 0;
  connections_closed = 0;
  errors = 0;
  rate_limit_hits = 0;
  started_at = now;
}

unfoldable pub increment_messages_received : MetricsCollector → MetricsCollector
increment_messages_received m = record m { messages_received = m.messages_received + 1 }

unfoldable pub increment_messages_sent : ℕ → MetricsCollector → MetricsCollector
increment_messages_sent count m = record m { messages_sent = m.messages_sent + count }

unfoldable pub increment_connections_opened : MetricsCollector → MetricsCollector
increment_connections_opened m = record m { connections_opened = m.connections_opened + 1 }

unfoldable pub increment_connections_closed : MetricsCollector → MetricsCollector
increment_connections_closed m = record m { connections_closed = m.connections_closed + 1 }

unfoldable pub increment_errors : MetricsCollector → MetricsCollector
increment_errors m = record m { errors = m.errors + 1 }

unfoldable pub increment_rate_limit_hits : MetricsCollector → MetricsCollector
increment_rate_limit_hits m = record m { rate_limit_hits = m.rate_limit_hits + 1 }

-- The clock does not run backwards: ℕ's subtraction stops at 0.
unfoldable pub uptime : ℕ → MetricsCollector → ℕ
uptime now m = (now - m.started_at) / 1000

unfoldable pub get_snapshot : ℕ → MetricsCollector → MetricsSnapshot
unfolding uptime
get_snapshot now m = record {
  messages_received = m.messages_received;
  messages_sent = m.messages_sent;
  connections_opened = m.connections_opened;
  connections_closed = m.connections_closed;
  errors = m.errors;
  rate_limit_hits = m.rate_limit_hits;
  uptime_seconds = uptime now m;
}

-- The three lines of one metric; `kind` is `gauge` or `counter`.
unfoldable pub metric : Str → Str → Str → ℕ → List Str
metric kind name help value =
    (codes "# HELP " ++ (name ++ (codes " " ++ help)))
    ∷ (codes "# TYPE " ++ (name ++ (codes " " ++ kind)))
    ∷ (name ++ (codes " " ++ decimal value))
    ∷ []

abbrev gauge : Str → Str → ℕ → List Str
gauge = metric (codes "gauge")

abbrev counter : Str → Str → ℕ → List Str
counter = metric (codes "counter")

-- lines.join('\n') + '\n'
unfoldable pub join_lines : List Str → Str
join_lines [] = codes "\n"
join_lines (line ∷ []) = line ++ codes "\n"
join_lines (line ∷ next ∷ rest) = line ++ (codes "\n" ++ join_lines (next ∷ rest))

unfoldable pub lines : ℕ → ℕ → ℕ → MetricsCollector → List Str
unfolding metric uptime
lines now active_connections active_rooms m =
    gauge (codes "liverelay_connections_active") (codes "Current active WebSocket connections")
      active_connections
    ++ (gauge (codes "liverelay_rooms_active") (codes "Current active rooms") active_rooms
        ++ (gauge (codes "liverelay_uptime_seconds") (codes "Server uptime in seconds")
              (uptime now m)
            ++ (counter (codes "liverelay_connections_opened_total")
                  (codes "Total WebSocket connections opened") m.connections_opened
                ++ (counter (codes "liverelay_connections_closed_total")
                      (codes "Total WebSocket connections closed") m.connections_closed
                    ++ (counter (codes "liverelay_messages_received_total")
                          (codes "Total messages received from clients") m.messages_received
                        ++ (counter (codes "liverelay_messages_sent_total")
                              (codes "Total messages sent to clients") m.messages_sent
                            ++ (counter (codes "liverelay_errors_total") (codes "Total errors")
                                  m.errors
                                ++ counter (codes "liverelay_rate_limit_hits_total")
                                    (codes "Total rate limit hits") m.rate_limit_hits)))))))

unfoldable pub to_prometheus : ℕ → ℕ → ℕ → MetricsCollector → Str
unfolding join_lines lines
to_prometheus now active_connections active_rooms m =
    join_lines (lines now active_connections active_rooms m)
