-- ===== src/Logger.antt =====
-- src/monitoring/logger.ts: the options that pino is given.
use live_r.Base.{Bool, true, Option, none, some, or_else, if◌then◌else◌}
use live_r.Base.Text.{Str, codes}
use live_r.Base.Equality.{str_eq, ◌==◌}

-- pino-pretty's options, where the output goes through it.
pub record Transport : Type 0 where
  pub target : Str
  pub colorize : Bool
  pub translate_time : Str
  pub ignored : Str

pub record LoggerOptions : Type 0 where
  pub level : Str
  pub transport : Option Transport

pretty : Transport
pretty = record {
  target = codes "pino-pretty";
  colorize = true;
  translate_time = codes "SYS:standard";
  ignored = codes "pid,hostname";
}

-- createLogger(level, format), and initLogger.
unfoldable pub create_logger : Str → Str → LoggerOptions
unfolding pretty
create_logger level format = record {
  level = level;
  transport = if format == codes "pretty" then some pretty else none;
}

-- The logger before the configuration is loaded: LOG_LEVEL, LOG_FORMAT and NODE_ENV.
unfoldable pub first_logger : Option Str → Option Str → Option Str → LoggerOptions
unfolding create_logger
first_logger level format node_env = create_logger (or_else (codes "info") level) (
    or_else
      (elim node_env [
        | none ↦ codes "json"
        | some env ↦ if env == codes "development" then codes "pretty" else codes "json"
      ])
      format)
