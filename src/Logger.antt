-- ===== src/Logger.antt =====
-- internal/platform/logger/logger.go: the level of a logger, and how SIGHUP changes it. A logger is
-- known by its number. Building one is zap's affair, and so is reading the text of a level: whether it
-- succeeds, and what it reads, are arguments.
use aelora.Prelude.{ℕ, ◌+◌, String, ◌==◌, Bool, Option, none, some, or_else, eqb, if◌then◌else◌}
use aelora.Http.Logging.{Level, info_level}

-- `levels` holds the atomic levels. `watched` is the logger whose level the goroutine behind
-- `closeSIGHUP` sets; there is none where that is nil.
pub record Loggers : Type 0 where
  pub built : ℕ
  pub levels : ℕ → Level
  pub watched : Option ℕ

-- What `New` answers: a logger of its own, one of the default configuration, or one that logs nothing.
pub data Logger : Type 0 where
  logger : ℕ → Logger
  fallback : Logger
  no_op : Logger

abbrev set_level : ℕ → Level → (ℕ → Level) → ℕ → Level
set_level id level levels j = if eqb j id then level else levels j

abbrev watch : Option ℕ → ℕ → Option ℕ
watch none id = some id
watch (some other) id = some other

unfoldable pub new :
    (String → Option Level) → (builds fallback_builds : Bool) → String → Loggers → Logger × Loggers
new unmarshal_text builds fallback_builds level s =
    let id = s.built in
    if builds
    then (
      logger id,
      record {
        built = s.built + 1;
        levels = set_level id (or_else (unmarshal_text level) info_level) s.levels;
        watched = watch s.watched id;
      },
    )
    else (if fallback_builds then fallback else no_op, s)

abbrev set_watched : Option ℕ → Option Level → Loggers → Loggers
set_watched none level s = s
set_watched (some id) none s = s
set_watched (some id) (some level) s = record s { levels = set_level id level s.levels }

-- A signal, with the value of AELORA_LOG_LEVEL.
unfoldable pub sighup : (String → Option Level) → String → Loggers → Loggers
sighup unmarshal_text new_level s =
    if new_level == "" then s else set_watched s.watched (unmarshal_text new_level) s

unfoldable pub shutdown : Loggers → Loggers
shutdown s = record s { watched = none }
