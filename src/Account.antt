-- ===== src/Account.antt =====
-- stats.h: users and accounts, and the parts of the process state that the restriction code
-- writes: the restriction counters of calc_stats.c, the command queue of commands.c, and a record
-- of the messages and scripts that it sends out. `time ()` reads a clock that is an argument: the
-- state counts the readings, so two calls may see different times.
use mysql_governor.Base.{ℕ, ◌+◌, Bool, Option, List, [], ◌∷◌, ◌++◌, ℤ, Bytes, Table}
use mysql_governor.Base.Double.{hundredths}
use mysql_governor.Data.{Stats, RestrictInfo, Command}
use mysql_governor.Fifo.{Fifo}

-- User_stats. The pointer to its account is the account's key in the table of accounts.
pub record UserStats (D : Type 0) : Type 0 where
  pub id : Bytes
  pub account : Bytes
  pub stats : Fifo D
  pub long_average : Stats D
  pub mid_average : Stats D
  pub short_average : Stats D
  pub tick : ℕ

-- Account. The pointers to its users are their keys in the table of users, which are their ids.
pub record Account (D : Type 0) : Type 0 where
  pub id : Bytes
  pub users : List Bytes
  pub current : Stats D
  pub long_average : Stats D
  pub mid_average : Stats D
  pub short_average : Stats D
  pub restricted : ℤ
  pub timeout : ℤ
  pub start_count : ℤ
  pub info : RestrictInfo
  pub need_dbg : Bool

-- The bits RESTRICT_BY_CPU, RESTRICT_BY_READ and RESTRICT_BY_WRITE of a cause.
pub record Cause : Type 0 where
  pub by_cpu : Bool
  pub by_read : Bool
  pub by_write : Bool

-- statistics_restrict_info
pub record StatisticsRestrictInfo : Type 0 where
  pub number_of_restricts : ℕ
  pub cause_of_restricts : Cause

-- The text of a line of the restriction log: `system_info` is on where load and vmstat follow.
pub data Description : Type 0 where
  unrestrict : (system_info : Bool) → Description
  enforced :
      (id period param : Bytes) (value limit : ℤ) (level : Option ℤ) (system_info : Bool)
      → Description

pub data Event : Type 0 where
  -- log_user_queries
  log_queries : Bytes → Event
  -- the trigger script: account, period, parameter, value, limit and penalty
  script : (path id period param : Bytes) (value limit penalty : ℤ) → Event
  -- lines of the restriction log
  restrict_logged : Description → Event
  restrict_over : Bytes → Event
  no_unrestrict_yet : Bytes → ℤ → ℤ → Event
  penalty_over : Bytes → ℤ → ℤ → Event

pub record World : Type 0 where
  -- how often the clock has been read
  pub reads : ℕ
  -- DbGovNumberOfRestricts; the pointer is NULL until the first entry
  pub restricts : Table StatisticsRestrictInfo
  -- command_list, a GList whose first node, from g_list_alloc, holds NULL
  pub command_list : Option (List (Option Command))
  pub events : List Event

-- time (NULL)
unfoldable pub time : (ℕ → ℤ) → World → ℤ × World
time clock w = (clock w.reads, record w { reads = w.reads + 1 })

unfoldable pub emit : Event → World → World
emit e w = record w { events = w.events ++ e ∷ [] }
