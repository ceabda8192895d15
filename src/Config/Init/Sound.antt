-- ===== src/Config/Init/Sound.antt =====
-- What holds of every configuration that is read.
use mysql_governor.Base.{
  ℕ, ◌^◌, ◌≤◌, ◌<◌, ◌≡◌, refl, ◌≢◌, true, ◌&&◌, Option, none, some, [], ◌∷◌, arith, pos, ◌≤ℤ◌,
  Bytes, codes,
}
use mysql_governor.Data.{restrict_mode, GovernorConfig}
use mysql_governor.Base.Number.{atoi}
use mysql_governor.Config.Result.{
  cannot_read, no_log, no_intervals, no_restrict, no_connector, no_default, Result, returns,
  required, Returns, Returns->>=, Returns-eq, ◌>>=◌,
}
use mysql_governor.Xml.{Node, get_elem_attr, children_of, find_element_with_name}
use mysql_governor.Config.Period.Bound.{parse_period-lt, unsigned_lt}
use mysql_governor.Config.Modes.{get_restrict_format-le}
use mysql_governor.Config.Limits.{System, set_limits, add_users_of}
use mysql_governor.Config.Init.{
  attr_of, lve_flags, logqueries_of, connections_of, number_or, period_or, log_mode_of, script_of,
  read_default_limit, Parts, read_parts, fill, Initialised, config_init,
}

abbrev Unsigned : ℕ → Type 0
Unsigned n = n < 2 ^ 32

-- The flags of LVE imply one another, the numbers fit their types and their meaning, and the default
-- limits restrict.
pub record IsSound (cfg : GovernorConfig) : Type 0 where
  pub all-separate : (cfg.all_lve && cfg.separate_lve) ≡ cfg.all_lve
  pub separate-use : (cfg.separate_lve && cfg.use_lve) ≡ cfg.separate_lve
  pub connections : pos 0 ≤ℤ cfg.max_user_connections
  pub format : cfg.restrict_format ≤ 4
  pub logqueries : cfg.logqueries_use ≤ 2
  pub level1 : Unsigned cfg.level1
  pub level2 : Unsigned cfg.level2
  pub level3 : Unsigned cfg.level3
  pub level4 : Unsigned cfg.level4
  pub timeout : Unsigned cfg.timeout
  pub l_unlimit : Unsigned cfg.l_unlimit
  pub interval_short : Unsigned cfg.interval_short
  pub interval_mid : Unsigned cfg.interval_mid
  pub interval_long : Unsigned cfg.interval_long
  pub script : cfg.exec_script ≢ some []
  pub account_flag : cfg.default_limit.account_flag ≡ true
  pub mode : cfg.default_limit.mode ≡ restrict_mode

flags-all :
    (ptr : Option Bytes)
    → ((lve_flags ptr).all_lve && (lve_flags ptr).separate_lve) ≡ (lve_flags ptr).all_lve
unfolding lve_flags
flags-all ptr = ground arith

flags-separate :
    (ptr : Option Bytes)
    → ((lve_flags ptr).separate_lve && (lve_flags ptr).use_lve) ≡ (lve_flags ptr).separate_lve
unfolding lve_flags
flags-separate ptr = ground arith

connections_of-le : (ptr : Option Bytes) → pos 0 ≤ℤ connections_of ptr
unfolding connections_of
connections_of-le none = omega arith
connections_of-le (some ptr) = ground arith

logqueries_of-le : (ptr : Option Bytes) → logqueries_of ptr ≤ 2
unfolding logqueries_of
logqueries_of-le ptr = ground arith

number_or-lt : (other : ℕ) (ptr : Option Bytes) → Unsigned other → Unsigned (number_or other ptr)
unfolding number_or
number_or-lt other none h = h
number_or-lt other (some ptr) h = unsigned_lt (atoi ptr)

period_or-lt : (other : Bytes) (ptr : Option Bytes) → Returns (period_or other ptr) Unsigned
unfolding period_or
period_or-lt other none = parse_period-lt other
period_or-lt other (some ptr) = parse_period-lt ptr

script_of-nonempty : (system : System) (ptr : Option Bytes) → script_of system ptr ≢ some []
unfolding script_of
script_of-nonempty system none = ground arith
script_of-nonempty system (some []) = ground arith
script_of-nonempty system (some (c ∷ s)) = ground arith

default_limit-Restricts :
    (system : System) (n : Node)
    → Returns
        (read_default_limit system n)
        (λ l. (l.account_flag ≡ true) × (l.mode ≡ restrict_mode))
unfolding read_default_limit
default_limit-Restricts system n = Returns->>= _ (set_limits system n _) _ λ l _. (refl, refl)

pub record PartsSound (parts : Parts) : Type 0 where
  pub level1 : Unsigned parts.level1
  pub level2 : Unsigned parts.level2
  pub level3 : Unsigned parts.level3
  pub level4 : Unsigned parts.level4
  pub timeout : Unsigned parts.timeout
  pub l_unlimit : Unsigned parts.l_unlimit
  pub restricts :
      (parts.default_limit.account_flag ≡ true) × (parts.default_limit.mode ≡ restrict_mode)

-- A step that reads a period.
after_period :
    {B : Type 0} (P : B → Type 0) (other : Bytes) (ptr : Option Bytes) (f : ℕ → Result B)
    → ((n : ℕ) → Unsigned n → Returns (f n) P)
    → Returns (period_or other ptr >>= f) P
after_period P other ptr f h =
    Returns->>= P (period_or other ptr) f
      λ n e. h n (Returns-eq Unsigned _ n (period_or-lt other ptr) e)

read_parts-Sound : (system : System) (root : Node) → Returns (read_parts system root) PartsSound
unfolding read_parts
read_parts-Sound system root =
    Returns->>= PartsSound (required no_log (find_element_with_name root (codes "log"))) _
      λ log_xml _.
        Returns->>= PartsSound (log_mode_of (get_elem_attr log_xml (codes "mode"))) _ λ log_mode _.
          Returns->>= PartsSound
            (required no_intervals (find_element_with_name root (codes "intervals"))) _
            λ intervals _.
              after_period PartsSound (codes "60s")
                (attr_of (find_element_with_name root (codes "restrict_mode")) (codes "unlimit")) _
                λ l_unlimit hu.
                  Returns->>= PartsSound
                    (required no_restrict (find_element_with_name root (codes "restrict"))) _
                    λ restrict _.
                      after_period PartsSound (codes "60s")
                        (get_elem_attr restrict (codes "level1")) _
                        λ level1 h1.
                          after_period PartsSound (codes "15m")
                            (get_elem_attr restrict (codes "level2")) _
                            λ level2 h2.
                              after_period PartsSound (codes "1h")
                                (get_elem_attr restrict (codes "level3")) _
                                λ level3 h3.
                                  after_period PartsSound (codes "1d")
                                    (get_elem_attr restrict (codes "level4")) _
                                    λ level4 h4.
                                      after_period PartsSound (codes "1h")
                                        (get_elem_attr restrict (codes "timeout")) _
                                        λ timeout ht.
                                          Returns->>= PartsSound
                                            (required no_connector
                                              (find_element_with_name root (codes "connector")))
                                            _
                                            λ connector _.
                                              Returns->>= PartsSound
                                                (required no_default
                                                  (find_element_with_name root (codes "default")))
                                                _
                                                λ default_xml _.
                                                  Returns->>= PartsSound
                                                    (read_default_limit system default_xml) _
                                                    λ default_limit ed.
                                                      Returns->>= PartsSound
                                                        (add_users_of system default_limit
                                                          (children_of root) [])
                                                        _
                                                        λ account_limits _.
                                                          sound h1 h2 h3 h4 ht hu (
                                                            Returns-eq _ _ default_limit
                                                            (default_limit-Restricts system
                                                            default_xml)
                                                            ed)
  where
    sound :
        {parts : Parts}
        → Unsigned parts.level1
        → Unsigned parts.level2
        → Unsigned parts.level3
        → Unsigned parts.level4
        → Unsigned parts.timeout
        → Unsigned parts.l_unlimit
        → (parts.default_limit.account_flag ≡ true) × (parts.default_limit.mode ≡ restrict_mode)
        → PartsSound parts
    sound h1 h2 h3 h4 ht hu hr = record {
      level1 = h1;
      level2 = h2;
      level3 = h3;
      level4 = h4;
      timeout = ht;
      l_unlimit = hu;
      restricts = hr;
    }

fill-IsSound :
    (system : System) (root : Node) (parts : Parts)
    → PartsSound parts
    → IsSound (fill system root parts)
unfolding fill
fill-IsSound system root parts h = record {
  all-separate = flags-all (attr_of (find_element_with_name root (codes "lve")) (codes "use"));
  separate-use = flags-separate (attr_of (find_element_with_name root (codes "lve")) (codes "use"));
  connections = connections_of-le (get_elem_attr parts.restrict (codes "user_max_connections"));
  format = get_restrict_format-le (get_elem_attr parts.restrict (codes "format"));
  logqueries =
      logqueries_of-le (attr_of (find_element_with_name root (codes "logqueries")) (codes "use"));
  level1 = h.level1;
  level2 = h.level2;
  level3 = h.level3;
  level4 = h.level4;
  timeout = h.timeout;
  l_unlimit = h.l_unlimit;
  interval_short = number_or-lt 5 (get_elem_attr parts.intervals (codes "short")) (omega arith);
  interval_mid = number_or-lt 15 (get_elem_attr parts.intervals (codes "mid")) (omega arith);
  interval_long = number_or-lt 30 (get_elem_attr parts.intervals (codes "long")) (omega arith);
  script = script_of-nonempty system (get_elem_attr parts.restrict (codes "script"));
  account_flag = h.restricts.0;
  mode = h.restricts.1;
}

abbrev Sound : Initialised → Type 0
Sound r = IsSound r.cfg

-- Every configuration that the reading of a file returns is sound.
pub config_init-IsSound :
    (system : System) (xml : Option Node) (r : Initialised)
    → config_init system xml ≡ returns r
    → IsSound r.cfg
unfolding config_init
config_init-IsSound system xml r e =
    Returns-eq Sound _ r
      (Returns->>= Sound (required cannot_read xml) _ λ root _.
        Returns->>= Sound (read_parts system root) _ λ parts ep.
          fill-IsSound system root parts
            (Returns-eq PartsSound _ parts (read_parts-Sound system root) ep))
      e
