-- ===== src/Pass.antt =====
-- calc_stats.c: one pass of the governor over its tables: the counters of the users become samples
-- of their rings, the users' values are summed by account, and every account is analyzed.
-- `new_tm` is the time of the pass, `reset_at` the time at which a user's counters are reset, and
-- `clk_tck` is sysconf (_SC_CLK_TCK).
pub mod Values
pub mod Sampled
pub mod Once
mod Tests
use mysql_governor.Base.{
  ℕ, ◌+◌, Bool, true, not, ◌&&◌, Option, none, some, List, [], ◌∷◌, map, ◌==◌, if◌then◌else◌,
  length, ℤ, pos, ltb_ℤ, leb_ℤ, Bytes, strlcpy, strneq, Table, lookup, insert, ◌>>=◌,
}
use mysql_governor.Base.Double.{Double}
use mysql_governor.Data.{restrict_mode, Stats, GovernorConfig, username_max_len}
use mysql_governor.Fifo.{reset_stats, sum_stats, fifo_stats_get}
use mysql_governor.Account.{UserStats, Account, World}
use mysql_governor.UserMap.{UserMap}
use mysql_governor.Users.{StatCounters, Tables, push_stats, refresh_stats, add_user_stats}
use mysql_governor.Restrict.Analyze.{account_analyze, account_analyze_limit}

-- g_hash_table_foreach, with a function that changes the values or faults.
unfoldable pub map_values {ℓ} : {V : Type ℓ} → (V → Option V) → Table V → Option (Table V)
map_values f [] = some []
map_values f ((k, v) ∷ m) = do w ← f v; n ← map_values f m; some ((k, w) ∷ n)

module _ {D : Type 0} ⦃dbl : Double D⦄ where
  -- clac_stats_difference_inner_from_counter
  unfoldable pub clac_stats_difference_inner_from_counter :
      ℤ → (cpu read write : ℤ) → (tm_in new_tm : D) → Stats D
  unfolding reset_stats
  clac_stats_difference_inner_from_counter clk_tck cpu read write tm_in new_tm =
      let tm : D = dbl.sub new_tm tm_in in
      let one : D = dbl.of_int (pos 1) in
      let tm' : D = if dbl.less tm one then one else tm in
      if dbl.less (dbl.of_int (pos 0)) tm
      then record {
        cpu =
            if ltb_ℤ (pos 0) cpu
            then dbl.div (dbl.div (dbl.of_int cpu) tm') (dbl.of_int clk_tck)
            else dbl.of_int (pos 0);
        write = if leb_ℤ (pos 0) write then dbl.ceil (dbl.div (dbl.of_int write) tm') else pos 0;
        read = if leb_ℤ (pos 0) read then dbl.ceil (dbl.div (dbl.of_int read) tm') else pos 0;
      }
      else reset_stats

  unfoldable pub reset_counters :
      (Bytes → D) → Bytes → Table (StatCounters D) → Table (StatCounters D)
  unfolding reset_stats
  reset_counters reset_at username counters = elim (lookup username counters) [
    | none ↦ counters
    | some item ↦ insert username (record { s = reset_stats; tm = reset_at username }) counters
  ]

  module _ (cfg : GovernorConfig) (locked : Bool) (map : Option (Table UserMap)) where
    -- The key and the user: one that is not in the table is added.
    unfoldable pub find_or_add : Bytes → Tables D → Bytes × UserStats D × Tables D
    unfolding add_user_stats
    find_or_add username g = elim (lookup username g.users) [
      | some us ↦ (username, us, g)
      | none ↦
          let (us, g1) = add_user_stats cfg locked map username g in
          (strlcpy username username_max_len, us, g1)
    ]

    -- The account of the user that is to be debugged is marked.
    unfoldable pub mark_debug : UserStats D → Tables D → Tables D
    mark_debug us g = elim cfg.debug_user [
      | none ↦ g
      | some d ↦ elim (lookup us.account g.accounts) [
        | none ↦ g
        | some ac ↦
            if not ac.need_dbg && strneq d ac.id (length d)
            then record g {
              accounts = insert us.account (record ac { need_dbg = true }) g.accounts;
            }
            else g
      ]
    ]

    -- A second sample of the same tick is added to the first.
    unfoldable pub add_sample : (tick_id current : ℕ) → Stats D → UserStats D → Option (UserStats D)
    unfolding push_stats refresh_stats
    add_sample tick_id current st us =
        if us.tick == tick_id
        then refresh_stats cfg st us
        else push_stats cfg st (record us { tick = current })

    unfoldable pub add_new_stats : Bytes → Stats D → ℕ → Tables D → Option (Tables D)
    unfolding find_or_add mark_debug add_sample
    add_new_stats username st tick_id g = do
      let (key, us, g1) = find_or_add username g
      let g2 = mark_debug us g1
      us' ← add_sample tick_id g2.tick_id st us
      some (record g2 { users = insert key us' g2.users })

    unfoldable pub tick_empty_users : ℕ → UserStats D → Option (UserStats D)
    unfolding reset_stats push_stats
    tick_empty_users current us =
        if us.tick == current
        then some us
        else push_stats cfg reset_stats (record us { tick = current })

    module _ (clk_tck : ℤ) (new_tm : D) (reset_at : Bytes → D) where
      -- What the counters of a user make of the time since their reset.
      abbrev pub sample_of : StatCounters D → Stats D
      sample_of item =
          clac_stats_difference_inner_from_counter clk_tck (dbl.trunc item.s.cpu) item.s.read
            item.s.write item.tm new_tm

      unfoldable pub add_user_stats_from_counter :
          Bytes × StatCounters D → Tables D → Option (Tables D)
      unfolding clac_stats_difference_inner_from_counter add_new_stats reset_counters
      add_user_stats_from_counter (key, item) g = do
        g1 ← add_new_stats key (sample_of item) g.tick_id g
        some (record g1 { counters = reset_counters reset_at key g1.counters })

      unfoldable pub from_counters : Table (StatCounters D) → Tables D → Option (Tables D)
      unfolding add_user_stats_from_counter
      from_counters [] g = some g
      from_counters (c ∷ cs) g = do g1 ← add_user_stats_from_counter c g; from_counters cs g1

      -- The traversals of the counters and of the users in proceed_accounts, in a new tick.
      unfoldable pub sample_users : Tables D → Option (Tables D)
      unfolding from_counters tick_empty_users map_values
      sample_users g = do
        g1 ← from_counters g.counters (record g { tick_id = g.tick_id + 1 })
        us ← map_values (tick_empty_users g1.tick_id) g1.users
        some (record g1 { users = us })

  -- The loop of calc_acc_stats over the users of an account behind the first.
  unfoldable pub add_users : Table (UserStats D) → List Bytes → Account D → Option (Account D)
  unfolding sum_stats fifo_stats_get
  add_users users [] ac = some ac
  add_users users (u ∷ us) ac = do
    s ← lookup u users
    newest ← fifo_stats_get s.stats 0
    add_users users us (record ac {
      current = sum_stats ac.current newest;
      short_average = sum_stats ac.short_average s.short_average;
      mid_average = sum_stats ac.mid_average s.mid_average;
      long_average = sum_stats ac.long_average s.long_average;
    })

  -- An account without a user, which the source does not create, is a fault.
  unfoldable pub calc_acc_stats : Table (UserStats D) → Account D → Option (Account D)
  unfolding add_users fifo_stats_get
  calc_acc_stats users ac = elim ac.users [
    | [] ↦ none
    | u ∷ us ↦ do
      s ← lookup u users
      newest ← fifo_stats_get s.stats 0
      add_users users us (record ac {
        current = newest;
        short_average = s.short_average;
        mid_average = s.mid_average;
        long_average = s.long_average;
      })
  ]

  -- The traversal of the accounts, in the mode of the configuration.
  unfoldable pub analyze_accounts :
      (ℕ → ℤ) → GovernorConfig → Table (Account D) → World → Table (Account D) × World
  unfolding account_analyze account_analyze_limit
  analyze_accounts clock cfg [] w = ([], w)
  analyze_accounts clock cfg ((k, ac) ∷ acs) w =
      let (ac1, w1) =
        if cfg.restrict_mode
        then account_analyze_limit clock cfg ac w
        else account_analyze clock cfg ac w in
      let (acs', w2) = analyze_accounts clock cfg acs w1 in ((k, ac1) ∷ acs', w2)

  -- proceed_accounts, less the tables of statistics that AddDbGovStatitrics fills.
  unfoldable pub proceed_accounts :
      (ℕ → ℤ)
      → GovernorConfig
      → Bool
      → Option (Table UserMap)
      → ℤ
      → D
      → (Bytes → D)
      → Tables D
      → World
      → Option (Tables D × World)
  unfolding sample_users calc_acc_stats map_values analyze_accounts
  proceed_accounts clock cfg locked map clk_tck new_tm reset_at g w = do
    g1 ← sample_users cfg locked map clk_tck new_tm reset_at g
    acs ← map_values (calc_acc_stats g1.users) g1.accounts
    let (acs', w') = analyze_accounts clock cfg acs w
    some (record g1 { accounts = acs' }, w')
