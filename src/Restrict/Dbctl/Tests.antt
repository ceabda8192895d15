-- ===== src/Restrict/Dbctl/Tests.antt =====
-- The operations of dbctl at concrete accounts.
use mysql_governor.Base.{
  ℕ, ◌*◌, ◌≡◌, refl, true, false, arith, if◌then◌else◌, pos, negsuc, ◌*ℤ◌, div_ℤ, ltb_ℤ, codes,
  streq,
}
use mysql_governor.Base.Double.{hundredths, div_hundredths}
use mysql_governor.Fixtures.{config, account, world, clock, nobody}
use mysql_governor.Commands.Replay.{Settles, frozen}
use mysql_governor.Restrict.Dbctl.{
  DbCtlOptions, restrict_by_command, dbctl_unrestrict_set, dbctl_unrestrict_all_set,
}
use mysql_governor.Restrict.Dbctl.Orders.{
  IsAbove, level_by_command, without_restriction, restrict_by_command-Settles,
  dbctl_unrestrict_all_set-Settles, dbctl_unrestrict_set-Settles,
}

abbrev options : DbCtlOptions
options = record {
  username = codes "shop";
  cpu = pos 0;
  read = pos 0;
  write = pos 0;
  level = pos 2;
  timeout = pos 0;
  user_max_connections = pos 0;
}

hundredfold : (n : ℕ) → pos n *ℤ pos 100 ≡ pos (n * 100)
unfolding ◌*ℤ◌
hundredfold n = ground arith

quotient_above : (m : ℕ) → ltb_ℤ (div_ℤ (pos m) 10000) (pos 0) ≡ false
unfolding div_ℤ
quotient_above m = ground arith

above : IsAbove hundredths
unfolding div_hundredths
above (pos n) h = rw (hundredfold n, hundredfold (n * 100)) (quotient_above (n * 100 * 100))
above (negsuc n) h = absurd (omega arith)

restrict_by_command-Settles_example :
    let r = restrict_by_command clock config (pos 2) account world in
    Settles nobody account.users true r.1.command_list
    × (r.0.restricted ≡ (
        if config.restrict_mode
        then pos 1000
        else pos (level_by_command (pos 2) account.restricted)))
unfolding frozen
restrict_by_command-Settles_example =
    restrict_by_command-Settles clock config nobody (pos 2) account world false refl (λ u m. refl)

dbctl_unrestrict_all_set-Settles_example :
    let r = dbctl_unrestrict_all_set clock config account world in
    Settles nobody account.users false r.1.command_list
    × (r.0.restricted ≡ pos 0)
    × (r.0.timeout ≡ pos 0)
unfolding frozen
dbctl_unrestrict_all_set-Settles_example =
    dbctl_unrestrict_all_set-Settles clock config nobody account world refl (λ u m. refl)

dbctl_unrestrict_set-Settles_example :
    let r = dbctl_unrestrict_set clock config options account world in
    (r.0 ≡ without_restriction account) × Settles nobody account.users false r.1.command_list
unfolding streq frozen
dbctl_unrestrict_set-Settles_example =
    dbctl_unrestrict_set-Settles above clock config nobody options account world false refl refl
      (λ u m. refl)
