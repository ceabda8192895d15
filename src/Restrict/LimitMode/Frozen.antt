-- ===== src/Restrict/LimitMode/Frozen.antt =====
-- Passes of account_analyze_limit over an account, and the users that the commands so far freeze.
use mysql_governor.Base.{
  ℕ, ◌≡◌, refl, subst, inl, inr, Bool, true, false, not, Option, none, some, List, [], ◌∷◌,
  if◌then◌else◌, ℤ, pos, ◌<ℤ◌, eqb_ℤ, Bytes,
}
use mysql_governor.Base.Double.{Double, hundredths}
use mysql_governor.Data.{freeze, unfreeze, GovernorConfig}
use mysql_governor.Account.{Account, World}
use mysql_governor.Overlimit.Violation.{Samples, with_samples}
use mysql_governor.Commands.Queue.{Queue, enqueue}
use mysql_governor.Commands.Replay.{Settles, Settles-enqueue}
use mysql_governor.Restrict.Check.{Violated, limited}
use mysql_governor.Restrict.Analyze.{account_analyze_limit}
use mysql_governor.Restrict.LimitMode.{
  IsGoverned, IsTimed, freed, has_expired, LimitStep, violated, account_analyze_limit-LimitStep,
}

abbrev pub is_restricted : {D : Type 0} → Account D → Bool
is_restricted ac = not (eqb_ℤ ac.restricted (pos 0))

-- The users' state agrees with the account's: `before` is their state before the queue.
pub record Agrees {D : Type 0} (cfg : GovernorConfig) (before : Bytes → Bool) (ac : Account D)
    (w : World) : Type 0 where
  pub governed : IsGoverned cfg ac
  pub timed : IsTimed ac
  pub settled : Settles before ac.users (is_restricted ac) w.command_list

module _ {D : Type 0} ⦃dbl : Double D⦄ (clock : ℕ → ℤ) (cfg : GovernorConfig)
    (before : Bytes → Bool) where
  -- A pass for each of the samples.
  unfoldable pub passes : List (Samples D) → Account D → World → Account D × World
  passes [] ac w = (ac, w)
  passes (s ∷ ss) ac w =
      let r = account_analyze_limit clock cfg (with_samples ac s) w in passes ss r.0 r.1

  -- Agreement of what is known to be left.
  agree :
      (ac' : Account D) (q : Queue) (r : Account D × World)
      → r.0 ≡ ac'
      → r.1.command_list ≡ q
      → IsGoverned cfg ac'
      → IsTimed ac'
      → Settles before ac'.users (is_restricted ac') q
      → Agrees cfg before r.0 r.1
  agree ac' q r e p g t s = record { governed = rw e g; timed = rw e t; settled = rw (e, p) s }

  Agrees-quiet :
      (expired : Bool) (ac : Account D) (w : World) (r : Account D × World)
      → Agrees cfg before ac w
      → r.0 ≡ (if expired then freed ac else ac)
      → r.1.command_list
        ≡ (if expired then enqueue unfreeze ac.users w.command_list else w.command_list)
      → Agrees cfg before r.0 r.1
  Agrees-quiet true ac w r a e p =
      agree (freed ac) (enqueue unfreeze ac.users w.command_list) r e p a.governed (inl refl) (
        Settles-enqueue before ac.users unfreeze false (is_restricted ac) w.command_list (λ b. refl)
          a.settled)
  Agrees-quiet false ac w r a e p = agree ac w.command_list r e p a.governed a.timed a.settled

  Agrees-beyond :
      (free : Bool) (n : ℕ) (v : Violated) (ac : Account D) (w : World) (r : Account D × World)
      → pos 0 <ℤ clock n
      → eqb_ℤ ac.restricted (pos 0) ≡ free
      → Agrees cfg before ac w
      → r.0 ≡ limited clock cfg ac (clock n) v
      → r.1.command_list ≡ (if free then enqueue freeze ac.users w.command_list else w.command_list)
      → Agrees cfg before r.0 r.1
  Agrees-beyond true n v ac w r ticking f a e p =
      agree (limited clock cfg ac (clock n) v) (enqueue freeze ac.users w.command_list) r e p
        a.governed (inr ticking)
        (Settles-enqueue before ac.users freeze true (is_restricted ac) w.command_list (λ b. refl)
          a.settled)
  Agrees-beyond false n v ac w r ticking f a e p =
      agree (limited clock cfg ac (clock n) v) w.command_list r e p a.governed (inr ticking)
        (subst (λ b. Settles before ac.users (not b) w.command_list) f a.settled)

  Agrees-step :
      ((n : ℕ) → pos 0 <ℤ clock n)
      → (v : Option Violated) (ac : Account D) (w : World) (r : Account D × World)
      → Agrees cfg before ac w
      → LimitStep clock cfg v ac w r
      → Agrees cfg before r.0 r.1
  Agrees-step ticking none ac w r a s =
      Agrees-quiet (has_expired ac (clock w.reads)) ac w r a s.0 s.1
  Agrees-step ticking (some v) ac w r a (n, e, q) =
      Agrees-beyond (eqb_ℤ ac.restricted (pos 0)) n v ac w r (ticking n) refl a e
        (rw a.governed.0 at q)

  -- With a clock that shows times after 0, whatever samples come, if the users of a governed account agree with it they do so after any
  -- number of passes: restricted, they are frozen by the commands so far, and otherwise free.
  pub passes-Agrees :
      ((n : ℕ) → pos 0 <ℤ clock n)
      → (ss : List (Samples D)) (ac : Account D) (w : World) → Agrees cfg before ac w
      → Agrees cfg before (passes ss ac w).0 (passes ss ac w).1
  unfolding passes
  passes-Agrees ticking [] ac w a = a
  passes-Agrees ticking (s ∷ ss) ac w a =
      let ac1 = with_samples ac s in
      let r = account_analyze_limit clock cfg ac1 w in
      passes-Agrees ticking ss r.0 r.1 (
        Agrees-step ticking (violated clock cfg ac1) ac1 w r
          (record { governed = a.governed; timed = a.timed; settled = a.settled })
          (account_analyze_limit-LimitStep clock cfg ac1 w a.governed a.timed))
