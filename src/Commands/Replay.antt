-- ===== src/Commands/Replay.antt =====
-- What a queue of commands makes of the frozen users: the last command for a user decides.
use mysql_governor.Base.{
  ◌≡◌, refl, ap, ◌∙◌, ◌⊎◌, inl, inr, Bool, true, false, Option, none, some, List, [], ◌∷◌, ◌++◌,
  if◌then◌else◌, Bytes, streq, streq_self, strlcpy,
}
use mysql_governor.Data.{CommandType, freeze, unfreeze, Command, username_max_len}
use mysql_governor.Commands.Queue.{Queue, commands_for, enqueue}

abbrev pub cut : Bytes → Bytes
cut u = strlcpy u username_max_len

abbrev pub after : CommandType → Bool → Bool
after freeze b = true
after unfreeze b = false
after _ b = b

-- Whether the user is frozen when the commands have been carried out, if `b` says so before.
unfoldable pub frozen : List (Option Command) → Bytes → Bool → Bool
frozen [] u b = b
frozen (none ∷ l) u b = frozen l u b
frozen (some c ∷ l) u b = frozen l u (if streq c.username u then after c.command b else b)

abbrev pub Among : Bytes → List Bytes → Type 0
Among u [] = ⊥
Among u (x ∷ xs) = (x ≡ u) ⊎ Among u xs

pub frozen-append :
    (l m : List (Option Command)) (u : Bytes) (b : Bool)
    → frozen (l ++ m) u b ≡ frozen m u (frozen l u b)
unfolding frozen
frozen-append [] m u b = refl
frozen-append (none ∷ l) m u b = frozen-append l m u b
frozen-append (some c ∷ l) m u b =
    frozen-append l m u (if streq c.username u then after c.command b else b)

-- `c` is a command that sets the state to `v`.
module _ (c : CommandType) (v : Bool) (sets : (b : Bool) → after c b ≡ v) where
  frozen_stays : (us : List Bytes) (u : Bytes) → frozen (commands_for c us) u v ≡ v
  unfolding frozen
  frozen_stays [] u = refl
  frozen_stays (x ∷ us) u =
      ap (frozen (commands_for c us) u) (choice (streq (cut x) u)) ∙ frozen_stays us u
    where
      choice : (t : Bool) → (if t then after c v else v) ≡ v
      choice true = sets v
      choice false = refl

  -- A command for each of some users sets the state of each of them.
  pub frozen-commands_for :
      (us : List Bytes) (u : Bytes) (b : Bool)
      → Among u us
      → frozen (commands_for c us) (cut u) b ≡ v
  unfolding frozen
  frozen-commands_for [] u b m = absurd m
  frozen-commands_for (x ∷ us) u b (inl e) =
      ap (λ t. frozen (commands_for c us) (cut u) (if t then after c b else b))
        (ap (λ y. streq (cut y) (cut u)) e ∙ streq_self (cut u))
      ∙ ap (frozen (commands_for c us) (cut u)) (sets b)
      ∙ frozen_stays us (cut u)
  frozen-commands_for (x ∷ us) u b (inr m) = frozen-commands_for us u _ m

-- The users are all frozen, or all free, when the queue has been carried out on the state `before`.
abbrev pub Settles : (before : Bytes → Bool) → List Bytes → Bool → Queue → Type 0
Settles before us v none = ⊥
Settles before us v (some l) = (u : Bytes) → Among u us → frozen l (cut u) (before u) ≡ v

module _ (before : Bytes → Bool) (us : List Bytes) where
  -- With a queue, a command for each of the users settles them all.
  pub Settles-enqueue :
      (c : CommandType) (v w : Bool) (q : Queue)
      → ((b : Bool) → after c b ≡ v)
      → Settles before us w q
      → Settles before us v (enqueue c us q)
  Settles-enqueue c v w none sets s = absurd s
  Settles-enqueue c v w (some l) sets s = λ u m.
      frozen-append l (commands_for c us) (cut u) (before u) ∙ frozen-commands_for c v sets us u _ m
