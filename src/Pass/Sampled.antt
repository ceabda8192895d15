-- ===== src/Pass/Sampled.antt =====
-- One sample of a user in a pass: what add_new_stats does with the table of users.
use mysql_governor.Base.{
  ℕ, ◌-◌, ◌<◌, ◌≡◌, refl, sym, ap, ◌∙◌, subst, inl, inr, Bool, false, Option, none, some, ◌∷◌,
  arith, ◌==◌, if◌then◌else◌, Option-cases, length, take, take_of_length-le, Bytes, streq, strlcpy,
  Table, lookup, insert, lookup-insert, ◌>>=◌,
}
use mysql_governor.Base.Double.{Double, hundredths}
use mysql_governor.Data.{Stats, GovernorConfig, username_max_len}
use mathlib.Core.Option.{some-injective}
use mysql_governor.Fifo.Inv.{IsValid}
use mysql_governor.Fifo.Recent.{recent}
use mysql_governor.Account.{UserStats}
use mysql_governor.UserMap.{UserMap}
use mysql_governor.Users.{Tables, init_user_stats, get_user_account, add_user_stats}
use mysql_governor.Users.Sample.{IsSteady, Pushed, push_stats-Pushed, init_user_stats-IsValid}
use mysql_governor.Pass.{find_or_add, mark_debug, add_sample, add_new_stats}
use mysql_governor.Pass.Values.{AllValues, AllValues-insert, AllValues-lookup, lookup-insert_twice}

abbrev pub HasRing : {D : Type 0} → UserStats D → Type 0
HasRing us = IsValid us.stats

-- The user after a sample in tick `t`, given the user before it, if there was one.
abbrev pub Sampled :
    {D : Type 0} ⦃dbl : Double D⦄ → Option (UserStats D) → Stats D → ℕ → UserStats D → Type 0
Sampled before st t us' =
    (us'.tick ≡ t)
    × IsValid us'.stats
    × ((us : _)
        → before ≡ some us
        → recent us'.stats ≡ st ∷ take (us.stats.size - 1) (recent us.stats))

stored_key : (key : Bytes) → length key < username_max_len → strlcpy key username_max_len ≡ key
stored_key key h = take_of_length-le 63 key (omega arith)

module _ {D : Type 0} ⦃dbl : Double D⦄ (cfg : GovernorConfig) (steady : IsSteady cfg)
    (locked : Bool) (map : Option (Table UserMap)) where
  mark_debug-users :
      (us : UserStats D) (g : Tables D) → (mark_debug cfg locked map us g).users ≡ g.users
  unfolding mark_debug
  mark_debug-users us g = ground arith

  mark_debug-tick_id :
      (us : UserStats D) (g : Tables D) → (mark_debug cfg locked map us g).tick_id ≡ g.tick_id
  unfolding mark_debug
  mark_debug-tick_id us g = ground arith

  -- What add_new_stats does once it has the user.
  stored : Bytes × UserStats D × Tables D → Stats D → ℕ → Option (Tables D)
  stored (key, us, g1) st t = do
    let g2 = mark_debug cfg locked map us g1
    us' ← add_sample cfg locked map t g2.tick_id st us
    some (record g2 { users = insert key us' g2.users })

  stored-Pushed :
      (key : Bytes) (us : UserStats D) (g : Tables D) (st : Stats D)
      → IsValid us.stats
      → (us.tick == g.tick_id) ≡ false
      → (g' : Tables D) × (us' : UserStats D) × (stored (key, us, g) st g.tick_id ≡ some g')
        × (g'.tick_id ≡ g.tick_id)
        × (g'.users ≡ insert key us' g.users)
        × Pushed cfg steady st (record us { tick = g.tick_id }) us'
  unfolding stored add_sample
  stored-Pushed key us g st v fresh =
      let g2 = mark_debug cfg locked map us g in
      let (us', e, p) = push_stats-Pushed cfg steady st (record us { tick = g2.tick_id }) v in
      (
        record g2 { users = insert key us' g2.users },
        us',
        rw (stored, fresh, e) refl,
        mark_debug-tick_id us g,
        ap (insert key us') (mark_debug-users us g),
        subst (λ t. Pushed cfg steady st (record us { tick = t }) us') (mark_debug-tick_id us g) p,
      )

  -- The user that is added has an empty ring and tick 0.
  add_user_stats-users :
      (key : Bytes) (g : Tables D)
      → let r = add_user_stats cfg locked map key g in
        (r.1.users ≡ insert (strlcpy key username_max_len) r.0 g.users)
        × (r.1.tick_id ≡ g.tick_id)
        × (r.0.tick ≡ 0)
        × IsValid r.0.stats
  unfolding add_user_stats init_user_stats get_user_account
  add_user_stats-users key g =
      let account = get_user_account cfg locked map key g in
      (
        ground arith,
        ground arith,
        refl,
        init_user_stats-IsValid cfg steady (strlcpy key username_max_len) account.0,
      )

  abbrev AddedSample : Bytes → Stats D → Tables D → Option (Tables D) → Type 0
  AddedSample key st g r =
      (g' : Tables D) × (us' : UserStats D) × (r ≡ some g')
      × (g'.tick_id ≡ g.tick_id)
      × AllValues HasRing g'.users
      × ((u : Bytes) → lookup u g'.users ≡ (if streq key u then some us' else lookup u g.users))
      × Sampled (lookup key g.users) st g.tick_id us'

  sampled_found :
      (key : Bytes) (st : Stats D) (g : Tables D) (us : UserStats D)
      → lookup key g.users ≡ some us
      → AllValues HasRing g.users
      → (us.tick == g.tick_id) ≡ false
      → AddedSample key st g (stored (find_or_add cfg locked map key g) st g.tick_id)
  unfolding find_or_add
  sampled_found key st g us e rings fresh =
      let (g', us', r, t, users, (ring, tick, newest)) =
        stored-Pushed key us g st (AllValues-lookup HasRing key us g.users rings e) fresh in
      (
        g',
        us',
        rw (find_or_add, e) r,
        t,
        rw users (AllValues-insert HasRing key us' g.users ring rings),
        λ u. ap (lookup u) users ∙ lookup-insert key u us' g.users,
        (
          tick,
          ring,
          λ us0 e0.
              subst (λ us0. recent us'.stats ≡ st ∷ take (us0.stats.size - 1) (recent us0.stats))
                (some-injective us us0 (sym e ∙ e0)) newest,
        ),
      )

  sampled_absent :
      (key : Bytes) (st : Stats D) (g : Tables D)
      → length key < username_max_len
      → 0 < g.tick_id
      → lookup key g.users ≡ none
      → AllValues HasRing g.users
      → AddedSample key st g (stored (find_or_add cfg locked map key g) st g.tick_id)
  unfolding find_or_add
  sampled_absent key st g short late e rings =
      let r = add_user_stats cfg locked map key g in
      let (users0, t0, old, ring0) = add_user_stats-users key g in
      let fresh : (r.0.tick == r.1.tick_id) ≡ false = ground (arith, old, t0, late) in
      let same = stored_key key short in
      let (g', us', q, t, users, (ring, tick, newest)) =
        stored-Pushed (strlcpy key username_max_len) r.0 r.1 st ring0 fresh in
      let all = users ∙ ap (insert (strlcpy key username_max_len) us') users0 in
      (
        g',
        us',
        rw (find_or_add, e)
            (subst (λ t. stored (strlcpy key username_max_len, r.0, r.1) st t ≡ some g') t0 q),
        t ∙ t0,
        rw all (
            AllValues-insert HasRing _ us' _ ring
              (AllValues-insert HasRing _ r.0 g.users ring0 rings)),
        λ u.
            ap (lookup u) all
            ∙ lookup-insert_twice (strlcpy key username_max_len) key u us' r.0 g.users same,
        (tick ∙ t0, ring, λ us0 e0. absurd (ground (arith, e, e0))),
      )

  -- In a new tick a user's sample is pushed into its ring, which is made for a new user.
  pub add_new_stats-AddedSample :
      (key : Bytes) (st : Stats D) (g : Tables D)
      → length key < username_max_len
      → 0 < g.tick_id
      → AllValues HasRing g.users
      → ((us : UserStats D) → lookup key g.users ≡ some us → (us.tick == g.tick_id) ≡ false)
      → AddedSample key st g (add_new_stats cfg locked map key st g.tick_id g)
  unfolding add_new_stats stored
  add_new_stats-AddedSample key st g short late rings fresh =
      elim (Option-cases (lookup key g.users)) [
        | inl e ↦ sampled_absent key st g short late e rings
        | inr (us, e) ↦ sampled_found key st g us e rings (fresh us e)
      ]
