-- ===== src/Commands/Send/Delivery.antt =====
-- What the sending of commands makes of the shared list.
use mysql_governor.Base.{
  ℕ, suc, ◌+◌, ◌≤◌, ◌<◌, ◌≡◌, refl, sym, ap, ap₂, ◌∙◌, subst, inl, inr, Bool, true, false, not,
  ◌&&◌, Option, none, some, List, [], ◌∷◌, ◌++◌, arith, ◌==◌, if◌then◌else◌, Bool-cases, length,
  length-append, take, take_of_length-le, ℤ, pos, ltb_ℤ, Bytes, streq, streq_iff, strlcpy,
}
use mysql_governor.Data.{
  CommandType, exit, freeze, unfreeze, slow_query, Command, GovernorConfig, username_max_len,
}
use mysql_governor.BadList.{BadList, Item, add_user_to_list, delete_user_from_list, uid_of}
use mysql_governor.BadList.Listed.{listed, present, erase, same}
use mysql_governor.BadList.Ops.{Op, add, delete, apply, step, step-apply, length-listed, IsFit}
use mysql_governor.BadList.Distinct.{
  Distinct, Fits, present-append, present-erase, stored_name, OpFits, apply-Distinct,
}
use mysql_governor.Commands.Replay.{after, frozen}
use mysql_governor.Commands.Send.{
  Sending, Host, send_command, send_commands, send_each, freeze_in_list, unfreeze_in_list,
  limit_user, report, put_out, Sent, log_user_queries, cant_add_user, cant_delete_user,
}

-- The list is within its array, names nobody twice, and `n` additions leave it below the bound.
pub record IsReady (max bound n : ℕ) (l : BadList) : Type 0 where
  pub fits : IsFit max l
  pub distinct : Distinct (listed l)
  pub room : l.numbers + n + 1 < bound

-- Fewer additions need less room.
pub IsReady-fewer :
    {max bound n m : ℕ} {l : BadList} → m ≤ n → IsReady max bound n l → IsReady max bound m l
IsReady-fewer h r = record { fits = r.fits; distinct = r.distinct; room = omega (arith, h, r.room) }

abbrev pub IsOrder : CommandType → Type 0
IsOrder freeze = Unit
IsOrder unfreeze = Unit
IsOrder other = ⊥

-- How many commands there are.
abbrev pub count : List (Option Command) → ℕ
count [] = 0
count (none ∷ cs) = count cs
count (some c ∷ cs) = suc (count cs)

-- Freezing and unfreezing only, of names that fit.
abbrev pub Orders : List (Option Command) → Type 0
Orders [] = Unit
Orders (none ∷ cs) = Orders cs
Orders (some c ∷ cs) = Fits c.username × IsOrder c.command × Orders cs

module _ (max : ℕ) (cfg : GovernorConfig) where
  limit_user-list :
      (u : Bytes) (n : ℤ) (st : Sending) → (limit_user cfg u n st).bad_list ≡ st.bad_list
  unfolding limit_user put_out
  limit_user-list u n st = ground arith

  report-list : (e : Sent) (st : Sending) → (report cfg e st).bad_list ≡ st.bad_list
  unfolding report put_out
  report-list e st = ground arith

  after_freeze :
      (b : Bool) (u : Bytes) (st : Sending)
      → (if b
          then report cfg (cant_add_user u) st
          else limit_user cfg u cfg.max_user_connections st).bad_list
        ≡ st.bad_list
  after_freeze true u st = report-list (cant_add_user u) st
  after_freeze false u st = limit_user-list u cfg.max_user_connections st

  after_unfreeze :
      (b : Bool) (u : Bytes) (st : Sending)
      → (limit_user cfg u (pos 0) (if b then report cfg (cant_delete_user u) st else st)).bad_list
        ≡ st.bad_list
  after_unfreeze true u st = limit_user-list u (pos 0) _ ∙ report-list (cant_delete_user u) st
  after_unfreeze false u st = limit_user-list u (pos 0) st

  freeze_in_list-step :
      (host : Host) (u : Bytes) (st : Sending)
      → (freeze_in_list max cfg host u st).bad_list
        ≡ step max (add u (host.mapped u) cfg.all_lve host.waits) st.bad_list
  unfolding freeze_in_list step
  freeze_in_list-step host u st =
      after_freeze
        (ltb_ℤ (add_user_to_list max host.waits (host.mapped u) u cfg.all_lve st.bad_list).0
          (pos 0))
        u _

  unfreeze_in_list-step :
      (host : Host) (u : Bytes) (st : Sending)
      → (unfreeze_in_list max cfg host u st).bad_list ≡ step max (delete u host.waits) st.bad_list
  unfolding unfreeze_in_list step
  unfreeze_in_list-step host u st =
      after_unfreeze (ltb_ℤ (delete_user_from_list (λ i. host.waits) u st.bad_list).0 (pos 0)) u _

  -- The list behind a command, as the plain list says it.
  abbrev op_of : Host → CommandType → Bytes → Op
  op_of host freeze u = add u (host.mapped u) cfg.all_lve host.waits
  op_of host other u = delete u host.waits

  after_log :
      (b : Bool) (u : Bytes) (st : Sending)
      → (if b then put_out (log_user_queries u) st else st).bad_list ≡ st.bad_list
  unfolding put_out
  after_log true u st = refl
  after_log false u st = refl

  send_command-step :
      (host : Host) (c : CommandType) (u : Bytes) (st : Sending)
      → cfg.use_lve ≡ true
      → IsOrder c
      → (send_command max cfg host c u st).bad_list ≡ step max (op_of host c u) st.bad_list
  unfolding send_command put_out
  send_command-step host freeze u st e k = rw e (
      after_log (cfg.logqueries_use == 1) u (freeze_in_list max cfg host u st)
      ∙ freeze_in_list-step host u st)
  send_command-step host unfreeze u st e k = rw e (unfreeze_in_list-step host u st)
  send_command-step host exit u st e k = absurd k
  send_command-step host slow_query u st e k = absurd k

  item_of : Host → Bytes → Item
  item_of host u = record {
    username = strlcpy u username_max_len;
    uid = uid_of (host.mapped u) cfg.all_lve;
  }

  same_item : (host : Host) (u v : Bytes) → Fits u → Fits v → same (item_of host u) v ≡ streq u v
  unfolding item_of
  same_item host u v hu hv =
      ap₂ streq
        (ap (take username_max_len) (stored_name u hu)
          ∙ take_of_length-le username_max_len u (omega arith))
        (take_of_length-le username_max_len v (omega arith))

  apply-add :
      (host : Host) (u : Bytes) (es : List Item)
      → host.waits ≡ true
      → length es + 1 < max
      → apply max (add u (host.mapped u) cfg.all_lve host.waits) es
        ≡ (if present u es then es else es ++ item_of host u ∷ [])
  unfolding apply item_of
  apply-add host u es w r = rw (w, room) (both (present u es) es _)
    where
      room : (length es + 1 == max) ≡ false
      room = ground arith

      both :
          (b : Bool) (xs ys : List Item)
          → (if not b && true then ys else xs) ≡ (if b then xs else ys)
      both true xs ys = refl
      both false xs ys = refl

  -- What an operation makes of who is on the list.
  apply-present :
      (host : Host) (c : CommandType) (u v : Bytes) (es : List Item)
      → host.waits ≡ true
      → IsOrder c
      → Fits u
      → Fits v
      → Distinct es
      → length es + 1 < max
      → present v (apply max (op_of host c u) es)
        ≡ (if streq u v then after c (present v es) else present v es)
  unfolding apply
  apply-present host freeze u v es w k hu hv d r =
      rw (apply-add host u es w r) (elim (Bool-cases (present u es)) [
        | inl e ↦
            rw e (there (streq u v) λ c. subst (λ x. present x es ≡ true) ((streq_iff u v).0 c) e)
        | inr e ↦ rw e (
            present-append v es (item_of host u)
            ∙ rw (same_item host u v hu hv) (either (present v es) (streq u v)))
      ])
    where
      there :
          (c : Bool)
          → (c ≡ true → present v es ≡ true)
          → present v es ≡ (if c then true else present v es)
      there true h = h refl
      there false h = refl

      either : (b c : Bool) → (if b then true else c) ≡ (if c then true else b)
      either true true = refl
      either true false = refl
      either false true = refl
      either false false = refl
  apply-present host unfreeze u v es w k hu hv d r = rw w (present-erase u v es hu hv d)
  apply-present host exit u v es w k hu hv d r = absurd k
  apply-present host slow_query u v es w k hu hv d r = absurd k

  op_of-OpFits : (host : Host) (c : CommandType) (u : Bytes) → Fits u → OpFits (op_of host c u)
  op_of-OpFits host exit u h = h
  op_of-OpFits host freeze u h = h
  op_of-OpFits host unfreeze u h = h
  op_of-OpFits host slow_query u h = h

  length-erase : (u : Bytes) (es : List Item) → length (erase u es) ≤ length es
  unfolding erase
  length-erase u [] = omega arith
  length-erase u (x ∷ es) = ground (arith, length-erase u es)

  length-apply :
      (host : Host) (c : CommandType) (u : Bytes) (es : List Item)
      → IsOrder c
      → length (apply max (op_of host c u) es) ≤ length es + 1
  unfolding apply
  length-apply host freeze u es k = ground (
    arith,
    length-append es (
        record { username = strlcpy u username_max_len; uid = uid_of (host.mapped u) cfg.all_lve }
        ∷ []),
  )
  length-apply host unfreeze u es k = ground (arith, length-erase u es)
  length-apply host exit u es k = absurd k
  length-apply host slow_query u es k = absurd k

  module _ (bound : ℕ) (within : bound ≤ max) (e : cfg.use_lve ≡ true) where
    -- A list is left, in which `f` says who is on it from who was.
    abbrev pub Becomes : ℕ → BadList → (Bytes → Bool → Bool) → Option BadList → Type 0
    Becomes n l f after_list =
        (l' : BadList) × (after_list ≡ some l')
        × IsReady max bound n l'
        × ((v : Bytes) → Fits v → present v (listed l') ≡ f v (present v (listed l)))

    send_command-Becomes :
        (host : Host) (c : CommandType) (u : Bytes) (st : Sending) (l : BadList) (n : ℕ)
        → host.waits ≡ true
        → IsOrder c
        → Fits u
        → st.bad_list ≡ some l
        → IsReady max bound (suc n) l
        → Becomes n l
            (λ v b. if streq u v then after c b else b)
            (send_command max cfg host c u st).bad_list
    send_command-Becomes host c u st l n w k hu el r =
        let (l', e', fit, same_list) = step-apply max (op_of host c u) l r.fits in
        (
          l',
          send_command-step host c u st e k ∙ ap (step max (op_of host c u)) el ∙ e',
          record {
            fits = fit;
            distinct = subst Distinct (sym same_list) (
                apply-Distinct max (op_of host c u) (listed l) (op_of-OpFits host c u hu)
                  r.distinct);
            room = omega (
              arith,
              r.room,
              length-listed max l r.fits,
              length-listed max l' fit,
              length-apply host c u (listed l) k,
              ap length same_list,
            );
          },
          λ v hv.
              ap (present v) same_list
              ∙ apply-present host c u v (listed l) w k hu hv r.distinct has_room,
        )
      where
        has_room : length (listed l) + 1 < max
        has_room = omega (arith, within, r.room, length-listed max l r.fits)

    -- The thread makes of the list what the commands say, with `n` more to come.
    pub send_each-Becomes :
        (hosts : ℕ → Host) (i n : ℕ) (cs : List (Option Command)) (st : Sending) (l : BadList)
        → ((j : ℕ) → (hosts j).waits ≡ true)
        → Orders cs
        → st.bad_list ≡ some l
        → IsReady max bound (count cs + n) l
        → Becomes n l (λ v b. frozen cs v b) (send_each max cfg hosts i cs st).bad_list
    unfolding send_each send_commands frozen
    send_each-Becomes hosts i n [] st l w k el r =
        (l, el, IsReady-fewer (omega arith) r, λ v hv. refl)
    send_each-Becomes hosts i n (none ∷ cs) st l w k el r =
        send_each-Becomes hosts (i + 1) n cs st l w k el r
    send_each-Becomes hosts i n (some c ∷ cs) st l w (hc, kc, k) el r =
        let (l1, e1, r1, b1) =
          send_command-Becomes (hosts i) c.command c.username st l (count cs + n) (w i) kc hc el
            (IsReady-fewer (omega arith) r) in
        let (l2, e2, r2, b2) =
          send_each-Becomes hosts (i + 1) n cs
            (send_command max cfg (hosts i) c.command c.username st) l1 w k e1 r1 in
        (l2, e2, r2, λ v hv. b2 v hv ∙ ap (frozen cs v) (b1 v hv))
