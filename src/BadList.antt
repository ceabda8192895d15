-- ===== src/BadList.antt =====
-- shared_memory.c: the list of restricted users in shared memory, that the server's threads read.
-- `max_items_in_table` is MAX_ITEMS_IN_TABLE, 100000. A pointer that is NULL or MAP_FAILED is
-- none. `waits` answers whether sem_wait succeeds, and `attempts` what sem_trywait does, try by
-- try. The zeroed memory behind the last entry is an item with an empty name.
pub mod Listed
pub mod Ops
pub mod Reader
pub mod Distinct
mod Tests
use mysql_governor.Base.{
  ℕ, zero, suc, ◌+◌, ◌-◌, Bool, true, false, not, ◌&&◌, Option, none, some, List, [], ◌++◌, ◌==◌,
  if◌then◌else◌, get_elem?, set, take, drop, replicate, ℤ, pos, negsuc, eqb_ℤ, Bytes, strlcpy,
  strneq,
}
use mysql_governor.Data.{username_max_len, bad_lve}

-- items_structure
pub record Item : Type 0 where
  pub username : Bytes
  pub uid : ℤ

-- shm_structure
pub record BadList : Type 0 where
  pub numbers : ℕ
  pub items : List Item

names_user : Bytes → Option Item → Bool
names_user username none = false
names_user username (some x) = strneq x.username username username_max_len

-- The comparison that every search makes, with an access to `items [index]`.
unfoldable pub matches : Bytes → BadList → ℕ → Bool
unfolding names_user
matches username l index = names_user username (get_elem? l.items index)

-- The loop of is_user_in_list from `index`, with `rounds` rounds left.
unfoldable pub find_from : Bytes → BadList → ℕ → ℕ → Bool
unfolding matches
find_from username l index zero = false
find_from username l index (suc rounds) =
    let rest = find_from username l (index + 1) rounds in
    if matches username l index then true else rest

unfoldable pub is_user_in_list : Option BadList → Bytes → ℤ
unfolding find_from
is_user_in_list none username = negsuc 0
is_user_in_list (some l) username = if find_from username l 0 l.numbers then pos 1 else pos 0

-- The user's identifier: that of the map, if its lock is held; `is_all` turns the default into 0.
abbrev pub uid_of : Option ℤ → Bool → ℤ
uid_of mapped is_all =
    let uid : ℤ = elim mapped [ none ↦ bad_lve | some u ↦ u ] in
    if is_all && eqb_ℤ uid bad_lve then pos 0 else uid

unfoldable pub append_user : Bytes → ℤ → BadList → BadList
append_user username uid l = record {
  numbers = l.numbers + 1;
  items =
      set l.items l.numbers (record { username = strlcpy username username_max_len; uid = uid });
}

-- memmove of the items behind `index`, and one item less.
unfoldable pub remove_at : ℕ → BadList → BadList
remove_at index l =
    if index == l.numbers - 1 then record l { numbers = l.numbers - 1 } else record {
      numbers = l.numbers - 1;
      items =
          take index l.items
          ++ (take (l.numbers - index - 1) (drop (index + 1) l.items)
              ++ drop (l.numbers - 1) l.items);
    }

-- The loop of delete_user_from_list: where sem_wait fails the loop goes on.
unfoldable pub delete_from : (ℕ → Bool) → Bytes → BadList → ℕ → ℕ → ℤ × BadList
unfolding matches remove_at
delete_from waits username l index zero = (negsuc 1, l)
delete_from waits username l index (suc rounds) =
    let rest = delete_from waits username l (index + 1) rounds in
    if matches username l index && waits index then (pos 0, remove_at index l) else rest

unfoldable pub delete_user_from_list : (ℕ → Bool) → Bytes → Option BadList → ℤ × Option BadList
unfolding delete_from
delete_user_from_list waits username none = (negsuc 0, none)
delete_user_from_list waits username (some l) =
    let (r, l') = delete_from waits username l 0 l.numbers in (r, some l')

module _ (max_items_in_table : ℕ) where
  abbrev pub cleared : BadList
  cleared = record {
    numbers = 0;
    items = replicate max_items_in_table (record { username = []; uid = pos 0 });
  }

  unfoldable pub clear_bad_users_list : Option BadList → Option BadList
  clear_bad_users_list none = none
  clear_bad_users_list (some l) = some cleared

  -- `mapped` is what get_uid answers, none where the map's lock is not acquired.
  unfoldable pub add_user_to_list :
      Bool → Option ℤ → Bytes → Bool → Option BadList → ℤ × Option BadList
  unfolding append_user is_user_in_list
  add_user_to_list waits mapped username is_all none = (negsuc 0, none)
  add_user_to_list waits mapped username is_all (some l) =
      if not (eqb_ℤ (is_user_in_list (some l) username) (pos 0))
      then (pos 0, some l)
      else if l.numbers + 1 == max_items_in_table
      then (negsuc 1, some l)
      else if waits
      then (pos 0, some (append_user username (uid_of mapped is_all) l))
      else (pos 0, some l)

  unfoldable pub delete_allusers_from_list : Bool → Option BadList → ℤ × Option BadList
  unfolding clear_bad_users_list
  delete_allusers_from_list waits none = (negsuc 0, none)
  delete_allusers_from_list waits (some l) =
      if waits then (pos 0, clear_bad_users_list (some l)) else (negsuc 1, some l)

unfoldable pub get_users_list_size : Option BadList → ℕ
get_users_list_size none = 0
get_users_list_size (some l) = l.numbers

-- What a try of sem_trywait does: it acquires, finds the semaphore taken (EAGAIN), or fails.
pub data Attempt : Type 0 where
  acquired again failed : Attempt

entry_uid : Bytes → ℤ → Option Item → ℤ
entry_uid username rest none = rest
entry_uid username rest (some x) =
    if strneq x.username username username_max_len then x.uid else rest

-- The entry that a reader finds: the identifier of the first match, else 0.
unfoldable pub uid_from : Bytes → BadList → ℕ → ℕ → ℤ
unfolding entry_uid
uid_from username l index zero = pos 0
uid_from username l index (suc rounds) =
    let rest = uid_from username l (index + 1) rounds in
    entry_uid username rest (get_elem? l.items index)

-- How a reader ends: what it found, whether it posts the semaphore, and whether it holds it then.
pub record Reading : Type 0 where
  pub found : ℤ
  pub posts : Bool
  pub held : Bool

-- The loop that the readers share. `i`
-- numbers the tries of sem_trywait. The outcome is none where the fuel is not enough.
unfoldable pub read_loop : (ℕ → Attempt) → ℤ → (fuel trys sem_reopen i : ℕ) → Option Reading
read_loop attempts uid zero trys sem_reopen i = none
read_loop attempts uid (suc fuel) trys sem_reopen i =
    let reopened = read_loop attempts uid fuel 1 (sem_reopen + 1) (i + 1) in
    let rest = read_loop attempts uid fuel (trys + 1) sem_reopen (i + 1) in
    elim (attempts i) [
      | acquired ↦ some (record { found = uid; posts = true; held = true })
      | again ↦
          if trys + 1 == 100
          then (if sem_reopen + 1 == 4
              then some (record { found = pos 0; posts = true; held = false })
              else reopened)
          else rest
      | failed ↦ some (record { found = pos 0; posts = true; held = false })
    ]

-- The tries of a reader: four openings of the semaphore with 99 tries each.
unfoldable pub tries : ℕ
tries = 396

abbrev pub unread : Reading
unread = record { found = pos 0; posts = false; held = false }

-- The reader that opens and maps the list itself; `opens` is whether sem_open succeeds.
unfoldable pub is_user_in_bad_list_cleint :
    Bool → (ℕ → Attempt) → Bytes → Option BadList → Option Reading
unfolding uid_from read_loop
is_user_in_bad_list_cleint opens attempts username none = some unread
is_user_in_bad_list_cleint opens attempts username (some l) =
    if opens then read_loop attempts (uid_from username l 0 l.numbers) tries 1 0 0 else some unread

-- The reader of a list that init_bad_users_list_client has mapped, or not.
unfoldable pub is_user_in_bad_list_cleint_persistent :
    Bool → (ℕ → Attempt) → Bytes → Option BadList → Option Reading
unfolding uid_from read_loop
is_user_in_bad_list_cleint_persistent opens attempts username l =
    if opens
    then read_loop attempts (elim l [ none ↦ pos 0 | some m ↦ uid_from username m 0 m.numbers ])
        tries 1 0 0
    else some unread
