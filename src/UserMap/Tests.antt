-- ===== src/UserMap/Tests.antt =====
-- A file of three lines, of which two are of one user, and a line with no account.
use mysql_governor.Base.{
  ℕ, ◌^◌, ◌<◌, ◌≡◌, refl, true, some, [], ◌∷◌, arith, pos, Bytes, codes, streq, lookup, insert,
}
use mysql_governor.Base.Number.{atoi}
use mysql_governor.Data.{GovernorConfig}
use mysql_governor.Fixtures.{config}
use mysql_governor.UserMap.{get_uid}
use mysql_governor.UserMap.Reading.{get_map_file, new_entry}
use mysql_governor.UserMap.RoundTrip.{Entry, IsFit, print_map, first_line, get_map_file-print_map}

abbrev separate : GovernorConfig
separate = record config { separate_lve = true }

abbrev alice : ℕ → Entry
alice n = record { username = codes "alice_db"; account_name = codes "alice"; uid = n }

abbrev bob : Entry
bob = record { username = codes "bob"; account_name = codes "bob"; uid = 502 }

alice-IsFit : (n : ℕ) → 0 < n → n < 2 ^ 31 → IsFit (alice n)
alice-IsFit n h l = record {
  username_word = (refl, (refl, (refl, (refl, (refl, (refl, (refl, (refl, tt))))))));
  account_word = (refl, (refl, (refl, (refl, (refl, tt)))));
  username_some = omega arith;
  account_some = omega arith;
  username_fits = omega arith;
  account_fits = omega arith;
  uid_some = h;
  uid_int = l;
}

bob-IsFit : IsFit bob
bob-IsFit = record {
  username_word = (refl, (refl, (refl, tt)));
  account_word = (refl, (refl, (refl, tt)));
  username_some = omega arith;
  account_some = omega arith;
  username_fits = omega arith;
  account_fits = omega arith;
  uid_some = omega arith;
  uid_int = omega arith;
}

get_map_file-print_map_example :
    ((get_map_file separate (some (print_map (alice 501 ∷ bob ∷ alice 503 ∷ [])))).1 ≡ 1)
    × ((u : Bytes)
        → lookup u (get_map_file separate (some (print_map (alice 501 ∷ bob ∷ alice 503 ∷ [])))).0
          ≡ first_line u (alice 501 ∷ bob ∷ alice 503 ∷ []))
get_map_file-print_map_example =
    get_map_file-print_map separate (alice 501 ∷ bob ∷ alice 503 ∷ [])
      (
        alice-IsFit 501 (omega arith) (omega arith),
        (bob-IsFit, (alice-IsFit 503 (omega arith) (omega arith), tt)),
      )
      refl

-- The text of the file, and a line without an account, which is passed over.
uid_is_found :
    get_uid
      (some
        (get_map_file separate
          (some (codes "carol 7\nalice_db alice 501\nbob bob 502\nalice_db alice 503\n"))).0)
      (codes "alice_db")
    ≡ pos 501
unfolding get_uid get_map_file new_entry atoi insert streq
uid_is_found = refl
