-- ===== src/UserMap/Reading.antt =====
-- dbuser_map.c: the reading of the file that maps database users to accounts.
use mysql_governor.Base.{
  ℕ, ◌+◌, ◌-◌, not, ◌||◌, Option, none, some, List, [], ◌∷◌, ◌++◌, ltb, ◌==◌, if◌then◌else◌, length,
  take, pos, leb_ℤ, Bytes, Table, lookup, insert,
}
use mysql_governor.Base.Number.{atoi}
use mysql_governor.Data.{GovernorConfig, username_max_len, bad_lve}
use mysql_governor.UserMap.{UserMap}

-- trim: the bytes but spaces and ends of lines.
unfoldable pub trim : Bytes → Bytes
trim [] = []
trim (c ∷ s) = if c == b' ' || c == b'\n' then trim s else c ∷ trim s

-- The calls of fgets with a buffer of 1024 bytes until the end of the file: each answers the bytes up to
-- the end of the line, and at most 1023. `room` bytes are left after those read, `line`.
unfoldable pub fgets_each : ℕ → Bytes → Bytes → List Bytes
fgets_each room [] [] = []
fgets_each room (b ∷ line) [] = (b ∷ line) ∷ []
fgets_each room line (c ∷ s) =
    let full = c == b'\n' || room == 1 in
    let rest =
      fgets_each (if full then 1023 else room - 1) (if full then [] else line ++ c ∷ []) s in
    if full then (line ++ c ∷ []) ∷ rest else rest

-- The locals of the loop over a line. The buffers are the bytes written to them, of which the last's number is
-- `len`, and zeros after them.
pub record Line : Type 0 where
  pub i : ℕ
  pub split : ℕ
  pub split2 : ℕ
  pub username : Bytes
  pub account_name : Bytes
  pub uid : Bytes

-- A byte written to a field at `j` bytes from its start, if it fits.
abbrev pub fit : ℕ → ℕ → Bytes → Bytes
fit c j buf = if ltb j (username_max_len - 1) then buf ++ c ∷ [] else buf

unfoldable pub split_step : ℕ → Line → Line
split_step c st =
    if st.split == 0
    then (if not (c == b' ')
        then record st { username = fit c st.i st.username }
        else record st { split = st.i })
    else if st.split2 == 0
    then (if not (c == b' ')
        then record st { account_name = fit c (st.i - st.split - 1) st.account_name }
        else record st { split2 = st.i })
    else if ltb st.split2 st.i
    then (if not (c == b'\n') then record st { uid = fit c (st.i - st.split2 - 1) st.uid } else st)
    else st

unfoldable pub split_line : Bytes → Line → Line
unfolding split_step
split_line [] st = st
split_line (c ∷ s) st = let st' = split_step c st in split_line s (record st' { i = st'.i + 1 })

abbrev pub new_line : Line
new_line = record { i = 0; split = 0; split2 = 0; username = []; account_name = []; uid = [] }

-- The entry of a user who is not in the map.
unfoldable pub new_entry : GovernorConfig → Bytes → Bytes → Bytes → Table UserMap → Table UserMap
new_entry data_cfg username account_name uid m =
    let tmp_uid = if data_cfg.separate_lve then atoi uid else bad_lve in
    if leb_ℤ (pos 1) tmp_uid
    then insert username
        (record {
          username = take (username_max_len - 1) username;
          account_name = take (username_max_len - 1) account_name;
          uid = tmp_uid;
        })
        m
    else m

abbrev pub unless_known : Option UserMap → Table UserMap → Table UserMap → Table UserMap
unless_known none m m' = m'
unless_known (some um) m m' = m

-- What a line does to the map.
unfoldable pub map_line : GovernorConfig → Bytes → Table UserMap → Table UserMap
unfolding trim split_line lookup
map_line data_cfg buf m =
    let st = split_line buf new_line in
    let username = trim st.username in
    let account_name = trim st.account_name in
    if length username == 0 || length account_name == 0
    then m
    else unless_known (lookup username m) m
        (new_entry data_cfg username account_name (trim st.uid) m)

unfoldable pub map_lines : GovernorConfig → List Bytes → Table UserMap → Table UserMap
unfolding map_line
map_lines data_cfg [] m = m
map_lines data_cfg (buf ∷ bufs) m = map_lines data_cfg bufs (map_line data_cfg buf m)

-- The new map and the result; none is a file that cannot be opened.
unfoldable pub get_map_file : GovernorConfig → Option Bytes → Table UserMap × ℕ
unfolding map_lines fgets_each
get_map_file data_cfg none = ([], 0)
get_map_file data_cfg (some file) = (map_lines data_cfg (fgets_each 1023 [] file) [], 1)
