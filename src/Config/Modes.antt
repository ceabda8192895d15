-- ===== src/Config/Modes.antt =====
-- governor_config.c: the strings for the modes and for the formats of the restriction log.
use mysql_governor.Base.{
  ℕ, ◌≤◌, ◌≡◌, refl, Bool, true, false, Option, none, some, arith, leb, ◌==◌, if◌then◌else◌, Bytes,
  codes, strcaseeq,
}
use mysql_governor.Data.{
  ModeType, test_mode, production_mode, debug_mode, error_mode, restrict_mode, norestrict_mode,
  ignore_mode, old_restrict_mode, new_restrict_mode,
}
use mysql_governor.Config.Result.{invalid_mode, Result, returns, stops}

-- The argument is not NULL where it is called.
unfoldable pub mode_type_str_to_enum : Bytes → Result ModeType
mode_type_str_to_enum mode_str =
    if strcaseeq mode_str (codes "TEST")
    then returns test_mode
    else if strcaseeq mode_str (codes "PRODUCTION")
    then returns production_mode
    else if strcaseeq mode_str (codes "DEBUG")
    then returns debug_mode
    else if strcaseeq mode_str (codes "ERROR")
    then returns error_mode
    else if strcaseeq mode_str (codes "RESTRICT")
    then returns restrict_mode
    else if strcaseeq mode_str (codes "NORESTRICT")
    then returns norestrict_mode
    else if strcaseeq mode_str (codes "IGNORE")
    then returns ignore_mode
    else if strcaseeq mode_str (codes "OLD")
    then returns old_restrict_mode
    else if strcaseeq mode_str (codes "NEW")
    then returns new_restrict_mode
    else stops invalid_mode

unfoldable pub mode_type_enum_to_str : ModeType → Bytes
mode_type_enum_to_str test_mode = codes "TEST"
mode_type_enum_to_str production_mode = codes "PRODUCTION"
mode_type_enum_to_str debug_mode = codes "DEBUG"
mode_type_enum_to_str error_mode = codes "ERROR"
mode_type_enum_to_str restrict_mode = codes "RESTRICT"
mode_type_enum_to_str norestrict_mode = codes "NORESTRICT"
mode_type_enum_to_str ignore_mode = codes "IGNORE"
mode_type_enum_to_str old_restrict_mode = codes "OLD RESTRICT MODE"
mode_type_enum_to_str new_restrict_mode = codes "NEW RESTRICT MODE"

-- getRestrictFormat
unfoldable pub get_restrict_format : Option Bytes → ℕ
get_restrict_format none = 2
get_restrict_format (some mode) =
    if strcaseeq mode (codes "SHORT")
    then 0
    else if strcaseeq mode (codes "MEDIUM")
    then 1
    else if strcaseeq mode (codes "LONG")
    then 2
    else if strcaseeq mode (codes "VERYLONG")
    then 3
    else if strcaseeq mode (codes "CHECKTICKS")
    then 4
    else 2

-- getRestrictFormatStr
unfoldable pub get_restrict_format_str : ℕ → Bytes
get_restrict_format_str tp =
    if tp == 0
    then codes "SHORT"
    else if tp == 1
    then codes "MEDIUM"
    else if tp == 2
    then codes "LONG"
    else if tp == 3
    then codes "VERYLONG"
    else if tp == 4
    then codes "CHECKTICKS"
    else codes "WOW!!!"

-- The modes that the dump of the configuration prints as a file may give them.
unfoldable pub is_readable : ModeType → Bool
is_readable old_restrict_mode = false
is_readable new_restrict_mode = false
is_readable other = true

-- The printed form of a mode is read back as that mode, except for the two of restrict_mode, whose
-- printed forms the reading of a file refuses.
pub mode_type_str_to_enum-mode_type_enum_to_str :
    (mode : ModeType)
    → mode_type_str_to_enum (mode_type_enum_to_str mode)
      ≡ (if is_readable mode then returns mode else stops invalid_mode)
unfolding mode_type_str_to_enum mode_type_enum_to_str is_readable strcaseeq
mode_type_str_to_enum-mode_type_enum_to_str test_mode = refl
mode_type_str_to_enum-mode_type_enum_to_str production_mode = refl
mode_type_str_to_enum-mode_type_enum_to_str debug_mode = refl
mode_type_str_to_enum-mode_type_enum_to_str error_mode = refl
mode_type_str_to_enum-mode_type_enum_to_str restrict_mode = refl
mode_type_str_to_enum-mode_type_enum_to_str norestrict_mode = refl
mode_type_str_to_enum-mode_type_enum_to_str ignore_mode = refl
mode_type_str_to_enum-mode_type_enum_to_str old_restrict_mode = refl
mode_type_str_to_enum-mode_type_enum_to_str new_restrict_mode = refl

pub get_restrict_format-le : (mode : Option Bytes) → get_restrict_format mode ≤ 4
unfolding get_restrict_format
get_restrict_format-le none = omega arith
get_restrict_format-le (some mode) = ground arith

-- A format that is printed is read back; anything else reads as the long format.
get_restrict_format-get_restrict_format_str :
    (tp : ℕ)
    → get_restrict_format (some (get_restrict_format_str tp)) ≡ (if leb tp 4 then tp else 2)
unfolding get_restrict_format get_restrict_format_str strcaseeq
get_restrict_format-get_restrict_format_str tp = ground arith
