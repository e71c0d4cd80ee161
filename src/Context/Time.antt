-- ===== src/Context/Time.antt =====
-- `Context::get_variable_str` of src/commands/IfCommand.cpp. The clock and std::put_time are the
-- system's: the parameter `Clock`.
use ahk_unix.Base.{
  ℕ, suc, ◌-◌, ◌%◌, Bool, ◌||◌, List, [], ◌∷◌, ◌++◌, none, some, if◌then◌else◌, any, length,
  replicate, Bytes, codes,
}
use ahk_unix.Text.Chars.{equal}
use ahk_unix.Text.Number.{decimal}
use ahk_unix.Context.{Context, lookup}

-- The time of one call: put_time of the local and of the UTC time, and the fields that are read.
pub record Clock : Type 0 where
  pub local_time : Bytes → Bytes
  pub utc_time : Bytes → Bytes
  pub tm_wday : ℕ
  pub tm_yday : ℕ
  pub milliseconds : ℕ

abbrev time_vars : List Bytes
time_vars =
    codes "A_Now"
    ∷ codes "A_NowUTC"
    ∷ codes "A_YYYY"
    ∷ codes "A_Year"
    ∷ codes "A_Year_Now"
    ∷ codes "A_MM"
    ∷ codes "A_Mon"
    ∷ codes "A_Month_Now"
    ∷ codes "A_DD"
    ∷ codes "A_MDay"
    ∷ codes "A_Day_Now"
    ∷ codes "A_WDay"
    ∷ codes "A_YDay"
    ∷ codes "A_Hour"
    ∷ codes "A_Hour_Now"
    ∷ codes "A_Min"
    ∷ codes "A_Minute_Now"
    ∷ codes "A_Sec"
    ∷ codes "A_Second_Now"
    ∷ codes "A_MSec"
    ∷ codes "A_TickCount"
    ∷ []

unfoldable pub is_time_var : Bytes → Bool
unfolding equal
is_time_var name = any (equal name) time_vars

-- `setfill('0') << setw(3)`
abbrev pad : Bytes → Bytes
pad digits = replicate (3 - length digits) b'0' ++ digits

abbrev pub timestamp : Bytes
timestamp = codes "%Y%m%d%H%M%S"

unfoldable pub time_value : Clock → Bytes → Bytes
unfolding equal decimal
time_value clock name =
    if equal name (codes "A_Now")
    then clock.local_time timestamp
    else if equal name (codes "A_NowUTC")
    then clock.utc_time timestamp
    else if equal name (codes "A_YYYY")
        || equal name (codes "A_Year")
        || equal name (codes "A_Year_Now")
    then clock.local_time (codes "%Y")
    else if equal name (codes "A_MM")
        || equal name (codes "A_Mon")
        || equal name (codes "A_Month_Now")
    then clock.local_time (codes "%m")
    else if equal name (codes "A_DD")
        || equal name (codes "A_MDay")
        || equal name (codes "A_Day_Now")
    then clock.local_time (codes "%d")
    else if equal name (codes "A_WDay")
    then decimal (suc clock.tm_wday)
    else if equal name (codes "A_YDay")
    then decimal (suc clock.tm_yday)
    else if equal name (codes "A_Hour") || equal name (codes "A_Hour_Now")
    then clock.local_time (codes "%H")
    else if equal name (codes "A_Min") || equal name (codes "A_Minute_Now")
    then clock.local_time (codes "%M")
    else if equal name (codes "A_Sec") || equal name (codes "A_Second_Now")
    then clock.local_time (codes "%S")
    else if equal name (codes "A_MSec")
    then pad (decimal (clock.milliseconds % 1000))
    else if equal name (codes "A_TickCount")
    then decimal clock.milliseconds
    else []

unfoldable pub get_variable_str : Clock → Context → Bytes → Bytes
unfolding is_time_var time_value lookup
get_variable_str clock ctx name =
    if is_time_var name
    then time_value clock name
    else elim (lookup name ctx.variables_str) [ some value ↦ value | none ↦ [] ]
