-- ===== src/Times.antt =====
-- Go's `time.Time` and `time.Duration`. An instant is the number of nanoseconds since the earliest
-- instant that a `time.Time` can hold, so the zero time is a large number; a duration is a ℤ.
-- `Add` and `Sub` are those of instants far from the ends of the range.
use cpa_plugin_reset_priorit.Base.{
  ltb, ◌==◌, ℤ, sub_ℕ, pos, negsuc, ℕ, suc, ◌+◌, ◌-◌, ◌*◌, ◌^◌, Bool,
}

abbrev pub Time : Type 0
Time = ℕ

abbrev pub Duration : Type 0
Duration = ℤ

abbrev pub second : ℕ
second = 10 ^ 9

abbrev pub zero_time : Time
zero_time = 2 ^ 63 * 10 ^ 9

abbrev pub is_zero : Time → Bool
is_zero t = t == zero_time

abbrev pub after : Time → Time → Bool
after t u = ltb u t

abbrev pub before : Time → Time → Bool
before t u = ltb t u

-- `t.Add(d)` and `t.Sub(u)`.
unfoldable pub add_time : Time → Duration → Time
add_time t (pos d) = t + d
add_time t (negsuc d) = t - suc d

unfoldable pub sub_time : Time → Time → Duration
sub_time t u = sub_ℕ t u
