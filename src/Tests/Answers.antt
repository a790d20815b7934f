-- ===== src/Tests/Answers.antt =====
-- Answers of the codex usage endpoint.
use cpa_plugin_reset_priorit.Times.{Time, zero_time, second}
use cpa_plugin_reset_priorit.Json.{Number, Fields, number, object, integer, decimal, field, end}
use cpa_plugin_reset_priorit.Codex.{
  weekly_window_seconds, candidate_windows, window_reset_at, find_weekly_reset,
}
use cpa_plugin_reset_priorit.Codex.Weekly.{weekly_reset_origin}
use cpa_plugin_reset_priorit.Codex.Declared.{DeclaresWeek}
use cpa_plugin_reset_priorit.Codex.Bounds.{Near, Bounded}
use cpa_plugin_reset_priorit.Base.{
  Str, bytes, str_eq, In, ℤ, ltb_ℤ, pos, negsuc, ℕ, ◌+◌, ◌*◌, ◌≡◌, refl, Option, none, some, arith,
}

-- Numbers without a fraction stand for themselves; no timestamp is read.
abbrev no_timestamp : Str → Option Time
no_timestamp text = none

abbrev whole : Number → Option ℤ
whole (integer z) = some z
whole (decimal _ _) = none

abbrev to_nanoseconds : ℤ → ℕ
to_nanoseconds (pos n) = n * second
to_nanoseconds (negsuc n) = 0

abbrev weekly : Fields
weekly =
    field (bytes "limit_window_seconds") (number (integer (pos weekly_window_seconds)))
      (field (bytes "reset_after_seconds") (number (integer (pos 60))) end)

abbrev answer : Fields
answer =
    field (bytes "rate_limit") (object (field (bytes "primary_window") (object weekly) end)) end

sample_bounded : Bounded no_timestamp whole whole (λ z. z) ltb_ℤ to_nanoseconds
sample_bounded (pos n) l u = ground arith
sample_bounded (negsuc n) l u = omega arith

answer_found :
    find_weekly_reset no_timestamp whole whole (λ z. z) ltb_ℤ to_nanoseconds answer zero_time
    ≡ some (zero_time + 60 * second)
unfolding find_weekly_reset str_eq
answer_found = refl

weekly_reset_origin_example :
    Near zero_time (zero_time + 60 * second)
    × ((window : Fields) × In window (candidate_windows answer)
        × DeclaresWeek whole window
        × (window_reset_at no_timestamp whole whole (λ z. z) ltb_ℤ to_nanoseconds window zero_time
            ≡ some (zero_time + 60 * second)))
weekly_reset_origin_example =
    weekly_reset_origin no_timestamp whole whole (λ z. z) ltb_ℤ to_nanoseconds sample_bounded answer
      zero_time (zero_time + 60 * second) answer_found
