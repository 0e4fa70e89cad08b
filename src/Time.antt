-- ===== src/Time.antt =====
-- Instants and durations of package time. An instant is its number of nanoseconds since the
-- earliest second that time.Time can hold, 2^63 seconds before the year 1; so every time.Time is a
-- natural number, and Before, After and Equal are the order of numbers. A location and a monotonic
-- reading take no part in the methods that the program calls.
use url_shortner.Prelude.{suc, ◌+◌, ◌/◌, ◌%◌, ℕ, ◌-◌, ◌*◌, ◌^◌, Bool, leb, ltb, ◌==◌, if◌then◌else◌}
use url_shortner.Prelude.Int.{ℤ, pos, negsuc, sub_ℕ}

abbrev pub Time : Type 0
Time = ℕ

-- time.Duration: an int64 of nanoseconds.
abbrev pub Duration : Type 0
Duration = ℤ

-- The zero value of time.Time, 1 January of the year 1.
unfoldable pub zero_time : Time
zero_time = 2 ^ 63 * 10 ^ 9

unfoldable pub is_zero : Time → Bool
is_zero t = t == zero_time

abbrev pub before : Time → Time → Bool
before a b = ltb a b

abbrev pub after : Time → Time → Bool
after a b = ltb b a

abbrev pub equal : Time → Time → Bool
equal a b = a == b

-- The largest int64.
abbrev pub max_int64 : ℕ
max_int64 = 2 ^ 63 - 1

abbrev saturate : ℤ → Duration
saturate (pos n) = if leb n max_int64 then pos n else pos max_int64
saturate (negsuc n) = if leb n max_int64 then negsuc n else negsuc max_int64

-- a.Sub(b), which saturates.
unfoldable pub sub : Time → Time → Duration
sub a b = saturate (sub_ℕ a b)

abbrev pub uint64_mod : ℕ
uint64_mod = 2 ^ 64

-- 1 January 1970, and t.UnixMilli(): milliseconds since then, rounded down, in an int64.
unfoldable pub unix_epoch : Time
unix_epoch = (2 ^ 63 + 62135596800) * 10 ^ 9

abbrev wrapped : ℕ → ℤ
wrapped m = if leb m max_int64 then pos m else negsuc (uint64_mod - m - 1)

unfoldable pub wrap_int64 : ℤ → ℤ
wrap_int64 (pos n) = wrapped (n % uint64_mod)
wrap_int64 (negsuc n) = wrapped (uint64_mod - 1 - n % uint64_mod)

unfoldable pub unix_milli : Time → ℤ
unfolding wrap_int64 unix_epoch
unix_milli t = wrap_int64 (
    if leb unix_epoch t
    then pos ((t - unix_epoch) / 10 ^ 6)
    else negsuc ((unix_epoch - t - 1) / 10 ^ 6))

-- d.Milliseconds(), rounded towards 0
unfoldable pub milliseconds : Duration → ℤ
milliseconds (pos n) = pos (n / 10 ^ 6)
milliseconds (negsuc n) = sub_ℕ 0 (suc n / 10 ^ 6)
