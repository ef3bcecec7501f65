-- ===== src/Runtime/Duration.antt =====
-- `time.ParseDuration` and `Duration.String`, of which the program relies on one law.
use go_sentinel.Base.{ℕ, ◌<◌, arith, String, ◌≡◌, Option, none, some, ◌*◌}
use go_sentinel.Base.Int.{
  ℤ, pos, negsuc, ◌*ℤ◌, InInt64, quot, wrap32, wrap64, half32, wrap32_id, wrap64_id,
}

pub record Durations : Type 0 where
  -- none is an error
  pub parse : String → Option ℤ
  pub print : ℤ → String

-- A printed duration is read back, and the empty text is no duration.
pub record ReadsBack (d : Durations) : Type 0 where
  pub empty : d.parse "" ≡ none
  pub at : (n : ℤ) → InInt64 n → d.parse (d.print n) ≡ some n

abbrev pub millisecond : ℤ
millisecond = pos 1000000

-- The zero value of time.Time, the first of January of the year 1.
abbrev pub zero_time : ℤ
zero_time = negsuc 62135596799999999999

-- int32(d / time.Millisecond) and time.Duration(ms) * time.Millisecond
unfoldable pub to_ms32 : ℤ → ℤ
to_ms32 d = wrap32 (quot d millisecond)

unfoldable pub of_ms : ℤ → ℤ
of_ms ms = wrap64 (ms *ℤ millisecond)

-- A whole number of milliseconds that an int32 holds.
abbrev pub IsMillis : ℤ → Type 0
IsMillis d = (k : ℕ) × (k < half32) × (d ≡ pos (k * 1000000))

quot_millis : (k : ℕ) → quot (pos (k * 1000000)) millisecond ≡ pos k
unfolding quot
quot_millis k = ground arith

mul_millis : (k : ℕ) → pos k *ℤ millisecond ≡ pos (k * 1000000)
unfolding ◌*ℤ◌
mul_millis k = ground arith

pub of_ms-to_ms32 : (d : ℤ) → IsMillis d → of_ms (to_ms32 d) ≡ d
unfolding of_ms to_ms32
of_ms-to_ms32 d (k, small, e) =
    rw (e, quot_millis k, wrap32_id (pos k) (small, omega arith), mul_millis k)
      (wrap64_id (pos (k * 1000000)) (omega (arith, small), omega arith))

pub of_ms-quot : (d : ℤ) → IsMillis d → of_ms (quot d millisecond) ≡ d
unfolding of_ms
of_ms-quot d (k, small, e) =
    rw (e, quot_millis k, mul_millis k)
      (wrap64_id (pos (k * 1000000)) (omega (arith, small), omega arith))
