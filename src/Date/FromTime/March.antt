-- ===== src/Date/FromTime/March.antt =====
-- The cycles of `From<SystemTime> for HttpDate`: years that begin in March, counted from 1600.
use async_h.Base.{ℕ, ◌+◌, ◌-◌, ◌*◌, ◌/◌, ◌%◌, ◌≤◌, ◌<◌, ◌≡◌, refl, arith}
use async_h.Base.Int.{pos, ◌+ℤ◌, ◌-ℤ◌, ◌*ℤ◌}
use async_h.Date.FromTime.{
  leapoch, days_per_400y, days_per_100y, days_per_4y, qc_cycles, cycles, march_year,
}

-- Days from 1600-03-01 to 1970-01-01.
abbrev pub before_1970 : ℕ
before_1970 = 135080

pub qc_cycles-eq :
    (n : ℕ)
    → qc_cycles (pos n -ℤ pos leapoch)
      ≡ (pos ((n + before_1970) / days_per_400y) -ℤ pos 1, (n + before_1970) % days_per_400y)
unfolding qc_cycles
qc_cycles-eq n = ground arith

-- What one level of the cycles does, at the three sizes.
century :
    (n : ℕ)
    → n < days_per_400y
    → (cycles days_per_100y 4 n ≤ 3)
      × (cycles days_per_100y 4 n * days_per_100y ≤ n)
      × (n - cycles days_per_100y 4 n * days_per_100y ≤ 36524)
      × (n - cycles days_per_100y 4 n * days_per_100y ≡ 36524 → cycles days_per_100y 4 n ≡ 3)
unfolding cycles
century n h = ground arith

olympiad :
    (n : ℕ)
    → n ≤ 36524
    → (cycles days_per_4y 25 n ≤ 24)
      × (cycles days_per_4y 25 n * days_per_4y ≤ n)
      × (n - cycles days_per_4y 25 n * days_per_4y ≤ 1460)
unfolding cycles
olympiad n h = ground arith

single_year :
    (n : ℕ)
    → n ≤ 1460
    → (cycles 365 4 n ≤ 3)
      × (cycles 365 4 n * 365 ≤ n)
      × (n - cycles 365 4 n * 365 ≤ 365)
      × (n - cycles 365 4 n * 365 ≡ 365 → cycles 365 4 n ≡ 3)
unfolding cycles
single_year n h = ground arith

-- `year` begins in March, and `r` is a day of it: the nested cycles add up to `n` days after the
-- epoch.
pub record MarchDay (n year r : ℕ) : Type 0 where
  pub k : ℕ
  pub c : ℕ
  pub q : ℕ
  pub y : ℕ
  pub year_is : year ≡ 1600 + y + 4 * q + 100 * c + 400 * k
  pub days_are : n + before_1970 ≡ k * 146097 + c * 36524 + q * 1461 + y * 365 + r
  pub in_range : (y ≤ 3) × (q ≤ 24) × (c ≤ 3) × (r ≤ 365)
  pub leap_day : r ≡ 365 → (y ≡ 3) × (q ≡ 24 → c ≡ 3)

year_of :
    (k c q y : ℕ)
    → pos (2000 + y + 4 * q + 100 * c) +ℤ pos 400 *ℤ (pos k -ℤ pos 1)
      ≡ pos (1600 + y + 4 * q + 100 * c + 400 * k)
unfolding ◌+ℤ◌ ◌-ℤ◌ ◌*ℤ◌
year_of k c q y = ground arith

pub march_year-MarchDay :
    (n : ℕ)
    → (year : ℕ) × (r : ℕ) × (march_year (qc_cycles (pos n -ℤ pos leapoch)) ≡ (pos year, r))
      × MarchDay n year r
unfolding march_year
march_year-MarchDay n =
    let m : ℕ = n + before_1970 in
    let r1 : ℕ = m % days_per_400y in
    let c = cycles days_per_100y 4 r1 in
    let r2 : ℕ = r1 - c * days_per_100y in
    let q = cycles days_per_4y 25 r2 in
    let r3 : ℕ = r2 - q * days_per_4y in
    let y = cycles 365 4 r3 in
    let hc = century r1 (omega arith) in
    let hq = olympiad r2 hc.2 in
    let hy = single_year r3 hq.2 in
    (
      1600 + y + 4 * q + 100 * c + 400 * (m / days_per_400y),
      r3 - y * 365,
      rw qc_cycles-eq (λ i. (year_of (m / days_per_400y) c q y i, r3 - y * 365)),
      record {
        k = m / days_per_400y;
        c = c;
        q = q;
        y = y;
        year_is = refl;
        days_are = omega arith;
        in_range = omega arith;
        leap_day = λ e. omega (arith, hy.3 e);
      },
    )
