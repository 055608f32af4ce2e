-- ===== src/Date/Parse/Names.antt =====
-- The names of days and months that src/date.rs writes are those that its parsers read.
use async_h.Base.{
  ℕ, zero, suc, ◌≤◌, ◌≡◌, refl, [], ◌∷◌, true, false, arith, ok, invalid_month, invalid_day,
}
use async_h.Base.Bytes.{equal, is_ascii, is_whitespace}
use async_h.Date.Parse.{match_bytes, month_arms, day_arms}
use async_h.Date.Display.{week_day_name, month_name}

-- The name of a day of the week: three ASCII bytes that the parser maps to its number.
pub record DayName (n : ℕ) : Type 0 where
  pub a : ℕ
  pub b : ℕ
  pub c : ℕ
  pub named : week_day_name n ≡ ok (a ∷ b ∷ c ∷ [])
  pub ascii : is_ascii (a ∷ b ∷ c ∷ []) ≡ true
  pub no_space : is_whitespace a ≡ false
  pub read : match_bytes (day_arms ", ") invalid_day (a ∷ b ∷ c ∷ b',' ∷ b' ' ∷ []) ≡ ok n
  pub read_space : match_bytes (day_arms " ") invalid_day (a ∷ b ∷ c ∷ b' ' ∷ []) ≡ ok n

pub record MonthName (n : ℕ) : Type 0 where
  pub a : ℕ
  pub b : ℕ
  pub c : ℕ
  pub named : month_name n ≡ ok (a ∷ b ∷ c ∷ [])
  pub ascii : is_ascii (a ∷ b ∷ c ∷ []) ≡ true
  pub read : match_bytes (month_arms " " " ") invalid_month (b' ' ∷ a ∷ b ∷ c ∷ b' ' ∷ []) ≡ ok n
  pub read_dashes :
      match_bytes (month_arms "-" "-") invalid_month (b'-' ∷ a ∷ b ∷ c ∷ b'-' ∷ []) ≡ ok n
  pub read_space : match_bytes (month_arms "" " ") invalid_month (a ∷ b ∷ c ∷ b' ' ∷ []) ≡ ok n

pub day_named : (n : ℕ) → 1 ≤ n → n ≤ 7 → DayName n
unfolding week_day_name match_bytes equal is_ascii
day_named zero h k = absurd (omega arith)
day_named (suc zero) h k = record {
  a = b'M';
  b = b'o';
  c = b'n';
  named = refl;
  ascii = refl;
  no_space = refl;
  read = refl;
  read_space = refl;
}
day_named (suc (suc zero)) h k = record {
  a = b'T';
  b = b'u';
  c = b'e';
  named = refl;
  ascii = refl;
  no_space = refl;
  read = refl;
  read_space = refl;
}
day_named (suc (suc (suc zero))) h k = record {
  a = b'W';
  b = b'e';
  c = b'd';
  named = refl;
  ascii = refl;
  no_space = refl;
  read = refl;
  read_space = refl;
}
day_named (suc (suc (suc (suc zero)))) h k = record {
  a = b'T';
  b = b'h';
  c = b'u';
  named = refl;
  ascii = refl;
  no_space = refl;
  read = refl;
  read_space = refl;
}
day_named (suc (suc (suc (suc (suc zero))))) h k = record {
  a = b'F';
  b = b'r';
  c = b'i';
  named = refl;
  ascii = refl;
  no_space = refl;
  read = refl;
  read_space = refl;
}
day_named (suc (suc (suc (suc (suc (suc zero)))))) h k = record {
  a = b'S';
  b = b'a';
  c = b't';
  named = refl;
  ascii = refl;
  no_space = refl;
  read = refl;
  read_space = refl;
}
day_named (suc (suc (suc (suc (suc (suc (suc zero))))))) h k = record {
  a = b'S';
  b = b'u';
  c = b'n';
  named = refl;
  ascii = refl;
  no_space = refl;
  read = refl;
  read_space = refl;
}
day_named (suc (suc (suc (suc (suc (suc (suc (suc n)))))))) h k = absurd (omega arith)

pub month_named : (n : ℕ) → 1 ≤ n → n ≤ 12 → MonthName n
unfolding month_name match_bytes equal is_ascii
month_named zero h k = absurd (omega arith)
month_named (suc zero) h k = record {
  a = b'J';
  b = b'a';
  c = b'n';
  named = refl;
  ascii = refl;
  read = refl;
  read_dashes = refl;
  read_space = refl;
}
month_named (suc (suc zero)) h k = record {
  a = b'F';
  b = b'e';
  c = b'b';
  named = refl;
  ascii = refl;
  read = refl;
  read_dashes = refl;
  read_space = refl;
}
month_named (suc (suc (suc zero))) h k = record {
  a = b'M';
  b = b'a';
  c = b'r';
  named = refl;
  ascii = refl;
  read = refl;
  read_dashes = refl;
  read_space = refl;
}
month_named (suc (suc (suc (suc zero)))) h k = record {
  a = b'A';
  b = b'p';
  c = b'r';
  named = refl;
  ascii = refl;
  read = refl;
  read_dashes = refl;
  read_space = refl;
}
month_named (suc (suc (suc (suc (suc zero))))) h k = record {
  a = b'M';
  b = b'a';
  c = b'y';
  named = refl;
  ascii = refl;
  read = refl;
  read_dashes = refl;
  read_space = refl;
}
month_named (suc (suc (suc (suc (suc (suc zero)))))) h k = record {
  a = b'J';
  b = b'u';
  c = b'n';
  named = refl;
  ascii = refl;
  read = refl;
  read_dashes = refl;
  read_space = refl;
}
month_named (suc (suc (suc (suc (suc (suc (suc zero))))))) h k = record {
  a = b'J';
  b = b'u';
  c = b'l';
  named = refl;
  ascii = refl;
  read = refl;
  read_dashes = refl;
  read_space = refl;
}
month_named (suc (suc (suc (suc (suc (suc (suc (suc zero)))))))) h k = record {
  a = b'A';
  b = b'u';
  c = b'g';
  named = refl;
  ascii = refl;
  read = refl;
  read_dashes = refl;
  read_space = refl;
}
month_named (suc (suc (suc (suc (suc (suc (suc (suc (suc zero))))))))) h k = record {
  a = b'S';
  b = b'e';
  c = b'p';
  named = refl;
  ascii = refl;
  read = refl;
  read_dashes = refl;
  read_space = refl;
}
month_named (suc (suc (suc (suc (suc (suc (suc (suc (suc (suc zero)))))))))) h k = record {
  a = b'O';
  b = b'c';
  c = b't';
  named = refl;
  ascii = refl;
  read = refl;
  read_dashes = refl;
  read_space = refl;
}
month_named (suc (suc (suc (suc (suc (suc (suc (suc (suc (suc (suc zero))))))))))) h k = record {
  a = b'N';
  b = b'o';
  c = b'v';
  named = refl;
  ascii = refl;
  read = refl;
  read_dashes = refl;
  read_space = refl;
}
month_named (suc (suc (suc (suc (suc (suc (suc (suc (suc (suc (suc (suc zero)))))))))))) h k =
    record {
      a = b'D';
      b = b'e';
      c = b'c';
      named = refl;
      ascii = refl;
      read = refl;
      read_dashes = refl;
      read_space = refl;
    }
month_named (suc (suc (suc (suc (suc (suc (suc (suc (suc (suc (suc (suc (suc n))))))))))))) h k =
    absurd (omega arith)
