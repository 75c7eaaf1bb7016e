-- ===== src/Proxy/Rows.antt =====
-- db/ost_perf_history_table_handler.py: the rows of the statement that `store` makes.
use lustre_ost_performance_t.Base.{
  List, Result, [], ap, arith, if◌then◌else◌, inl, length, ok, refl, suc, ℕ, ◌++◌, ◌+◌, ◌-◌, ◌==◌,
  ◌∷◌, ◌≡◌,
}
use lustre_ost_performance_t.Text.{Text, codes, contains}
use lustre_ost_performance_t.Proxy.{sql_head, append_values, store_sql}
use lustre_ost_performance_t.Proxy.Batches.{IsHonest}
use lustre_ost_performance_t.Proxy.Results.{IsPlain, AllPlain}

-- How many parentheses a text opens.
unfoldable pub opens : Text → ℕ
opens [] = 0
opens (c ∷ s) = let rest = opens s in if c == b'(' then suc rest else rest

opens-append : (s t : Text) → opens (s ++ t) ≡ opens s + opens t
unfolding opens
opens-append [] t = omega arith
opens-append (c ∷ s) t = ground (arith, opens-append s t)

opens-plain : (s : Text) → IsPlain s → opens s ≡ 0
unfolding opens contains
opens-plain [] h = refl
opens-plain (c ∷ s) h = ground (arith, opens-plain s)

closing : opens (codes ")") ≡ 0
unfolding opens
closing = refl

append_row :
    (sql before result : Text)
    → IsPlain result
    → opens before ≡ 1
    → opens (sql ++ (before ++ (result ++ codes ")"))) ≡ opens sql + 1
append_row sql before result p b = omega (
  arith,
  opens-append sql (before ++ (result ++ codes ")")),
  opens-append before (result ++ codes ")"),
  opens-append result (codes ")"),
  opens-plain result p,
  b,
  closing,
)

opens-append_values :
    (sql : Text) (results : List Text)
    → AllPlain results
    → opens (append_values sql results) ≡ opens sql + length results
unfolding append_values
opens-append_values sql [] h = omega arith
opens-append_values sql (x ∷ results) (p, h) = omega (
  arith,
  opens-append_values (sql ++ (codes ",(" ++ (x ++ codes ")"))) results h,
  append_row sql (codes ",(") x p (unfold opens in refl),
)

-- The statement of a batch of results without a parenthesis opens one for each of them, behind the
-- one of the columns.
opens-store_sql :
    (table : Text) (batch : List Text)
    → AllPlain batch
    → opens (store_sql table batch) ≡ opens (sql_head table) + length batch
unfolding store_sql
opens-store_sql table [] h = omega arith
opens-store_sql table (x ∷ batch) (p, h) = omega (
  arith,
  opens-append_values (sql_head table ++ (codes "(" ++ (x ++ codes ")"))) batch h,
  append_row (sql_head table) (codes "(") x p (unfold opens in refl),
)

-- A database that inserts every statement and counts its rows.
unfoldable pub count_rows : Text → Text → Result ℕ
count_rows table sql = ok (opens sql - opens (sql_head table))

pub count_rows-IsHonest : (table : Text) → IsHonest table (count_rows table)
unfolding count_rows
count_rows-IsHonest table batch h = inl (ap ok (omega (arith, opens-store_sql table batch h)))
