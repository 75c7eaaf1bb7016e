-- ===== src/Proxy/Bounds.antt =====
-- cyclone-database-proxy.py: how many results wait in the list, and the statement of a batch.
use lustre_ost_performance_t.Base.{
  Bool-cases, List, Result, [], ap, append_assoc, arith, err, false, inl, inr, is_nil, length, map,
  not, ok, refl, subst, sym, true, ℕ, ◌&&◌, ◌++◌, ◌+◌, ◌<◌, ◌∙◌, ◌∷◌, ◌≡◌, ◌⊎◌,
}
use lustre_ost_performance_t.Base.Exec.{resume}
use lustre_ost_performance_t.Text.{Text, codes, join}
use lustre_ost_performance_t.Proxy.{
  ProxyConfig, Proxy, Round, count, clear, sql_head, append_values, store_sql, store,
  store_and_clear, is_due, receive_data, store_due, iterate,
}

-- `(fields)`
abbrev pub in_parentheses : Text → Text
in_parentheses result = codes "(" ++ (result ++ codes ")")

append_values-eq :
    (sql : Text) (result : Text) (results : List Text)
    → append_values (sql ++ in_parentheses result) results
      ≡ sql ++ join b',' (map in_parentheses (result ∷ results))
unfolding append_values join
append_values-eq sql result [] = refl
append_values-eq sql result (next ∷ results) =
    let a = sql ++ in_parentheses result in
    ap (λ t. append_values t results) (sym (append_assoc a (b',' ∷ []) (in_parentheses next)))
    ∙ append_values-eq (a ++ b',' ∷ []) next results
    ∙ append_assoc a (b',' ∷ []) (join b',' (map in_parentheses (next ∷ results)))
    ∙ append_assoc sql (in_parentheses result)
        (b',' ∷ join b',' (map in_parentheses (next ∷ results)))

-- The statement for a list that is not empty names the table and its columns, and then has the
-- results in parentheses, in order, with commas between them.
pub store_sql-join :
    (table result : Text) (results : List Text)
    → store_sql table (result ∷ results)
      ≡ sql_head table ++ join b',' (map in_parentheses (result ∷ results))
unfolding store_sql
store_sql-join table result results = append_values-eq (sql_head table) result results

clear_after :
    (r : Result (Unit {0})) (p q : Proxy) → resume r (λ u. clear) p ≡ (ok tt, q) → count q ≡ 0
unfolding clear count
clear_after (err e) p q h = cc
clear_after (ok u) p q h = ap (λ out. length out.1.ost_perf_result_list) (sym h)

stamp_after :
    (now : ℕ) (r : Result (Unit {0})) (p q : Proxy)
    → ((v : Unit {0}) → r ≡ ok v → count p ≡ 0)
    → resume r (λ u. λ p. (ok tt, record p { last_store_timestamp = now })) p ≡ (ok tt, q)
    → count q ≡ 0
unfolding count
stamp_after now (err e) p q k h = cc
stamp_after now (ok u) p q k h = ap (λ out. length out.1.ost_perf_result_list) (sym h) ∙ k u refl

length_nil : (xs : List Text) → is_nil xs ≡ true → length xs ≡ 0
length_nil [] h = refl
length_nil (x ∷ xs) h = cc

-- Nothing waits, or the batch is not full and the time of a store has not come.
abbrev pub Waits : ProxyConfig → Round → Proxy → Type 0
Waits cfg r q =
    (count q ≡ 0)
    ⊎ (count q < cfg.store_max_count)
      × (r.last_exec_timestamp < q.last_store_timestamp + cfg.store_timeout)

module _ (cfg : ProxyConfig) where
  store_and_clear_empties :
      (database : Text → Result ℕ) (p : Proxy) (v : Unit {0})
      → (store_and_clear cfg database p).0 ≡ ok v
      → count (store_and_clear cfg database p).1 ≡ 0
  unfolding store_and_clear
  store_and_clear_empties database p v h =
      clear_after (store cfg database p).0 (store cfg database p).1 _
        (ap (λ r. (r, (store_and_clear cfg database p).1)) h)

  not_due :
      (r : Round) (p : Proxy)
      → (is_due cfg r p && not (is_nil p.ost_perf_result_list)) ≡ false
      → Waits cfg r p
  unfolding is_due count
  not_due r p h = elim (Bool-cases (is_nil p.ost_perf_result_list)) [
    | inl e ↦ inl (length_nil p.ost_perf_result_list e)
    | inr e ↦ inr (ground arith, ground arith)
  ]

  store_due-Waits : (r : Round) (p q : Proxy) → store_due cfg r p ≡ (ok tt, q) → Waits cfg r q
  unfolding store_due
  store_due-Waits r p q h =
      elim (Bool-cases (is_due cfg r p && not (is_nil p.ost_perf_result_list))) [
        | inl e ↦ inl (
            stamp_after r.time_after_store (store_and_clear cfg r.database p).0
              (store_and_clear cfg r.database p).1 q (store_and_clear_empties r.database p)
              (rw e at h))
        | inr e ↦ subst (Waits cfg r) (ap (λ out. out.1) (rw e at h)) (not_due r p e)
      ]

  after_receive :
      (r : Round) (u : Result (Unit {0})) (p q : Proxy)
      → resume u (λ v. store_due cfg r) p ≡ (ok tt, q)
      → Waits cfg r q
  after_receive r (err e) p q h = cc
  after_receive r (ok v) p q h = store_due-Waits r p q h

  -- After a pass of the loop that raised nothing, either no result waits, or fewer wait than make
  -- a batch and, at the start of the pass, the time that is kept for the last store was less than the
  -- timeout ago.
  pub iterate-Waits : (r : Round) (p q : Proxy) → iterate cfg r p ≡ (ok tt, q) → Waits cfg r q
  unfolding iterate
  iterate-Waits r p q h = after_receive r (receive_data cfg r p).0 (receive_data cfg r p).1 q h
