-- ===== src/Proxy/Batches.antt =====
-- cyclone-database-proxy.py: every result that is received goes into one batch, in order.
use lustre_ost_performance_t.Base.{
  ==_refl, Bool-cases, Error, List, Result, [], ap, append-nil, append_assoc, err, inl, inr, is_nil,
  length, map, not, ok, refl, subst, sym, true, ℕ, ◌&&◌, ◌++◌, ◌∙◌, ◌∷◌, ◌≡◌, ◌⊎◌,
}
use lustre_ost_performance_t.Base.Exec.{Exec, resume}
use lustre_ost_performance_t.Text.{Text}
use lustre_ost_performance_t.Proxy.{
  ProxyConfig, Proxy, Round, insert, count, clear, store_sql, check_rowcount, store,
  store_and_clear, is_due, receive_data, store_due, iterate, run, flush, run_and_flush,
}
use lustre_ost_performance_t.Proxy.Results.{
  flatten, flatten-snoc, map-snoc, received, IsPlain, AllPlain, plain_join, plain_behind,
  received_plain, received-cons,
}

-- The statements are those of some batches, and the batches and what is still in the list are these
-- results, in order.
abbrev pub Kept : Text → List Text → Proxy → Type 0
Kept table results p =
    (batches : List (List Text)) × (p.statements ≡ map (store_sql table) batches)
    × (flatten batches ++ p.ost_perf_result_list ≡ results)

-- For the statement of a batch of such results the database raises, and inserts nothing, or tells the
-- number of rows of the batch.
abbrev pub IsHonest : Text → (Text → Result ℕ) → Type 0
IsHonest table database =
    (batch : List Text)
    → AllPlain batch
    → (database (store_sql table batch) ≡ ok (length batch))
      ⊎ ((e : Error) × (database (store_sql table batch) ≡ err e))

nil_of : (results : List Text) → is_nil results ≡ true → results ≡ []
nil_of [] h = refl
nil_of (x ∷ results) h = cc

-- The proxy before the loop.
abbrev pub started : ℕ → Proxy
started now = record { ost_perf_result_list = []; last_store_timestamp = now; statements = [] }

module _ (cfg : ProxyConfig) where
  -- The rounds that the loop reaches: the last one raises, or is the last of all.
  unfoldable pub reached : List Round → Proxy → List Round
  reached [] p = []
  reached (r ∷ rs) p =
      let rest = reached rs (iterate cfg r p).1 in
      r ∷ elim (iterate cfg r p).0 [ ok u ↦ rest | err e ↦ [] ]

  stored_Kept :
      (results : List Text) (p : Proxy)
      → Kept cfg.table results p
      → Kept cfg.table results (record p {
        statements = p.statements ++ store_sql cfg.table p.ost_perf_result_list ∷ [];
        ost_perf_result_list = [];
      })
  stored_Kept results p (bs, h, k) = (
    bs ++ p.ost_perf_result_list ∷ [],
    ap (λ l. l ++ store_sql cfg.table p.ost_perf_result_list ∷ []) h
        ∙ sym (map-snoc (store_sql cfg.table) bs p.ost_perf_result_list),
    append-nil _ ∙ flatten-snoc bs p.ost_perf_result_list ∙ k,
  )

  -- A store of an honest database clears the list behind its statement, or changes nothing.
  store_and_clear-ok :
      (database : Text → Result ℕ) (p : Proxy)
      → database (store_sql cfg.table p.ost_perf_result_list) ≡ ok (length p.ost_perf_result_list)
      → store_and_clear cfg database p ≡ (
        ok tt,
        record p {
          statements = p.statements ++ store_sql cfg.table p.ost_perf_result_list ∷ [];
          ost_perf_result_list = [];
        },
      )
  unfolding store_and_clear store check_rowcount count clear
  store_and_clear-ok database p h = rw (h, ==_refl (length p.ost_perf_result_list)) refl

  store_and_clear-err :
      (database : Text → Result ℕ) (p : Proxy) (e : Error)
      → database (store_sql cfg.table p.ost_perf_result_list) ≡ err e
      → store_and_clear cfg database p ≡ (err e, p)
  unfolding store_and_clear store check_rowcount
  store_and_clear-err database p e h = rw h refl

  receive_Kept :
      (r : Round) (results : List Text) (p : Proxy)
      → Kept cfg.table results p
      → Kept cfg.table (results ++ received (r ∷ [])) (receive_data cfg r p).1
  unfolding receive_data insert received
  receive_Kept r results p (bs, h, k) = elim (Bool-cases (is_nil r.recv_data)) [
    | inl e ↦ rw e (bs, h, k ∙ sym (append-nil results))
    | inr e ↦ rw e (
      bs,
      h,
      sym (append_assoc (flatten bs) p.ost_perf_result_list (r.recv_data ∷ []))
          ∙ ap (λ l. l ++ r.recv_data ∷ []) k,
    )
  ]

  resume-Kept :
      (results : List Text) (r : Result (Unit {0})) (next : Exec Proxy (Unit {0})) (p : Proxy)
      → Kept cfg.table results p
      → ((q : Proxy) → Kept cfg.table results q → Kept cfg.table results (next q).1)
      → Kept cfg.table results (resume r (λ u. next) p).1
  resume-Kept results (err e) next p h after = h
  resume-Kept results (ok u) next p h after = after p h

  -- The results that wait are some of the results.
  waiting_plain :
      (results : List Text) (p : Proxy)
      → AllPlain results
      → Kept cfg.table results p
      → AllPlain p.ost_perf_result_list
  waiting_plain results p plain (bs, h, k) =
      plain_behind (flatten bs) p.ost_perf_result_list (subst AllPlain (sym k) plain)

  store_and_clear-Kept :
      (database : Text → Result ℕ) (results : List Text) (p : Proxy)
      → IsHonest cfg.table database
      → AllPlain results
      → Kept cfg.table results p
      → Kept cfg.table results (store_and_clear cfg database p).1
  store_and_clear-Kept database results p honest plain h =
      elim (honest p.ost_perf_result_list (waiting_plain results p plain h)) [
        | inl e ↦
            subst (λ out. Kept cfg.table results out.1) (sym (store_and_clear-ok database p e))
              (stored_Kept results p h)
        | inr (x, e) ↦
            subst (λ out. Kept cfg.table results out.1) (sym (store_and_clear-err database p x e)) h
      ]

  store_due-Kept :
      (r : Round) (results : List Text) (p : Proxy)
      → IsHonest cfg.table r.database
      → AllPlain results
      → Kept cfg.table results p
      → Kept cfg.table results (store_due cfg r p).1
  unfolding store_due
  store_due-Kept r results p honest plain h =
      elim (Bool-cases (is_due cfg r p && not (is_nil p.ost_perf_result_list))) [
        | inl e ↦ rw e (
            resume-Kept results (store_and_clear cfg r.database p).0
              (λ p. (ok tt, record p { last_store_timestamp = r.time_after_store }))
              (store_and_clear cfg r.database p).1
              (store_and_clear-Kept r.database results p honest plain h) (λ q k. k))
        | inr e ↦ rw e h
      ]

  iterate-Kept :
      (r : Round) (results : List Text) (p : Proxy)
      → IsHonest cfg.table r.database
      → AllPlain (results ++ received (r ∷ []))
      → Kept cfg.table results p
      → Kept cfg.table (results ++ received (r ∷ [])) (iterate cfg r p).1
  unfolding iterate
  iterate-Kept r results p honest plain h =
      resume-Kept (results ++ received (r ∷ [])) (receive_data cfg r p).0 (store_due cfg r)
        (receive_data cfg r p).1 (receive_Kept r results p h)
        (λ q k. store_due-Kept r (results ++ received (r ∷ [])) q honest plain k)

  abbrev pub AllHonest : List Round → Type 0
  AllHonest [] = Unit {0}
  AllHonest (r ∷ rs) = IsHonest cfg.table r.database × IsPlain r.recv_data × AllHonest rs

  next_Kept :
      (r : Round) (rs : List Round) (results : List Text) (u : Result (Unit {0})) (q : Proxy)
      → Kept cfg.table (results ++ received (r ∷ [])) q
      → Kept cfg.table ((results ++ received (r ∷ [])) ++ received (reached rs q)) (run cfg rs q).1
      → Kept cfg.table
          (results ++ received (r ∷ elim u [ ok v ↦ reached rs q | err e ↦ [] ]))
          (resume u (λ v. run cfg rs) q).1
  next_Kept r rs results (err e) q h k = h
  next_Kept r rs results (ok v) q h k =
      subst (λ l. Kept cfg.table l (run cfg rs q).1)
        (append_assoc results (received (r ∷ [])) (received (reached rs q))
          ∙ ap (λ l. results ++ l) (sym (received-cons r (reached rs q))))
        k

  run_Kept :
      (rounds : List Round) (results : List Text) (p : Proxy)
      → AllHonest rounds
      → AllPlain results
      → Kept cfg.table results p
      → Kept cfg.table (results ++ received (reached rounds p)) (run cfg rounds p).1
  unfolding run reached
  run_Kept [] results p honest plain h =
      unfold received in subst (λ l. Kept cfg.table l p) (sym (append-nil results)) h
  run_Kept (r ∷ rs) results p (honest, one, more) plain h =
      let plain' = received_plain r results one plain in
      let h' = iterate-Kept r results p honest plain' h in
      next_Kept r rs results (iterate cfg r p).0 (iterate cfg r p).1 h'
        (run_Kept rs (results ++ received (r ∷ [])) (iterate cfg r p).1 more plain' h')

  next_plain :
      (r : Round) (rs : List Round) (u : Result (Unit {0}))
      → IsPlain r.recv_data
      → AllPlain (received rs)
      → AllPlain (received (r ∷ elim u [ ok v ↦ rs | err e ↦ [] ]))
  next_plain r rs (err e) one rest = received_plain r [] one tt
  next_plain r rs (ok v) one rest =
      subst AllPlain (sym (received-cons r rs))
        (plain_join (received (r ∷ [])) (received rs) (received_plain r [] one tt) rest)

  reached_plain :
      (rounds : List Round) (p : Proxy) → AllHonest rounds → AllPlain (received (reached rounds p))
  unfolding reached
  reached_plain [] p honest = unfold received in tt
  reached_plain (r ∷ rs) p (honest, one, more) =
      next_plain r (reached rs (iterate cfg r p).1) (iterate cfg r p).0 one
        (reached_plain rs (iterate cfg r p).1 more)

  -- What the flush leaves: all of the data in batches if it returns, and nothing lost if the
  -- database refuses the batch.
  abbrev pub Flushed : (Text → Result ℕ) → List Text → Result (Unit {0}) × Proxy → Type 0
  Flushed database results out =
      Kept cfg.table results out.1
      × (((out.0 ≡ ok tt) × (out.1.ost_perf_result_list ≡ []))
          ⊎ ((e : Error) × (out.0 ≡ err e)
              × (database (store_sql cfg.table out.1.ost_perf_result_list) ≡ err e)))

  flush-Flushed :
      (database : Text → Result ℕ) (results : List Text) (p : Proxy)
      → IsHonest cfg.table database
      → AllPlain results
      → Kept cfg.table results p
      → Flushed database results (flush cfg database p)
  unfolding flush
  flush-Flushed database results p honest plain h =
      elim (Bool-cases (is_nil p.ost_perf_result_list)) [
        | inl e ↦ rw e (h, inl (refl, nil_of p.ost_perf_result_list e))
        | inr e ↦ rw e (elim (honest p.ost_perf_result_list (waiting_plain results p plain h)) [
          | inl k ↦
              subst (Flushed database results) (sym (store_and_clear-ok database p k))
                (stored_Kept results p h, inl (refl, refl))
          | inr (x, k) ↦
              subst (Flushed database results) (sym (store_and_clear-err database p x k))
                (h, inr (x, refl, k))
        ])
      ]

  -- With a database that inserts a whole statement or raises and inserts nothing, and results without
  -- an opening parenthesis: whatever is received up to the end of the loop, be it by the flag or
  -- by an exception, stands afterwards in the batches of the statements that were executed and in
  -- the list, each result once and in the order of arrival. The last flush returns with nothing
  -- left in the list, or it raises what the database raised for the results in the list.
  pub run_and_flush-Flushed :
      (rounds : List Round) (database : Text → Result ℕ) (now : ℕ)
      → AllHonest rounds
      → IsHonest cfg.table database
      → Flushed database
          (received (reached rounds (started now)))
          (run_and_flush cfg rounds database (started now))
  unfolding run_and_flush
  run_and_flush-Flushed rounds database now honest h =
      flush-Flushed database (received (reached rounds (started now)))
        (run cfg rounds (started now)).1 h (reached_plain rounds (started now) honest)
        (run_Kept rounds [] (started now) honest tt ([], refl, unfold flatten in refl))
