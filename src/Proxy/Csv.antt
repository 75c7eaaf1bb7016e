-- ===== src/Proxy/Csv.antt =====
-- db/ost_perf_result.py: a measurement and the line that a task sends of it. What a measured value
-- is, and `int(round(v, 0))` of it, are parameters.
use lustre_ost_performance_t.Base.{List, [], arith, false, inl, refl, suc, ◌++◌, ◌∷◌, ◌≡◌}
use lustre_ost_performance_t.Text.{Text, codes, contains, split, join}
use lustre_ost_performance_t.Text.Split.{split-join}
use lustre_ost_performance_t.Text.Number.{ℤ, pos, negsuc, str_of}
use lustre_ost_performance_t.Text.RoundTrip.{str_of-IsDigits, IsDigits-lacks}
use lustre_ost_performance_t.Text.Match.{contains-append}
use lustre_ost_performance_t.Lfs.{str_of_int}

pub record OstPerfResult (F : Type 0) : Type 0 where
  pub read_timestamp : Text
  pub write_timestamp : Text
  pub ost : Text
  pub size : ℤ
  pub read_throughput : F
  pub write_throughput : F
  pub read_duration : F
  pub write_duration : F

abbrev pub quoted : Text → Text
quoted s = codes "'" ++ (s ++ codes "'")

module _ {F : Type 0} (rounded : F → ℤ) where
  unfoldable pub to_csv_list : OstPerfResult F → Text
  to_csv_list r =
      quoted r.read_timestamp
      ++ (codes ","
          ++ (quoted r.write_timestamp
              ++ (codes ","
                  ++ (quoted r.ost
                      ++ (codes ","
                          ++ (str_of_int r.size
                              ++ (codes ","
                                  ++ (str_of_int (rounded r.read_throughput)
                                      ++ (codes ","
                                          ++ (str_of_int (rounded r.write_throughput)
                                              ++ (codes ","
                                                  ++ (str_of_int (rounded r.read_duration)
                                                      ++ (codes ","
                                                          ++ str_of_int
                                                            (rounded r.write_duration))))))))))))))

  -- The eight columns of the table.
  abbrev pub columns : OstPerfResult F → List Text
  columns r =
      quoted r.read_timestamp
      ∷ quoted r.write_timestamp
      ∷ quoted r.ost
      ∷ str_of_int r.size
      ∷ str_of_int (rounded r.read_throughput)
      ∷ str_of_int (rounded r.write_throughput)
      ∷ str_of_int (rounded r.read_duration)
      ∷ str_of_int (rounded r.write_duration)
      ∷ []

  number_lacks : (n : ℤ) → contains b',' (str_of_int n) ≡ false
  unfolding str_of_int
  number_lacks (pos n) = IsDigits-lacks b',' (str_of n) (str_of-IsDigits n) (inl (omega arith))
  number_lacks (negsuc n) =
      unfold contains in
      IsDigits-lacks b',' (str_of (suc n)) (str_of-IsDigits (suc n)) (inl (omega arith))

  quoted_lacks : (s : Text) → contains b',' s ≡ false → contains b',' (quoted s) ≡ false
  unfolding contains
  quoted_lacks s h = contains-append b',' s (codes "'") h refl

  -- Timestamps and OST without a comma: the line has the eight columns of the table between commas,
  -- the texts in quotes and the measured values as whole numbers, whatever their signs.
  pub split-to_csv_list :
      (r : OstPerfResult F)
      → contains b',' r.read_timestamp ≡ false
      → contains b',' r.write_timestamp ≡ false
      → contains b',' r.ost ≡ false
      → split b',' (to_csv_list r) ≡ columns r
  unfolding to_csv_list
  split-to_csv_list r h k l =
      unfold join in
      split-join b',' (quoted r.read_timestamp)
        (quoted r.write_timestamp
          ∷ quoted r.ost
          ∷ str_of_int r.size
          ∷ str_of_int (rounded r.read_throughput)
          ∷ str_of_int (rounded r.write_throughput)
          ∷ str_of_int (rounded r.read_duration)
          ∷ str_of_int (rounded r.write_duration)
          ∷ [])
        (
          quoted_lacks _ h,
          (
            quoted_lacks _ k,
            (
              quoted_lacks _ l,
              (
                number_lacks _,
                (number_lacks _, (number_lacks _, (number_lacks _, (number_lacks _, tt)))),
              ),
            ),
          ),
        )
