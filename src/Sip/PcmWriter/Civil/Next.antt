-- ===== src/Sip/PcmWriter/Civil/Next.antt =====
-- `civil_from_days` of mmdvm_sip/src/pcm_writer.rs is the calendar's next day, for every day.
use wjmmmdvm.Base.{
  ℕ, zero, suc, ◌+◌, ◌-◌, ◌*◌, ◌/◌, ◌<◌, ◌≡◌, refl, sym, ap, ap₂, ◌∙◌, arith, Bool-cases, inl, inr,
  ltb,
}
use wjmmmdvm.Sip.PcmWriter.{civil_from_days, Date}
use wjmmmdvm.Sip.PcmWriter.Civil.{is_leap, date, next_date, yoe_of, doy_of, date_of, civil_form}
use wjmmmdvm.Sip.PcmWriter.Civil.Steps.{
  within_year, leap_day, leap_end, common_end, march_first, same_year, doy_cases, feb_29, march_1,
  march_1_after_leap,
}

module _ (days : ℕ) where
  abbrev era : ℕ
  era = (days + 719468) / 146097

  abbrev doe : ℕ
  doe = days + 719468 - era * 146097

  doe_small : doe < 146097
  doe_small = omega arith

  same_era :
      suc doe < 146097
      → civil_from_days (suc days) ≡ date_of era (yoe_of (suc doe)) (doy_of (suc doe))
  same_era h =
      let e : (suc days + 719468) / 146097 ≡ era = omega arith in
      let d : suc days + 719468 - (suc days + 719468) / 146097 * 146097 ≡ suc doe = omega arith in
      civil_form (suc days) ∙ ap₂ (λ x y. date_of x (yoe_of y) (doy_of y)) e d

  next_era : doe ≡ 146096 → civil_from_days (suc days) ≡ date_of (suc era) (yoe_of 0) (doy_of 0)
  next_era h =
      let e : (suc days + 719468) / 146097 ≡ suc era = omega arith in
      let d : suc days + 719468 - (suc days + 719468) / 146097 * 146097 ≡ 0 = omega arith in
      civil_form (suc days) ∙ ap₂ (λ x y. date_of x (yoe_of y) (doy_of y)) e d

  at_doy : (doy : ℕ) → doy_of doe ≡ doy → civil_from_days days ≡ date_of era (yoe_of doe) doy
  at_doy doy e = civil_form days ∙ ap (date_of era (yoe_of doe)) e

  pub civil_from_days-suc : civil_from_days (suc days) ≡ next_date (civil_from_days days)
  civil_from_days-suc = elim (doy_cases doe doe_small) [
    | inl inside ↦
        let (y, d, b) = same_year doe inside doe_small in
        same_era b
        ∙ ap₂ (date_of era) y d
        ∙ sym (within_year era (yoe_of doe) (doy_of doe) inside)
        ∙ ap next_date (sym (civil_form days))
    | inr late ↦ elim late [
      | inl feb_28 ↦ elim (Bool-cases (is_leap (yoe_of doe + era * 400 + 1))) [
        | inl leap ↦
            let (y, d, b) = feb_29 doe era doe_small feb_28 leap in
            same_era b
            ∙ ap₂ (date_of era) y d
            ∙ sym (leap_day era (yoe_of doe) leap)
            ∙ ap next_date (sym (at_doy 364 feb_28))
        | inr common ↦
            let (y, d, b) = march_1 doe era doe_small feb_28 common in
            same_era b
            ∙ ap₂ (date_of era) y d
            ∙ sym (march_first era (yoe_of doe) era (suc (yoe_of doe)) (omega arith))
            ∙ sym (common_end era (yoe_of doe) common)
            ∙ ap next_date (sym (at_doy 364 feb_28))
      ]
      | inr leap_end_day ↦ elim (Bool-cases (ltb doe 146096)) [
        | inl inner ↦
            let (y, d) = march_1_after_leap doe (ground arith) leap_end_day in
            same_era (ground arith)
            ∙ ap₂ (date_of era) y d
            ∙ sym (march_first era (yoe_of doe) era (suc (yoe_of doe)) (omega arith))
            ∙ sym (leap_end era (yoe_of doe))
            ∙ ap next_date (sym (at_doy 365 leap_end_day))
        | inr last ↦
            let here : doe ≡ 146096 = ground (arith, doe_small) in
            let y : yoe_of doe ≡ 399 = omega (arith, here) in
            next_era here
            ∙ sym (march_first era (yoe_of doe) (suc era) 0 (omega (arith, y)))
            ∙ sym (leap_end era (yoe_of doe))
            ∙ ap next_date (sym (at_doy 365 leap_end_day))
      ]
    ]
  ]

-- The calendar, a day at a time from 1970-01-01.
unfoldable pub date_after : ℕ → Date
date_after zero = date 1970 1 1
date_after (suc days) = next_date (date_after days)

-- For every number of days, `civil_from_days` is the date that the Gregorian calendar reaches
-- from 1970-01-01 in as many steps of one day.
pub civil_from_days_lem : (days : ℕ) → civil_from_days days ≡ date_after days
unfolding date_after
civil_from_days_lem zero = unfold civil_from_days in refl
civil_from_days_lem (suc days) = civil_from_days-suc days ∙ ap next_date (civil_from_days_lem days)
