-- ===== src/Sip/PcmWriter/Civil/Steps.antt =====
-- One day on in the algorithm of `civil_from_days`, mmdvm_sip/src/pcm_writer.rs.
use wjmmmdvm.Base.{
  ℕ, suc, ◌+◌, ◌*◌, ◌<◌, ◌≡◌, refl, ap, arith, Bool, true, false, ◌&&◌, ◌⊎◌, if◌then◌else◌, ltb,
  ◌==◌, Bool-cases, inl, inr,
}
use wjmmmdvm.Base.Below.{all_below, all_below_sound}
use wjmmmdvm.Sip.PcmWriter.Civil.{
  is_leap, month_length, date, next_date, yoe_of, doy_of, month_of, day_of, carry_of, date_of,
}

-- Within a year the date follows the table of the month lengths.
within_test : Bool → ℕ → Bool
within_test leap doy =
    if ltb (day_of doy) (month_length leap (month_of doy))
    then (month_of (suc doy) == month_of doy)
      && ((day_of (suc doy) == day_of doy + 1) && (carry_of (suc doy) == carry_of doy))
    else if ltb (month_of doy) 12
    then (month_of (suc doy) == month_of doy + 1)
      && ((day_of (suc doy) == 1) && (carry_of (suc doy) == carry_of doy))
    else (month_of (suc doy) == 1)
      && ((day_of (suc doy) == 1) && (carry_of (suc doy) == carry_of doy + 1))

within_table : (leap : Bool) → all_below 364 (within_test leap) ≡ true
unfolding all_below within_test month_of day_of carry_of
within_table true = refl
within_table false = refl

date_ext : {y y' m m' d d' : ℕ} → y ≡ y' → m ≡ m' → d ≡ d' → date y m d ≡ date y' m' d'
date_ext a b c = cc

pub within_year :
    (era y doy : ℕ) → doy < 364 → next_date (date_of era y doy) ≡ date_of era y (suc doy)
unfolding next_date within_test
within_year era y doy h =
    let leap = is_leap (y + era * 400 + carry_of doy) in
    let test = all_below_sound 364 (within_test leap) (within_table leap) doy h in
    elim (Bool-cases (ltb (day_of doy) (month_length leap (month_of doy)))) [
      | inl same ↦
          let facts = rw same at test in
          rw same (date_ext (ground (arith, facts)) (ground (arith, facts)) (ground (arith, facts)))
      | inr over ↦ elim (Bool-cases (ltb (month_of doy) 12)) [
        | inl inside ↦
            let facts = rw (over, inside) at test in
            rw (over, inside)
              (date_ext (ground (arith, facts)) (ground (arith, facts)) (ground (arith, facts)))
        | inr december ↦
            let facts = rw (over, december) at test in
            rw (over, december)
              (date_ext (ground (arith, facts)) (ground (arith, facts)) (ground (arith, facts)))
      ]
    ]

-- The end of February.
pub leap_day :
    (era y : ℕ)
    → is_leap (y + era * 400 + 1) ≡ true
    → next_date (date_of era y 364) ≡ date_of era y 365
unfolding next_date month_of day_of carry_of
leap_day era y h = rw h refl

pub leap_end : (era y : ℕ) → next_date (date_of era y 365) ≡ date (y + era * 400 + 1) 3 1
unfolding next_date month_of day_of carry_of
leap_end era y = elim (Bool-cases (is_leap (y + era * 400 + 1))) [
  | inl leap ↦ rw leap refl
  | inr common ↦ rw common refl
]

pub common_end :
    (era y : ℕ)
    → is_leap (y + era * 400 + 1) ≡ false
    → next_date (date_of era y 364) ≡ date (y + era * 400 + 1) 3 1
unfolding next_date month_of day_of carry_of
common_end era y h = rw h refl

-- The first day of a year of the algorithm, in March.
pub march_first :
    (era y era' y' : ℕ)
    → y' + era' * 400 ≡ y + era * 400 + 1
    → date (y + era * 400 + 1) 3 1 ≡ date_of era' y' 0
unfolding month_of day_of carry_of
march_first era y era' y' e = ap (λ t. date t 3 1) (omega arith)

-- The next day within an era.
pub same_year :
    (doe : ℕ)
    → doy_of doe < 364
    → doe < 146097
    → (yoe_of (suc doe) ≡ yoe_of doe) × (doy_of (suc doe) ≡ suc (doy_of doe)) × (suc doe < 146097)
same_year doe h b = omega arith

pub doy_cases :
    (doe : ℕ) → doe < 146097 → (doy_of doe < 364) ⊎ ((doy_of doe ≡ 364) ⊎ (doy_of doe ≡ 365))
doy_cases doe b = elim (Bool-cases (ltb (doy_of doe) 364)) [
  | inl a ↦ inl (ground arith)
  | inr a ↦ elim (Bool-cases (doy_of doe == 364)) [
    | inl c ↦ inr (inl (ground arith))
    | inr c ↦ inr (inr (ground arith))
  ]
]

pub feb_29 :
    (doe era : ℕ)
    → doe < 146097
    → doy_of doe ≡ 364
    → is_leap (yoe_of doe + era * 400 + 1) ≡ true
    → (yoe_of (suc doe) ≡ yoe_of doe) × (doy_of (suc doe) ≡ 365) × (suc doe < 146097)
feb_29 doe era b e leap = ground arith

pub march_1 :
    (doe era : ℕ)
    → doe < 146097
    → doy_of doe ≡ 364
    → is_leap (yoe_of doe + era * 400 + 1) ≡ false
    → (yoe_of (suc doe) ≡ suc (yoe_of doe)) × (doy_of (suc doe) ≡ 0) × (suc doe < 146097)
march_1 doe era b e common = ground arith

pub march_1_after_leap :
    (doe : ℕ)
    → doe < 146096
    → doy_of doe ≡ 365
    → (yoe_of (suc doe) ≡ suc (yoe_of doe)) × (doy_of (suc doe) ≡ 0)
march_1_after_leap doe b e = omega arith
