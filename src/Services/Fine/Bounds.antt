-- ===== src/Services/Fine/Bounds.antt =====
-- What the fine of app/services/borrow_service.py comes to.
use production_library_manag.Prelude.{
  ℕ, ◌+◌, ◌-◌, ◌*◌, ◌/◌, ◌≡◌, ◌≤◌, ◌<◌, ◌↔◌, min, leb, arith, refl, Bool-cases, inl, inr,
}
use production_library_manag.Enums.{second}
use production_library_manag.Services.Fine.{
  FlatDailyFineStrategy, days_of, seconds_of, days_overdue, calculate_fine,
}

-- The days of the fine are those that the whole seconds of the delay have begun.
days_overdue-rounds : (delta : ℕ) → days_overdue delta ≡ (delta / second + 86399) / 86400
unfolding days_overdue days_of seconds_of
days_overdue-rounds delta = ground arith

days_overdue_mono : (d e : ℕ) → d ≤ e → days_overdue d ≤ days_overdue e
days_overdue_mono d e h = omega (arith, days_overdue-rounds d, days_overdue-rounds e)

product_mono : (c a b : ℕ) → a ≤ b → a * c ≤ b * c
product_mono c a b h = grind arith

product-zero : (c a : ℕ) → 0 < c → a * c ≡ 0 → a ≡ 0
product-zero c a h e = grind arith

module _ (strategy : FlatDailyFineStrategy) where
  abbrev charge : ℕ → ℕ
  charge days = min (days * strategy.daily_rate) strategy.max_limit

  -- A return in time is no exception: its delay is of no days.
  calculate_fine-charge :
      (due now : ℕ) → calculate_fine strategy due now ≡ charge (days_overdue (now - due))
  unfolding calculate_fine
  calculate_fine-charge due now = elim (Bool-cases (leb now due)) [
    | inl early ↦
        let none_late : now - due ≡ 0 = ground arith in rw (early, none_late) (omega arith)
    | inr late ↦ rw late refl
  ]

  charge_mono : (a b : ℕ) → a ≤ b → charge a ≤ charge b
  charge_mono a b h = ground (arith, product_mono strategy.daily_rate a b h)

  charge-zero :
      (days : ℕ) → 0 < strategy.daily_rate → 0 < strategy.max_limit → (charge days ≡ 0) ↔ (days ≡ 0)
  charge-zero days rate ceiling =
      (λ e. product-zero strategy.daily_rate days rate (ground arith), λ e. rw e (omega arith))

  -- The fine is never above the strategy's ceiling, it grows with the delay, and with a positive
  -- rate and ceiling it is nothing exactly when the book is back less than one whole second after
  -- it is due.
  pub calculate_fine-bounds :
      (due now later : ℕ)
      → now ≤ later
      → 0 < strategy.daily_rate
      → 0 < strategy.max_limit
      → (calculate_fine strategy due now ≤ strategy.max_limit)
        × (calculate_fine strategy due now ≤ calculate_fine strategy due later)
        × ((calculate_fine strategy due now ≡ 0) ↔ (now < due + second))
  calculate_fine-bounds due now later h rate ceiling =
      rw (calculate_fine-charge due now, calculate_fine-charge due later)
        (
          omega arith,
          charge_mono _ _ (days_overdue_mono (now - due) (later - due) (omega arith)),
          (
            λ e.
                let none_begun = (charge-zero (days_overdue (now - due)) rate ceiling).0 e in
                omega (arith, none_begun, days_overdue-rounds (now - due)),
            λ e.
                (charge-zero (days_overdue (now - due)) rate ceiling).1
                  (omega (arith, days_overdue-rounds (now - due))),
          ),
        )
