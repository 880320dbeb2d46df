-- ===== src/Dashboard/Sparkline.antt =====
-- The series of a sparkline: a window on the last values.
use tensor_sched.Prelude.{
  ℕ, suc, ◌+◌, ◌%◌, ◌<◌, ◌≡◌, ap, ◌∙◌, arith, get_or, set, length, get_or-set_self, get_or-set_ne,
  length-set,
}
use tensor_sched.Dashboard.{SparkData, spark_len, push_value, get_value}

-- The array is full length and the head in range.
pub record IsSeries {ℓ} {A : Type ℓ} (s : SparkData A) : Type 0 where
  pub whole : length s.data_ ≡ spark_len
  pub in_range : s.head < spark_len

-- Pushing a value onto a series moves the window by one: the new value is the last that `get` gives,
-- every other value is read one place lower, and the series stays in shape.
pub push_value-get_value {ℓ} :
    {A : Type ℓ} (blank v : A) (s : SparkData A)
    → IsSeries s
    → IsSeries (push_value v s)
      × (get_value blank (push_value v s) 119 ≡ v)
      × ((i : ℕ) → i < 119 → get_value blank (push_value v s) i ≡ get_value blank s (suc i))
unfolding push_value get_value
push_value-get_value blank v s o = (
  record { whole = length-set s.data_ s.head v ∙ o.whole; in_range = omega arith },
  ap (λ i. get_or (set s.data_ s.head v) i blank) last
      ∙ get_or-set_self s.data_ s.head v blank (omega (arith, o.whole, o.in_range)),
  λ i lt.
      get_or-set_ne s.data_ v blank (λ e. absurd (omega (arith, o.in_range, e, lt)))
      ∙ ap (λ k. get_or s.data_ k blank) (omega arith),
)
  where
    last : ((s.head + 1) % spark_len + 119) % spark_len ≡ s.head
    last = omega (arith, o.in_range)
