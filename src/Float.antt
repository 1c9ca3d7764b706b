-- ===== src/Float.antt =====
-- The machine's floating-point numbers, which magnum-tcp/src/tcp/retransmit.rs and chaos.rs compute
-- with: a parameter of the model, with the operations that they call.
use magnus_tcp.Base.{ℕ, ◌≤◌, ◌≡◌, ◌^◌, Bool, false, arith}

-- `F` holds the values of `f64` that are numbers. A duration is a count of nanoseconds.
pub record F64 (F : Type 0) : Type 0 where
  pub literal : (numerator denominator : ℕ) → F
  pub plus : F → F → F
  pub minus : F → F → F
  pub times : F → F → F
  pub over : F → F → F
  pub abs : F → F
  pub clamp : F → F → F → F
  pub less : F → F → Bool
  pub of_u64 : ℕ → F
  pub as_secs : ℕ → F
  pub from_secs : F → ℕ

-- What the code relies on: `<` orders the numbers, `clamp` keeps a number between its bounds, and the
-- seconds of a longer duration are not fewer. Between 0 and 2 ^ 50 nanoseconds, about thirteen days, a
-- greater number of seconds gives no shorter duration; and there `f64` tells seconds apart to the
-- nanosecond, so that a duration comes back from its seconds as it was.
pub record OrdersDurations {F : Type 0} (f : F64 F) : Type 0 where
  pub less_trans : (a b c : F) → f.less b a ≡ false → f.less c b ≡ false → f.less c a ≡ false
  pub clamp_low : (x lo hi : F) → f.less hi lo ≡ false → f.less (f.clamp x lo hi) lo ≡ false
  pub clamp_high : (x lo hi : F) → f.less hi lo ≡ false → f.less hi (f.clamp x lo hi) ≡ false
  pub as_secs_order : (d e : ℕ) → d ≤ e → f.less (f.as_secs e) (f.as_secs d) ≡ false
  pub from_secs_order :
      (x y : F)
      → f.less x (f.as_secs 0) ≡ false
      → f.less (f.as_secs (2 ^ 50)) y ≡ false
      → f.less y x ≡ false
      → f.from_secs x ≤ f.from_secs y
  pub exact : (d : ℕ) → d ≤ 2 ^ 50 → f.from_secs (f.as_secs d) ≡ d

-- A number clamped between two durations in seconds is a duration between the two.
pub clamp-durations :
    {F : Type 0} (f : F64 F) (v : OrdersDurations f) (x : F) (lo hi : ℕ)
    → lo ≤ hi
    → hi ≤ 2 ^ 50
    → let clamped = f.from_secs (f.clamp x (f.as_secs lo) (f.as_secs hi)) in
      (lo ≤ clamped) × (clamped ≤ hi)
clamp-durations f v x lo hi h small =
    let ordered = v.as_secs_order lo hi h in
    let low = v.clamp_low x (f.as_secs lo) (f.as_secs hi) ordered in
    let high = v.clamp_high x (f.as_secs lo) (f.as_secs hi) ordered in
    let top = v.as_secs_order hi (2 ^ 50) small in
    let bottom = v.as_secs_order 0 lo (omega arith) in
    let above =
      v.from_secs_order (f.as_secs lo) (f.clamp x (f.as_secs lo) (f.as_secs hi)) bottom
        (v.less_trans _ _ _ high top) low in
    let below =
      v.from_secs_order (f.clamp x (f.as_secs lo) (f.as_secs hi)) (f.as_secs hi)
        (v.less_trans _ _ _ bottom low) top high in
    (omega (arith, above, v.exact lo (omega arith)), omega (arith, below, v.exact hi small))
