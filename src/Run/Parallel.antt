-- ===== src/Run/Parallel.antt =====
-- validateParallel of validate.go: the pool of workers for resources without dependencies. `order`
-- is the order in which the workers finish, and `cpus` is runtime.NumCPU().
use goss.Base.{
  ℕ, zero, suc, ◌*◌, ◌≤◌, ◌≡◌, refl, ◌∙◌, Bool, true, false, List, [], ◌∷◌, map, arith, ltb,
  if◌then◌else◌,
}
use goss.Base.Int.{negsuc, pos, ℤ}
use goss.Outputs.Exit.{sum_of}
use goss.TestResult.{TestResult}
use goss.Resource.{Resource}
use goss.Outputs.{Groups}

abbrev pub worker_count : (cpus : ℕ) → (max_concurrent : ℤ) → ℕ
worker_count cpus (pos n) = if ltb n (cpus * 5) then n else cpus * 5
worker_count cpus (negsuc n) = 0

-- Without a worker no resource is taken from the channel, and `out` is closed at once.
abbrev pub sent_by : ℕ → Groups → Groups
sent_by zero groups = []
sent_by (suc n) groups = groups

unfoldable pub validate_parallel :
    (cpus : ℕ)
    → (max_concurrent : ℤ) → (Resource → List TestResult)
    → (List Resource → List Resource)
    → List Resource
    → Groups
validate_parallel cpus max_concurrent run order rs =
    sent_by (worker_count cpus max_concurrent) (map run (order rs))

abbrev pub is_positive : ℤ → Bool
is_positive (pos (suc n)) = true
is_positive _ = false

sum_of-map :
    (w : List TestResult → ℕ) (run : Resource → List TestResult) (rs : List Resource)
    → sum_of w (map run rs) ≡ sum_of (λ r. w (run r)) rs
sum_of-map w run [] = refl
sum_of-map w run (r ∷ rs) = omega (arith, sum_of-map w run rs)

no_workers : (cpus : ℕ) → 1 ≤ cpus → worker_count cpus (pos 0) ≡ 0
no_workers cpus h = ground (arith, h)

sent_by-positive : (n : ℕ) (gs : Groups) → 1 ≤ n → sent_by n gs ≡ gs
sent_by-positive zero gs h = ground arith
sent_by-positive (suc n) gs h = refl

module _ (order : List Resource → List Resource)
    (order-sum_of : (w : Resource → ℕ) (rs : List Resource)
      → sum_of w (order rs) ≡ sum_of w rs) where
  -- If more than nothing may run at once, the pool sends the results of every resource once: whatever
  -- is counted over the groups that it sends is what the resources give together. If the limit is
  -- zero or negative, nothing at all is run or sent, and no error is reported.
  pub validate_parallel-sum_of :
      (cpus : ℕ) (max_concurrent : ℤ) (run : Resource → List TestResult) (rs : List Resource)
      (w : List TestResult → ℕ)
      → 1 ≤ cpus
      → sum_of w (validate_parallel cpus max_concurrent run order rs)
        ≡ (if is_positive max_concurrent then sum_of (λ r. w (run r)) rs else 0)
  unfolding validate_parallel
  validate_parallel-sum_of cpus (negsuc n) run rs w h = refl
  validate_parallel-sum_of cpus (pos zero) run rs w h = rw (no_workers cpus h) refl
  validate_parallel-sum_of cpus (pos (suc n)) run rs w h =
      rw
        (sent_by-positive (worker_count cpus (pos (suc n))) (map run (order rs))
          (ground (arith, h)))
        (sum_of-map w run (order rs) ∙ order-sum_of (λ r. w (run r)) rs)
