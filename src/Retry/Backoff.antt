-- ===== src/Retry/Backoff.antt =====
-- What the retries of fabric/services/sysdeps.py and deployer/dependency.py return, and how long
-- they take.
use ovn_fabric.Prelude.{
  ℕ, zero, suc, ◌+◌, ◌≤◌, ◌<◌, String, ◌≡◌, refl, sym, ap, ◌∙◌, Bool, true, false, ◌||◌, ◌⊎◌, ◌↔◌,
  List, [], ◌∷◌, length, arith, Bool-cases, inl, inr,
}
use ovn_fabric.Retry.{Ran, Tried, doubled, after_sleep, tried, attempt_from, retry, apt_retry}

abbrev pub sum : List ℕ → ℕ
sum [] = 0
sum (n ∷ ns) = n + sum ns

-- All the sleeps of `left` retries.
budget : ℕ → ℕ → ℕ
budget zero delay = 0
budget (suc left) delay = delay + budget left (doubled delay)

-- A run that ends the loop: a success, or a failure that is permanent.
abbrev pub ends : (String → Bool) → Ran → Bool
ends permanent (ok, out) = ok || permanent out

-- The loop from attempt `first` on, with at most `left` more.
pub record Tries (run : ℕ → Ran) (permanent : String → Bool) (first left limit : ℕ) (t : Tried)
    : Type 0 where
  pub last : (t.ok, t.output) ≡ run t.attempts
  pub ended : (ends permanent (run t.attempts) ≡ true) ⊎ (t.attempts ≡ first + left)
  pub before : (n : ℕ) → first ≤ n → n < t.attempts → ends permanent (run n) ≡ false
  pub from : first ≤ t.attempts
  pub bound : t.attempts ≤ first + left
  pub sleeps : first + length t.sleeps ≡ t.attempts
  pub slept : sum t.sleeps ≤ limit

le-cases : (a b : ℕ) → a ≤ b → (a ≡ b) ⊎ (a + 1 ≤ b)
le-cases a b h = ground arith

-- The loop ends at this attempt.
Tries-here :
    (run : ℕ → Ran) (permanent : String → Bool) (first left limit : ℕ) (t : Tried)
    → t.attempts ≡ first
    → t.sleeps ≡ []
    → (t.ok, t.output) ≡ run first
    → (ends permanent (run first) ≡ true) ⊎ (left ≡ 0)
    → Tries run permanent first left limit t
Tries-here run permanent first left limit t a s r e = record {
  last = r ∙ ap run (sym a);
  ended = elim e [
    | inl x ↦ inl (ap (λ k. ends permanent (run k)) a ∙ x)
    | inr z ↦ inr (omega (arith, a, z))
  ];
  before = λ n lo hi. absurd (omega (arith, a, lo, hi));
  from = omega (arith, a);
  bound = omega (arith, a);
  sleeps = omega (arith, ap length s, a);
  slept = omega (arith, ap sum s);
}

-- The loop goes on after this attempt.
Tries-next :
    (run : ℕ → Ran) (permanent : String → Bool) (first left delay limit : ℕ) (t : Tried)
    → ends permanent (run first) ≡ false
    → Tries run permanent (first + 1) left limit t
    → Tries run permanent first (suc left) (delay + limit) (after_sleep delay t)
Tries-next run permanent first left delay limit t e r = record {
  last = r.last;
  ended = elim r.ended [ inl x ↦ inl x | inr z ↦ inr (omega (arith, z)) ];
  before = λ n lo hi. elim (le-cases first n lo) [
    | inl same ↦ ap (λ k. ends permanent (run k)) (sym same) ∙ e
    | inr more ↦ r.before n more hi
  ];
  from = omega (arith, r.from);
  bound = omega (arith, r.bound);
  sleeps = omega (arith, r.sleeps);
  slept = omega (arith, r.slept);
}

Tries-tried :
    (run : ℕ → Ran) (permanent : String → Bool) (first left limit : ℕ) (r : Ran) (rest : Tried)
    → r ≡ run first
    → (ends permanent r ≡ false → Tries run permanent first left limit rest)
    → Tries run permanent first left limit (tried permanent r first rest)
unfolding tried
Tries-tried run permanent first left limit (true, out) rest e k =
    Tries-here run permanent first left limit _ refl refl e (inl (ap (ends permanent) (sym e)))
Tries-tried run permanent first left limit (false, out) rest e k =
    elim (Bool-cases (permanent out)) [
      | inl hopeless ↦ simp hopeless (
          Tries-here run permanent first left limit
            (record { ok = false; output = out; attempts = first; sleeps = [] }) refl refl e
            (inl (ap (ends permanent) (sym e) ∙ hopeless)))
      | inr transient ↦ simp transient (k transient)
    ]

fails : (permanent : String → Bool) (r : Ran) → ends permanent r ≡ false → r.0 ≡ false
fails permanent (true, out) e = e
fails permanent (false, out) e = refl

attempt_from-Tries :
    (run : ℕ → Ran) (permanent : String → Bool) (left first delay : ℕ)
    → Tries run permanent first left
        (budget left delay)
        (attempt_from run permanent left first delay)
unfolding attempt_from budget
attempt_from-Tries run permanent zero first delay =
    Tries-tried run permanent first 0 0 (run first) _ refl (λ e.
      Tries-here run permanent first 0 0 _ refl refl
        (ap (λ b. (b, (run first).1)) (sym (fails permanent (run first) e))) (inr refl))
attempt_from-Tries run permanent (suc left) first delay =
    let rest = attempt_from-Tries run permanent left (first + 1) (doubled delay) in
    Tries-tried run permanent first (suc left) (delay + budget left (doubled delay)) (run first) _
      refl (λ e. Tries-next run permanent first left delay _ _ e rest)

-- The package manager's command is tried at least once and at most 6 times, with one sleep between
-- two attempts, of 155 seconds in all at most. The answer is that of the last attempt: each one
-- before it failed in a way that a retry may help, and it is a success, a permanent failure or the
-- sixth.
pub retry-Tries :
    (run : ℕ → Ran) (permanent : String → Bool) → Tries run permanent 1 5 155 (retry run permanent)
unfolding retry budget
retry-Tries run permanent = attempt_from-Tries run permanent 5 1 5

-- A job's command is answered as a success exactly when one of its `attempts` attempts (the first
-- is attempt 1) is a success.
pub apt_retry-ok :
    (run : ℕ → Bool) (attempts : ℕ)
    → ((apt_retry run attempts).ok ≡ true) ↔ ((n : ℕ) × (1 ≤ n) × (n ≤ attempts) × (run n ≡ true))
unfolding apt_retry
apt_retry-ok run zero = (λ e. ground (arith, e), λ (n, lo, hi, e). absurd (omega (arith, lo, hi)))
apt_retry-ok run (suc left) =
    let r = attempt_from-Tries (λ n. (run n, "")) (λ out. false) left 1 5 in
    let t = apt_retry run (suc left) in
    (
      λ e. (t.attempts, r.from, omega (arith, r.bound), sym (ap (λ q. q.0) r.last) ∙ e),
      λ (n, lo, hi, e). ap (λ q. q.0) r.last ∙ elim r.ended [
        | inl over ↦ (let now : run t.attempts ≡ true = ground (arith, over) in now)
        | inr z ↦ elim (le-cases n t.attempts (omega (arith, hi, z))) [
          | inl same ↦ ap run (sym same) ∙ e
          | inr more ↦
              (let missed = r.before n lo (omega (arith, more)) in ground (arith, missed, e))
        ]
      ],
    )
