-- ===== src/Copy/Reach.antt =====
-- What a run of the loop comes to within a number of rounds.
use fcom.Prelude.{ℕ, suc, ◌+◌, ◌≤◌, ◌≡◌, ◌∙◌, ap, arith, true, false, if◌then◌else◌}
use fcom.Services.{Services}
use fcom.Copy.{Copy, Settings, Stage}
use fcom.Copy.Run.{Round, goes, ends, round, run_rounds, by_stage}

module _ (s : Services) (a : Settings) where
  -- Within `m` rounds there is one that leads to where `E` holds.
  pub record Comes (E : Round s → Type 0) (m : ℕ) (r : Round s) : Type 0 where
    pub rounds : ℕ
    pub last : Round s
    pub within : rounds ≤ m
    pub leads : (n : ℕ) → run_rounds s a (rounds + suc n) r ≡ run_rounds s a (suc n) last
    pub holds : E last

  fuel_eq : (m n : ℕ) (r : Round s) → m ≡ n → run_rounds s a m r ≡ run_rounds s a n r
  fuel_eq m n r e = ap (λ k. run_rounds s a k r) e

  pub Comes-stay : (E : Round s → Type 0) (r : Round s) → E r → Comes E 0 r
  Comes-stay E r e = record {
    rounds = 0;
    last = r;
    within = omega arith;
    leads = λ n. fuel_eq (0 + suc n) (suc n) r (omega arith);
    holds = e;
  }

  pub Comes-round :
      (E : Round s → Type 0) (m : ℕ) (c : Copy s) (w : s.State) (r : Round s)
      → round s a c w ≡ r
      → Comes E m r
      → Comes E (suc m) (goes w c)
  unfolding run_rounds
  Comes-round E m c w r e k = record {
    rounds = suc k.rounds;
    last = k.last;
    within = omega (arith, k.within);
    leads = λ n.
        fuel_eq (suc k.rounds + suc n) (suc (k.rounds + suc n)) (goes w c) (omega arith)
        ∙ ap (run_rounds s a (k.rounds + suc n)) e
        ∙ k.leads n;
    holds = k.holds;
  }

  pub Comes-within :
      (E : Round s → Type 0) (m n : ℕ) (r : Round s) → m ≤ n → Comes E m r → Comes E n r
  Comes-within E m n r le k = record {
    rounds = k.rounds;
    last = k.last;
    within = omega (arith, k.within);
    leads = k.leads;
    holds = k.holds;
  }

  -- One run after another.
  pub Comes-trans :
      (E F : Round s → Type 0) (m n : ℕ) (r : Round s)
      → (k : Comes E m r) → Comes F n k.last
      → Comes F (m + n) r
  Comes-trans E F m n r k j = record {
    rounds = k.rounds + j.rounds;
    last = j.last;
    within = omega (arith, k.within, j.within);
    leads = λ i.
        fuel_eq (k.rounds + j.rounds + suc i) (k.rounds + suc (j.rounds + i)) r (omega arith)
        ∙ k.leads (j.rounds + i)
        ∙ fuel_eq (suc (j.rounds + i)) (j.rounds + suc i) k.last (omega arith)
        ∙ j.leads i;
    holds = j.holds;
  }

  pub round-stop :
      (c : Copy s) (w : s.State) → s.is_stopped w ≡ true → round s a c w ≡ ends w c false
  unfolding round
  round-stop c w e = ap (λ b. if b then ends w c false else by_stage s a c.st c w) e

  pub round-stage :
      (c : Copy s) (w : s.State) (t : Stage)
      → s.is_stopped w ≡ false
      → c.st ≡ t
      → round s a c w ≡ by_stage s a t c w
  unfolding round
  round-stage c w t e h =
      ap (λ b. if b then ends w c false else by_stage s a c.st c w) e
      ∙ ap (λ x. by_stage s a x c w) h

  pub Comes-once :
      (E : Round s → Type 0) (m : ℕ) (c : Copy s) (w : s.State) (r : Round s)
      → 1 ≤ m
      → round s a c w ≡ r
      → E r
      → Comes E m (goes w c)
  Comes-once E m c w r le e x =
      Comes-within E 1 m (goes w c) le (Comes-round E 0 c w r e (Comes-stay E r x))

  -- The second run depends on where the first one leads.
  pub Comes-bind :
      (E F : Round s → Type 0) (m : ℕ) (r : Round s)
      → Comes E m r
      → ((q : Round s) → E q → (n : ℕ) × Comes F n q)
      → (n : ℕ) × Comes F n r
  Comes-bind E F m r k f = let (n, j) = f k.last k.holds in (m + n, Comes-trans E F m n r k j)
