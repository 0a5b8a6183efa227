-- ===== src/Sessions/Connect.antt =====
-- The attempts of a connector to connect (`connect` of ib/SocketConnectorBase.hpp). What becomes of an
-- attempt is an argument: the driver's Connect fails, or succeeds and the driver is then seen connected
-- within the timeout, or is not.
use atp.Common.{
  ℕ, zero, suc, ◌+◌, ◌<◌, ◌≡◌, refl, ◌∙◌, ◌≢◌, Bool, false, arith, ap, ◌⊎◌, inl, inr, if◌then◌else◌,
}
use atp.Common.Int.{ℤ, negsuc}

pub data Attempt : Type 0 where
  refused : Attempt
  silent : Attempt
  connected : Attempt

-- The counters, the resets of the driver, and whether the strategy was told of a connection or a timeout.
pub record Connecting : Type 0 where
  pub retries : ℕ
  pub timeouts : ℕ
  pub resets : ℕ
  pub on_connects : ℕ
  pub on_timeouts : ℕ

-- The loop, with the attempts that are left and the number of the next one.
unfoldable pub attempts_loop :
    (attempt : ℕ → Attempt) → (client_id : ℤ) → (left next : ℕ) → Connecting → ℤ × Connecting
attempts_loop attempt client_id zero next c =
    (negsuc 0, record c { timeouts = c.timeouts + 1; on_timeouts = c.on_timeouts + 1 })
attempts_loop attempt client_id (suc left) next c = elim (attempt next) [
  | connected ↦ (client_id, record c { on_connects = c.on_connects + 1 })
  | silent ↦ attempts_loop attempt client_id left (next + 1) (record c { retries = c.retries + 1 })
  | refused ↦
      attempts_loop attempt client_id left (next + 1)
        (record c { retries = c.retries + 1; resets = c.resets + 1 })
]

-- connect(host, port, clientId, strategy, maxAttempts), where `already` is that the driver is connected,
-- with its own id.
unfoldable pub connect :
    (attempt : ℕ → Attempt)
    → (already : Bool) → (driver_id client_id : ℤ) → (max_attempts : ℕ) → Connecting
    → ℤ × Connecting
unfolding attempts_loop
connect attempt already driver_id client_id max_attempts c =
    if already then (driver_id, c) else attempts_loop attempt client_id max_attempts 0 c

Attempt-cases : (a : Attempt) → (a ≡ connected) ⊎ ((a ≡ silent) ⊎ (a ≡ refused))
Attempt-cases connected = inl refl
Attempt-cases silent = inr (inl refl)
Attempt-cases refused = inr (inr refl)

module _ (attempt : ℕ → Attempt) (client_id : ℤ) where
  -- The loop ended with a connection, after so many failed attempts.
  abbrev pub Connected : ℕ → Connecting → ℤ × Connecting → Type 0
  Connected k c r =
      (r.0 ≡ client_id)
      × (r.1.retries ≡ c.retries + k)
      × (r.1.on_connects ≡ c.on_connects + 1)
      × (r.1.timeouts ≡ c.timeouts)
      × (r.1.on_timeouts ≡ c.on_timeouts)

  attempts_loop-Connected :
      (k left next : ℕ) (c : Connecting)
      → k < left
      → attempt (next + k) ≡ connected
      → ((j : ℕ) → j < k → attempt (next + j) ≢ connected)
      → Connected k c (attempts_loop attempt client_id left next c)
  unfolding attempts_loop
  attempts_loop-Connected k zero next c h there before = absurd (omega arith)
  attempts_loop-Connected zero (suc left) next c h there before =
      let now : attempt next ≡ connected = ap attempt (omega arith) ∙ there in
      rw (attempts_loop, now) (refl, omega arith, refl, refl, refl)
  attempts_loop-Connected (suc k) (suc left) next c h there before =
      let later : attempt (next + 1 + k) ≡ connected = ap attempt (omega arith) ∙ there in
      let others : (j : ℕ) → j < k → attempt (next + 1 + j) ≢ connected =
        λ j l e. before (suc j) (omega arith) (ap attempt (omega arith) ∙ e) in
      elim (Attempt-cases (attempt next)) [
        | inl now ↦ absurd (before 0 (omega arith) (ap attempt (omega arith) ∙ now))
        | inr (inl now) ↦
            let (r, n, u, t, v) =
              attempts_loop-Connected k left (next + 1) (record c { retries = c.retries + 1 })
                (omega arith) later others in
            rw (attempts_loop, now) (r, omega arith, u, t, v)
        | inr (inr now) ↦
            let (r, n, u, t, v) =
              attempts_loop-Connected k left (next + 1)
                (record c { retries = c.retries + 1; resets = c.resets + 1 }) (omega arith) later
                others in
            rw (attempts_loop, now) (r, omega arith, u, t, v)
      ]

  attempts_loop-timeout :
      (left next : ℕ) (c : Connecting)
      → ((j : ℕ) → j < left → attempt (next + j) ≢ connected)
      → ((attempts_loop attempt client_id left next c).0 ≡ negsuc 0)
        × ((attempts_loop attempt client_id left next c).1.retries ≡ c.retries + left)
        × ((attempts_loop attempt client_id left next c).1.timeouts ≡ c.timeouts + 1)
        × ((attempts_loop attempt client_id left next c).1.on_connects ≡ c.on_connects)
  unfolding attempts_loop
  attempts_loop-timeout zero next c never = (refl, omega arith, refl, refl)
  attempts_loop-timeout (suc left) next c never =
      let others : (j : ℕ) → j < left → attempt (next + 1 + j) ≢ connected =
        λ j l e. never (suc j) (omega arith) (ap attempt (omega arith) ∙ e) in
      elim (Attempt-cases (attempt next)) [
        | inl now ↦ absurd (never 0 (omega arith) (ap attempt (omega arith) ∙ now))
        | inr (inl now) ↦
            let (r, n, t, u) =
              attempts_loop-timeout left (next + 1) (record c { retries = c.retries + 1 }) others in
            rw (attempts_loop, now) (r, omega arith, t, u)
        | inr (inr now) ↦
            let (r, n, t, u) =
              attempts_loop-timeout left (next + 1)
                (record c { retries = c.retries + 1; resets = c.resets + 1 }) others in
            rw (attempts_loop, now) (r, omega arith, t, u)
      ]

  -- A connector that is not connected gives the client's id at the first attempt that connects, if it is
  -- allowed that many, with one retry counted for each attempt before, no timeout, and the strategy told of
  -- the connection once.
  pub connect-Connected :
      (driver_id : ℤ) (max_attempts k : ℕ) (c : Connecting)
      → k < max_attempts
      → attempt k ≡ connected
      → ((j : ℕ) → j < k → attempt j ≢ connected)
      → Connected k c (connect attempt false driver_id client_id max_attempts c)
  unfolding connect
  connect-Connected driver_id max_attempts k c h there before =
      attempts_loop-Connected k max_attempts 0 c h (ap attempt (omega arith) ∙ there)
        (λ j l e. before j l (ap attempt (omega arith) ∙ e))

  -- A connector that is not connected, and that none of the attempts it is allowed connects, gives -1, with
  -- one retry counted for each attempt, one timeout, and the strategy told of no connection.
  connect-timeout :
      (driver_id : ℤ) (max_attempts : ℕ) (c : Connecting)
      → ((j : ℕ) → j < max_attempts → attempt j ≢ connected)
      → ((connect attempt false driver_id client_id max_attempts c).0 ≡ negsuc 0)
        × ((connect attempt false driver_id client_id max_attempts c).1.retries
            ≡ c.retries + max_attempts)
        × ((connect attempt false driver_id client_id max_attempts c).1.timeouts ≡ c.timeouts + 1)
        × ((connect attempt false driver_id client_id max_attempts c).1.on_connects ≡ c.on_connects)
  unfolding connect
  connect-timeout driver_id max_attempts c never =
      attempts_loop-timeout max_attempts 0 c (λ j l e. never j l (ap attempt (omega arith) ∙ e))
