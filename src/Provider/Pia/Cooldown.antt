-- ===== src/Provider/Pia/Cooldown.antt =====
-- How a call of `Login` ends, and what it does while the account is throttled.
use tundler.Base.{
  ◌+◌, ◌-◌, ◌<◌, ◌≡◌, refl, inl, inr, Bool, true, false, ◌||◌, Option, none, some, [], ◌∷◌, ◌++◌,
  codes, text_eq, contains, Bool-cases, Option-cases, arith, ltb, if◌then◌else◌,
}
use tundler.Provider.Machine.{Machine, is_none, command}
use tundler.Provider.Pia.{
  Pia, Feed, LoginError, missing_credentials, api_rate_limited, in_cooldown, write_failed,
  command_failed, rate_limit_cooldown, ensure_daemon_responsive, ensure_protocol, quiet, username,
  password, on_login_output, run_login, login,
}

module _ {W : Type 0} (m : Machine W) (feed : Feed W) where
  abbrev pub Ended : Type 0
  Ended = Option LoginError × (Pia × W)

  abbrev pub lacks_credentials : Bool
  lacks_credentials = text_eq (username m) [] || text_eq (password m) []

  -- A call before the end of the cooldown reads the clock and does nothing else.
  abbrev pub Refuses : Pia → Type 0
  Refuses s =
      (w : W)
      → if ltb (m.clock w).0 s.rate_limited_until
        then login m feed (s, w)
          ≡ (some (in_cooldown (s.rate_limited_until - (m.clock w).0)), (s, (m.clock w).1))
        else Unit

  login-Refuses : (s : Pia) → lacks_credentials ≡ false → Refuses s
  unfolding login
  login-Refuses s e w = elim (Bool-cases (ltb (m.clock w).0 s.rate_limited_until)) [
    | inl f ↦ rw (f, login, e)
    | inr f ↦ rw f tt
  ]

  -- What the end of a call means: the error, and the variables and the world after it.
  abbrev pub Means : Pia → W → Ended → Type 0
  Means s w (none, (s', w')) = s'.logged_in ≡ true
  Means s w (some missing_credentials, (s', w')) = (lacks_credentials ≡ true) × (s' ≡ s) × (w' ≡ w)
  Means s w (some (in_cooldown left), (s', w')) =
      ((m.clock w).0 + left ≡ s.rate_limited_until) × (0 < left) × (s' ≡ s) × (w' ≡ (m.clock w).1)
  Means s w (some api_rate_limited, (s', w')) =
      Refuses s' × ((w₁ : W) × (s'.rate_limited_until ≡ (m.clock w₁).0 + rate_limit_cooldown))
  Means s w (some (write_failed e), (s', w')) =
      (s'.rate_limited_until ≡ s.rate_limited_until) × (s'.logged_in ≡ false)
  Means s w (some (command_failed e), (s', w')) =
      (s'.rate_limited_until ≡ s.rate_limited_until) × (s'.logged_in ≡ false)

  run_login-Means :
      (s₀ s : Pia) (w₀ w : W)
      → lacks_credentials ≡ false
      → s.logged_in ≡ false
      → s.rate_limited_until ≡ s₀.rate_limited_until
      → Means s₀ w₀ (run_login m feed (s, w))
  unfolding run_login on_login_output
  run_login-Means s₀ s w₀ w e f g =
      let (err, w₁) =
        m.write_file (codes "/tmp/pia_credentials") (username m ++ (10 ∷ []) ++ password m) w in
      let ((out, err'), w₂) =
        command m (codes "piactl")
          (codes "--timeout" ∷ codes "90" ∷ codes "login" ∷ codes "/tmp/pia_credentials" ∷ []) w₁ in
      elim (Option-cases err) [
        | inr (x, h) ↦ rw (run_login, h) (g, f)
        | inl h ↦
            elim (Bool-cases (is_none err' || contains out (codes "Already logged into account"))) [
              | inl i ↦ rw (run_login, h, i)
              | inr i ↦ elim (Bool-cases (contains out (codes "ApiRateLimitedError"))) [
                | inl j ↦ rw (run_login, h, i, j) (login-Refuses _ e, (w₂, refl))
                | inr j ↦ rw (run_login, h, i, j) (g, f)
              ]
            ]
      ]

  ensure-until :
      (s : Pia) (w : W)
      → (ensure_daemon_responsive m (s, w)).0.rate_limited_until ≡ s.rate_limited_until
  unfolding ensure_daemon_responsive
  ensure-until s w = ground arith

  -- How `Login` ends. With no error the plugin is logged in. Without credentials nothing has
  -- happened. In a cooldown only the clock was read, and the error tells what is left of it. Where
  -- the account is throttled, the cooldown is 15 minutes from a reading of the clock, and until then
  -- every later call of Login runs no command and changes nothing. On any other error the plugin is
  -- not logged in and the cooldown is what it was.
  pub login-Means : (s : Pia) (w : W) → Means s w (login m feed (s, w))
  unfolding login
  login-Means s w =
      let (now, w₁) = m.clock w in
      let (s', w₂) =
        ensure_daemon_responsive m (s, quiet m (codes "background" ∷ codes "enable" ∷ []) w₁) in
      let w₃ = ensure_protocol m w₂ in
      elim (Bool-cases lacks_credentials) [
        | inl e ↦ rw (login, e) (e, refl, refl)
        | inr e ↦ elim (Bool-cases (ltb now s.rate_limited_until)) [
          | inl f ↦ rw (login, e, f) (ground (arith, f), ground (arith, f), refl, refl)
          | inr f ↦ elim (Bool-cases s'.logged_in) [
            | inl g ↦ rw (login, e, f, g) g
            | inr g ↦ rw (login, e, f, g) (run_login-Means s s' w w₃ e g (ensure-until s _))
          ]
        ]
      ]
