-- ===== src/Updater/Session/Refresh.antt =====
-- What a run of the refresh keeps of the session: the last refresh token that the API handed out, and
-- the file that the next run starts from.
use tundler.Base.{
  ℕ, zero, suc, ◌≡◌, refl, ◌∙◌, ap, sym, inl, inr, ◌⊎◌, Text, true, false, not, ◌&&◌, ◌||◌, Option,
  none, some, [], ◌++◌, codes, text_eq, ◌==◌, Bool-cases, Option-cases, Sum-cases, if◌then◌else◌,
}
use mathlib.Core.Path.{subst}
use tundler.Provider.Machine.{Machine, is_none}
use tundler.Updater.Session.Messages.{Request, Response, CookieState, Codec, Failure, last_prefixed}
use tundler.Updater.Session.{
  base, ok_response, random_state, fetch_session_id, exchange_request, exchanged, exchange_of,
  checked, exchange_for_cookie_token, refresh_session, fetch_logicals_for_type, fetch_logicals,
  write_session, emit, run_refresh,
}

-- The last refresh token that was handed out, and the last file that was written.
pub record Kept : Type 0 where
  pub issued : Text
  pub saved : Option Text

abbrev or_before : Text → Text → Text
or_before before t = if text_eq t [] then before else t

-- The token after a response to a request: that of the exchange, where it is accepted, may hand out
-- another.
abbrev issued_by : Request → Option Response → Text → Text
issued_by req none t = t
issued_by req (some resp) t =
    if text_eq req.url (base ++ codes "/core/v4/auth/cookies") && resp.status_code == 200
    then or_before t (last_prefixed (codes "REFRESH-") [] resp.cookies)
    else t

Kept-ext : (k' k : Kept) → k'.issued ≡ k.issued → k'.saved ≡ k.saved → k' ≡ k
Kept-ext k' k p q = ap (λ t. record k' { issued = t }) p ∙ ap (λ u. record k { saved = u }) q

-- Another request hands out nothing.
issued_by-other :
    (req : Request) (r : Option Response) (t : Text)
    → text_eq req.url (base ++ codes "/core/v4/auth/cookies") ≡ false
    → issued_by req r t ≡ t
issued_by-other req none t h = refl
issued_by-other req (some resp) t h = rw h refl

module _ {W : Type 0} (m : Machine W) (send : Request → W → Option Response × W)
    (print : Text → W → Option Text × W) where
  abbrev pub watched_send : Request → W × Kept → Option Response × (W × Kept)
  watched_send req x =
      let (r, w) = send req x.0 in (r, (w, record x.1 { issued = issued_by req r x.1.issued }))

  abbrev pub watched_print : Text → W × Kept → Option Text × (W × Kept)
  watched_print t x = let (err, w) = print t x.0 in (err, (w, x.1))

  abbrev pub watched : Machine (W × Kept)
  watched = record {
    run = λ cmd args x. (let (r, w) = m.run cmd args x.0 in (r, (w, x.1)));
    getenv = m.getenv;
    clock = λ x. (let (now, w) = m.clock x.0 in (now, (w, x.1)));
    sleep = λ d x. (m.sleep d x.0, x.1);
    wait = λ d x. (let (r, w) = m.wait d x.0 in (r, (w, x.1)));
    read_file = λ p x. (let (r, w) = m.read_file p x.0 in (r, (w, x.1)));
    mkdir_all = λ p x. (let (r, w) = m.mkdir_all p x.0 in (r, (w, x.1)));
    write_file = λ p t x.
        (let (err, w) = m.write_file p t x.0 in
          (err, (w, if is_none err then record x.1 { saved = some t } else x.1)));
    remove = λ p x. (m.remove p x.0, x.1);
    pick = λ n x. (let (r, w) = m.pick n x.0 in (r, (w, x.1)));
  }

  watched_send-kept :
      (req : Request) (x : W × Kept)
      → text_eq req.url (base ++ codes "/core/v4/auth/cookies") ≡ false
      → (watched_send req x).1.1 ≡ x.1
  watched_send-kept req x h =
      ap (λ t. record x.1 { issued = t }) (issued_by-other req (send req x.0).0 x.1.issued h)

  module _ (codec : Codec) (user_agent : Text) where
    random-kept :
        (n : ℕ) (x : W × Kept) → (random_state watched watched_send codec user_agent n x).1.1 ≡ x.1
    unfolding random_state
    random-kept zero x = refl
    random-kept (suc n) x = random-kept n ((m.pick 62 x.0).1, x.1)

    fetch_session_id-kept :
        (x : W × Kept) → (fetch_session_id watched watched_send codec user_agent x).1.1 ≡ x.1
    unfolding fetch_session_id
    fetch_session_id-kept x = watched_send-kept _ x refl

    logicals-kept :
        (cookie : CookieState) (n : ℕ) (x : W × Kept)
        → (fetch_logicals_for_type watched watched_send codec user_agent cookie n x).1.1 ≡ x.1
    unfolding fetch_logicals_for_type ok_response
    logicals-kept cookie n x = watched_send-kept _ x refl

    fetch_logicals-kept :
        (cookie : CookieState) (x : W × Kept)
        → (fetch_logicals watched watched_send codec user_agent cookie x).1.1 ≡ x.1
    unfolding fetch_logicals
    fetch_logicals-kept cookie x =
        let (r, x₁) = fetch_logicals_for_type watched watched_send codec user_agent cookie 0 x in
        elim (Sum-cases r) [
          | inl (e, f) ↦ rw (fetch_logicals, f) (logicals-kept cookie 0 x)
          | inr (ls, f) ↦
              rw (fetch_logicals, f) (logicals-kept cookie 2 x₁ ∙ logicals-kept cookie 0 x)
        ]

    emit-kept :
        (cookie : CookieState) (x : W × Kept)
        → (emit watched watched_send codec user_agent watched_print cookie x).1.1 ≡ x.1
    unfolding emit
    emit-kept cookie x = fetch_logicals-kept cookie x

    -- A response to the exchange that hands out a refresh token is one that it can use.
    abbrev pub Granting : Response → Type 0
    Granting resp =
        text_eq (last_prefixed (codes "REFRESH-") [] resp.cookies) [] ≡ false
        → (codec.code_of resp.body ≡ some 1000)
          × (text_eq (last_prefixed (codes "AUTH-") [] resp.cookies) [] ≡ false)

    -- What the exchange returned, and the token that was handed out by then.
    abbrev Handed : Text → Failure ⊎ (Text × Text) → Text → Type 0
    Handed t (inl e) i = i ≡ t
    Handed t (inr (token, rotated)) i = i ≡ or_before t rotated

    exchanged-Handed :
        (resp : Response) (t : Text)
        → Granting resp
        → Handed t
            (exchanged watched watched_send codec user_agent resp)
            (or_before t (last_prefixed (codes "REFRESH-") [] resp.cookies))
    unfolding exchanged
    exchanged-Handed resp t h =
        let auth = last_prefixed (codes "AUTH-") [] resp.cookies in
        elim (Bool-cases (text_eq (last_prefixed (codes "REFRESH-") [] resp.cookies) [])) [
          | inr e ↦ let (c, a) = h e in rw (exchanged, c, a) refl
          | inl e ↦ elim (Option-cases (codec.code_of resp.body)) [
            | inl c ↦ rw (exchanged, c, e) refl
            | inr (code, c) ↦ elim (Bool-cases (not (code == 1000) || text_eq auth [])) [
              | inl f ↦ rw (exchanged, c, f, e) refl
              | inr f ↦ rw (exchanged, c, f) refl
            ]
          ]
        ]

    -- Every response of the exchange that hands out a refresh token is a good one.
    abbrev pub Grants : Type 0
    Grants =
        (req : Request) (w : W) (resp : Response)
        → text_eq req.url (base ++ codes "/core/v4/auth/cookies") ≡ true
        → (send req w).0 ≡ some resp
        → Granting resp

    exchange-Handed :
        (cookie : CookieState) (refresh_token : Text) (x : W × Kept)
        → Grants
        → let (r, x') =
            exchange_for_cookie_token watched watched_send codec user_agent cookie [] []
              refresh_token x in
          Handed x.1.issued r x'.1.issued × (x'.1.saved ≡ x.1.saved)
    unfolding exchange_for_cookie_token exchange_request exchange_of ok_response checked
    exchange-Handed cookie refresh_token x h =
        let (state, x₁) = random_state watched watched_send codec user_agent 24 x in
        let same = random-kept 24 x in
        let req =
          exchange_request watched watched_send codec user_agent cookie [] [] refresh_token state in
        elim (Option-cases (send req x₁.0).0) [
          | inl e ↦ rw (e, same) (refl, refl)
          | inr (resp, e) ↦ elim (Bool-cases (resp.status_code == 200)) [
            | inl f ↦
                rw (e, same, f) (exchanged-Handed resp x.1.issued (h req x₁.0 resp refl e), refl)
            | inr f ↦ rw (e, same, f) (refl, refl)
          ]
        ]

    -- An error leaves both as they were; else the token for the next time is the last one that was
    -- handed out.
    abbrev Renewed : Kept → Failure ⊎ (CookieState × Text) → Kept → Type 0
    Renewed k (inl e) k' = k' ≡ k
    Renewed k (inr (cookie, next)) k' = k'.issued ≡ next

    refresh_session-Renewed :
        (uid refresh_token : Text) (x : W × Kept)
        → Grants
        → x.1.issued ≡ refresh_token
        → let (r, x') = refresh_session watched watched_send codec user_agent uid refresh_token x in
          Renewed x.1 r x'.1
    unfolding refresh_session
    refresh_session-Renewed uid refresh_token x h e =
        let (sid, x₁) = fetch_session_id watched watched_send codec user_agent x in
        let same = fetch_session_id-kept x in
        elim (Option-cases sid) [
          | inl f ↦ rw (refresh_session, f) same
          | inr (session_id, f) ↦
              let cs : CookieState = record { session_id = session_id; uid = uid; token = [] } in
              let (r, x₂) =
                exchange_for_cookie_token watched watched_send codec user_agent cs [] []
                  refresh_token x₁ in
              let (handed, saved) = exchange-Handed cs refresh_token x₁ h in
              elim (Sum-cases r) [
                | inl (err, g) ↦
                    let i = subst (λ r'. Handed x₁.1.issued r' x₂.1.issued) g handed in
                    rw (refresh_session, f, g) (Kept-ext x₂.1 x₁.1 i saved ∙ same)
                | inr ((token, rotated), g) ↦
                    let i = subst (λ r'. Handed x₁.1.issued r' x₂.1.issued) g handed in
                    let k = ap (λ k'. or_before k'.issued rotated) same in
                    rw (refresh_session, f, g) (i ∙ k ∙ ap (λ t. or_before t rotated) e)
              ]
        ]

    write-saved :
        (uid token : Text) (x : W × Kept)
        → ((p t : Text) (w : W) → (m.write_file p t w).0 ≡ none)
        → text_eq (m.getenv (codes "PROTON_SESSION_OUT")) [] ≡ false
        → let (failed, x') =
            write_session watched watched_send codec user_agent watched_print uid token x in
          (failed ≡ false) × (x'.1 ≡ record x.1 { saved = some (codec.session uid token) })
    unfolding write_session
    write-saved uid token x writes out =
        rw (out, writes (m.getenv (codes "PROTON_SESSION_OUT")) (codec.session uid token) x.0)
          (refl, refl)

    -- Where the file of the session can be written, every response of the exchange that hands out a
    -- refresh token is a good one, and the run starts from the last token that was handed out: either
    -- the run ends with an error, and no token was handed out and no file written; or the file holds
    -- the last token that was handed out, whatever becomes of the catalog.
    pub run_refresh-keeps :
        (x : W × Kept)
        → Grants
        → ((p t : Text) (w : W) → (m.write_file p t w).0 ≡ none)
        → text_eq (m.getenv (codes "PROTON_SESSION_OUT")) [] ≡ false
        → x.1.issued ≡ m.getenv (codes "PROTON_SESSION_REFRESH_TOKEN")
        → let (servers, x') = run_refresh watched watched_send codec user_agent watched_print x in
          ((servers ≡ none) × (x'.1 ≡ x.1))
          ⊎ (x'.1.saved ≡ some (codec.session (m.getenv (codes "PROTON_SESSION_UID")) x'.1.issued))
    unfolding run_refresh
    run_refresh-keeps x h writes out e =
        let uid = m.getenv (codes "PROTON_SESSION_UID") in
        let token = m.getenv (codes "PROTON_SESSION_REFRESH_TOKEN") in
        let (r, x₁) = refresh_session watched watched_send codec user_agent uid token x in
        let renewed = refresh_session-Renewed uid token x h e in
        elim (Bool-cases (text_eq uid [] || text_eq token [])) [
          | inl f ↦ rw (run_refresh, f) (inl (refl, refl))
          | inr f ↦ elim (Sum-cases r) [
            | inl (err, g) ↦
                rw (run_refresh, f, g) (inl (refl, subst (λ r'. Renewed x.1 r' x₁.1) g renewed))
            | inr ((cookie, next), g) ↦
                let i = subst (λ r'. Renewed x.1 r' x₁.1) g renewed in
                let (fine, written) = write-saved uid next x₁ writes out in
                let (failed, x₂) =
                  write_session watched watched_send codec user_agent watched_print uid next x₁ in
                let k = emit-kept cookie x₂ ∙ written in
                rw (run_refresh, f, g, fine)
                  (inr (
                    ap (λ k'. k'.saved) k
                    ∙ ap (λ t. some (codec.session uid t)) (sym (ap (λ k'. k'.issued) k ∙ i))))
          ]
        ]
