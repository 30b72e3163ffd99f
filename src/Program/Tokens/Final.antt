-- ===== src/Program/Tokens/Final.antt =====
-- What distinct tokens give: a logout is final, and a login takes no session over. `Uuid::new_v4`
-- draws 122 random bits, so that it repeats itself is left out of account.
use hi_mqtt.Prelude.{
  ◌≡◌, ◌∙◌, sym, ℕ, suc, Option, none, some, [], Text, text_eq, text_eq_iff, text_eq_refl,
  lookup-remove, arith, Bool-cases, Option-cases, inl, inr,
}
use hi_mqtt.Prelude.Exec.{ok}
use hi_mqtt.Admin.Server.{AppState, Env}
use hi_mqtt.Admin.Auth.{Head, validate, revoke, bearer_token, request_token}
use hi_mqtt.Admin.Login.{LoginRequest, LoginResponse, login, logout}
use hi_mqtt.Admin.Login.Sessions.{login_sound}
use hi_mqtt.Admin.Router.{post_logout, serve}
use hi_mqtt.Admin.Router.Sessions.{sessions-serve-logout_valid}
use hi_mqtt.Program.{Step, request, Reach, here, next}
use hi_mqtt.Program.Tokens.{IsDrawn, login-draws, Step-draws, Step-IsOldOrNew, Reach-IsDrawn}

-- `Uuid::new_v4` gives no value twice.
pub record IsUnrepeated (env : Env) : Type 0 where
  pub same : (m n : ℕ) → env.new_v4 m ≡ env.new_v4 n → m ≡ n

module _ (env : Env) (parse : Text → Option Text) where
  -- A token that was drawn and is not valid.
  abbrev IsSpent : Text → AppState → Type 0
  IsSpent j s = IsDrawn env parse j s × (validate j s.sessions ≡ none)

  Step-IsSpent :
      (j : Text) {s t : AppState}
      → IsUnrepeated env
      → Step env parse s t
      → IsSpent j s
      → IsSpent j t
  Step-IsSpent j {s} {t} unrepeated st ((n, less, drawn), gone) = (
    (n, Step-draws env parse (suc n) st less, drawn),
    elim (Option-cases (validate j t.sessions)) [
      | inl none_now ↦ none_now
      | inr (name, valid) ↦ elim (Step-IsOldOrNew env parse j name st valid) [
        | inl old ↦ cc (old, gone)
        | inr (new, _) ↦
            absurd (omega (arith, less, unrepeated.same n s.acl.draws (drawn ∙ sym new)))
      ]
    ],
  )

  Reach-IsSpent :
      (j : Text) {s t : AppState}
      → IsUnrepeated env
      → IsSpent j s
      → Reach env parse s t
      → IsSpent j t
  Reach-IsSpent j unrepeated h here = h
  Reach-IsSpent j unrepeated h (next r st) =
      Step-IsSpent j unrepeated st (Reach-IsSpent j unrepeated h r)

  validate-logout :
      {S : Type 0} (shown : S) (now : ℕ) (head : Head) (token name : Text) (s : AppState)
      → bearer_token head ≡ some token
      → validate token s.sessions ≡ some name
      → validate token (serve shown env now head post_logout s).1.sessions ≡ none
  unfolding logout validate revoke request_token
  validate-logout shown now head token name s borne valid =
      rw (sessions-serve-logout_valid shown env now head s (ground (arith, borne, valid)))
        (ground (arith, borne, lookup-remove token token s.sessions, text_eq_refl token))

  -- Where the generator gives no value twice, a logout is final: a token that was valid in a state
  -- which the program reached from one without sessions, and that the header of a logout carried,
  -- is not valid in any state that the program reaches from there.
  pub Reach-logged_out :
      {S : Type 0} (shown : S) (now : ℕ) (head : Head) (token name : Text) {s t u : AppState}
      → IsUnrepeated env
      → s.sessions ≡ []
      → Reach env parse s t
      → validate token t.sessions ≡ some name
      → bearer_token head ≡ some token
      → Reach env parse (serve shown env now head post_logout t).1 u
      → validate token u.sessions ≡ none
  Reach-logged_out shown now head token name {s} {t} unrepeated e r valid borne after =
      let (n, less, drawn) = Reach-IsDrawn env parse token name e r valid in
      let out = request t shown now head post_logout in
      let spent : IsSpent token (serve shown env now head post_logout t).1 = (
        (n, Step-draws env parse (suc n) out less, drawn),
        validate-logout shown now head token name t borne valid,
      ) in
      (Reach-IsSpent token unrepeated spent after).1

  -- Where the generator gives no value twice, a login in a state which the program reached from
  -- one without sessions gives out a token that was not valid, and every session that was open
  -- stays open for the same account.
  pub Reach-login_apart :
      (body : LoginRequest) (r : LoginResponse) {s t : AppState}
      → IsUnrepeated env
      → s.sessions ≡ []
      → Reach env parse s t
      → (login env body t).0 ≡ ok r
      → (validate r.token t.sessions ≡ none)
        × ((j name : Text)
            → validate j t.sessions ≡ some name
            → validate j (login env body t).1.sessions ≡ some name)
  Reach-login_apart body r {s} {t} unrepeated e reached o =
      let (_, _, _, _, sessions) = login_sound env body t r o in
      let fresh : validate r.token t.sessions ≡ none =
        elim (Option-cases (validate r.token t.sessions)) [
          | inl none_yet ↦ none_yet
          | inr (name, valid) ↦
              let (n, less, drawn) = Reach-IsDrawn env parse r.token name e reached valid in
              let next_one = drawn ∙ (login-draws env body t r o).0 in
              absurd (omega (arith, less, unrepeated.same n t.acl.draws next_one))
        ] in
      (
        fresh,
        λ j name valid. elim (Bool-cases (text_eq r.token j)) [
          | inl given ↦ let same = (text_eq_iff r.token j).0 given in cc (same, fresh, valid)
          | inr other ↦ ground (arith, sessions j, other, valid)
        ],
      )
