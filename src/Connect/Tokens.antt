-- ===== src/Connect/Tokens.antt =====
-- When a deployment is handed an installation token.
use wakey.Prelude.{ap, ◌∙◌, String, refl, ℕ, ◌≡◌, arith, if◌then◌else◌, not, true, Bool, false}
use wakey.Connect.{
  Broker, Connection, Told, broken, denied, told, unavailable, PairData, Repository, binding,
  choices, device_flow, erased, is_connected,
}
use wakey.Connect.Store.{read, audit}
use wakey.Connect.Server.{
  Github, Minted, answer, change, go_on, issue, ◌>>◌, mint, token_row, ◌>>=◌, token,
}

module _ (hash_token : String → String) (github : Github) (clock : ℕ → ℕ) where
  -- The credential opens its connection after what other requests did in the meantime.
  abbrev pub StillOpen : (Broker → Broker) → String → Broker → Type 0
  StillOpen meanwhile credential s =
      (again : Connection) × (read hash_token credential (clock 1) (meanwhile s) ≡ told again)

  -- GitHub issued the token for the one repository that the connection is bound to.
  abbrev pub IsBoundToken : Connection → Minted → Type 0
  IsBoundToken row m =
      (is_connected row.state ≡ true)
      × ((owner : ℕ) × (repo : Repository) × (row.content ≡ binding owner repo)
          × (github.token repo ≡ told m))

  issued-opens :
      (meanwhile : Broker → Broker) (credential : String) (row : Connection) (minted m : Minted)
      (s : Broker)
      → (issue hash_token github clock meanwhile credential row minted s).0 ≡ told m
      → (minted ≡ m) × StillOpen meanwhile credential s
  issued-opens meanwhile credential row minted m s e =
      opened (read hash_token credential (clock 1) (meanwhile s)) refl e
    where
      injected : told minted ≡ told m → minted ≡ m
      injected h = ground arith

      opened :
          (r : Told Connection)
          → read hash_token credential (clock 1) (meanwhile s) ≡ r
          → (go_on r
              (λ again. change (audit (clock 2) row.id "token.issued") >> answer (told minted))
              (meanwhile s)).0
            ≡ told m
          → (minted ≡ m) × StillOpen meanwhile credential s
      opened (told again) r e = (injected e, (again, r))
      opened (denied reason) r e = ground arith
      opened unavailable r e = ground arith
      opened broken r e = ground arith

  row-issued :
      (meanwhile : Broker → Broker) (credential : String) (row : Connection) (m : Minted)
      (s : Broker)
      → (token_row hash_token github clock meanwhile credential row s).0 ≡ told m
      → IsBoundToken row m × StillOpen meanwhile credential s
  row-issued meanwhile credential row m s e = by_state (is_connected row.state) refl e
    where
      minted_of :
          (content : PairData)
          → row.content ≡ content
          → is_connected row.state ≡ true
          → ((mint hash_token github clock content
                >>= issue hash_token github clock meanwhile credential row)
              s).0
            ≡ told m
          → IsBoundToken row m × StillOpen meanwhile credential s
      minted_of (binding owner repo) same linked e = by_github (github.token repo) refl e
        where
          by_github :
              (r : Told Minted)
              → github.token repo ≡ r
              → (go_on r (issue hash_token github clock meanwhile credential row) s).0 ≡ told m
              → IsBoundToken row m × StillOpen meanwhile credential s
          by_github (told minted) r e =
              let (same_minted, still) = issued-opens meanwhile credential row minted m s e in
              ((linked, (owner, repo, same, r ∙ ap told same_minted)), still)
          by_github (denied reason) r e = ground arith
          by_github unavailable r e = ground arith
          by_github broken r e = ground arith
      minted_of (device_flow code interval) same linked e = ground arith
      minted_of (choices owner repos) same linked e = ground arith
      minted_of erased same linked e = ground arith

      by_state :
          (b : Bool)
          → is_connected row.state ≡ b
          → ((if not b
                then answer (denied "deployment is not connected")
                else mint hash_token github clock row.content
                  >>= issue hash_token github clock meanwhile credential row)
              s).0
            ≡ told m
          → IsBoundToken row m × StillOpen meanwhile credential s
      by_state true linked e = minted_of row.content refl linked e
      by_state false apart e = ground arith

  -- A token is handed out only for the repository that the credential's connection is bound to, as
  -- GitHub issued it, and only if the credential still opens its connection after everything that
  -- other requests did while GitHub was issuing.
  pub token_fails_closed :
      (meanwhile : Broker → Broker) (credential : String) (m : Minted) (s : Broker)
      → (token hash_token github clock meanwhile credential s).0 ≡ told m
      → ((row : Connection) × (read hash_token credential (clock 0) s ≡ told row)
          × IsBoundToken row m)
        × StillOpen meanwhile credential s
  unfolding token
  token_fails_closed meanwhile credential m s e =
      by_row (read hash_token credential (clock 0) s) refl e
    where
      by_row :
          (r : Told Connection)
          → read hash_token credential (clock 0) s ≡ r
          → (go_on r (token_row hash_token github clock meanwhile credential) s).0 ≡ told m
          → ((row : Connection) × (read hash_token credential (clock 0) s ≡ told row)
              × IsBoundToken row m)
            × StillOpen meanwhile credential s
      by_row (told row) opened e =
          let (own, still) = row-issued meanwhile credential row m s e in
          ((row, opened, own), still)
      by_row (denied reason) opened e = ground arith
      by_row unavailable opened e = ground arith
      by_row broken opened e = ground arith
