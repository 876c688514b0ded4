-- ===== src/Privsep/Start.antt =====
-- `Initialize` of internal/privsep/privsep.go: the server's process and the client's.
use vasily.Base.{
  Bool, true, false, not, List, [], ◌∷◌, if◌then◌else◌, if-eq, inl, inr, ◌⊎◌, ◌≡◌, ◌≢◌, ap, ◌∙◌,
  Result, ok, err, panic, ◌>>=◌, or_panic, >>=-eq-ok, ok-injective,
}
use vasily.Backend.{Bytes}
use vasily.Tracer.{eqb_bytes}
use vasily.Privsep.Privileges.{System, drop_privileges, drop_privileges-eq-ok}

-- What `Initialize` asks of package os and of the server: its own path, the three pipes, the start
-- of the process, and the server's main loop.
pub record Launch (W : Type 0) : Type 0 where
  pub executable : W → Result W
  pub stdout_pipe : W → Result W
  pub stdin_pipe : W → Result W
  pub stderr_pipe : W → Result W
  pub start : W → Result W
  pub serve : W → Result W

-- Nothing to do; a server that is done, whose process ends with `os.Exit`; a client that is in use
-- by the backends.
pub data Initialized (W : Type 0) : Type 0 where
  unprivileged : W → Initialized W
  served : W → Initialized W
  client_ready : W → Initialized W

-- "[privileged]"
abbrev pub start_priv_flag : Bytes
start_priv_flag = 91 ∷ 112 ∷ 114 ∷ 105 ∷ 118 ∷ 105 ∷ 108 ∷ 101 ∷ 103 ∷ 101 ∷ 100 ∷ 93 ∷ []

-- The test on `os.Args`.
abbrev pub is_server : List Bytes → Bool
is_server (name ∷ flag ∷ []) = eqb_bytes flag start_priv_flag
is_server _ = false

module _ {W : Type 0} (sys : System W) (os : Launch W) where
  -- `log.Fatalf` on any error.
  unfoldable pub launch : W → Result W
  launch w = do
    w ← or_panic (os.executable w)
    w ← or_panic (os.stdout_pipe w)
    w ← or_panic (os.stdin_pipe w)
    w ← or_panic (os.stderr_pipe w)
    or_panic (os.start w)

  unfoldable pub start_client : W → Result (Initialized W)
  unfolding launch drop_privileges
  start_client w = do w ← or_panic (drop_privileges sys w); w ← launch w; ok (client_ready w)

  unfoldable pub start_server : W → Result (Initialized W)
  start_server w = do w ← os.serve w; ok (served w)

  unfoldable pub initialize : Bool → List Bytes → W → Result (Initialized W)
  unfolding start_client start_server
  initialize use_privsep args w =
      if not use_privsep
      then ok (unprivileged w)
      else if is_server args
      then start_server w
      else start_client w

  or_panic-eq-ok : (r : Result W) (w : W) → or_panic r ≡ ok w → r ≡ ok w
  or_panic-eq-ok (ok x) w h = h
  or_panic-eq-ok (err e) w h = cc
  or_panic-eq-ok panic w h = cc

  no_client : (r : Result W) (w' : W) → (r >>= λ w. ok (served w)) ≢ ok (client_ready w')
  no_client (ok x) w' h = cc
  no_client (err e) w' h = cc
  no_client panic w' h = cc

  abbrev client_world : Initialized W → W
  client_world (unprivileged w) = w
  client_world (served w) = w
  client_world (client_ready w) = w

  -- A process in which `Initialize` installs a client is not the server's. Before it looked for its
  -- own path, made a pipe or started the server, it had given up its privileges: its real and its
  -- effective user id were equal, and unless they had been so from the start, `Setuid` succeeded
  -- with the real id and an attempt to become root again failed. Everything else it did from there.
  pub initialize-client_ready :
      (use_privsep : Bool) (args : List Bytes) (w w' : W)
      → initialize use_privsep args w ≡ ok (client_ready w')
      → (is_server args ≡ false)
        × ((v : W) × (launch v ≡ ok w')
            × (sys.getuid v ≡ sys.geteuid v)
            × ((v ≡ w)
                ⊎ ((sys.setuid (sys.getuid w) w).0 ≡ true)
                  × (sys.seteuid 0 (sys.setuid (sys.getuid w) w).1 ≡ (false, v))))
  unfolding initialize start_server start_client
  initialize-client_ready use_privsep args w w' h = elim (if-eq (not use_privsep) _ _ h) [
    | inl (q, e) ↦ cc
    | inr (q, e) ↦ elim (if-eq (is_server args) _ _ e) [
      | inl (q, e) ↦ absurd (no_client (os.serve w) w' e)
      | inr (q, e) ↦
          let (v, d, k) = >>=-eq-ok (or_panic (drop_privileges sys w)) _ e in
          let (x, l, k) = >>=-eq-ok (launch v) _ k in
          let same : x ≡ w' = ap client_world (ok-injective k) in
          let (ids, how) =
            drop_privileges-eq-ok sys w v (or_panic-eq-ok (drop_privileges sys w) v d) in
          (q, (v, l ∙ ap ok same, ids, how))
    ]
  ]
