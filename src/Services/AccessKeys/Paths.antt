-- ===== src/Services/AccessKeys/Paths.antt =====
-- The steps between the data plane and the table that `Create` and `Rotate` share: the encryption of
-- the secret and the secret paths. They read the random source and nothing else.
use vpn_backend.Base.{String, ◌≡◌, refl, if_rule}
use vpn_backend.Action.{Result, ok, err, Action, bind_rule, IfOk}
use vpn_backend.Models.{AccessKey}
use vpn_backend.Database.View.{View}
use vpn_backend.Database.Reads.{IsRead, bind-IsRead, on_error-IsRead}
use vpn_backend.Crypto.{encrypt}
use vpn_backend.Vpn.{generate_secret_path}
use vpn_backend.Services.AccessKeys.{AccessKeyService, add_paths, add_udp_path}
use vpn_backend.Services.AccessKeys.Lookup.{Lawful}

-- The key with two paths of its own.
abbrev pub with_paths : AccessKey → (tcp_path udp_path : String) → AccessKey
with_paths k tcp_path udp_path = record k {
  websocket_path = tcp_path;
  websocket_udp_path = udp_path;
}

abbrev pub SameButPaths : AccessKey → AccessKey → Type 0
SameButPaths k k' = k' ≡ with_paths k k'.websocket_path k'.websocket_udp_path

module _ {W : Type 0} (view : W → View) (s : AccessKeyService W) (lawful : Lawful view s) where
  pub encrypt-IsRead : (secret : String) → IsRead view (encrypt s.secret_box secret)
  unfolding encrypt
  encrypt-IsRead secret =
      bind-IsRead view _ _ (on_error-IsRead view _ _ (lawful.box_random.read_view _)) λ _ w. refl

  path-IsRead : IsRead view (generate_secret_path s.random s.encoding)
  unfolding generate_secret_path
  path-IsRead =
      bind-IsRead view _ _ (on_error-IsRead view _ _ (lawful.random.read_view _)) λ _ w. refl

  add_udp_path-IsRead : (k : AccessKey) → IsRead view (add_udp_path s k)
  unfolding add_udp_path
  add_udp_path-IsRead k =
      if_rule (IsRead view) k.udp_enabled (bind-IsRead view _ _ path-IsRead λ _ w. refl) (λ w. refl)

  pub add_paths-IsRead : (k : AccessKey) → IsRead view (add_paths s k)
  unfolding add_paths
  add_paths-IsRead k =
      if_rule (IsRead view) k.websocket_enabled
        (bind-IsRead view _ _ path-IsRead
          λ tcp_path. add_udp_path-IsRead (record k { websocket_path = tcp_path }))
        (λ w. refl)

  abbrev KeepsKey : AccessKey → Action W AccessKey → Type 0
  KeepsKey k m = (w : W) → IfOk (m w).0 (SameButPaths k)

  add_udp_path-same : (k : AccessKey) → KeepsKey k (add_udp_path s k)
  unfolding add_udp_path
  add_udp_path-same k =
      if_rule (KeepsKey k) k.udp_enabled
        (λ w. bind_rule (λ r. IfOk r.0 (SameButPaths k)) _ _ w (λ _ _. refl) (λ _ _. tt))
        (λ w. refl)

  widen :
      (k : AccessKey) (tcp_path : String) (r : Result AccessKey)
      → IfOk r (SameButPaths (record k { websocket_path = tcp_path }))
      → IfOk r (SameButPaths k)
  widen k tcp_path (ok k') h = h
  widen k tcp_path (err e) h = tt

  pub add_paths-same : (k : AccessKey) → KeepsKey k (add_paths s k)
  unfolding add_paths
  add_paths-same k =
      if_rule (KeepsKey k) k.websocket_enabled
        (λ w.
          bind_rule (λ r. IfOk r.0 (SameButPaths k)) _ _ w
            (λ tcp_path _.
              widen k tcp_path _ (add_udp_path-same (record k { websocket_path = tcp_path }) _))
            (λ _ _. tt))
        (λ w. refl)
