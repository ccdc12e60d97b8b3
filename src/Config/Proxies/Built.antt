-- ===== src/Config/Proxies/Built.antt =====
-- What `RawProxy::build` of src/config.rs accepts.
use zc.Prelude.{
  ℕ, ◌≡◌, refl, Bool, true, false, not, ◌&&◌, ◌||◌, Option, none, some, [], ◌∷◌, ◌⊎◌, inl, inr,
  is_empty, is_some, if◌then◌else◌, ok, guard, is_ok, Ensures, Ensures-pure, Ensures-bind,
  Ensures-guard, Ensures-if, Ensures-err, arith, Bool-cases,
}
use zc.Prelude.Text.{Text, bytes, text_eq, one_of, ends_with}
use zc.Prelude.Text.Chars.{has_control}
use zc.IpAddr.{parse_ip}
use zc.Target.{new}
use zc.Config.Proxies.{
  ProxyKind, direct, reject, shadowsocks, any_tls, trojan, Proxy, RawObfs, RawProxy, bad_network,
  bad_reuse, bad_plugin, bad_obfs, bad_password, bad_server, bad_cipher, bad_tls, bad_sni,
  unsupported, differs, is_true, is_false, is_obfs_host, build_obfs, cipher_of, build_shadowsocks,
  check_sni, or_else, build_tls, build_kind, build_remote, build,
}

-- A server to dial, and a password that fits one line.
pub record IsServer (server : Text) (port : ℕ) (password : Text) : Type 0 where
  pub valid : is_ok (new server port) ≡ true
  pub secret : is_empty password ≡ false
  pub plain : has_control password ≡ false

abbrev pub IsCipher : Text → Type 0
IsCipher cipher =
    one_of (bytes "aes-128-gcm" ∷ bytes "aes-256-gcm" ∷ bytes "chacha20-ietf-poly1305" ∷ []) cipher
    ≡ true

-- The certificate is not checked, or it is checked against a name that is no address.
abbrev pub IsVerified : Text → Option Text → Bool → Type 0
IsVerified server sni skip = (skip ≡ true) ⊎ (parse_ip (or_else sni server) ≡ none)

abbrev pub IsKind : Bool → Option Text → ProxyKind → Type 0
IsKind udp obfs direct = obfs ≡ none
IsKind udp obfs reject = obfs ≡ none
IsKind udp obfs (shadowsocks server port password cipher) =
    IsServer server port password × IsCipher cipher
IsKind udp obfs (any_tls server port password sni skip) =
    IsServer server port password × IsVerified server sni skip × (udp ≡ false) × (obfs ≡ none)
IsKind udp obfs (trojan server port password sni skip) =
    IsServer server port password × IsVerified server sni skip × (obfs ≡ none)

cipher_of-IsCipher : (cipher : Option Text) → Ensures IsCipher (cipher_of cipher)
unfolding cipher_of
cipher_of-IsCipher none = Ensures-err bad_cipher
cipher_of-IsCipher (some cipher) =
    Ensures-if (text_eq cipher (bytes "aes-128-gcm")) _ _
      (λ h. Ensures-pure IsCipher (bytes "aes-128-gcm") (unfold one_of text_eq in refl))
      λ h.
        Ensures-if (text_eq cipher (bytes "aes-256-gcm")) _ _
          (λ h. Ensures-pure IsCipher (bytes "aes-256-gcm") (unfold one_of text_eq in refl))
          λ h.
            Ensures-if
              (one_of (bytes "chacha20-ietf-poly1305" ∷ bytes "chacha20-poly1305" ∷ []) cipher) _ _
              (λ h.
                Ensures-pure IsCipher (bytes "chacha20-ietf-poly1305")
                  (unfold one_of text_eq in refl))
              (λ h. Ensures-err bad_cipher)

-- Options for obfs are accepted for the kind `ss` only.
build_obfs-kind :
    (kind : Text) (plugin : Option Text) (options : Option RawObfs)
    → Ensures
        (λ obfs. (obfs ≡ none) ⊎ (text_eq kind (bytes "ss") ≡ true))
        (build_obfs kind plugin options)
unfolding build_obfs
build_obfs-kind kind none none = Ensures-pure _ none (inl refl)
build_obfs-kind kind (some plugin) (some options) =
    Ensures-guard
      (one_of (bytes "obfs" ∷ bytes "obfs-local" ∷ []) plugin && text_eq kind (bytes "ss"))
      bad_plugin _
      λ shadow.
        Ensures-guard (text_eq options.mode (bytes "http") && is_obfs_host options.host) bad_obfs _
          λ h. Ensures-pure _ (some options.host) (inr (ground arith))
build_obfs-kind kind none (some options) = Ensures-err bad_plugin
build_obfs-kind kind (some plugin) none = Ensures-err bad_plugin

no_address : {A : Type 0} (o : Option A) → is_some o ≡ false → o ≡ none
no_address none h = refl
no_address (some a) h = cc

guard-true : {E : Type 0} (b : Bool) (e : E) {u : Unit {0}} → guard b e ≡ ok u → b ≡ true
guard-true true e h = refl
guard-true false e h = cc

abbrev Verified : RawProxy → Option Text → Type 0
Verified raw sni = IsVerified raw.server sni (is_true raw.skip_cert_verify)

check_sni-Verified :
    (raw : RawProxy) (sni : Option Text) → Ensures (λ u. Verified raw sni) (check_sni raw sni)
unfolding check_sni or_else
check_sni-Verified raw (some sni) =
    Ensures-guard (not (ends_with (b'.' ∷ []) sni || is_some (parse_ip sni))) bad_sni _ λ h.
      Ensures-guard (is_ok (new sni 1)) bad_sni _
        λ h'. Ensures-pure _ tt (inr (no_address (parse_ip sni) (ground arith)))
check_sni-Verified raw none = record {
  holds = λ u h. elim (Bool-cases (is_true raw.skip_cert_verify)) [
    | inl skip ↦ inl skip
    | inr check ↦
        let named =
          guard-true (is_true raw.skip_cert_verify || not (is_some (parse_ip raw.server))) bad_sni
            h in
        inr (no_address (parse_ip raw.server) (ground arith))
  ];
}

build_shadowsocks-IsKind :
    (raw : RawProxy) (obfs : Option Text)
    → IsServer raw.server raw.port raw.password
    → Ensures (IsKind raw.udp obfs) (build_shadowsocks raw)
unfolding build_shadowsocks
build_shadowsocks-IsKind raw obfs server =
    Ensures-guard (not (is_true raw.tls || is_some raw.sni || is_some raw.skip_cert_verify)) bad_tls
      _
      λ h.
        Ensures-bind (cipher_of raw.cipher) _ (cipher_of-IsCipher raw.cipher)
          λ cipher c. Ensures-pure (IsKind raw.udp obfs) _ (server, c)

tls-IsKind :
    (anytls : Bool) (raw : RawProxy) (obfs : Option Text)
    → obfs ≡ none
    → IsServer raw.server raw.port raw.password
    → Verified raw raw.sni
    → not (anytls && (raw.udp || is_true raw.tls)) ≡ true
    → IsKind raw.udp obfs (
        if anytls
        then any_tls raw.server raw.port raw.password raw.sni (is_true raw.skip_cert_verify)
        else trojan raw.server raw.port raw.password raw.sni (is_true raw.skip_cert_verify))
tls-IsKind true raw obfs plain server verified no_udp = (server, verified, ground arith, plain)
tls-IsKind false raw obfs plain server verified no_udp = (server, verified, plain)

build_tls-IsKind :
    (is_server_name : Text → Bool) (anytls : Bool) (raw : RawProxy) (obfs : Option Text)
    → obfs ≡ none
    → IsServer raw.server raw.port raw.password
    → Ensures (IsKind raw.udp obfs) (build_tls is_server_name anytls raw)
unfolding build_tls
build_tls-IsKind is_server_name anytls raw obfs plain server =
    Ensures-guard (not (anytls && (raw.udp || is_true raw.tls))) bad_tls _ λ no_udp.
      Ensures-guard (not ((not anytls && is_false raw.tls) || is_some raw.cipher)) bad_tls _ λ h.
        Ensures-bind (check_sni raw raw.sni) _ (check_sni-Verified raw raw.sni) λ u verified.
          Ensures-guard _ bad_sni _ λ named.
            Ensures-pure (IsKind raw.udp obfs) _
              (tls-IsKind anytls raw obfs plain server verified no_udp)

build_kind-IsKind :
    (is_server_name : Text → Bool) (raw : RawProxy) (obfs : Option Text)
    → (obfs ≡ none) ⊎ (text_eq raw.kind (bytes "ss") ≡ true)
    → IsServer raw.server raw.port raw.password
    → Ensures (IsKind raw.udp obfs) (build_kind is_server_name raw)
unfolding build_kind
build_kind-IsKind is_server_name raw obfs plugin server =
    Ensures-if (text_eq raw.kind (bytes "ss")) _ _ (λ h. build_shadowsocks-IsKind raw obfs server)
      λ other.
        Ensures-if (text_eq raw.kind (bytes "trojan")) _ _
          (λ h. build_tls-IsKind is_server_name false raw obfs (plain other) server)
          λ h.
            Ensures-if (text_eq raw.kind (bytes "anytls")) _ _
              (λ h. build_tls-IsKind is_server_name true raw obfs (plain other) server)
              (λ h. Ensures-err unsupported)
  where
    plain : text_eq raw.kind (bytes "ss") ≡ false → obfs ≡ none
    plain other = elim plugin [ inl e ↦ e | inr ss ↦ cc ]

abbrev pub IsProxy : RawProxy → Proxy → Type 0
IsProxy raw p = (p.name ≡ raw.name) × (p.udp ≡ raw.udp) × IsKind raw.udp p.obfs p.kind

build_remote-IsProxy :
    (is_server_name : Text → Bool) (raw : RawProxy) (obfs : Option Text)
    → (obfs ≡ none) ⊎ (text_eq raw.kind (bytes "ss") ≡ true)
    → Ensures (IsProxy raw) (build_remote is_server_name raw obfs)
unfolding build_remote
build_remote-IsProxy is_server_name raw obfs plugin =
    Ensures-guard (not (is_empty raw.password || has_control raw.password)) bad_password _ λ secret.
      Ensures-guard (is_ok (new raw.server raw.port)) bad_server _ λ valid.
        let server : IsServer raw.server raw.port raw.password = record {
          valid = valid;
          secret = ground arith;
          plain = ground arith;
        } in
        Ensures-bind (build_kind is_server_name raw) _
          (build_kind-IsKind is_server_name raw obfs plugin server)
          λ kind k. Ensures-pure (IsProxy raw) _ (refl, refl, k)

-- A proxy that `RawProxy::build` accepts keeps its name and `udp`, and what it dials is checked: a
-- valid server and port, a nonempty password without control characters, for Shadowsocks one of the
-- three ciphers. AnyTLS has no UDP. Trojan and AnyTLS either skip the check of the certificate or have
-- a name to check it against that is no IP address. Only Shadowsocks has obfs.
pub build-IsProxy :
    (is_server_name : Text → Bool) (raw : RawProxy)
    → Ensures (IsProxy raw) (build is_server_name raw)
unfolding build
build-IsProxy is_server_name raw =
    Ensures-guard (not (differs raw.network (bytes "tcp"))) bad_network _ λ h.
      Ensures-guard
        (not (
          is_some raw.disable_reuse
          && (not (text_eq raw.kind (bytes "anytls")) || is_false raw.disable_reuse)))
        bad_reuse _
        λ h.
          Ensures-bind (build_obfs raw.kind raw.plugin raw.plugin_opts) _
            (build_obfs-kind raw.kind raw.plugin raw.plugin_opts)
            λ obfs plugin.
              Ensures-if (text_eq raw.kind (bytes "direct")) _ _
                (λ h. Ensures-pure (IsProxy raw) _ (refl, refl, refl))
                λ h.
                  Ensures-if (text_eq raw.kind (bytes "reject")) _ _
                    (λ h. Ensures-pure (IsProxy raw) _ (refl, refl, refl))
                    (λ h. build_remote-IsProxy is_server_name raw obfs plugin)
