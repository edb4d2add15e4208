-- ===== src/Backends/EquinixClients.antt =====
-- pkg/providers/equinix.go: the clients that `EquinixProviderFactory` keeps.
use ofcir.Prelude.{
  String, str_eq, eq_iff, ◌≡◌, refl, sym, true, none, some, Outcome, ok, if◌then◌else◌,
}
use ofcir.Prelude.Texts.{concat}
use ofcir.Provider.{SecretData}
use ofcir.Backends.Equinix.{
  EquinixProviderConfig, Packngo, EqClients, client_for, decode_user_data, read_config,
  equinix_provider, equinix_provider_factory,
}

module _ {W : Type 0} (unmarshal : EquinixProviderConfig → String → Outcome EquinixProviderConfig)
    (decode : String → Outcome String) (new_client : String → Packngo W) where
  abbrev pub key : EquinixProviderConfig → String
  key c = concat c.project_id c.token

  -- A secret that gives a configuration, with no user data to decode.
  pub record Gives (secret : SecretData) (c : EquinixProviderConfig) : Type 0 where
    pub is_read : read_config unmarshal (secret "config") ≡ ok c
    pub is_plain : str_eq c.user_data "" ≡ true

  factory_of :
      (info : String) (secret : SecretData) (c : EquinixProviderConfig)
      (clients after : EqClients W) (client : Packngo W)
      → Gives secret c
      → client_for new_client c clients ≡ (ok client, after)
      → equinix_provider_factory unmarshal decode new_client info secret clients
        ≡ (ok (equinix_provider client c), after)
  unfolding equinix_provider_factory decode_user_data
  factory_of info secret c clients after client g h = rw g.is_read (rw g.is_plain (rw h refl))

  abbrev added : String → Packngo W → EqClients W → EqClients W
  added k client clients = λ k'. if str_eq k' k then some client else clients k'

  client_made :
      (c : EquinixProviderConfig) (clients : EqClients W)
      → clients (key c) ≡ none
      → client_for new_client c clients
        ≡ (ok (new_client c.token), added (key c) (new_client c.token) clients)
  unfolding client_for
  client_made c clients h = rw (h, client_for) refl

  client_kept :
      (c : EquinixProviderConfig) (client : Packngo W) (clients : EqClients W)
      → clients (key c) ≡ some client
      → client_for new_client c clients ≡ (ok client, clients)
  unfolding client_for
  client_kept c client clients h = rw (h, client_for) refl

  -- The key of a client is the project's id with the token behind it. Where two secrets give
  -- configurations whose keys are the same text, whatever their tokens, and no client is kept for
  -- it: the provider that is made of the second, after one of the first, has the client with the
  -- token of the first.
  pub client_shared :
      (info info' : String) (secret secret' : SecretData) (c c' : EquinixProviderConfig)
      (clients : EqClients W)
      → Gives secret c
      → Gives secret' c'
      → key c ≡ key c'
      → clients (key c) ≡ none
      → (equinix_provider_factory unmarshal decode new_client info' secret'
          (equinix_provider_factory unmarshal decode new_client info secret clients).1).0
        ≡ ok (equinix_provider (new_client c.token) c')
  client_shared info info' secret secret' c c' clients g g' e h =
      let client = new_client c.token in
      let after = added (key c) client clients in
      let same : str_eq (key c') (key c) ≡ true = (eq_iff (key c') (key c)).1 (sym e) in
      rw (factory_of info secret c clients after client g (client_made c clients h)) (
        rw
          (factory_of info' secret' c' after after client g'
            (client_kept c' client after (rw same refl)))
          refl)
