-- ===== src/Proxy/Headers.antt =====
-- internal/proxy/headers.go: the headers that are not forwarded, and those that tell of the client.
use requestinspector_relay.Base.{
  String, List, [], ◌∷◌, ◌++◌, ◌≡◌, refl, none, some, Bool, true, false, not, ◌||◌, ◌&&◌, arith,
  if◌then◌else◌, str_eq, any, lookup, insert, erase, lookup-insert, lookup-erase, split_commas,
}
use requestinspector_relay.Capture.Model.{Headers, header_get}
use requestinspector_relay.Proxy.{Texts}

abbrev pub hop_by_hop_headers : List String
hop_by_hop_headers =
    "Connection" ∷ "Proxy-Connection" ∷ "Keep-Alive" ∷ "Proxy-Authenticate" ∷ "Proxy-Authorization"
    ∷ "TE" ∷ "Trailer" ∷ "Transfer-Encoding" ∷ "Upgrade" ∷ []

abbrev pub forwarding_headers : List String
forwarding_headers = "Forwarded" ∷ "X-Forwarded-For" ∷ "X-Forwarded-Host" ∷ "X-Forwarded-Proto" ∷ []

module _ (texts : Texts) where
  -- `Header.Values`
  abbrev pub header_values : Headers → String → List String
  header_values headers name = elim (lookup (texts.canonical name) headers) [
    | none ↦ []
    | some found ↦ found
  ]

  -- A loop of `Header.Del`.
  unfoldable pub delete_all : List String → Headers → Headers
  delete_all [] headers = headers
  delete_all (name ∷ names) headers = delete_all names (erase (texts.canonical name) headers)

  -- The names that one value of `Connection` lists.
  abbrev trimmed : List String → List String
  trimmed [] = []
  trimmed (part ∷ parts) = texts.trim_space part ∷ trimmed parts

  -- The names that they all list.
  unfoldable pub connection_names : List String → List String
  connection_names [] = []
  connection_names (value ∷ values) = trimmed (split_commas value) ++ connection_names values

  unfoldable pub remove_hop_by_hop : Headers → Headers
  unfolding delete_all connection_names
  remove_hop_by_hop headers =
      delete_all hop_by_hop_headers
        (delete_all (connection_names (header_values headers "Connection")) headers)

  unfoldable pub has_upgrade : Headers → Bool
  unfolding connection_names
  has_upgrade headers =
      not (str_eq (header_get headers (texts.canonical "Upgrade")) "")
      || any (λ token. texts.equal_fold token "upgrade")
          (connection_names (header_values headers "Connection"))

  unfoldable pub peer_host : String → String
  peer_host address = elim (texts.split_host_port address) [
    | some parts ↦ parts.0
    | none ↦ if texts.is_ip address then address else ""
  ]

  -- `headers.Set(name, value)` under a condition.
  abbrev pub set_if : Bool → String → String → Headers → Headers
  set_if true name value headers = insert (texts.canonical name) (value ∷ []) headers
  set_if false name value headers = headers

  unfoldable pub set_forwarding_headers : Headers → String → String → String → Headers
  unfolding delete_all peer_host
  set_forwarding_headers headers remote_address original_host scheme =
      let removed = delete_all forwarding_headers headers in
      let host = peer_host remote_address in
      set_if (str_eq scheme "http" || str_eq scheme "https") "X-Forwarded-Proto" scheme (
        set_if (not (str_eq original_host "")) "X-Forwarded-Host" original_host
          (set_if (not (str_eq host "")) "X-Forwarded-For" host removed))

  -- Whether a key is the canonical form of one of the names.
  abbrev pub is_named : List String → String → Bool
  is_named names key = any (λ name. str_eq (texts.canonical name) key) names

  pub lookup-delete_all :
      (names : List String) (headers : Headers) (key : String)
      → lookup key (delete_all names headers)
        ≡ (if is_named names key then none else lookup key headers)
  unfolding delete_all
  lookup-delete_all [] headers key = refl
  lookup-delete_all (name ∷ names) headers key = ground (
    arith,
    lookup-delete_all names (erase (texts.canonical name) headers) key,
    lookup-erase (texts.canonical name) key headers,
  )

  -- Of the headers, those are removed that the list of the program names or a value of `Connection`
  -- does; all others stay as they are.
  pub lookup-remove_hop_by_hop :
      (headers : Headers) (key : String)
      → lookup key (remove_hop_by_hop headers) ≡ (
          if is_named hop_by_hop_headers key
            || is_named (connection_names (header_values headers "Connection")) key
          then none
          else lookup key headers)
  unfolding remove_hop_by_hop
  lookup-remove_hop_by_hop headers key =
      let listed = connection_names (header_values headers "Connection") in
      ground (
        arith,
        lookup-delete_all hop_by_hop_headers (delete_all listed headers) key,
        lookup-delete_all listed headers key,
      )

  pub lookup-set_if :
      (b : Bool) (name value : String) (headers : Headers) (key : String)
      → lookup key (set_if b name value headers)
        ≡ (if b && str_eq (texts.canonical name) key then some (value ∷ []) else lookup key headers)
  lookup-set_if true name value headers key =
      lookup-insert (texts.canonical name) key (value ∷ []) headers
  lookup-set_if false name value headers key = refl
