-- ===== src/Proxy/Forwarding.antt =====
-- What of a client's request reaches the upstream: `buildRequest` of internal/proxy/handler.go.
use requestinspector_relay.Base.{
  String, List, [], ◌∷◌, ◌≡◌, ◌∙◌, Option, none, some, ◌||◌, arith, if◌then◌else◌, str_eq, eq_iff,
  lookup, lookup-erase, length, erase, Bool-cases, inl, inr,
}
use requestinspector_relay.Capture.Model.{Headers, Request}
use requestinspector_relay.Proxy.{Texts}
use requestinspector_relay.Proxy.Headers.{
  hop_by_hop_headers, forwarding_headers, connection_names, header_values, remove_hop_by_hop,
  lookup-set_if, peer_host, set_forwarding_headers, is_named, lookup-delete_all,
  lookup-remove_hop_by_hop,
}
use requestinspector_relay.Proxy.Handler.{Network, ForwardedRequest, build_request}

-- The names that the proxy sets itself are canonical.
pub record IsCanonical (texts : Texts) : Type 0 where
  pub proto : texts.canonical "X-Forwarded-Proto" ≡ "X-Forwarded-Proto"
  pub host : texts.canonical "X-Forwarded-Host" ≡ "X-Forwarded-Host"
  pub client : texts.canonical "X-Forwarded-For" ≡ "X-Forwarded-For"

module _ (texts : Texts) where
  -- A value that is told only if it is not empty.
  abbrev told : String → Option (List String)
  told value = if str_eq value "" then none else some (value ∷ [])

  -- The value that a forwarded request has at a key.
  abbrev pub forwarded : Request → String → Option (List String)
  forwarded incoming key =
      if str_eq key "X-Forwarded-Proto"
      then if str_eq incoming.scheme "http" || str_eq incoming.scheme "https"
        then some (incoming.scheme ∷ [])
        else none
      else if str_eq key "X-Forwarded-Host"
      then told incoming.host
      else if str_eq key "X-Forwarded-For"
      then told (peer_host texts incoming.remote_address)
      else if is_named texts forwarding_headers key
          || str_eq (texts.canonical "Content-Length") key
          || is_named texts hop_by_hop_headers key
          || is_named texts
              (connection_names texts (header_values texts incoming.headers "Connection")) key
      then none
      else lookup key incoming.headers

  str_eq_comm : (s t : String) → str_eq s t ≡ str_eq t s
  str_eq_comm s t = ground (arith, eq_iff s t, eq_iff t s)

  lookup-set_forwarding_headers :
      IsCanonical texts
      → (headers : Headers) (address host scheme key : String)
      → lookup key (set_forwarding_headers texts headers address host scheme) ≡ (
          if str_eq key "X-Forwarded-Proto"
          then if str_eq scheme "http" || str_eq scheme "https" then some (scheme ∷ []) else none
          else if str_eq key "X-Forwarded-Host"
          then told host
          else if str_eq key "X-Forwarded-For"
          then told (peer_host texts address)
          else if is_named texts forwarding_headers key
          then none
          else lookup key headers)
  unfolding set_forwarding_headers
  lookup-set_forwarding_headers canonical headers address host scheme key =
      rw (lookup-set_if, lookup-set_if, lookup-set_if)
        (rw (lookup-delete_all, canonical.proto, canonical.host, canonical.client)
          (elim (Bool-cases (str_eq key "X-Forwarded-Proto")) [
            | inl e ↦ rw ((eq_iff key "X-Forwarded-Proto").0 e) (ground arith)
            | inr p ↦ elim (Bool-cases (str_eq key "X-Forwarded-Host")) [
              | inl e ↦ rw ((eq_iff key "X-Forwarded-Host").0 e) (ground arith)
              | inr h ↦ elim (Bool-cases (str_eq key "X-Forwarded-For")) [
                | inl e ↦ rw ((eq_iff key "X-Forwarded-For").0 e) (ground arith)
                | inr c ↦
                    rw (p, h, c)
                      (rw
                        (
                          str_eq_comm "X-Forwarded-Proto" key,
                          str_eq_comm "X-Forwarded-Host" key,
                          str_eq_comm "X-Forwarded-For" key,
                        )
                        (rw (p, h, c) (ground arith)))
              ]
            ]
          ]))

  -- Every header of a forwarded request is accounted for. `X-Forwarded-For`, `-Host` and `-Proto`
  -- tell of this proxy's client alone: they have its address, its host and its scheme, each only
  -- where it is known, whatever the client sent under these names. No other forwarding header, no
  -- hop-by-hop header, none that a `Connection` of the client lists and no `Content-Length` is
  -- passed on, and every other header is passed on as it came. The body goes with its length, and
  -- the method unchanged. The texts' canonical form leaves the three names as they are.
  pub build_request_lem :
      IsCanonical texts
      → (network : Network) (destination : String) (incoming : Request) (request : ForwardedRequest)
      → build_request texts network destination incoming ≡ some request
      → ((key : String) → lookup key request.headers ≡ forwarded incoming key)
        × (request.body ≡ incoming.body)
        × (request.content_length ≡ length incoming.body)
        × (request.method ≡ incoming.method)
        × (request.url ≡ destination)
  unfolding build_request
  build_request_lem canonical network destination incoming request h =
      elim (Bool-cases (network.is_request incoming.method destination)) [
        | inr bad ↦ cc (rw (bad, build_request) at h)
        | inl good ↦ by_request request (cc (rw (good, build_request) at h))
      ]
    where
      headers : Headers
      headers =
          set_forwarding_headers texts
            (erase (texts.canonical "Content-Length") (remove_hop_by_hop texts incoming.headers))
            incoming.remote_address incoming.host incoming.scheme

      by_request :
          (request : ForwardedRequest)
          → request ≡ record {
            method = incoming.method;
            url = destination;
            host = network.url_host destination;
            headers = headers;
            body = incoming.body;
            content_length = length incoming.body;
          }
          → ((key : String) → lookup key request.headers ≡ forwarded incoming key)
            × (request.body ≡ incoming.body)
            × (request.content_length ≡ length incoming.body)
            × (request.method ≡ incoming.method)
            × (request.url ≡ destination)
      by_request request e = (
        (λ key. rw e (
            lookup-set_forwarding_headers canonical _ incoming.remote_address incoming.host
              incoming.scheme key
            ∙ ground (
              arith,
              lookup-erase (texts.canonical "Content-Length") key
                  (remove_hop_by_hop texts incoming.headers),
              lookup-remove_hop_by_hop texts incoming.headers key,
            ))),
        rw e,
        rw e,
        rw e,
        rw e,
      )
