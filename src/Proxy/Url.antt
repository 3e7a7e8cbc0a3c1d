-- ===== src/Proxy/Url.antt =====
-- internal/proxy/url.go: the address that a request is forwarded to. `url.Parse`, the methods of an
-- URL and `url.PathUnescape` are parameters.
use Prim.Native.Char.{Char, code}
use Prim.Native.String.append
use Prim.Native.String.{String, [], ◌∷◌, ◌++◌}
use text.Mathlib.TextEquality.{Char-path}
use requestinspector_relay.Base.{
  ◌≡◌, ◌≢◌, refl, ap, Option, none, some, Bool, true, false, not, ◌||◌, ◌&&◌, ◌==◌, if◌then◌else◌,
  str_eq, Result, ok, err, arith, Bool-cases, Option-cases, eq_iff, inl, inr,
}
use requestinspector_relay.Proxy.{Texts}

pub record Url : Type 0 where
  pub scheme : String
  pub host : String
  pub has_user : Bool
  pub fragment : String
  pub raw_query : String
  pub force_query : Bool
  pub path : String
  pub raw_path : String

pub record Urls : Type 0 where
  pub parse : String → Option Url
  pub escaped_path : Url → String
  pub path_unescape : String → Option String
  pub to_text : Url → String

pub data UrlError : Type 0 where
  unparsed scheme_invalid authority_missing extras path_relative escaping_invalid : UrlError

-- `strings.HasPrefix(s, "/")`, `strings.HasSuffix(s, "/")` and `strings.TrimPrefix(s, "/")`
abbrev pub starts_with_slash : String → Bool
starts_with_slash [] = false
starts_with_slash (c ∷ s) = code c == 47

abbrev ends_with_slash : String → Bool
ends_with_slash [] = false
ends_with_slash (c ∷ []) = code c == 47
ends_with_slash (c ∷ d ∷ s) = ends_with_slash (d ∷ s)

abbrev trim_slash : String → String
trim_slash [] = []
trim_slash (c ∷ s) = if code c == 47 then s else c ∷ s

unfoldable pub join_escaped_path : String → String → String
join_escaped_path prefix path =
    if str_eq prefix "" || str_eq prefix "/"
    then path
    else if ends_with_slash prefix
    then prefix ++ trim_slash path
    else prefix ++ "/" ++ trim_slash path

abbrev pub absolute : String → String
absolute path = if str_eq path "" then "/" else path

unfoldable pub compose_url : Texts → Urls → String → String → String → Result UrlError Url
unfolding join_escaped_path
compose_url texts urls target incoming_escaped_path raw_query = elim (urls.parse target) [
  | none ↦ err unparsed
  | some destination ↦
      if not (texts.equal_fold destination.scheme "http")
        && not (texts.equal_fold destination.scheme "https")
      then err scheme_invalid
      else if str_eq destination.host ""
      then err authority_missing
      else if destination.has_user
          || not (str_eq destination.fragment "")
          || not (str_eq destination.raw_query "")
          || destination.force_query
      then err extras
      else (let lower : Url = record destination { scheme = texts.to_lower destination.scheme } in
          let incoming = absolute incoming_escaped_path in
          if not (starts_with_slash incoming)
          then err path_relative
          else (let escaped_path = join_escaped_path (urls.escaped_path lower) incoming in
              (elim (urls.path_unescape escaped_path) [
                | none ↦ err escaping_invalid
                | some path ↦ ok (record lower {
                  path = path;
                  raw_path = escaped_path;
                  raw_query = raw_query;
                  force_query = false;
                })
              ])))
]

-- A text without the slash at its end, if it has one.
abbrev pub without_slash : String → String
without_slash [] = []
without_slash (c ∷ []) = if code c == 47 then [] else c ∷ []
without_slash (c ∷ d ∷ s) = c ∷ without_slash (d ∷ s)

trim_slash-cons :
    (c : Char) (path : String)
    → code c ≡ 47
    → starts_with_slash path ≡ true
    → c ∷ trim_slash path ≡ path
trim_slash-cons c [] h k = cc
trim_slash-cons c (d ∷ path) h k = ground (arith, Char-path c d)

join_ended :
    (prefix path : String)
    → ends_with_slash prefix ≡ true
    → starts_with_slash path ≡ true
    → prefix ++ trim_slash path ≡ without_slash prefix ++ path
join_ended [] path h k = cc
join_ended (c ∷ []) path h k =
    rw (append.cons, append.nil, h) (rw append.nil (trim_slash-cons c path (ground arith) k))
join_ended (c ∷ d ∷ s) path h k =
    rw (append.cons, append.cons c) (ap (◌∷◌ c) (join_ended (d ∷ s) path h k))

without_slash_lem :
    (prefix : String) → ends_with_slash prefix ≡ false → without_slash prefix ≡ prefix
without_slash_lem [] h = refl
without_slash_lem (c ∷ []) h = ground arith
without_slash_lem (c ∷ d ∷ s) h = ap (◌∷◌ c) (without_slash_lem (d ∷ s) h)

join_short :
    (prefix path : String)
    → str_eq prefix "" || str_eq prefix "/" ≡ true
    → path ≡ without_slash prefix ++ path
join_short prefix path h = elim (Bool-cases (str_eq prefix "")) [
  | inl e ↦ rw ((eq_iff prefix "").0 e) (rw append.nil)
  | inr e ↦ rw ((eq_iff prefix "/").0 (ground (arith, h, e))) (rw append.nil)
]

join_slash : (path : String) → starts_with_slash path ≡ true → "/" ++ trim_slash path ≡ path
join_slash [] h = cc
join_slash (c ∷ path) h = rw (append.cons, append.nil) (trim_slash-cons _ (c ∷ path) refl h)

join_escaped_path_lem :
    (prefix path : String)
    → starts_with_slash path ≡ true
    → join_escaped_path prefix path ≡ without_slash prefix ++ path
unfolding join_escaped_path
join_escaped_path_lem prefix path h = elim (Bool-cases (str_eq prefix "" || str_eq prefix "/")) [
  | inl short ↦ rw short (join_short prefix path short)
  | inr other ↦ elim (Bool-cases (ends_with_slash prefix)) [
    | inl ended ↦ rw (other, ended) (join_ended prefix path ended h)
    | inr plain ↦
        rw (other, plain)
          (rw (without_slash_lem prefix plain) (ap (λ rest. prefix ++ rest) (join_slash path h)))
  ]
]

-- Where an upstream and a request lead to an address, the upstream's scheme is http or https, and it
-- has an authority and no user information, fragment or query, nor the mark of an empty one. The
-- address has that authority; its query is the request's; and its path is the upstream's, without a
-- slash at its end, followed by the request's, which starts with one: it stands between the two
-- exactly once.
pub compose_url_lem :
    (texts : Texts) (urls : Urls) (target incoming raw_query : String) (url : Url)
    → compose_url texts urls target incoming raw_query ≡ ok url
    → (url.host ≢ "")
      × (url.has_user ≡ false)
      × (url.fragment ≡ "")
      × (url.raw_query ≡ raw_query)
      × (url.force_query ≡ false)
      × (starts_with_slash (absolute incoming) ≡ true)
      × (destination : Url) × (urls.parse target ≡ some destination)
      × (texts.equal_fold destination.scheme "http" || texts.equal_fold destination.scheme "https"
          ≡ true)
      × (destination.raw_query ≡ "")
      × (destination.force_query ≡ false)
      × (url.host ≡ destination.host)
      × (url.raw_path
          ≡ without_slash (
              urls.escaped_path (record destination { scheme = texts.to_lower destination.scheme }))
            ++ absolute incoming)
unfolding compose_url
compose_url_lem texts urls target incoming raw_query url h =
    elim (Option-cases (urls.parse target)) [
      | inl unread ↦ cc (rw (unread, compose_url) at h)
      | inr (d, found) ↦
          let lower : Url = record d { scheme = texts.to_lower d.scheme } in
          let joined = join_escaped_path_lem (urls.escaped_path lower) (absolute incoming) in
          ground (
            arith,
            joined,
            eq_iff d.host "",
            eq_iff d.fragment "",
            eq_iff d.raw_query "",
            rw (found, compose_url) at h,
          )
    ]
