-- ===== src/Command/Reader.antt =====
-- A reader of addresses of a broker, of the shape that cmd/main.go builds: the syntax of RFC 3986,
-- without its escapes, so that an address with a character that any URI reader would take for a
-- delimiter or an escape is refused.
use Prim.Native.Char.{code}
use Prim.Native.String.{[], ◌∷◌}
use text.Mathlib.TextLemmas.{nil-append, cons-append, append_assoc}
use insights_remote.Base.{
  ℕ, nat_eq, Bool, Bool-cases, inl, inr, ◌⊎◌, ◌&&◌, ◌||◌, leb, true, false, String, Option, none,
  some, List, [], ◌∷◌, ◌≡◌, refl, ◌∙◌, ap, sym, arith, ◌==◌, ◌◂◌, if◌then◌else◌,
}
use insights_remote.Base.Text.Fields.{cut, split}
use insights_remote.Base.Text.Fields.Laws.{Lacks, cut-Lacks, cut_separated, Lacks-append}
use insights_remote.Command.Config.{Broker}

-- An address of a broker, taken apart.
pub record Read : Type 0 where
  pub scheme : String
  pub user : String
  pub pass : String
  pub host : String
  pub options : List String

-- The characters that stand for themselves in every part of a URI (RFC 3986): letters, digits and
-- `-._~`, which are never reserved, and `!$&'()*+,;=`, which separate only within a part.
unfoldable pub is_plain_char : ℕ → Bool
is_plain_char c =
    nat_eq c 33
    || nat_eq c 36
    || leb 38 c && leb c 46
    || leb 48 c && leb c 57
    || nat_eq c 59
    || nat_eq c 61
    || leb 65 c && leb c 90
    || nat_eq c 95
    || leb 97 c && leb c 122
    || nat_eq c 126

-- A host may have a colon before its port.
abbrev pub is_host_char : ℕ → Bool
is_host_char c = is_plain_char c || nat_eq c 58

-- The options may have `:`, `@`, `/` and `?` too.
abbrev pub is_query_char : ℕ → Bool
is_query_char c = is_plain_char c || nat_eq c 58 || nat_eq c 64 || nat_eq c 47 || nat_eq c 63

unfoldable pub all_chars : (ℕ → Bool) → String → Bool
all_chars f [] = true
all_chars f (c ∷ s) = f (code c) && all_chars f s

-- The address, if none of its parts has a character that a URI would read in another way.
abbrev pub checked : String → String → String → String → String → List String → Option Read
checked scheme user pass host query options =
    if all_chars is_plain_char user
      && all_chars is_plain_char pass
      && all_chars is_host_char host
      && all_chars is_query_char query
    then some (record { scheme = scheme; user = user; pass = pass; host = host; options = options })
    else none

-- Behind the scheme: the credentials up to an at sign, the user up to a colon in them, and options
-- from a question mark on, with ampersands between them.
abbrev pub authority : String → String → String → Option Read
authority scheme credentials rest = elim (cut 58 credentials) [
  | none ↦ none
  | some (user, pass) ↦ elim (cut 63 rest) [
    | none ↦ checked scheme user pass rest "" []
    | some (host, query) ↦ checked scheme user pass host query (split 38 query)
  ]
]

abbrev behind_scheme : String → String → Option Read
behind_scheme scheme (a ∷ b ∷ s) =
    if a ∷ b ∷ [] == "//"
    then elim (cut 64 s) [
      | none ↦ none
      | some (credentials, rest) ↦ authority scheme credentials rest
    ]
    else none
behind_scheme scheme s = none

unfoldable pub read_dsn : String → Option Read
read_dsn s = elim (cut 58 s) [ none ↦ none | some (scheme, rest) ↦ behind_scheme scheme rest ]

-- The parts that stand in a URI as they are; the files have no ampersand.
pub record IsPlain (b : Broker) : Type 0 where
  pub user : all_chars is_plain_char b.user ≡ true
  pub pass : all_chars is_plain_char b.pass ≡ true
  pub host : all_chars is_host_char b.host ≡ true
  pub ca_cert : all_chars is_query_char b.ca_cert ≡ true
  pub client_cert : all_chars is_query_char b.client_cert ≡ true
  pub client_key : all_chars is_query_char b.client_key ≡ true
  pub ca_cert_ampersand : Lacks 38 b.ca_cert
  pub client_cert_ampersand : Lacks 38 b.client_cert
  pub client_key_ampersand : Lacks 38 b.client_key

pub all_chars-Lacks :
    (f : ℕ → Bool) (sep : ℕ) (s : String) → f sep ≡ false → all_chars f s ≡ true → Lacks sep s
unfolding all_chars
all_chars-Lacks f sep [] reserved h = tt
all_chars-Lacks f sep (c ∷ s) reserved h = (
  differs (Bool-cases (nat_eq (code c) sep)),
  all_chars-Lacks f sep s reserved (ground (arith, h)),
)
  where
    differs :
        (nat_eq (code c) sep ≡ true) ⊎ (nat_eq (code c) sep ≡ false) → nat_eq (code c) sep ≡ false
    differs (inr other) = other
    differs (inl same) =
        let is_sep : code c ≡ sep = ground (arith, same) in
        absurd (ground (arith, ap f is_sep, reserved, h))

pub all_chars-append :
    (f : ℕ → Bool) (a b : String)
    → all_chars f a ≡ true
    → all_chars f b ≡ true
    → all_chars f (a ◂ b) ≡ true
unfolding all_chars
all_chars-append f [] b h k = rw (nil-append b) k
all_chars-append f (c ∷ a) b h k =
    rw (cons-append c a b) (ground (arith, h, all_chars-append f a b (ground (arith, h)) k))

module _ (b : Broker) (plain : IsPlain b) where
  pub user_colon : Lacks 58 b.user
  unfolding is_plain_char
  user_colon = all_chars-Lacks is_plain_char 58 b.user refl plain.user

  pub user_at : Lacks 64 b.user
  unfolding is_plain_char
  user_at = all_chars-Lacks is_plain_char 64 b.user refl plain.user

  pub pass_at : Lacks 64 b.pass
  unfolding is_plain_char
  pass_at = all_chars-Lacks is_plain_char 64 b.pass refl plain.pass

  pub host_question : Lacks 63 b.host
  unfolding is_plain_char
  host_question = all_chars-Lacks is_host_char 63 b.host refl plain.host

slashes : (s : String) → "//" ◂ s ≡ "/" ∷ "/" ∷ s
slashes s =
    cons-append "/" "/" s
    ∙ ap (λ z. "/" ∷ z) (cons-append "/" "" s ∙ ap (λ z. "/" ∷ z) (nil-append s))

read_at_colon :
    (s scheme rest : String)
    → cut 58 s ≡ some (scheme, rest)
    → read_dsn s ≡ behind_scheme scheme rest
unfolding read_dsn
read_at_colon s scheme rest h = ground (arith, h)

read_at_sign :
    (scheme s credentials rest : String)
    → cut 64 s ≡ some (credentials, rest)
    → behind_scheme scheme ("/" ∷ "/" ∷ s) ≡ authority scheme credentials rest
read_at_sign scheme s credentials rest h = ground (arith, h)

pub read_authority :
    (scheme : String) (b : Broker) (rest : String)
    → IsPlain b
    → Lacks 58 scheme
    → read_dsn (scheme ◂ ":" ◂ "//" ◂ b.user ◂ ":" ◂ b.pass ◂ "@" ◂ rest)
      ≡ authority scheme (b.user ◂ ":" ◂ b.pass) rest
read_authority scheme b rest plain h =
    read_at_colon _ scheme _
      (cut_separated 58 scheme ("//" ◂ b.user ◂ ":" ◂ b.pass ◂ "@" ◂ rest) ":" h refl)
    ∙ (rw (slashes (b.user ◂ ":" ◂ b.pass ◂ "@" ◂ rest)) (
        read_at_sign scheme _ (b.user ◂ ":" ◂ b.pass) rest (
          ap (cut 64) (regroup b.user b.pass rest)
          ∙ cut_separated 64 (b.user ◂ ":" ◂ b.pass) rest "@"
              (Lacks-append 64 b.user (":" ◂ b.pass) (user_at b plain)
                (Lacks-append 64 ":" b.pass (refl, tt) (pass_at b plain)))
              refl)))
  where
    regroup : (u p r : String) → u ◂ ":" ◂ p ◂ "@" ◂ r ≡ (u ◂ ":" ◂ p) ◂ "@" ◂ r
    regroup u p r =
        sym (append_assoc u (":" ◂ p) ("@" ◂ r) ∙ ap (λ z. u ◂ z) (append_assoc ":" p ("@" ◂ r)))

pub authority_plain :
    (scheme : String) (b : Broker)
    → IsPlain b
    → authority scheme (b.user ◂ ":" ◂ b.pass) b.host
      ≡ some (record { scheme = scheme; user = b.user; pass = b.pass; host = b.host; options = [] })
unfolding all_chars
authority_plain scheme b plain = ground (
  arith,
  cut_separated 58 b.user b.pass ":" (user_colon b plain) refl,
  cut-Lacks 63 b.host (host_question b plain),
  plain.user,
  plain.pass,
  plain.host,
)

pub authority_options :
    (scheme : String) (b : Broker) (options : String)
    → IsPlain b
    → all_chars is_query_char options ≡ true
    → authority scheme (b.user ◂ ":" ◂ b.pass) (b.host ◂ "?" ◂ options)
      ≡ some (record {
        scheme = scheme;
        user = b.user;
        pass = b.pass;
        host = b.host;
        options = split 38 options;
      })
authority_options scheme b options plain query = ground (
  arith,
  cut_separated 58 b.user b.pass ":" (user_colon b plain) refl,
  cut_separated 63 b.host options "?" (host_question b plain) refl,
  plain.user,
  plain.pass,
  plain.host,
  query,
)
