-- ===== src/Command/Address.antt =====
-- The address of the broker that cmd/main.go builds, against a reader of such addresses.
use Prim.Native.String.{[], ◌∷◌}
use mathlib.Core.List
use text.Mathlib.TextLemmas.{nil-append, cons-append, append-nil, append_assoc}
use insights_remote.Base.{
  String, some, List, [], ◌∷◌, ◌++◌, ◌≡◌, refl, ◌∙◌, ap, sym, Bool, true, false, inl, inr, arith,
  ◌==◌, ◌◂◌, if◌then◌else◌, Bool-cases,
}
use insights_remote.Base.Text.Fields.{split}
use insights_remote.Base.Text.Fields.Laws.{Lacks, split-append, split-Lacks, Lacks-append}
use insights_remote.Command.Config.{Broker}
use insights_remote.Command.Reader.{
  Read, read_dsn, IsPlain, all_chars, all_chars-append, is_query_char, is_plain_char,
  read_authority, authority_plain, authority_options,
}
use insights_remote.Command.Queue.{broker_dsn, option_of}

-- The options behind the question mark, as they are read.
abbrev given_option : String → String → List String
given_option name value = if value == "" then [] else (name ◂ "=" ◂ value) ∷ []

abbrev file_options : Broker → List String
file_options b =
    given_option "cacertfile" b.ca_cert
    ++ (given_option "certfile" b.client_cert ++ given_option "keyfile" b.client_key)

abbrev pub options_of : Broker → List String
options_of b = ("verify=" ◂ (if b.verify then "verify_peer" else "verify_none")) ∷ file_options b

-- What an address of the broker says.
abbrev pub parts_of : Broker → Read
parts_of b = record {
  scheme = if b.tls then "amqps" else "amqp";
  user = b.user;
  pass = b.pass;
  host = b.host;
  options = if b.tls then options_of b else [];
}

split_separated : (a b : String) → Lacks 38 a → split 38 (a ◂ "&" ◂ b) ≡ a ∷ split 38 b
split_separated a b h = rw (cons-append "&" [] b, nil-append b) (split-append 38 a b "&" h refl)

-- An option in front of the others, or none if its value is empty.
split_option :
    (first name value : String) (others : List String) (rest : String)
    → Lacks 38 first
    → Lacks 38 value
    → Lacks 38 name
    → ((s : String) → Lacks 38 s → split 38 (s ◂ rest) ≡ s ∷ others)
    → split 38 (first ◂ option_of name value ◂ rest) ≡ first ∷ given_option name value ++ others
split_option first name value others rest f v n later = elim (Bool-cases (value == "")) [
  | inl empty ↦ rw empty (rw (nil-append rest) (later first f))
  | inr given ↦ rw given (
      ap (λ z. split 38 (first ◂ z)) (append_assoc "&" (name ◂ "=" ◂ value) rest)
      ∙ split_separated first ((name ◂ "=" ◂ value) ◂ rest) f
      ∙ ap (λ z. first ∷ z)
          (later (name ◂ "=" ◂ value)
            (Lacks-append 38 name ("=" ◂ value) n (Lacks-append 38 "=" value (refl, tt) v))))
]

split_options :
    (b : Broker) (first : String)
    → IsPlain b
    → Lacks 38 first
    → split 38 (
        first
        ◂ option_of "cacertfile" b.ca_cert
        ◂ option_of "certfile" b.client_cert
        ◂ option_of "keyfile" b.client_key
        ◂ "")
      ≡ first ∷ file_options b
split_options b first plain f =
    split_option first "cacertfile" b.ca_cert _ _ f plain.ca_cert_ampersand (ground arith) λ s h.
      split_option s "certfile" b.client_cert _ _ h plain.client_cert_ampersand (ground arith)
        λ s h.
          split_option s "keyfile" b.client_key [] "" h plain.client_key_ampersand (ground arith)
            (λ s h. rw (append-nil s) (split-Lacks 38 s h))
          ∙ ap (λ z. s ∷ z) (List.append-nil (given_option "keyfile" b.client_key))

abbrev verified : Broker → String
verified b = "verify=" ◂ (if b.verify then "verify_peer" else "verify_none")

verified-Lacks : (b : Broker) → Lacks 38 (verified b)
verified-Lacks b = Lacks-append 38 "verify=" _ (ground arith) (word b.verify)
  where
    word : (v : Bool) → Lacks 38 (if v then "verify_peer" else "verify_none")
    word true = ground arith
    word false = ground arith

-- The options in the address, behind the first.
abbrev files : Broker → String
files b =
    option_of "cacertfile" b.ca_cert
    ◂ option_of "certfile" b.client_cert
    ◂ option_of "keyfile" b.client_key
    ◂ ""

-- The options stand in a URI as they are.
option-query :
    (name value : String)
    → all_chars is_query_char name ≡ true
    → all_chars is_query_char value ≡ true
    → all_chars is_query_char (option_of name value) ≡ true
unfolding all_chars is_plain_char
option-query name value n v = elim (Bool-cases (value == "")) [
  | inl empty ↦ rw empty refl
  | inr given ↦ rw given (
      all_chars-append is_query_char "&" (name ◂ "=" ◂ value) refl (
        all_chars-append is_query_char name ("=" ◂ value) n
          (all_chars-append is_query_char "=" value refl v)))
]

options-query : (b : Broker) → IsPlain b → all_chars is_query_char (verified b ◂ files b) ≡ true
unfolding all_chars is_plain_char
options-query b plain =
    all_chars-append is_query_char (verified b) (files b)
      (all_chars-append is_query_char "verify=" (if b.verify then "verify_peer" else "verify_none")
        refl (word b.verify))
      (all_chars-append is_query_char (option_of "cacertfile" b.ca_cert) _
        (option-query "cacertfile" b.ca_cert refl plain.ca_cert)
        (all_chars-append is_query_char (option_of "certfile" b.client_cert) _
          (option-query "certfile" b.client_cert refl plain.client_cert)
          (all_chars-append is_query_char (option_of "keyfile" b.client_key) ""
            (option-query "keyfile" b.client_key refl plain.client_key) refl)))
  where
    word : (v : Bool) → all_chars is_query_char (if v then "verify_peer" else "verify_none") ≡ true
    word true = refl
    word false = refl

schemed : (scheme s : String) → (scheme ◂ "://") ◂ s ≡ scheme ◂ ":" ◂ "//" ◂ s
schemed scheme s = append_assoc scheme "://" s ∙ ap (λ z. scheme ◂ z) (append_assoc ":" "//" s)

ended :
    (b : Broker)
    → option_of "cacertfile" b.ca_cert
        ◂ option_of "certfile" b.client_cert
        ◂ option_of "keyfile" b.client_key
      ≡ files b
ended b =
    ap (λ z. option_of "cacertfile" b.ca_cert ◂ option_of "certfile" b.client_cert ◂ z)
      (sym (append-nil (option_of "keyfile" b.client_key)))

-- The address with TLS, by its parts.
secure_dsn :
    (b : Broker)
    → b.tls ≡ true
    → broker_dsn b
      ≡ "amqps" ◂ ":" ◂ "//" ◂ b.user ◂ ":" ◂ b.pass ◂ "@" ◂ b.host ◂ "?" ◂ verified b ◂ files b
unfolding broker_dsn
secure_dsn b secure = rw secure (
    schemed "amqps" _
    ∙ ap (λ z. "amqps" ◂ ":" ◂ "//" ◂ b.user ◂ ":" ◂ b.pass ◂ "@" ◂ b.host ◂ z)
        (append_assoc "?" "verify=" _
          ∙ ap (λ z. "?" ◂ z)
              (ap (λ z. "verify=" ◂ (if b.verify then "verify_peer" else "verify_none") ◂ z)
                  (ended b)
                ∙ sym (append_assoc "verify=" _ (files b)))))

-- The address without TLS, by its parts.
plain_dsn :
    (b : Broker)
    → b.tls ≡ false
    → broker_dsn b ≡ "amqp" ◂ ":" ◂ "//" ◂ b.user ◂ ":" ◂ b.pass ◂ "@" ◂ b.host
unfolding broker_dsn
plain_dsn b insecure = rw insecure (schemed "amqp" _)

-- Where the user and the password, the host with its port and the files have only characters that a
-- URI takes as they are, and no file an ampersand, the address says what the settings of the broker
-- say: the scheme of TLS or the plain one, the user, the password and the host, and with TLS whether
-- the peer is verified and the files that are given, in their order. Without TLS no option is given.
pub read_dsn-broker_dsn : (b : Broker) → IsPlain b → read_dsn (broker_dsn b) ≡ some (parts_of b)
read_dsn-broker_dsn b plain = elim (Bool-cases b.tls) [
  | inl secure ↦
      ap read_dsn (secure_dsn b secure)
      ∙ read_authority "amqps" b (b.host ◂ "?" ◂ verified b ◂ files b) plain (ground arith)
      ∙ authority_options "amqps" b (verified b ◂ files b) plain (options-query b plain)
      ∙ rw (secure, split_options b (verified b) plain (verified-Lacks b)) refl
  | inr insecure ↦
      ap read_dsn (plain_dsn b insecure)
      ∙ read_authority "amqp" b b.host plain (ground arith)
      ∙ authority_plain "amqp" b plain
      ∙ rw insecure refl
]
