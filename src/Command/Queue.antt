-- ===== src/Command/Queue.antt =====
-- cmd/main.go: the address of the broker and the configuration of its client.
use insights_remote.Base.{String, List, [], ◌∷◌, Bool, true, ◌==◌, ◌◂◌, if◌then◌else◌}
use insights_remote.Base.Int.{ℤ, ◌*ℤ◌, wrap64}
use insights_remote.Base.Maps.{Entries}
use insights_remote.Command.Config.{Broker}

abbrev pub option_of : String → String → String
option_of name value = if value == "" then "" else "&" ◂ name ◂ "=" ◂ value

unfoldable pub broker_dsn : Broker → String
broker_dsn b =
    if b.tls
    then "amqps://"
      ◂ b.user
      ◂ ":"
      ◂ b.pass
      ◂ "@"
      ◂ b.host
      ◂ "?verify="
      ◂ (if b.verify then "verify_peer" else "verify_none")
      ◂ option_of "cacertfile" b.ca_cert
      ◂ option_of "certfile" b.client_cert
      ◂ option_of "keyfile" b.client_key
    else "amqp://" ◂ b.user ◂ ":" ◂ b.pass ◂ "@" ◂ b.host

-- The values of `mq.Options`.
pub data OptionValue : Type 0 where
  flag : Bool → OptionValue
  text : String → OptionValue

pub record Exchange : Type 0 where
  pub name : String
  pub kind : String
  pub options : Entries OptionValue

pub record Queue : Type 0 where
  pub name : String
  pub exchange : String
  pub options : Entries OptionValue

pub record Producer : Type 0 where
  pub name : String
  pub exchange : String
  pub sync : Bool
  pub options : Entries OptionValue

-- mq.Config, with the delay in nanoseconds
pub record MqConfig : Type 0 where
  pub reconnect_delay : ℤ
  pub exchanges : List Exchange
  pub queues : List Queue
  pub producers : List Producer
  pub dsn : String

abbrev durable : Entries OptionValue
durable =
    ("durable", flag true)
    ∷ ("delivery_mode", text "2")
    ∷ ("headers", text "")
    ∷ ("content_type", text "")
    ∷ []

abbrev sending : Entries OptionValue
sending = ("delivery_mode", text "2") ∷ ("headers", text "") ∷ ("content_type", text "") ∷ []

unfoldable pub mq_config : Broker → MqConfig
unfolding broker_dsn
mq_config b = record {
  reconnect_delay = wrap64 (1_000_000_000 *ℤ b.reconnect_retry_interval);
  exchanges = record { name = "lagoon-insights"; kind = "direct"; options = durable } ∷ [];
  queues =
      record { name = "lagoon-insights:items"; exchange = "lagoon-insights"; options = durable }
      ∷ [];
  producers =
      record {
        name = "lagoon-insights";
        exchange = "lagoon-insights";
        sync = true;
        options = sending;
      }
      ∷ [];
  dsn = broker_dsn b;
}
